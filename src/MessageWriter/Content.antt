-- ===== src/MessageWriter/Content.antt =====
-- What of a message reaches the wire.
use mathlib.Core.List.{append-nil, append_assoc}
use cirque.Base.{
  ℕ, zero, suc, ◌-◌, ◌≤◌, ◌<◌, ◌≢◌, Bool, true, Bytes, length, take, length-append, length-take,
  take-all, get_elem?, none, some, List, [], ◌∷◌, ◌++◌, ◌≡◌, refl, ap, inl, inr, arith,
  Option-cases,
}
use cirque.MessageWriter.{
  Mailbox, OnGoingMessage, write, write_chunks, validate, cut, zeros, rposition, push_message,
  is_utf8_char_boundary,
}
use cirque.MessageWriter.Bounds.{length-zeros, cut_bounds}

-- The chunks of a message one behind the other.
unfoldable pub concat : List Bytes → Bytes
concat [] = []
concat (chunk ∷ chunks) = chunk ++ concat chunks

take-take : (n : ℕ) (xs ys : Bytes) → take n (take n xs ++ ys) ≡ take n (xs ++ ys)
take-take zero xs ys = refl
take-take (suc n) [] ys = refl
take-take (suc n) (x ∷ xs) ys = ap (λ l. x ∷ l) (take-take n xs ys)

-- A full buffer takes no more, and what was written before is kept: the writes put down the first
-- 512 bytes of all the chunks.
write_chunks-take :
    (m : OnGoingMessage) (chunks : List Bytes)
    → length m ≤ 512
    → write_chunks m chunks ≡ take 512 (m ++ concat chunks)
unfolding write_chunks write concat
write_chunks-take m [] h = ground (arith, append-nil m, take-all 512 m)
write_chunks-take m (chunk ∷ chunks) h = ground (
  arith,
  write_chunks-take (take 512 (m ++ chunk)) chunks,
  length-take 512 (m ++ chunk),
  take-take 512 (m ++ chunk) (concat chunks),
  append_assoc m chunk (concat chunks),
)

-- The last place that passes the test, if it is the last place of all.
rposition-last :
    (p : ℕ → Bool) (xs : Bytes) (n c : ℕ)
    → length xs ≡ suc n
    → get_elem? xs n ≡ some c
    → p c ≡ true
    → rposition p xs ≡ some n
unfolding rposition
rposition-last p [] n c h g t = cc
rposition-last p (x ∷ []) zero c h g t = ground arith
rposition-last p (x ∷ []) (suc n) c h g t = ground arith
rposition-last p (x ∷ y ∷ xs) zero c h g t = ground arith
rposition-last p (x ∷ y ∷ xs) (suc n) c h g t = ground (arith, rposition-last p (y ∷ xs) n c)

get_elem?-take : (n k : ℕ) (xs : Bytes) → k < n → get_elem? (take n xs) k ≡ get_elem? xs k
get_elem?-take zero k xs h = absurd (omega arith)
get_elem?-take (suc n) k [] h = refl
get_elem?-take (suc n) zero (x ∷ xs) h = refl
get_elem?-take (suc n) (suc k) (x ∷ xs) h = get_elem?-take n k xs (omega arith)

get_elem?-zeros : (n k : ℕ) → k < n → get_elem? (zeros n) k ≡ some 0
unfolding zeros
get_elem?-zeros zero k h = absurd (omega arith)
get_elem?-zeros (suc n) zero h = refl
get_elem?-zeros (suc n) (suc k) h = get_elem?-zeros n k (omega arith)

get_elem?-behind :
    (xs ys : Bytes) (k : ℕ) → length xs ≤ k → get_elem? (xs ++ ys) k ≡ get_elem? ys (k - length xs)
get_elem?-behind [] ys k h = ground arith
get_elem?-behind (x ∷ xs) ys zero h = absurd (omega arith)
get_elem?-behind (x ∷ xs) ys (suc k) h = ground (arith, get_elem?-behind xs ys k)

get_elem?-before : (xs ys : Bytes) (k : ℕ) → k < length xs → get_elem? (xs ++ ys) k ≡ get_elem? xs k
get_elem?-before [] ys k h = absurd (omega arith)
get_elem?-before (x ∷ xs) ys zero h = refl
get_elem?-before (x ∷ xs) ys (suc k) h = get_elem?-before xs ys k (omega arith)

cut-short : (m : OnGoingMessage) → length m ≤ 510 → cut m ≡ length m
unfolding cut
cut-short m h = ground (
  arith,
  rposition-last is_utf8_char_boundary (take 511 (m ++ zeros (512 - length m))) 510 0,
  length-take 511 (m ++ zeros (512 - length m)),
  length-append m (zeros (512 - length m)),
  length-zeros (512 - length m),
  get_elem?-take 511 510 (m ++ zeros (512 - length m)),
  get_elem?-behind m (zeros (512 - length m)) 510,
  get_elem?-zeros (512 - length m) (510 - length m),
)

rposition-holds :
    (p : ℕ → Bool) (xs : Bytes) (n : ℕ)
    → rposition p xs ≡ some n
    → (c : ℕ) × (get_elem? xs n ≡ some c) × (p c ≡ true)
unfolding rposition
rposition-holds p [] n h = cc
rposition-holds p (x ∷ xs) zero h = elim (Option-cases (rposition p xs)) [
  | inl e ↦ (x, refl, ground arith)
  | inr (k, e) ↦ absurd (ground arith)
]
rposition-holds p (x ∷ xs) (suc n) h = elim (Option-cases (rposition p xs)) [
  | inl e ↦ absurd (ground arith)
  | inr (k, e) ↦ rposition-holds p xs n (ground arith)
]

-- A message that is cut is cut before a byte that begins a character, or is cut down to nothing: no
-- character is cut in two.
pub cut-boundary :
    (m : OnGoingMessage)
    → cut m < length m
    → cut m ≢ 0
    → (c : ℕ) × (get_elem? m (cut m) ≡ some c) × (is_utf8_char_boundary c ≡ true)
unfolding cut
cut-boundary m h ne =
    elim (Option-cases (rposition is_utf8_char_boundary (take 511 (m ++ zeros (512 - length m))))) [
      | inl e ↦ absurd (ground arith)
      | inr (n, e) ↦
          let at =
            rposition-holds is_utf8_char_boundary (take 511 (m ++ zeros (512 - length m))) n e in
          (
            at.0,
            ground (
              arith,
              at.1,
              cut_bounds m,
              get_elem?-take 511 n (m ++ zeros (512 - length m)),
              get_elem?-before m (zeros (512 - length m)) n,
            ),
            at.2,
          )
    ]

-- A message of at most 510 bytes goes to the back of a mailbox that is not full as it is, with CR and
-- LF behind it, however it was cut into chunks; a full mailbox takes nothing.
pub push_message-short :
    (is_important : Bool) (chunks : List Bytes) (mailbox : Mailbox)
    → length (concat chunks) ≤ 510
    → (mailbox.capacity ≤ length mailbox.queue → push_message is_important chunks mailbox ≡ none)
      × (length mailbox.queue < mailbox.capacity
          → push_message is_important chunks mailbox
            ≡ some (record mailbox {
              queue =
                  mailbox.queue
                  ++ (record {
                    bytes = concat chunks ++ (b'\r' ∷ b'\n' ∷ []);
                    is_important = is_important;
                  }
                      ∷ []);
            }))
unfolding push_message validate
push_message-short is_important chunks mailbox h = ground (
  arith,
  write_chunks-take [] chunks,
  take-all 512 (concat chunks),
  cut-short (concat chunks),
  take-all (length (concat chunks)) (concat chunks),
)
