-- ===== src/Parser/Laws.antt =====
-- The lines that the parser cuts out of the stream.
use cirque.Base.{
  ℕ, zero, suc, ◌-◌, ◌≤◌, ◌<◌, min, false, Bytes, length, take, drop, none, some, List, [], ◌∷◌,
  ◌++◌, ◌≡◌, refl, sym, ap, ◌∙◌, ◌⊎◌, inl, inr, arith, Option-cases, All,
}
use cirque.Parser.Stream.{skip_ends, position, consume_line, lines, is_end_of_message}

abbrev pub NoEnd : Bytes → Type 0
NoEnd = All (λ c. is_end_of_message c ≡ false)

skip_ends-append-long :
    (buf more : Bytes) (n : ℕ)
    → position (skip_ends buf) ≡ some n
    → skip_ends (buf ++ more) ≡ skip_ends buf ++ more
unfolding skip_ends position
skip_ends-append-long [] more n h = cc
skip_ends-append-long (c ∷ buf) more n h = ground (arith, skip_ends-append-long buf more n)

position-append :
    (buf more : Bytes) (n : ℕ) → position buf ≡ some n → position (buf ++ more) ≡ some n
unfolding position
position-append [] more n h = cc
position-append (c ∷ buf) more n h = elim (Option-cases (position buf)) [
  | inl e ↦ ground arith
  | inr (k, e) ↦ ground (arith, position-append buf more k)
]

pub position-lt : (buf : Bytes) (n : ℕ) → position buf ≡ some n → n < length buf
unfolding position
position-lt [] n h = cc
position-lt (c ∷ buf) n h = elim (Option-cases (position buf)) [
  | inl e ↦ ground arith
  | inr (k, e) ↦ ground (arith, position-lt buf k)
]

take-append : (n : ℕ) (xs ys : Bytes) → n ≤ length xs → take n (xs ++ ys) ≡ take n xs
take-append zero xs ys h = refl
take-append (suc n) [] ys h = absurd (omega arith)
take-append (suc n) (x ∷ xs) ys h = ground (arith, take-append n xs ys)

drop-append : (n : ℕ) (xs ys : Bytes) → n ≤ length xs → drop n (xs ++ ys) ≡ drop n xs ++ ys
drop-append zero xs ys h = refl
drop-append (suc n) [] ys h = absurd (omega arith)
drop-append (suc n) (x ∷ xs) ys h = drop-append n xs ys (omega arith)

length-drop : (n : ℕ) (xs : Bytes) → length (drop n xs) ≡ length xs - n
length-drop zero xs = omega arith
length-drop (suc n) [] = omega arith
length-drop (suc n) (x ∷ xs) = omega (arith, length-drop n xs)

-- A whole line is cut out in the same way when more has been read.
pub consume_line-append-some :
    (buf more line rest : Bytes)
    → consume_line buf ≡ (some line, rest)
    → consume_line (buf ++ more) ≡ (some line, rest ++ more)
unfolding consume_line
consume_line-append-some buf more line rest h = elim (Option-cases (position (skip_ends buf))) [
  | inl e ↦ absurd (ground arith)
  | inr (n, e) ↦ ground (
    arith,
    skip_ends-append-long buf more n,
    position-append (skip_ends buf) more n,
    position-lt (skip_ends buf) n,
    take-append (min n 512) (skip_ends buf) more,
    drop-append n (skip_ends buf) more,
  )
]

-- The end that was not whole is skipped over once only.
skip_ends-append : (buf more : Bytes) → skip_ends (skip_ends buf ++ more) ≡ skip_ends (buf ++ more)
unfolding skip_ends
skip_ends-append [] more = refl
skip_ends-append (c ∷ buf) more = ground (arith, skip_ends-append buf more)

pub consume_line-append-none :
    (buf more rest : Bytes)
    → consume_line buf ≡ (none, rest)
    → consume_line (buf ++ more) ≡ consume_line (rest ++ more)
unfolding consume_line
consume_line-append-none buf more rest h = elim (Option-cases (position (skip_ends buf))) [
  | inl e ↦ ground (arith, skip_ends-append buf more)
  | inr (n, e) ↦ absurd (ground arith)
]

pub skip_ends-length : (buf : Bytes) → length (skip_ends buf) ≤ length buf
unfolding skip_ends
skip_ends-length [] = omega arith
skip_ends-length (c ∷ buf) = ground (arith, skip_ends-length buf)

pub skip_ends-head : (buf : Bytes) (n : ℕ) → position (skip_ends buf) ≡ some n → 0 < n
unfolding skip_ends position
skip_ends-head [] n h = cc
skip_ends-head (c ∷ buf) n h = ground (arith, skip_ends-head buf n, Option-cases (position buf))

pub consume_line-shorter :
    (buf line rest : Bytes) → consume_line buf ≡ (some line, rest) → length rest < length buf
unfolding consume_line
consume_line-shorter buf line rest h = elim (Option-cases (position (skip_ends buf))) [
  | inl e ↦ absurd (ground arith)
  | inr (n, e) ↦ ground (
    arith,
    skip_ends-length buf,
    skip_ends-head buf n,
    position-lt (skip_ends buf) n,
    length-drop n (skip_ends buf),
  )
]

-- One line goes in front of the others.
abbrev pub cons_line : Bytes → List Bytes × Bytes → List Bytes × Bytes
cons_line line (ls, rest) = (line ∷ ls, rest)

pub lines-some :
    (fuel : ℕ) (buf line rest : Bytes)
    → consume_line buf ≡ (some line, rest)
    → lines (suc fuel) buf ≡ cons_line line (lines fuel rest)
unfolding lines
lines-some fuel buf line rest h = ground arith

pub lines-none :
    (fuel : ℕ) (buf rest : Bytes)
    → consume_line buf ≡ (none, rest)
    → lines (suc fuel) buf ≡ ([], rest)
unfolding lines
lines-none fuel buf rest h = ground arith

pub consume_line-cases :
    (buf : Bytes)
    → ((rest : Bytes) × (consume_line buf ≡ (none, rest)))
      ⊎ ((line : Bytes) × (rest : Bytes) × (consume_line buf ≡ (some line, rest)))
consume_line-cases buf = elim (Option-cases (consume_line buf).0) [
  | inl e ↦ inl ((consume_line buf).1, ground arith)
  | inr (line, e) ↦ inr (line, (consume_line buf).1, ground arith)
]

pub lines-nil : (fuel : ℕ) → lines fuel [] ≡ ([], [])
unfolding lines consume_line skip_ends position
lines-nil zero = refl
lines-nil (suc fuel) = refl

-- Two counts of rounds that are both enough cut out the same lines.
pub lines-same :
    (n m : ℕ) (buf : Bytes) → length buf ≤ n → length buf ≤ m → lines n buf ≡ lines m buf
lines-same n m [] h k = ground (arith, lines-nil n, lines-nil m)
lines-same zero m (c ∷ buf) h k = absurd (omega arith)
lines-same (suc n) zero (c ∷ buf) h k = absurd (omega arith)
lines-same (suc n) (suc m) (c ∷ buf) h k = elim (consume_line-cases (c ∷ buf)) [
  | inl (rest, e) ↦ lines-none n (c ∷ buf) rest e ∙ sym (lines-none m (c ∷ buf) rest e)
  | inr (line, rest, e) ↦
      let shorter = consume_line-shorter (c ∷ buf) line rest e in
      lines-some n (c ∷ buf) line rest e
      ∙ ap (cons_line line) (lines-same n m rest (omega arith) (omega arith))
      ∙ sym (lines-some m (c ∷ buf) line rest e)
]

-- The lines of a buffer, and what stays in it.
abbrev pub all_lines : Bytes → List Bytes × Bytes
all_lines buf = lines (length buf) buf

-- As many rounds as there are bytes are enough: more rounds cut out the same lines.
pub lines-enough : (fuel : ℕ) (buf : Bytes) → length buf ≤ fuel → lines fuel buf ≡ all_lines buf
lines-enough fuel buf h = lines-same fuel (length buf) buf h (omega arith)
