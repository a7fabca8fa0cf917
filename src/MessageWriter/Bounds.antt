-- ===== src/MessageWriter/Bounds.antt =====
-- The size of what a mailbox holds, and what the cut of a long message keeps.
use cirque.Base.{
  ℕ, zero, suc, ◌-◌, ◌≤◌, ◌<◌, Bool, Bytes, length, take, length-append, length-take, some, [], ◌∷◌,
  ◌++◌, ◌≡◌, refl, ap, inl, inr, arith, Option-cases,
}
use cirque.MessageWriter.{
  SerializedMessage, OnGoingMessage, validate, cut, zeros, rposition, is_utf8_char_boundary,
}

pub length-zeros : (n : ℕ) → length (zeros n) ≡ n
unfolding zeros
length-zeros zero = refl
length-zeros (suc n) = ap suc (length-zeros n)

rposition-lt : (p : ℕ → Bool) (xs : Bytes) (n : ℕ) → rposition p xs ≡ some n → n < length xs
unfolding rposition
rposition-lt p [] n h = cc
rposition-lt p (x ∷ xs) n h = elim (Option-cases (rposition p xs)) [
  | inl e ↦ ground arith
  | inr (m, e) ↦ ground (arith, rposition-lt p xs m)
]

-- The cut is at most at byte 510, and within the message.
pub cut_bounds : (m : OnGoingMessage) → (cut m ≤ 510) × (cut m ≤ length m)
unfolding cut
cut_bounds m =
    elim (Option-cases (rposition is_utf8_char_boundary (take 511 (m ++ zeros (512 - length m))))) [
      | inl e ↦ ground arith
      | inr (n, e) ↦ ground (
        arith,
        rposition-lt is_utf8_char_boundary (take 511 (m ++ zeros (512 - length m))) n e,
        length-take 511 (m ++ zeros (512 - length m)),
        length-append m (zeros (512 - length m)),
        length-zeros (512 - length m),
      )
    ]

-- A sent message is at most 512 bytes long.
length-validate-le : (m : OnGoingMessage) → length (validate m) ≤ 512
unfolding validate
length-validate-le m = omega (
  arith,
  length-append (take (cut m) m) (b'\r' ∷ b'\n' ∷ []),
  length-take (cut m) m,
  cut_bounds m,
)

-- A sent message is one line: at most 510 bytes, and CR LF.
pub record IsLine (m : SerializedMessage) : Type 0 where
  pub content : Bytes
  pub ended : m.bytes ≡ content ++ (b'\r' ∷ b'\n' ∷ [])
  pub short : length content ≤ 510

pub validate-IsLine :
    (m : OnGoingMessage) (important : Bool)
    → IsLine (record { bytes = validate m; is_important = important })
unfolding validate
validate-IsLine m important = record {
  content = take (cut m) m;
  ended = refl;
  short = omega (arith, length-take (cut m) m, cut_bounds m);
}
