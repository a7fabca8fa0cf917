-- ===== src/Parser/Shape.antt =====
-- The shape of the lines that are cut out of the stream.
use cirque.Base.{
  ℕ, zero, suc, ◌≤◌, ◌<◌, min, Bytes, length, length-take, take, some, [], ◌∷◌, ◌≡◌, inl, inr,
  arith, Option-cases, All,
}
use cirque.Parser.Stream.{skip_ends, position, consume_line, lines}
use cirque.Parser.Laws.{
  NoEnd, position-lt, skip_ends-head, lines-some, lines-none, consume_line-cases,
}

-- What is before the first end of a message has no end in it.
position-NoEnd : (buf : Bytes) (n k : ℕ) → position buf ≡ some n → k ≤ n → NoEnd (take k buf)
unfolding position
position-NoEnd [] n k h le = cc
position-NoEnd (c ∷ buf) n zero h le = tt
position-NoEnd (c ∷ buf) n (suc k) h le = elim (Option-cases (position buf)) [
  | inl e ↦ absurd (ground arith)
  | inr (m, e) ↦ (ground arith, position-NoEnd buf m k e (ground arith))
]

-- A line that may be handed to the message parser.
abbrev pub IsLine : Bytes → Type 0
IsLine line = NoEnd line × (0 < length line) × (length line ≤ 512)

consume_line-IsLine : (buf line rest : Bytes) → consume_line buf ≡ (some line, rest) → IsLine line
unfolding consume_line
consume_line-IsLine buf line rest h = elim (Option-cases (position (skip_ends buf))) [
  | inl e ↦ absurd (ground arith)
  | inr (n, e) ↦
      let same : line ≡ take (min n 512) (skip_ends buf) = (ground arith) in
      rw same (
        position-NoEnd (skip_ends buf) n (min n 512) e (omega arith),
        omega (
          arith,
          length-take (min n 512) (skip_ends buf),
          skip_ends-head buf n e,
          position-lt (skip_ends buf) n e,
        ),
        omega (arith, length-take (min n 512) (skip_ends buf)),
      )
]

-- Every line that is cut out of the stream has at least one byte and at most 512, and no CR or LF.
lines-IsLine : (fuel : ℕ) (buf : Bytes) → All IsLine (lines fuel buf).0
unfolding lines
lines-IsLine zero buf = tt
lines-IsLine (suc fuel) buf = elim (consume_line-cases buf) [
  | inl (rest, e) ↦ rw (lines-none fuel buf rest e) tt
  | inr (line, rest, e) ↦
      rw (lines-some fuel buf line rest e)
        (consume_line-IsLine buf line rest e, lines-IsLine fuel rest)
]
