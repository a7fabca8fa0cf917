-- ===== src/Parser/Room.antt =====
-- What stays in the buffer after the lines were cut out: the beginning of a line, for which there is
-- room to go on.
use mathlib.Core.Path.{subst}
use cirque.Base.{
  ◌≢◌, ℕ, zero, suc, ◌≤◌, ◌<◌, ◌==◌, true, false, Bytes, length, any, none, [], ◌∷◌, ◌≡◌, refl, ◌⊎◌,
  inl, inr, arith,
}
use cirque.Parser.Stream.{StreamParser, skip_ends, position, consume_line, lines, consume_iter}
use cirque.Parser.Splits.{lines_rest-length}
use cirque.Parser.Laws.{all_lines, consume_line-cases, consume_line-shorter, lines-some, lines-none}

position-any : (buf : Bytes) → position buf ≡ none → any (λ c. c == b'\n') buf ≡ false
unfolding position
position-any [] h = refl
position-any (c ∷ buf) h = ground (arith, position-any buf)

skip_ends-same : (buf : Bytes) → (skip_ends buf ≡ buf) ⊎ (length (skip_ends buf) < length buf)
unfolding skip_ends
skip_ends-same [] = inl refl
skip_ends-same (c ∷ buf) = ground (arith, skip_ends-same buf)

-- A buffer without a whole line: what is left of it has no end of a line.
consume_line-none :
    (buf rest : Bytes)
    → consume_line buf ≡ (none, rest)
    → (position rest ≡ none) × ((rest ≡ buf) ⊎ (length rest < length buf))
unfolding consume_line
consume_line-none buf rest h = ground (arith, skip_ends-same buf)

lines-rest :
    (fuel : ℕ) (buf : Bytes)
    → length buf ≤ fuel
    → (position (lines fuel buf).1 ≡ none)
      × (((lines fuel buf).1 ≡ buf) ⊎ (length (lines fuel buf).1 < length buf))
unfolding lines position
lines-rest zero [] h = (refl, inl refl)
lines-rest zero (c ∷ buf) h = absurd (omega arith)
lines-rest (suc fuel) buf h = elim (consume_line-cases buf) [
  | inl (rest, e) ↦ rw (lines-none fuel buf rest e) (consume_line-none buf rest e)
  | inr (line, rest, e) ↦
      let shorter = consume_line-shorter buf line rest e in
      let (done, _) = lines-rest fuel rest (omega arith) in
      let le = lines_rest-length fuel rest in
      rw (lines-some fuel buf line rest e) (done, inr (omega arith))
]

contradiction : (buf : Bytes) → position buf ≡ none → any (λ c. c == b'\n') buf ≢ true
contradiction buf h g = cc (position-any buf h)

consume_iter-cases :
    (p : StreamParser)
    → length p.buffer ≤ p.capacity
    → (consume_iter p ≡ record p { buffer = [] })
      ⊎ ((consume_iter p ≡ p)
          × ((length p.buffer < p.capacity) ⊎ (any (λ c. c == b'\n') p.buffer ≡ true)))
unfolding consume_iter
consume_iter-cases p h = ground arith

-- After all lines are cut out of a buffer that was within its capacity, it is below it.
pub lines-room :
    (p : StreamParser)
    → 0 < p.capacity
    → length p.buffer ≤ p.capacity
    → length (all_lines (consume_iter p).buffer).1 < (consume_iter p).capacity
lines-room p positive h = elim (consume_iter-cases p h) [
  | inl reset ↦ let le = lines_rest-length 0 [] in rw reset (omega arith)
  | inr (same, why) ↦
      let (no_end, shrunk) = lines-rest (length p.buffer) p.buffer (omega arith) in
      let le = lines_rest-length (length p.buffer) p.buffer in
      rw same (elim why [
        | inl free ↦ omega arith
        | inr newline ↦ elim shrunk [
          | inl e ↦
              absurd (contradiction p.buffer (subst (λ b. position b ≡ none) e no_end) newline)
          | inr lt ↦ omega arith
        ]
      ])
]
