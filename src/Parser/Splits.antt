-- ===== src/Parser/Splits.antt =====
-- The lines do not depend on how the input was cut into reads.
use cirque.Base.{
  ℕ, zero, suc, ◌≤◌, Bytes, length, length-append, none, List, [], ◌∷◌, ◌++◌, ◌≡◌, refl, sym, ap,
  ◌∙◌, inl, inr, arith, Option-cases,
}
use cirque.Parser.Stream.{skip_ends, position, consume_line, lines}
use cirque.Parser.Laws.{
  consume_line-append-some, consume_line-append-none, skip_ends-length, consume_line-shorter,
  cons_line, lines-some, lines-none, consume_line-cases, lines-nil, lines-same, all_lines,
}

lines-congr :
    (n : ℕ) (a b : Bytes) → consume_line a ≡ consume_line b → lines (suc n) a ≡ lines (suc n) b
lines-congr n a b h = elim (consume_line-cases b) [
  | inl (rest, e) ↦ lines-none n a rest (h ∙ e) ∙ sym (lines-none n b rest e)
  | inr (line, rest, e) ↦ lines-some n a line rest (h ∙ e) ∙ sym (lines-some n b line rest e)
]

-- Lines go in front of what a later buffer gives.
abbrev append_lines : List Bytes → List Bytes × Bytes → List Bytes × Bytes
append_lines ls (ls', rest) = (ls ++ ls', rest)

lines-append_from :
    (fuel big : ℕ) (buf more : Bytes)
    → length buf ≤ fuel
    → length (buf ++ more) ≤ suc big
    → lines (suc big) (buf ++ more)
      ≡ append_lines (lines fuel buf).0 (lines (suc big) ((lines fuel buf).1 ++ more))
lines-append_from zero big [] more h k = rw (lines-nil zero) refl
lines-append_from zero big (c ∷ buf) more h k = absurd (omega arith)
lines-append_from (suc fuel) big buf more h k = elim (consume_line-cases buf) [
  | inl (rest, e) ↦
      rw (lines-none fuel buf rest e)
        (lines-congr big (buf ++ more) (rest ++ more) (consume_line-append-none buf more rest e))
  | inr (line, rest, e) ↦
      let shorter = consume_line-shorter buf line rest e in
      let small : length (rest ++ more) ≤ big =
        (omega (arith, length-append buf more, length-append rest more)) in
      rw (lines-some fuel buf line rest e) (
        lines-some big (buf ++ more) line (rest ++ more)
          (consume_line-append-some buf more line rest e)
        ∙ ap (cons_line line) (
            lines-same big (suc big) (rest ++ more) small (omega arith)
            ∙ lines-append_from fuel big rest more (omega arith) (omega arith)))
]

consume_line_rest-length :
    (buf rest : Bytes) → consume_line buf ≡ (none, rest) → length rest ≤ length buf
unfolding consume_line
consume_line_rest-length buf rest h = elim (Option-cases (position (skip_ends buf))) [
  | inl e ↦ ground (arith, skip_ends-length buf)
  | inr (n, e) ↦ absurd (ground arith)
]

pub lines_rest-length : (n : ℕ) (buf : Bytes) → length (lines n buf).1 ≤ length buf
unfolding lines
lines_rest-length zero buf = omega arith
lines_rest-length (suc n) buf = elim (consume_line-cases buf) [
  | inl (rest, e) ↦ rw (lines-none n buf rest e) (consume_line_rest-length buf rest e)
  | inr (line, rest, e) ↦
      rw (lines-some n buf line rest e)
        (omega (arith, consume_line-shorter buf line rest e, lines_rest-length n rest))
]

-- The lines do not depend on how the input was cut into reads: the lines of what was read twice are
-- those of the first read and then those of what it left with the second read behind it.
pub lines-append :
    (buf more : Bytes)
    → all_lines (buf ++ more) ≡ (
      (all_lines buf).0 ++ (all_lines ((all_lines buf).1 ++ more)).0,
      (all_lines ((all_lines buf).1 ++ more)).1,
    )
lines-append buf more =
    let all = length (buf ++ more) in
    let left = (all_lines buf).1 ++ more in
    lines-same all (suc all) (buf ++ more) (omega arith) (omega arith)
    ∙ lines-append_from (length buf) all buf more (omega arith) (omega arith)
    ∙ ap (append_lines (all_lines buf).0) (
        lines-same (suc all) (length left) left
          (omega (
            arith,
            lines_rest-length (length buf) buf,
            length-append (all_lines buf).1 more,
            length-append buf more,
          ))
          (omega arith))
