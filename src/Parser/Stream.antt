-- ===== src/Parser/Stream.antt =====
-- cirque-parser/src/stream.rs. The ring buffer is the list of the bytes that it holds, with its
-- capacity.
use cirque.Base.{
  ℕ, zero, suc, ◌-◌, min, Bool, not, ◌||◌, ◌&&◌, ◌==◌, if◌then◌else◌, Bytes, length, take, drop,
  any, Option, none, some, List, [], ◌∷◌, ◌++◌,
}
use cirque.Parser.Message.{Message, parse_message}

pub record StreamParser : Type 0 where
  pub buffer : Bytes
  pub capacity : ℕ

-- `StreamParser::default()`
abbrev pub default : StreamParser
default = record { buffer = []; capacity = 4096 }

-- `BufMut`: the bytes that a read adds are at most `remaining_mut`.
unfoldable pub remaining_mut : StreamParser → ℕ
remaining_mut self = self.capacity - length self.buffer

unfoldable pub read_into : StreamParser → Bytes → StreamParser
unfolding remaining_mut
read_into self chunk = record self { buffer = self.buffer ++ take (remaining_mut self) chunk }

-- `consume_iter` first clears a full buffer in which no line ends.
unfoldable pub consume_iter : StreamParser → StreamParser
consume_iter self =
    if length self.buffer == self.capacity && not (any (λ c. c == b'\n') self.buffer)
    then record self { buffer = [] }
    else self

abbrev pub is_end_of_message : ℕ → Bool
is_end_of_message c = c == b'\r' || c == b'\n'

-- the first loop of `consume_line`
unfoldable pub skip_ends : Bytes → Bytes
skip_ends [] = []
skip_ends (c ∷ buf) = if is_end_of_message c then skip_ends buf else c ∷ buf

-- `buf.iter().position(|&c| is_end_of_message(c))`
unfoldable pub position : Bytes → Option ℕ
position [] = none
position (c ∷ buf) =
    let later = position buf in
    if is_end_of_message c then some 0 else elim later [ none ↦ none | some n ↦ some (suc n) ]

abbrev pub max_line : ℕ
max_line = 512

-- The line, if a whole one is there, and the buffer afterwards.
unfoldable pub consume_line : Bytes → Option Bytes × Bytes
unfolding skip_ends position
consume_line buf =
    let buf' = skip_ends buf in
    elim (position buf') [
      | none ↦ (none, buf')
      | some line_length ↦ (some (take (min line_length max_line) buf'), drop line_length buf')
    ]

-- `MessageIterator::next`: `none` ends the iteration, `some none` is a line that does not parse.
unfoldable pub next : Bytes → Option (Option Message) × Bytes
unfolding consume_line parse_message
next buf =
    let (line, rest) = consume_line buf in
    elim line [ none ↦ (none, rest) | some l ↦ (some (parse_message l), rest) ]

-- The lines that one `consume_iter` yields, and what stays in the buffer.
unfoldable pub lines : ℕ → Bytes → List Bytes × Bytes
unfolding consume_line
lines zero buf = ([], buf)
lines (suc fuel) buf =
    let (line, rest) = consume_line buf in
    elim line [ none ↦ ([], rest) | some l ↦ let (ls, rest') = lines fuel rest in (l ∷ ls, rest') ]
