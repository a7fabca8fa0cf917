-- ===== src/Tests/Wire.antt =====
-- The theorems about the parser, the commands, the mailboxes and the delivery, at concrete inputs.
use cirque.Base.{true, Bytes, codes, some, [], ◌∷◌, ◌++◌, ◌≡◌, refl, arith, get_elem?, ℕ, zero, suc}
use cirque.Parser.Message.{parse_message}
use cirque.Parser.Stream.{lines}
use cirque.Parser.Laws.{all_lines, lines-enough}
use cirque.Parser.RoundTrip.{print_message, parse_message-print}
use cirque.MessageWriter.{OnGoingMessage, cut, is_utf8_char_boundary}
use cirque.MessageWriter.Content.{cut-boundary}

lines-enough_example : lines 9 (codes "PING a") ≡ all_lines (codes "PING a")
lines-enough_example = lines-enough 9 (codes "PING a") (omega arith)

parse_message-print_example :
    parse_message (print_message (codes "PRIVMSG") (codes "#a" ∷ []) (codes "hi all"))
    ≡ some (record { command = codes "PRIVMSG"; parameters = codes "#a" ∷ codes "hi all" ∷ [] })
parse_message-print_example =
    parse_message-print (codes "PRIVMSG") (codes "#a" ∷ []) (codes "hi all")
      (refl, (refl, (refl, (refl, (refl, (refl, (refl, tt))))))) ((refl, (refl, (refl, tt))), tt)

abbrev letters : ℕ → Bytes
letters zero = []
letters (suc n) = b'a' ∷ letters n

-- 509 letters, and a character of two bytes that does not fit any more.
abbrev long : OnGoingMessage
long = letters 509 ++ (0xc3 ∷ 0xa9 ∷ [])

cut-boundary_example :
    (c : ℕ) × (get_elem? long (cut long) ≡ some c) × (is_utf8_char_boundary c ≡ true)
unfolding cut
cut-boundary_example = cut-boundary long (omega arith) (ground arith)
