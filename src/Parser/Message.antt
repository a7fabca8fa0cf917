-- ===== src/Parser/Message.antt =====
-- cirque-parser/src/parser.rs and lib.rs. The nom combinators that the parser names are written out
-- here as functions on the bytes that are left.
use cirque.Base.{
  ℕ, zero, suc, Bool, true, not, ◌==◌, if◌then◌else◌, Bytes, is_alphabetic, is_digit, is_empty,
  length, Option, none, some, List, [], ◌∷◌, get_elem?,
}

pub record Message : Type 0 where
  pub command : Bytes
  pub parameters : List Bytes

unfoldable pub first_parameter : Message → Option Bytes
first_parameter self = get_elem? self.parameters 0

-- `take_while`: the longest prefix that passes the test, and the rest.
unfoldable pub take_while : (ℕ → Bool) → Bytes → Bytes × Bytes
take_while p [] = ([], [])
take_while p (c ∷ cs) =
    let (taken, rest) = take_while p cs in if p c then (c ∷ taken, rest) else ([], c ∷ cs)

abbrev pub is_space : ℕ → Bool
is_space c = c == b' '

abbrev pub not_space : ℕ → Bool
not_space c = not (c == b' ')

-- `take_while_m_n(3, 3, is_digit)`
abbrev three_digits : Bytes → Option (Bytes × Bytes)
three_digits (a ∷ b ∷ c ∷ rest) =
    if is_digit a
    then (if is_digit b then (if is_digit c then some (a ∷ b ∷ c ∷ [], rest) else none) else none)
    else none
three_digits _ = none

-- command ::= letter* / 3digit. The result is the command and what follows it.
unfoldable pub parse_command : Bytes → Option (Bytes × Bytes)
unfolding take_while
parse_command buf =
    let (letters, rest) = take_while is_alphabetic buf in
    if not (is_empty letters) then some (letters, rest) else three_digits buf

-- One round of the loop on a buffer that is not empty: the parameter and what is left.
unfoldable pub next_parameter : Bytes → Bytes × Bytes
unfolding take_while
next_parameter buf = elim (take_while is_space buf).1 [
  | [] ↦ take_while not_space []
  | c ∷ rest ↦ if c == b':' then (rest, []) else take_while not_space (c ∷ rest)
]

-- The loop of `parse_parameters`. Each round shortens the buffer, so `length buf` rounds do.
unfoldable pub parameter_loop : ℕ → Bytes → List Bytes
unfolding next_parameter
parameter_loop fuel [] = []
parameter_loop zero (c ∷ cs) = []
parameter_loop (suc fuel) (c ∷ cs) =
    let (param, rest) = next_parameter (c ∷ cs) in param ∷ parameter_loop fuel rest

unfoldable pub parse_parameters : Bytes → List Bytes
unfolding parameter_loop
parse_parameters buf = parameter_loop (length buf) buf

abbrev pub space_or_tab : ℕ → Bool
space_or_tab c = if c == b' ' then true else c == b'\t'

-- message ::= <command> <parameters>, behind any blanks; `none` is a parsing error.
unfoldable pub parse_message : Bytes → Option Message
unfolding take_while parse_command parse_parameters
parse_message buf = elim (parse_command (take_while space_or_tab buf).1) [
  | none ↦ none
  | some (command, rest) ↦
      some
        (record { command = command; parameters = parse_parameters (take_while is_space rest).1 })
]
