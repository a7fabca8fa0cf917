-- ===== src/Parser/RoundTrip.antt =====
-- A message that is written out as the protocol says is parsed back.
use cirque.Base.{
  ℕ, zero, suc, ◌≤◌, Bool, true, false, ◌==◌, Bytes, is_alphabetic, length, length-append, some,
  List, [], ◌∷◌, ◌++◌, ◌≡◌, refl, ap, ◌∙◌, arith, All,
}
use cirque.Parser.Message.{
  take_while, is_space, not_space, parse_command, next_parameter, parameter_loop, parse_parameters,
  parse_message, space_or_tab,
}

-- A parameter that is not the last one: not empty, without blanks, and without a colon in front.
abbrev pub IsMiddle : Bytes → Type 0
IsMiddle [] = ⊥
IsMiddle (c ∷ cs) = ((c == b':') ≡ false) × All (λ d. not_space d ≡ true) (c ∷ cs)

abbrev pub IsCommand : Bytes → Type 0
IsCommand [] = ⊥
IsCommand (c ∷ cs) = All (λ d. is_alphabetic d ≡ true) (c ∷ cs)

-- The parameters behind one blank, the last one behind a colon.
unfoldable pub print_parameters : List Bytes → Bytes → Bytes
print_parameters [] trailing = b':' ∷ trailing
print_parameters (p ∷ ps) trailing = p ++ (b' ' ∷ print_parameters ps trailing)

unfoldable pub print_message : Bytes → List Bytes → Bytes → Bytes
unfolding print_parameters
print_message command ps trailing = command ++ (b' ' ∷ print_parameters ps trailing)

take_while-append :
    (p : ℕ → Bool) (xs ys : Bytes) (y : ℕ)
    → All (λ c. p c ≡ true) xs
    → p y ≡ false
    → take_while p (xs ++ (y ∷ ys)) ≡ (xs, y ∷ ys)
unfolding take_while
take_while-append p [] ys y h n = ground arith
take_while-append p (x ∷ xs) ys y h n = ground (arith, take_while-append p xs ys y h.1 n)

take_while-none :
    (p : ℕ → Bool) (c : ℕ) (cs : Bytes) → p c ≡ false → take_while p (c ∷ cs) ≡ ([], c ∷ cs)
unfolding take_while
take_while-none p c cs h = ground arith

take_while-one :
    (p : ℕ → Bool) (b c : ℕ) (cs : Bytes)
    → p b ≡ true
    → p c ≡ false
    → take_while p (b ∷ c ∷ cs) ≡ (b ∷ [], c ∷ cs)
unfolding take_while
take_while-one p b c cs g h = ground arith

-- The first byte of the parameters is no blank.
print_parameters-head :
    (ps : List Bytes) (trailing : Bytes)
    → All IsMiddle ps
    → (c : ℕ) × (cs : Bytes) × (print_parameters ps trailing ≡ c ∷ cs) × (is_space c ≡ false)
unfolding print_parameters
print_parameters-head [] trailing h = (b':', trailing, refl, ground arith)
print_parameters-head ([] ∷ ps) trailing h = absurd h.0
print_parameters-head ((c ∷ cs) ∷ ps) trailing h =
    (c, cs ++ (b' ' ∷ print_parameters ps trailing), refl, ground (arith, h.0.1.0))

next-middle :
    (p : Bytes) (ps : List Bytes) (trailing : Bytes)
    → IsMiddle p
    → next_parameter (print_parameters (p ∷ ps) trailing) ≡ (p, b' ' ∷ print_parameters ps trailing)
unfolding next_parameter print_parameters
next-middle [] ps trailing h = absurd h
next-middle (c ∷ cs) ps trailing h = ground (
  arith,
  h.1.0,
  take_while-none is_space c (cs ++ (b' ' ∷ print_parameters ps trailing)),
  take_while-append not_space (c ∷ cs) (print_parameters ps trailing) b' ' h.1,
)

next-trailing : (trailing : Bytes) → next_parameter (b':' ∷ trailing) ≡ (trailing, [])
unfolding next_parameter
next-trailing trailing = ground (arith, take_while-none is_space b':' trailing)

next-blank :
    (ps : List Bytes) (trailing : Bytes)
    → All IsMiddle ps
    → next_parameter (b' ' ∷ print_parameters ps trailing)
      ≡ next_parameter (print_parameters ps trailing)
unfolding next_parameter
next-blank ps trailing h =
    let (c, cs, e, n) = print_parameters-head ps trailing h in
    rw e (ground (arith, take_while-one is_space b' ' c cs, take_while-none is_space c cs))

loop-step :
    (fuel : ℕ) (c : ℕ) (cs p rest : Bytes)
    → next_parameter (c ∷ cs) ≡ (p, rest)
    → parameter_loop (suc fuel) (c ∷ cs) ≡ p ∷ parameter_loop fuel rest
unfolding parameter_loop
loop-step fuel c cs p rest h = ground arith

parameter_loop-nil : (fuel : ℕ) → parameter_loop fuel [] ≡ []
unfolding parameter_loop
parameter_loop-nil fuel = refl

parameter_loop-print :
    (fuel : ℕ) (ps : List Bytes) (trailing : Bytes)
    → All IsMiddle ps
    → length (print_parameters ps trailing) ≤ fuel
    → parameter_loop fuel (b' ' ∷ print_parameters ps trailing) ≡ ps ++ (trailing ∷ [])
unfolding print_parameters
parameter_loop-print zero [] trailing h le = absurd (omega arith)
parameter_loop-print zero (p ∷ ps) trailing h le =
    absurd (omega (arith, length-append p (b' ' ∷ print_parameters ps trailing)))
parameter_loop-print (suc fuel) [] trailing h le =
    loop-step fuel b' ' (b':' ∷ trailing) trailing []
      (next-blank [] trailing tt ∙ next-trailing trailing)
    ∙ ap (λ l. trailing ∷ l) (parameter_loop-nil fuel)
parameter_loop-print (suc fuel) (p ∷ ps) trailing h le =
    loop-step fuel b' ' (print_parameters (p ∷ ps) trailing) p (b' ' ∷ print_parameters ps trailing)
      (next-blank (p ∷ ps) trailing h ∙ next-middle p ps trailing h.0)
    ∙ ap (λ l. p ∷ l)
        (parameter_loop-print fuel ps trailing h.1
          (omega (arith, length-append p (b' ' ∷ print_parameters ps trailing))))

-- The first blank makes no difference.
loop-blank :
    (c : ℕ) (cs : Bytes) (ps : List Bytes) (trailing : Bytes)
    → All IsMiddle ps
    → print_parameters ps trailing ≡ c ∷ cs
    → parameter_loop (length (print_parameters ps trailing)) (print_parameters ps trailing)
      ≡ parameter_loop (length (print_parameters ps trailing)) (b' ' ∷ print_parameters ps trailing)
unfolding parameter_loop
loop-blank c cs ps trailing h e = ground (arith, next-blank ps trailing h)

parse_parameters-print :
    (ps : List Bytes) (trailing : Bytes)
    → All IsMiddle ps
    → parse_parameters (print_parameters ps trailing) ≡ ps ++ (trailing ∷ [])
unfolding parse_parameters
parse_parameters-print ps trailing h =
    let (c, cs, e, n) = print_parameters-head ps trailing h in
    let looped =
      parameter_loop-print (length (print_parameters ps trailing)) ps trailing h (omega arith) in
    loop-blank c cs ps trailing h e ∙ looped

-- A command of letters, parameters that are not empty and have neither a blank nor a colon in front,
-- and any last parameter, written out, are parsed back as they were.
pub parse_message-print :
    (command : Bytes) (ps : List Bytes) (trailing : Bytes)
    → IsCommand command
    → All IsMiddle ps
    → parse_message (print_message command ps trailing)
      ≡ some (record { command = command; parameters = ps ++ (trailing ∷ []) })
unfolding parse_message parse_command print_message
parse_message-print [] ps trailing h k = absurd h
parse_message-print (c ∷ cs) ps trailing h k =
    let (d, ds, e, n) = print_parameters-head ps trailing k in
    ground (
      arith,
      h.0,
      e,
      n,
      take_while-none space_or_tab c (cs ++ (b' ' ∷ print_parameters ps trailing)),
      take_while-append is_alphabetic (c ∷ cs) (print_parameters ps trailing) b' ' h,
      take_while-one is_space b' ' d ds,
      parse_parameters-print ps trailing k,
    )
