-- ===== src/ClientToServer/ListLaws.antt =====
-- What the options of an accepted LIST can be (cirque-core/src/client_to_server.rs).
use mathlib.Core.Path.{subst}
use cirque.ClientToServer.Handlers.{split_commas, keep_utf8}
use cirque.Base.{
  map, to_ascii_lowercase, is_empty, if◌then◌else◌, ◌>>=◌, ap, ◌∙◌, Result-cases, ℕ, zero, suc, ◌+◌,
  ◌≤◌, ◌-◌, false, ltb, Bytes, bytes_eq, codes, Option, none, some, List, [], ◌∷◌, All, drop,
  get_elem?, ok, ◌≡◌, refl, inl, inr, arith, Option-cases, Bool-cases,
}
use cirque.Parser.Message.{Message as Parsed, first_parameter}
use cirque.ClientToServer.{ListOption, Message, inf}
use cirque.ClientToServer.ListHandler.{
  handle_list, list_options, list_option, option_filter, option_operation, option_number,
  optional_list,
}

-- An option that takes neither an operation nor a number from the line.
abbrev pub IsBare : ListOption → Type 0
IsBare o = (o.operation ≡ inf) × (o.number ≡ 0)

-- No parameter that is an operation stands at the place or behind it.
abbrev NoOperation : List Bytes → ℕ → Type 0
NoOperation params i =
    (p : ℕ) (w : Bytes)
    → i ≤ p
    → get_elem? params p ≡ some w
    → (bytes_eq w (codes "<") ≡ false) × (bytes_eq w (codes ">") ≡ false)

list_option-IsBare :
    (params : List Bytes) (command : Bytes) (i : ℕ) (option : Bytes) (o : ListOption)
    → NoOperation params i
    → list_option params command i option ≡ ok o
    → IsBare o
unfolding list_option option_filter option_operation option_number
list_option-IsBare params command i [] o absent h = cc
list_option-IsBare params command i (letter ∷ rest) o absent h =
    elim (Bool-cases (ltb letter 128)) [
      | inl ascii ↦ elim (Option-cases (get_elem? params (i + (i + 1)))) [
        | inl e ↦ ground arith
        | inr (w, e) ↦ ground (arith, absent (i + (i + 1)) w)
      ]
      | inr wide ↦ elim (Option-cases (get_elem? params (i + i))) [
        | inl e ↦ ground arith
        | inr (w, e) ↦ ground (arith, absent (i + i) w)
      ]
    ]

-- The options of a list that is accepted are bare where no operation follows.
list_options-IsBare :
    (params : List Bytes) (command : Bytes) (i : ℕ) (options : List Bytes) (os : List ListOption)
    → NoOperation params i
    → list_options params command i options ≡ ok os
    → All IsBare os
unfolding list_options
list_options-IsBare params command i [] [] absent h = tt
list_options-IsBare params command i [] (o ∷ os) absent h = absurd (cc h)
list_options-IsBare params command i (option ∷ rest) os absent h =
    elim (Result-cases (list_option params command i option)) [
      | inl (o, e) ↦ elim (Result-cases (list_options params command (suc i) rest)) [
        | inl (more, f) ↦
            let split : os ≡ o ∷ more = ground arith in
            rw split (
              list_option-IsBare params command i option o absent e,
              list_options-IsBare params command (suc i) rest more
                  (λ p w le. absent p w (omega arith)) f,
            )
        | inr (m, f) ↦ absurd (ground arith)
      ]
      | inr (m, e) ↦ absurd (ground arith)
    ]

-- No option that is accepted is an operation.
list_option-letter :
    (params : List Bytes) (command : Bytes) (i : ℕ) (option : Bytes) (o : ListOption)
    → list_option params command i option ≡ ok o
    → (bytes_eq option (codes "<") ≡ false) × (bytes_eq option (codes ">") ≡ false)
unfolding list_option option_filter
list_option-letter params command i [] o h = cc
list_option-letter params command i (letter ∷ rest) o h = ground arith

list_options-letters :
    (params : List Bytes) (command : Bytes) (i : ℕ) (options : List Bytes) (os : List ListOption)
    → list_options params command i options ≡ ok os
    → (k : ℕ) (w : Bytes) → get_elem? options k ≡ some w
    → (bytes_eq w (codes "<") ≡ false) × (bytes_eq w (codes ">") ≡ false)
unfolding list_options
list_options-letters params command i [] os h k w e = cc
list_options-letters params command i (option ∷ rest) os h zero w e =
    elim (Result-cases (list_option params command i option)) [
      | inl (o, f) ↦ ground (arith, list_option-letter params command i option o)
      | inr (m, f) ↦ absurd (ground arith)
    ]
list_options-letters params command i (option ∷ rest) os h (suc k) w e =
    elim (Result-cases (list_option params command i option)) [
      | inl (o, f) ↦ elim (Result-cases (list_options params command (suc i) rest)) [
        | inl (more, g) ↦ list_options-letters params command (suc i) rest more g k w e
        | inr (m, g) ↦ absurd (ground arith)
      ]
      | inr (m, f) ↦ absurd (ground arith)
    ]

get_elem?-drop : (n k : ℕ) (xs : List Bytes) → get_elem? (drop n xs) k ≡ get_elem? xs (n + k)
get_elem?-drop zero k xs = ground arith
get_elem?-drop (suc n) k [] = refl
get_elem?-drop (suc n) k (x ∷ xs) =
    let same : suc (n + k) ≡ suc n + k = omega arith in
    get_elem?-drop n k xs ∙ ap (get_elem? (x ∷ xs)) same

-- The options that are read from a place of the line on, if all of them are accepted.
accepted-IsBare :
    (params : List Bytes) (command : Bytes) (start : ℕ) (os : List ListOption)
    → list_options params command start (drop start params) ≡ ok os
    → All IsBare os
accepted-IsBare params command start os h =
    list_options-IsBare params command start (drop start params) os
      (λ p w le e.
        let same : start + (p - start) ≡ p = omega arith in
        list_options-letters params command start (drop start params) os h (p - start) w
          (get_elem?-drop start (p - start) params ∙ ap (get_elem? params) same ∙ e))
      h

optional_list-some :
    (found os : List ListOption) → optional_list found ≡ some os → All IsBare found → All IsBare os
optional_list-some [] os h a = absurd (cc h)
optional_list-some (o ∷ found) os h a =
    let same : o ∷ found ≡ os = cc h in subst (All IsBare) same a

-- The end of both branches of `handle_list`.
options-IsBare :
    (params : List Bytes) (command : Bytes) (start : ℕ) (channels chans : Option (List Bytes))
    (os : List ListOption)
    → (do
      options ← list_options params command start (drop start params)
      ok (Message.list chans (optional_list options)))
      ≡ ok (Message.list channels (some os))
    → All IsBare os
options-IsBare params command start channels chans os h =
    elim (Result-cases (list_options params command start (drop start params))) [
      | inl (found, f) ↦
          optional_list-some found os (ground arith) (accepted-IsBare params command start found f)
      | inr (m, f) ↦ absurd (ground arith)
    ]

-- Every option of a LIST that is accepted has the operation `<` and the number 0, whatever was sent:
-- what stands behind an option as its operation is read again as an option, and refused.
pub handle_list-IsBare :
    (message : Parsed) (command : Bytes) (channels : Option (List Bytes)) (os : List ListOption)
    → handle_list message command ≡ ok (Message.list channels (some os))
    → All IsBare os
unfolding handle_list
handle_list-IsBare message command channels os h = elim (Option-cases (first_parameter message)) [
  | inl e ↦ options-IsBare message.parameters command 0 channels none os (ground arith)
  | inr (p, e) ↦
      let chans = map (map to_ascii_lowercase) (keep_utf8 (split_commas p)) in
      options-IsBare message.parameters command (if is_empty chans then 0 else 1) channels
        (some chans) os (ground arith)
]
