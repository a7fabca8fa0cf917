-- ===== src/ClientToServer/Laws.antt =====
-- What the decoding of a message depends on, and what it can fail with.
use cirque.Base.{
  true, Bytes, eq_ignore_ascii_case, eq_ignore_ascii_case_sym, eq_ignore_ascii_case_trans, List, [],
  ◌∷◌, ok, ◌≡◌, refl, ◌⊎◌, inl, inr, arith, Option-cases,
}
use cirque.Base.Utf8.{is_utf8}
use cirque.Parser.Message.{Message as Parsed}
use cirque.ClientToServer.{Message}
use cirque.ClientToServer.Registry.{Handler, registry, find_handler, try_from}

find_handler-case :
    (a b : Bytes) (handlers : List (Bytes × Handler))
    → eq_ignore_ascii_case a b ≡ true
    → find_handler a handlers ≡ find_handler b handlers
unfolding find_handler
find_handler-case a b [] h = refl
find_handler-case a b ((name, handler) ∷ rest) h = ground (
  arith,
  find_handler-case a b rest h,
  eq_ignore_ascii_case_trans name a b,
  eq_ignore_ascii_case_trans name b a,
  eq_ignore_ascii_case_sym a b,
)

-- Two spellings of a command in UTF-8 that differ in ASCII case only go to the same handler, with the
-- same parameters: a command decodes as the handler of the other spelling says, or both are unknown.
try_from-case :
    (m n : Parsed)
    → is_utf8 m.command ≡ true
    → is_utf8 n.command ≡ true
    → eq_ignore_ascii_case m.command n.command ≡ true
    → ((try_from m ≡ ok (Message.unknown m.command))
        × (try_from n ≡ ok (Message.unknown n.command)))
      ⊎ ((handler : Handler) × (try_from m ≡ handler m m.command)
          × (try_from n ≡ handler n n.command))
unfolding try_from
try_from-case m n u w h = elim (Option-cases (find_handler m.command registry)) [
  | inl e ↦ inl (ground arith, ground (arith, find_handler-case m.command n.command registry h))
  | inr (handler, e) ↦
      inr (handler, ground arith, ground (arith, find_handler-case m.command n.command registry h))
]
