-- ===== src/ServerToClient/Decimal.antt =====
-- `usize::to_string` and `u64::to_string`.
use cirque.Base.{ℕ, zero, suc, ◌+◌, ◌/◌, ◌%◌, ltb, if◌then◌else◌, Bytes, [], ◌∷◌}

-- The last digit first put on `acc`; there are at most as many digits as the number plus one.
digits : ℕ → ℕ → Bytes → Bytes
digits zero n acc = acc
digits (suc fuel) n acc =
    let acc' = (b'0' + n % 10) ∷ acc in
    let rest = digits fuel (n / 10) acc' in if ltb n 10 then acc' else rest

unfoldable pub to_string : ℕ → Bytes
unfolding digits
to_string n = digits (suc n) n []
