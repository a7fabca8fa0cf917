-- ===== src/Base/Ascii.antt =====
-- Text and bytes are lists of numbers below 256; a `str` is such a list that is valid UTF-8.
-- The ASCII operations of Rust's standard library that the program uses.
use Prim.Native.Nat.{ℕ, ◌+◌}
use Prim.Native.Char.{code}
use Prim.Native.String.{String}
use mathlib.Core.Path.{◌≡◌, refl}
use mathlib.Core.Logic.{◌↔◌}
use mathlib.Core.Bool.{Bool, true, ◌&&◌, ◌||◌}
use mathlib.Core.List.{List, [], ◌∷◌, map}
use native.Mathlib.Omega.{arith}
use cirque.Base.Tests.{leb, ◌==◌, if◌then◌else◌}
use cirque.Base.Lists.{list_beq}

abbrev pub Bytes : Type 0
Bytes = List ℕ

-- The bytes of an ASCII literal.
abbrev pub codes : String → Bytes
codes String.[] = []
codes (String.◌∷◌ c s) = code c ∷ codes s

abbrev pub is_alphabetic : ℕ → Bool
is_alphabetic b = (leb b'a' b && leb b b'z') || (leb b'A' b && leb b b'Z')

abbrev pub is_digit : ℕ → Bool
is_digit b = leb b'0' b && leb b b'9'

unfoldable pub to_ascii_lowercase : ℕ → ℕ
to_ascii_lowercase b = if leb b'A' b && leb b b'Z' then b + 32 else b

abbrev pub bytes_eq : Bytes → Bytes → Bool
bytes_eq = list_beq ◌==◌

abbrev same_letter : ℕ → ℕ → Bool
same_letter a b = to_ascii_lowercase a == to_ascii_lowercase b

unfoldable pub eq_ignore_ascii_case : Bytes → Bytes → Bool
eq_ignore_ascii_case = list_beq same_letter

pub bytes_eq_iff : (a b : Bytes) → (bytes_eq a b ≡ true) ↔ (a ≡ b)
bytes_eq_iff [] [] = ground arith
bytes_eq_iff [] (y ∷ ys) = ground arith
bytes_eq_iff (x ∷ xs) [] = ground arith
bytes_eq_iff (x ∷ xs) (y ∷ ys) = ground (arith, bytes_eq_iff xs ys)

-- Texts agree up to ASCII case exactly when their lowercase forms are equal.
pub eq_ignore_ascii_case_iff :
    (a b : Bytes)
    → (eq_ignore_ascii_case a b ≡ true) ↔ (map to_ascii_lowercase a ≡ map to_ascii_lowercase b)
unfolding eq_ignore_ascii_case
eq_ignore_ascii_case_iff [] [] = ground arith
eq_ignore_ascii_case_iff [] (y ∷ ys) = ground arith
eq_ignore_ascii_case_iff (x ∷ xs) [] = ground arith
eq_ignore_ascii_case_iff (x ∷ xs) (y ∷ ys) = ground (arith, eq_ignore_ascii_case_iff xs ys)

pub eq_ignore_ascii_case_refl : (a : Bytes) → eq_ignore_ascii_case a a ≡ true
eq_ignore_ascii_case_refl a = (eq_ignore_ascii_case_iff a a).1 refl

pub eq_ignore_ascii_case_sym :
    (a b : Bytes) → eq_ignore_ascii_case a b ≡ true → eq_ignore_ascii_case b a ≡ true
eq_ignore_ascii_case_sym a b h =
    (eq_ignore_ascii_case_iff b a).1 (cc ((eq_ignore_ascii_case_iff a b).0 h))

pub eq_ignore_ascii_case_trans :
    (a b c : Bytes)
    → eq_ignore_ascii_case a b ≡ true
    → eq_ignore_ascii_case b c ≡ true
    → eq_ignore_ascii_case a c ≡ true
eq_ignore_ascii_case_trans a b c p q =
    (eq_ignore_ascii_case_iff a c).1
      (cc ((eq_ignore_ascii_case_iff a b).0 p, (eq_ignore_ascii_case_iff b c).0 q))
