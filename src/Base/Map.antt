-- ===== src/Base/Map.antt =====
-- `std::collections::HashMap` as an association list: at most one entry for a key, iterated in the
-- order of the list. Keys are compared by an equivalence that an instance gives.
pub mod Laws
use mathlib.Core.Path.{◌≡◌}
use mathlib.Core.Bool.{Bool, true, false}
use mathlib.Core.Option.{Option, none, some}
use mathlib.Core.List.{List, [], ◌∷◌, map}
use native.Mathlib.Omega.{arith}
use Prim.Native.Nat.{ℕ}
use cirque.Base.Tests.{◌==◌, if◌then◌else◌, is_some}
use cirque.Base.Lists.{any, length, find}
use cirque.Base.Ascii.{
  Bytes, eq_ignore_ascii_case, eq_ignore_ascii_case_refl, eq_ignore_ascii_case_sym,
  eq_ignore_ascii_case_trans,
}

pub record KeyEq (K : Type 0) : Type 0 where
  pub beq : K → K → Bool
  pub beq_refl : (a : K) → beq a a ≡ true
  pub beq_sym : (a b : K) → beq a b ≡ true → beq b a ≡ true
  pub beq_trans : (a b c : K) → beq a b ≡ true → beq b c ≡ true → beq a c ≡ true

abbrev id_beq : ℕ → ℕ → Bool
id_beq a b = a == b

pub id_beq_refl : (a : ℕ) → id_beq a a ≡ true
id_beq_refl a = ground arith

pub id_beq_sym : (a b : ℕ) → id_beq a b ≡ true → id_beq b a ≡ true
id_beq_sym a b h = ground arith

pub id_beq_trans : (a b c : ℕ) → id_beq a b ≡ true → id_beq b c ≡ true → id_beq a c ≡ true
id_beq_trans a b c p q = ground arith

instance abbrev pub id_eq : KeyEq ℕ
id_eq = record {
  beq = id_beq;
  beq_refl = id_beq_refl;
  beq_sym = id_beq_sym;
  beq_trans = id_beq_trans;
}

-- `ChannelID`: names that differ in ASCII case only are one key.
instance abbrev pub channel_id_eq : KeyEq Bytes
channel_id_eq = record {
  beq = eq_ignore_ascii_case;
  beq_refl = eq_ignore_ascii_case_refl;
  beq_sym = eq_ignore_ascii_case_sym;
  beq_trans = eq_ignore_ascii_case_trans;
}

abbrev pub HashMap {ℓ} : Type 0 → Type ℓ → Type ℓ
HashMap K V = List (K × V)

module _ {ℓ} {K : Type 0} {V : Type ℓ} where
  unfoldable pub keys : HashMap K V → List K
  keys [] = []
  keys ((k, v) ∷ m) = k ∷ keys m

  unfoldable pub values : HashMap K V → List V
  values [] = []
  values ((k, v) ∷ m) = v ∷ values m

module _ {ℓ} {K : Type 0} {V : Type ℓ} ⦃e : KeyEq K⦄ where
  unfoldable pub get_key_value : K → HashMap K V → Option (K × V)
  get_key_value k [] = none
  get_key_value k ((j, v) ∷ m) = if e.beq j k then some (j, v) else get_key_value k m

  unfoldable pub get : K → HashMap K V → Option V
  get k [] = none
  get k ((j, v) ∷ m) = if e.beq j k then some v else get k m

  abbrev pub contains_key : K → HashMap K V → Bool
  contains_key k m = is_some (get k m)

  -- An entry that is there keeps its key.
  unfoldable pub insert : K → V → HashMap K V → HashMap K V
  insert k v [] = (k, v) ∷ []
  insert k v ((j, w) ∷ m) = if e.beq j k then (j, v) ∷ m else (j, w) ∷ insert k v m

  unfoldable pub remove : K → HashMap K V → HashMap K V
  remove k [] = []
  remove k ((j, w) ∷ m) = let rest = remove k m in if e.beq j k then rest else (j, w) ∷ rest

  -- `HashMap::get_mut` with what is done to the value.
  unfoldable pub modify : K → (V → V) → HashMap K V → HashMap K V
  modify k f [] = []
  modify k f ((j, w) ∷ m) = if e.beq j k then (j, f w) ∷ m else (j, w) ∷ modify k f m

module _ {ℓ} {K : Type 0} {V : Type ℓ} where
  -- `HashMap::values_mut` with what is done to each value.
  unfoldable pub map_values : (V → V) → HashMap K V → HashMap K V
  map_values f [] = []
  map_values f ((j, w) ∷ m) = (j, f w) ∷ map_values f m

  unfoldable pub retain : (V → Bool) → HashMap K V → HashMap K V
  retain p [] = []
  retain p ((j, w) ∷ m) = let rest = retain p m in if p w then (j, w) ∷ rest else rest
