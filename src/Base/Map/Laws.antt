-- ===== src/Base/Map/Laws.antt =====
-- Laws of the map operations, by key.
use mathlib.Core.Path.{◌≡◌, refl}
use mathlib.Core.Bool.{Bool, true, false}
use mathlib.Core.Option
use mathlib.Core.Option.{Option, none, some}
use mathlib.Core.List.{[], ◌∷◌}
use native.Mathlib.Omega.{arith}
use cirque.Base.Tests.{if◌then◌else◌, Bool-ext}
use cirque.Base.Lists.{any}
use cirque.Base.Map.{
  KeyEq, HashMap, values, get_key_value, get, insert, remove, modify, map_values, retain,
}

abbrev pub kept {ℓ} : {V : Type ℓ} → (V → Bool) → Option V → Option V
kept p none = none
kept p (some v) = if p v then some v else none

-- Equal keys compare alike.
pub beq-congr : {K : Type 0} ⦃e : KeyEq K⦄ (i k j : K) → e.beq k j ≡ true → e.beq i k ≡ e.beq i j
beq-congr ⦃e⦄ i k j h =
    Bool-ext (e.beq i k) (e.beq i j) (λ p. e.beq_trans i k j p h)
      (λ p. e.beq_trans i j k p (e.beq_sym k j h))

pub beq_comm : {K : Type 0} ⦃e : KeyEq K⦄ (k j : K) → e.beq k j ≡ e.beq j k
beq_comm ⦃e⦄ k j = Bool-ext (e.beq k j) (e.beq j k) (e.beq_sym k j) (e.beq_sym j k)

module _ {ℓ} {K : Type 0} {V : Type ℓ} ⦃e : KeyEq K⦄ where
  pub get-insert :
      (k j : K) (v : V) (m : HashMap K V)
      → get j (insert k v m) ≡ (if e.beq k j then some v else get j m)
  unfolding get insert
  get-insert k j v [] = refl
  get-insert k j v ((i, w) ∷ m) = ground (
    arith,
    get-insert k j v m,
    beq-congr i k j,
    beq-congr j i k,
    beq_comm i j,
    beq_comm j k,
    beq_comm i k,
  )

  pub get-remove :
      (k j : K) (m : HashMap K V) → get j (remove k m) ≡ (if e.beq k j then none else get j m)
  unfolding get remove
  get-remove k j [] = ground arith
  get-remove k j ((i, w) ∷ m) = ground (
    arith,
    get-remove k j m,
    beq-congr i k j,
    beq-congr j i k,
    beq_comm i j,
    beq_comm j k,
    beq_comm i k,
  )

  pub get-modify :
      (k j : K) (f : V → V) (m : HashMap K V)
      → get j (modify k f m) ≡ (if e.beq k j then Option.map f (get j m) else get j m)
  unfolding get modify
  get-modify k j f [] = ground arith
  get-modify k j f ((i, w) ∷ m) = ground (
    arith,
    get-modify k j f m,
    beq-congr i k j,
    beq-congr j i k,
    beq_comm i j,
    beq_comm j k,
    beq_comm i k,
  )

  pub get-map_values :
      (j : K) (f : V → V) (m : HashMap K V) → get j (map_values f m) ≡ Option.map f (get j m)
  unfolding get map_values
  get-map_values j f [] = refl
  get-map_values j f ((i, w) ∷ m) = ground (arith, get-map_values j f m)

  -- Equal keys look up the same entry.
  pub get-congr : (k j : K) (m : HashMap K V) → e.beq k j ≡ true → get k m ≡ get j m
  unfolding get
  get-congr k j [] h = refl
  get-congr k j ((i, w) ∷ m) h = ground (arith, get-congr k j m h, beq-congr i k j)

  pub get-get_key_value :
      (k : K) (m : HashMap K V) → get k m ≡ Option.map (λ (p : K × V). p.1) (get_key_value k m)
  unfolding get get_key_value
  get-get_key_value k [] = refl
  get-get_key_value k ((i, w) ∷ m) = ground (arith, get-get_key_value k m)

  -- At most one entry for a key.
  abbrev pub Distinct : HashMap K V → Type ℓ
  Distinct [] = Unit
  Distinct ((k, v) ∷ m) = (get k m ≡ none) × Distinct m

  pub insert-Distinct : (k : K) (v : V) (m : HashMap K V) → Distinct m → Distinct (insert k v m)
  unfolding insert get
  insert-Distinct k v [] d = (refl, tt)
  insert-Distinct k v ((i, w) ∷ m) d =
      ground (arith, insert-Distinct k v m d.1, get-insert k i v m, beq_comm i k)

  pub remove-Distinct : (k : K) (m : HashMap K V) → Distinct m → Distinct (remove k m)
  unfolding remove
  remove-Distinct k [] d = tt
  remove-Distinct k ((i, w) ∷ m) d = ground (arith, remove-Distinct k m d.1, get-remove k i m)

  pub modify-Distinct : (k : K) (f : V → V) (m : HashMap K V) → Distinct m → Distinct (modify k f m)
  unfolding modify
  modify-Distinct k f [] d = tt
  modify-Distinct k f ((i, w) ∷ m) d = ground (arith, modify-Distinct k f m d.1, get-modify k i f m)

  pub map_values-Distinct : (f : V → V) (m : HashMap K V) → Distinct m → Distinct (map_values f m)
  unfolding map_values
  map_values-Distinct f [] d = tt
  map_values-Distinct f ((i, w) ∷ m) d =
      ground (arith, map_values-Distinct f m d.1, get-map_values i f m)

  pub get-retain :
      (j : K) (p : V → Bool) (m : HashMap K V) → Distinct m → get j (retain p m) ≡ kept p (get j m)
  unfolding get retain
  get-retain j p [] d = refl
  get-retain j p ((i, w) ∷ m) d = ground (arith, get-retain j p m d.1, get-congr i j m)

  pub retain-Distinct : (p : V → Bool) (m : HashMap K V) → Distinct m → Distinct (retain p m)
  unfolding retain
  retain-Distinct p [] d = tt
  retain-Distinct p ((i, w) ∷ m) d = ground (arith, retain-Distinct p m d.1, get-retain i p m d.1)

  -- A test that no value passes fails at each entry.
  pub get-any-values :
      (k : K) (v : V) (p : V → Bool) (m : HashMap K V)
      → any p (values m) ≡ false
      → get k m ≡ some v
      → p v ≡ false
  unfolding get values
  get-any-values k v p [] h g = cc
  get-any-values k v p ((i, w) ∷ m) h g = ground (arith, get-any-values k v p m)
