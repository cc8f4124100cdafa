-- ===== src/Prelude/Maps.antt =====
-- A Go map with string keys, as an association list whose order is the order of one iteration.
-- Go leaves that order open; a theorem about every list holds for every order.
use Prim.Native.String.{String}
use mathlib.Core.Path.{◌≡◌, refl}
use mathlib.Core.Bool.{Bool, true, false}
use mathlib.Core.Option.{Option, none, some}
use mathlib.Core.List.{List, [], ◌∷◌}
use native.Mathlib.Omega.{arith}
use bindxdb.Prelude.Tests.{◌==◌, eq_iff, if◌then◌else◌}

abbrev pub Dict {ℓ} : Type ℓ → Type ℓ
Dict V = List (String × V)

module _ {ℓ} {V : Type ℓ} where
  -- delete(m, key)
  unfoldable pub delete : String → Dict V → Dict V
  delete key [] = []
  delete key ((at, x) ∷ rest) =
      let kept = delete key rest in if at == key then kept else (at, x) ∷ kept

  -- x, ok := m[key]
  unfoldable pub lookup : (key : String) (m : Dict V) → Option V
  lookup key [] = none
  lookup key ((at, x) ∷ rest) = let later = lookup key rest in if at == key then some x else later

  pub lookup-delete :
      (key other : String) (m : Dict V)
      → lookup other (delete key m) ≡ (if key == other then none else lookup other m)
  unfolding lookup delete
  lookup-delete key other [] = ground arith
  lookup-delete key other ((at, x) ∷ rest) =
      ground (arith, lookup-delete key other rest, eq_iff at key, eq_iff at other, eq_iff key other)

  -- m[key] = x
  unfoldable pub insert : (key : String) (x : V) (m : Dict V) → Dict V
  insert key x [] = (key, x) ∷ []
  insert key x ((at, y) ∷ rest) =
      let later = insert key x rest in if at == key then (key, x) ∷ rest else (at, y) ∷ later

  pub lookup-insert :
      (key other : String) (x : V) (m : Dict V)
      → lookup other (insert key x m) ≡ (if key == other then some x else lookup other m)
  unfolding insert lookup
  lookup-insert key other x [] = refl
  lookup-insert key other x ((at, y) ∷ rest) =
      ground
        (arith, lookup-insert key other x rest, eq_iff at other, eq_iff key other, eq_iff at key)

-- _, ok := m[k]
unfoldable pub has_key {ℓ} : {V : Type ℓ} → String → Dict V → Bool
has_key k m = elim (lookup k m) [ none ↦ false | some _ ↦ true ]

pub has_key-insert {ℓ} :
    {V : Type ℓ} (k j : String) (v : V) (m : Dict V)
    → has_key j (insert k v m) ≡ (if k == j then true else has_key j m)
unfolding has_key
has_key-insert k j v m = ground (arith, lookup-insert k j v m)

pub has_key-delete {ℓ} :
    {V : Type ℓ} (k j : String) (m : Dict V)
    → has_key j (delete k m) ≡ (if k == j then false else has_key j m)
unfolding has_key
has_key-delete k j m = ground (arith, lookup-delete k j m)

pub has_key-nil {ℓ} : (V : Type ℓ) (k : String) → has_key {V = V} k [] ≡ false
unfolding has_key lookup
has_key-nil V k = refl
