-- ===== src/Prelude/Lists.antt =====
-- Lists measured by native numbers, and predicates on lists by recursion.
use Prim.Native.String.{String}
use Prim.Native.Nat.{ℕ, suc, ◌+◌}
use mathlib.Core.Path.{◌≡◌, refl}
use mathlib.Core.Logic.{◌≢◌, ◌⊎◌, inl, inr, ◌↔◌}
use mathlib.Core.Bool.{Bool, true, false}
use mathlib.Core.List.{List, [], ◌∷◌, ◌++◌, reverse, reverse-append}
use native.Mathlib.Omega.{arith}
use bindxdb.Prelude.Tests.{◌==◌, eq_iff, if◌then◌else◌}

module _ {ℓ} {A : Type ℓ} where
  abbrev pub length : List A → ℕ
  length [] = 0
  length (x ∷ xs) = suc (length xs)

  pub length-append : (xs ys : List A) → length (xs ++ ys) ≡ length xs + length ys
  length-append [] ys = omega arith
  length-append (x ∷ xs) ys = omega (arith, length-append xs ys)

  -- Every element satisfies `P`.
  abbrev pub All : (A → Type 0) → List A → Type 0
  All P [] = Unit
  All P (x ∷ xs) = P x × All P xs

  -- Some element satisfies `P`, with its place.
  abbrev pub Any : (A → Type 0) → List A → Type 0
  Any P [] = ⊥
  Any P (x ∷ xs) = P x ⊎ Any P xs

module _ {ℓ} {A : Type ℓ} (P : A → Type 0) where
  pub Any-append_left : (xs ys : List A) → Any P xs → Any P (xs ++ ys)
  Any-append_left (x ∷ xs) ys (inl p) = inl p
  Any-append_left (x ∷ xs) ys (inr q) = inr (Any-append_left xs ys q)
  Any-append_left [] ys h = elim h [ ]

  pub Any-append_right : (xs ys : List A) → Any P ys → Any P (xs ++ ys)
  Any-append_right [] ys h = h
  Any-append_right (x ∷ xs) ys h = inr (Any-append_right xs ys h)

  pub Any-append_cases : (xs ys : List A) → Any P (xs ++ ys) → Any P xs ⊎ Any P ys
  Any-append_cases [] ys h = inr h
  Any-append_cases (x ∷ xs) ys (inl p) = inl (inl p)
  Any-append_cases (x ∷ xs) ys (inr q) = elim (Any-append_cases xs ys q) [
    | inl l ↦ inl (inr l)
    | inr r ↦ inr r
  ]

  pub All-append : (xs ys : List A) → All P xs → All P ys → All P (xs ++ ys)
  All-append [] ys h k = k
  All-append (x ∷ xs) ys h k = (h.0, All-append xs ys h.1 k)

module _ {ℓ} {A : Type ℓ} {P Q : A → Type 0} (f : (x : A) → P x → Q x) where
  pub Any-map : (xs : List A) → Any P xs → Any Q xs
  Any-map (x ∷ xs) (inl p) = inl (f x p)
  Any-map (x ∷ xs) (inr q) = inr (Any-map xs q)
  Any-map [] h = elim h [ ]

pub List-cases {ℓ} :
    {A : Type ℓ} (xs : List A) → (xs ≡ []) ⊎ ((x : A) × (rest : List A) × (xs ≡ x ∷ rest))
List-cases [] = inl refl
List-cases (x ∷ xs) = inr (x, xs, refl)

-- No text stands in the list twice.
abbrev pub Distinct : List String → Type 0
Distinct [] = Unit
Distinct (x ∷ xs) = All (λ y. y ≢ x) xs × Distinct xs

module _ {ℓ} {A : Type ℓ} {P Q : A → Type 0} (f : (x : A) → P x → Q x) where
  pub All-map : (xs : List A) → All P xs → All Q xs
  All-map [] h = tt
  All-map (x ∷ xs) h = (f x h.0, All-map xs h.1)

module _ {ℓ} {A : Type ℓ} {P Q R : A → Type 0} (f : (x : A) → P x → Q x → R x) where
  pub All-map₂ : (xs : List A) → All P xs → All Q xs → All R xs
  All-map₂ [] h k = tt
  All-map₂ (x ∷ xs) h k = (f x h.0 k.0, All-map₂ xs h.1 k.1)

module _ {ℓ} {A : Type ℓ} {P : A → Type 0} (f : (x : A) → P x) where
  pub for_each : (xs : List A) → All P xs
  for_each [] = tt
  for_each (x ∷ xs) = (f x, for_each xs)

-- Whether a text stands in a list.
unfoldable pub contains : String → List String → Bool
contains k [] = false
contains k (x ∷ xs) = let rest = contains k xs in if x == k then true else rest

pub contains-append :
    (k : String) (xs ys : List String)
    → contains k (xs ++ ys) ≡ (if contains k xs then true else contains k ys)
unfolding contains
contains-append k [] ys = refl
contains-append k (x ∷ xs) ys = ground (arith, contains-append k xs ys)

pub contains-reverse : (k : String) (xs : List String) → contains k (reverse xs) ≡ contains k xs
unfolding contains
contains-reverse k [] = refl
contains-reverse k (x ∷ xs) =
    rw (reverse-append (x ∷ []) xs)
      (ground (arith, contains-append k (reverse xs) (x ∷ []), contains-reverse k xs))

pub contains_iff : (k : String) (xs : List String) → (contains k xs ≡ true) ↔ Any (λ x. x ≡ k) xs
unfolding contains
contains_iff k [] = (λ h. cc, λ h. absurd h)
contains_iff k (x ∷ xs) = ground (arith, contains_iff k xs, eq_iff x k)

-- No text stands in the list twice, by the test.
abbrev pub Unrepeated : List String → Type 0
Unrepeated [] = Unit
Unrepeated (x ∷ xs) = (contains x xs ≡ false) × Unrepeated xs
