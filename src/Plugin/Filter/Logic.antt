-- ===== src/Plugin/Filter/Logic.antt =====
-- What Evaluate returns.
use bindxdb.Prelude.{
  String, Bool, true, false, ◌≡◌, ◌↔◌, ◌⊎◌, inl, inr, refl, some, Dict, lookup, arith, Option-cases,
}
use bindxdb.Go.Value.{Floats, Value, iface_eq}
use bindxdb.Plugin.Filter.{
  FilterOperator, equals, not_equal, match, Filters, basic, composite, nil, cons, of_comparison,
  negated, compare_with, evaluate_basic, combine, evaluate, evaluate_all, is_nil,
}

module _ (fl : Floats) where
  open fl use {Float}

  -- A record passes a basic filter.
  pub data Passes (value wanted : Value Float) : FilterOperator → Type 0 where
    same : iface_eq fl value wanted ≡ some true → Passes value wanted equals
    differs : iface_eq fl value wanted ≡ some false → Passes value wanted not_equal

  compare_with-Passes :
      (op : FilterOperator) (value wanted : Value Float)
      → compare_with fl op value wanted ≡ match true
      → Passes value wanted op
  unfolding compare_with of_comparison negated
  compare_with-Passes equals value wanted h = same (ground arith)
  compare_with-Passes not_equal value wanted h = differs (ground arith)
  compare_with-Passes _ value wanted h = cc

  compare_with_of_Passes :
      (op : FilterOperator) (value wanted : Value Float)
      → Passes value wanted op
      → compare_with fl op value wanted ≡ match true
  unfolding compare_with of_comparison negated
  compare_with_of_Passes _ value wanted (same e) = ground arith
  compare_with_of_Passes _ value wanted (differs e) = ground arith

-- A basic filter matches exactly the records that have its column, with a value equal to the
-- filter's under `equals` and different from it under `not_equal`; no other operator ever matches.
pub evaluate_basic_iff :
    (fl : Floats) (column : String) (wanted : Value fl.Float) (op : FilterOperator)
    (rec : Dict (Value fl.Float))
    → (evaluate fl (basic column wanted op) rec ≡ match true)
      ↔ ((value : Value fl.Float) × (lookup column rec ≡ some value) × Passes fl value wanted op)
unfolding evaluate evaluate_basic
evaluate_basic_iff fl column wanted op rec = (
  λ h. elim (Option-cases (lookup column rec)) [
    | inl missing ↦ ground arith
    | inr (value, found) ↦ (value, found, compare_with-Passes fl op value wanted (ground arith))
  ],
  λ (value, found, p). ground (arith, compare_with_of_Passes fl op value wanted p),
)

module _ (fl : Floats) (rec : Dict (Value fl.Float)) where
  -- Every filter of the list evaluates to `b`.
  abbrev pub AllGive : Bool → Filters fl.Float → Type 0
  AllGive b nil = Unit
  AllGive b (cons f fs) = (evaluate fl f rec ≡ match b) × AllGive b fs

  -- Some filter of the list matches, and all before it evaluate to false.
  abbrev pub FirstMatches : Filters fl.Float → Type 0
  FirstMatches nil = ⊥
  FirstMatches (cons f fs) =
      (evaluate fl f rec ≡ match true) ⊎ (evaluate fl f rec ≡ match false) × FirstMatches fs

  evaluate_all-AllGive :
      (fs : Filters fl.Float) → (evaluate_all fl fs true rec ≡ match true) ↔ AllGive true fs
  unfolding evaluate evaluate_all combine
  evaluate_all-AllGive nil = (λ h. tt, λ h. refl)
  evaluate_all-AllGive (cons f fs) = ground (arith, evaluate_all-AllGive fs)

  evaluate_all-FirstMatches :
      (fs : Filters fl.Float) → (evaluate_all fl fs false rec ≡ match true) ↔ FirstMatches fs
  unfolding evaluate evaluate_all combine
  evaluate_all-FirstMatches nil = (λ h. cc, λ h. absurd h)
  evaluate_all-FirstMatches (cons f fs) = ground (arith, evaluate_all-FirstMatches fs)

-- A conjunction matches exactly when all of its filters match; with no filters it matches.
pub evaluate_and_iff :
    (fl : Floats) (rec : Dict (Value fl.Float)) (fs : Filters fl.Float)
    → (evaluate fl (composite fs true) rec ≡ match true) ↔ AllGive fl rec true fs
unfolding evaluate is_nil
evaluate_and_iff fl rec nil = (λ h. tt, λ h. refl)
evaluate_and_iff fl rec (cons f fs) = evaluate_all-AllGive fl rec (cons f fs)

-- A disjunction matches exactly when it is empty or some filter matches and all before it are false;
-- a filter after that one is not asked, so its error does not come out.
pub evaluate_or_iff :
    (fl : Floats) (rec : Dict (Value fl.Float)) (fs : Filters fl.Float)
    → (evaluate fl (composite fs false) rec ≡ match true) ↔ ((fs ≡ nil) ⊎ FirstMatches fl rec fs)
unfolding evaluate is_nil
evaluate_or_iff fl rec nil = (λ h. inl refl, λ h. refl)
evaluate_or_iff fl rec (cons f fs) = (
  λ h. inr ((evaluate_all-FirstMatches fl rec (cons f fs)).0 h),
  elim [ inl e ↦ cc | inr m ↦ (evaluate_all-FirstMatches fl rec (cons f fs)).1 m ],
)
