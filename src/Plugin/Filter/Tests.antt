-- ===== src/Plugin/Filter/Tests.antt =====
-- Filters at small inputs. The floats of these tests are natural numbers.
use bindxdb.Prelude.{
  ℕ, ◌≡◌, ◌↔◌, ◌⊎◌, refl, true, false, [], ◌∷◌, Dict, pos, go, ltb, nat_eq, pos_part,
}
use bindxdb.Go.Value.{Floats, Value, iface_eq, int, string}
use bindxdb.Plugin.Filter.{
  equals, not_equal, Filters, basic, composite, nil, cons, match, evaluate, evaluate_basic,
  get_used_columns, to_string,
}
use bindxdb.Plugin.Filter.Logic.{FirstMatches, evaluate_or_iff}

abbrev whole_floats : Floats
whole_floats = record { Float = ℕ; of_int = pos_part; to_int = pos; eq = nat_eq; lt = ltb }

abbrev row : Dict (Value ℕ)
row = ("age", int (pos 30)) ∷ ("name", string "ann") ∷ []

abbrev both : Filters ℕ
both = cons (basic "age" (int (pos 30)) equals) (cons (basic "name" (string "bob") not_equal) nil)

run : Unit {0}
unfolding go evaluate evaluate_basic get_used_columns to_string iface_eq
run = tt

filters_run :
    (evaluate whole_floats (composite both true) row ≡ match true)
    × (get_used_columns (composite both false) ≡ "age" ∷ "name" ∷ [])
    × (to_string (composite both true) ≡ "age = ? AND name = ?")
unfolding run
filters_run = (refl, refl, refl)

evaluate_or_iff_example :
    (evaluate whole_floats (composite both false) row ≡ match true)
    ↔ ((both ≡ nil) ⊎ FirstMatches whole_floats row both)
evaluate_or_iff_example = evaluate_or_iff whole_floats row both
