-- ===== src/Auth/Rbac/Matching.antt =====
-- matchesPermission against a description of what a permission covers.
use Prim.Native.Char.{Char}
use Prim.Native.String.{◌++◌}
use bindxdb.Prelude.{
  String, ◌≡◌, ap, sym, ◌∙◌, ◌⊎◌, true, List, [], ◌∷◌, arith, split, eq_iff, Lacks, split-two,
  split-join, single-append,
}
use bindxdb.Auth.Rbac.{match_parts, matches_permission}

-- The permission reads "r:a" with exactly one colon, where each side is "*" or what is asked for.
pub record Covers (perm resource action : String) : Type 0 where
  pub on : String
  pub may : String
  pub spelled_so : perm ≡ on ++ (":" ++ may)
  pub on_plain : Lacks b':' on
  pub may_plain : Lacks b':' may
  pub resource_fits : (on ≡ "*") ⊎ (on ≡ resource)
  pub action_fits : (may ≡ "*") ⊎ (may ≡ action)

abbrev colon : Char
colon = ":"

match_parts-true :
    (parts : List String) (resource action : String)
    → match_parts parts resource action ≡ true
    → (on : String) × (may : String) × (parts ≡ on ∷ may ∷ [])
      × ((on ≡ "*") ⊎ (on ≡ resource))
      × ((may ≡ "*") ⊎ (may ≡ action))
unfolding match_parts
match_parts-true (on ∷ may ∷ []) resource action h = (
  on,
  may,
  ground arith,
  ground (arith, eq_iff on "*", eq_iff on resource),
  ground (arith, eq_iff may "*", eq_iff may action),
)
match_parts-true _ resource action h = cc

pub matches_permission-Covers :
    (perm resource action : String)
    → matches_permission perm resource action ≡ true
    → Covers perm resource action
unfolding matches_permission
matches_permission-Covers perm resource action h =
    let (on, may, parts, r, a) = match_parts-true (split b':' perm) resource action h in
    let (whole, left, right) = split-two colon perm on may parts in
    record {
      on = on;
      may = may;
      spelled_so = whole ∙ ap (λ t. on ++ t) (sym (single-append colon may));
      on_plain = left;
      may_plain = right;
      resource_fits = r;
      action_fits = a;
    }

pub Covers-matches_permission :
    (perm resource action : String)
    → Covers perm resource action
    → matches_permission perm resource action ≡ true
unfolding matches_permission match_parts
Covers-matches_permission perm resource action c =
    let whole : perm ≡ c.on ++ String.◌∷◌ colon c.may =
      c.spelled_so ∙ ap (λ t. c.on ++ t) (single-append colon c.may) in
    ground (
      arith,
      ap (split b':') whole,
      split-join colon c.on c.may c.on_plain c.may_plain,
      eq_iff c.on "*",
      eq_iff c.on resource,
      eq_iff c.may "*",
      eq_iff c.may action,
    )
