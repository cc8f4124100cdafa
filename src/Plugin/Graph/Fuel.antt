-- ===== src/Plugin/Graph/Fuel.antt =====
-- The fuel of the search of TopologicalSort, against the ids that it marks.
use bindxdb.Prelude.{
  ℕ, zero, suc, ◌≤◌, ◌<◌, String, true, false, not, ◌&&◌, ◌≡◌, inl, inr, refl, Option, some, List,
  [], ◌∷◌, arith, contains, length, lookup, has_key, eq_iff, eq_self, Bool-cases, if◌then◌else◌,
}
use bindxdb.Plugin.Graph.{
  DependencyGraph, Sorting, edges, ids, search_fuel, sort_deps, topological_sort_dfs, sort_each,
  mark, finish,
}
use bindxdb.Plugin.Graph.Search.{
  Inv, SearchOk, mark-Inv, topological_sort_dfs_returns, topological_sort_dfs_keeps,
}

-- How many of the keys are not in the list.
pub unmarked : List String → List String → ℕ
unmarked [] marks = 0
unmarked (k ∷ ks) marks =
    let rest = unmarked ks marks in if contains k marks then rest else suc rest

pub unmarked-le-length : (ks marks : List String) → unmarked ks marks ≤ length ks
unfolding unmarked
unmarked-le-length [] marks = omega arith
unmarked-le-length (k ∷ ks) marks = ground (arith, unmarked-le-length ks marks)

pub unmarked_mono :
    (ks marks more : List String)
    → ((k : String) → contains k marks ≡ true → contains k more ≡ true)
    → unmarked ks more ≤ unmarked ks marks
unfolding unmarked
unmarked_mono [] marks more h = omega arith
unmarked_mono (k ∷ ks) marks more h = ground (arith, unmarked_mono ks marks more h, h k)

pub unmarked-mark :
    (ks marks : List String) (id : String)
    → contains id ks ≡ true
    → contains id marks ≡ false
    → unmarked ks (id ∷ marks) < unmarked ks marks
unfolding unmarked contains
unmarked-mark [] marks id m new = cc
unmarked-mark (k ∷ ks) marks id m new = ground (
  arith,
  unmarked-mark ks marks id,
  unmarked_mono ks marks (id ∷ marks) (λ j h. ground arith),
  eq_iff id k,
  eq_iff k id,
)

pub contains-ids :
    (g : DependencyGraph) (k : String) → has_key k g ≡ true → contains k (ids g) ≡ true
unfolding has_key lookup contains
contains-ids [] k h = cc
contains-ids ((id, node) ∷ g) k h = ground (arith, contains-ids g k)

module _ (g : DependencyGraph) where
  abbrev left : Sorting → ℕ
  left s = unmarked (ids g) s.visited

  -- With fuel `n` a search of an unmarked node returns.
  abbrev Ends : ℕ → (String → Sorting → Option Sorting) → Type 0
  Ends n search =
      (id : String) (s : Sorting)
      → Inv g s
      → left s ≤ n
      → has_key id g ≡ true
      → contains id s.visited ≡ false
      → (t : Sorting) × (search id s ≡ some t)

  sort_deps-Ends :
      (n : ℕ) (search : String → Sorting → Option Sorting)
      → SearchOk g search
      → Ends n search
      → (deps : List String) (s : Sorting) → Inv g s
      → left s ≤ n
      → (t : Sorting) × (sort_deps search g deps s ≡ some t)
  unfolding sort_deps
  sort_deps-Ends n search good ends [] s inv h = (s, refl)
  sort_deps-Ends n search good ends (dep ∷ deps) s inv h =
      elim (Bool-cases (has_key dep g && not (contains dep s.visited))) [
        | inr skip ↦
            let (t, e) = sort_deps-Ends n search good ends deps s inv h in
            (t, rw (skip, sort_deps) e)
        | inl take ↦
            let (s', found) = ends dep s inv h (ground arith) (ground arith) in
            let step = good dep s s' inv (ground arith) (ground arith) found in
            let fewer = unmarked_mono (ids g) s.visited s'.visited step.grows.visited_stays in
            let (t, e) = sort_deps-Ends n search good ends deps s' step.inv (omega arith) in
            (t, ground arith)
      ]

  topological_sort_dfs-Ends : (fuel : ℕ) → Ends fuel (topological_sort_dfs fuel g)
  unfolding mark
  topological_sort_dfs-Ends zero id s inv h known new =
      absurd (omega (arith, unmarked-mark (ids g) s.visited id (contains-ids g id known) new))
  topological_sort_dfs-Ends (suc fuel) id s inv h known new =
      let room = unmarked-mark (ids g) s.visited id (contains-ids g id known) new in
      let (s', found) =
        sort_deps-Ends fuel (topological_sort_dfs fuel g) (topological_sort_dfs_keeps g fuel)
          (topological_sort_dfs-Ends fuel) (edges g id) (mark id s) (mark-Inv g id s known inv)
          (omega arith) in
      (finish id s', topological_sort_dfs_returns g fuel id s s' found)

  sort_each_ends :
      (fuel : ℕ) (nodes : List String) (s : Sorting)
      → ((k : String) → contains k nodes ≡ true → has_key k g ≡ true)
      → Inv g s
      → left s ≤ fuel
      → (t : Sorting) × (sort_each fuel g nodes s ≡ some t)
  unfolding sort_each contains
  sort_each_ends fuel [] s known inv h = (s, refl)
  sort_each_ends fuel (id ∷ nodes) s known inv h = elim (Bool-cases (contains id s.visited)) [
    | inl old ↦
        let (t, e) = sort_each_ends fuel nodes s (λ k m. known k (ground arith)) inv h in
        (t, rw (old, sort_each) e)
    | inr new ↦
        let here : has_key id g ≡ true = known id (ground (arith, eq_self id)) in
        let (s', found) = topological_sort_dfs-Ends fuel id s inv h here new in
        let step = topological_sort_dfs_keeps g fuel id s s' inv here new found in
        let fewer = unmarked_mono (ids g) s.visited s'.visited step.grows.visited_stays in
        let (t, e) =
          sort_each_ends fuel nodes s' (λ k m. known k (ground arith)) step.inv (omega arith) in
        (t, ground arith)
  ]

abbrev pub start : Sorting
start = record { visited = []; result = [] }

-- From the start the loop over nodes of the graph returns.
pub sort_each_returns :
    (g : DependencyGraph) (nodes : List String)
    → ((k : String) → contains k nodes ≡ true → has_key k g ≡ true)
    → (t : Sorting) × (sort_each (search_fuel g) g nodes start ≡ some t)
unfolding contains
sort_each_returns g nodes known =
    sort_each_ends g (search_fuel g) nodes start known
      (record { unrepeated = tt; marked = λ k m. m; known = λ k m. cc })
      (omega (arith, unmarked-le-length (ids g) []))
