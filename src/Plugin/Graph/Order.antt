-- ===== src/Plugin/Graph/Order.antt =====
-- The order that TopologicalSort returns.
use mathlib.Core.Path.{subst}
use mathlib.Core.List.{reverse, reverse-append}
use bindxdb.Prelude.{
  ℕ, zero, suc, ◌≤◌, ◌<◌, String, true, false, not, ◌&&◌, ◌≡◌, inl, inr, refl, sym, ap, ◌∙◌, Option,
  some, List, [], ◌∷◌, arith, contains, contains-reverse, has_key, eq_iff, eq_self, ◌==◌,
  Bool-cases, Option-cases, if◌then◌else◌, ok, Unrepeated,
}
use bindxdb.Plugin.Graph.{
  DependencyGraph, Sorting, edges, ids, search_fuel, mark, finish, sort_deps, topological_sort_dfs,
  sort_each, insert_id, sort_ids, topological_sort,
}
use bindxdb.Plugin.Graph.Search.{
  Inv, Grows, SearchOk, mark-Inv, sort_deps_keeps, topological_sort_dfs_cases,
  topological_sort_dfs_keeps, sort_each_keeps,
}
use bindxdb.Plugin.Graph.Fuel.{contains-ids, start, sort_each_returns}
use bindxdb.Plugin.Graph.Cycles.{has_key-ids, detect_cycle-eq-none}

contains-insert_id :
    (k id : String) (l : List String)
    → contains k (insert_id id l) ≡ (if id == k then true else contains k l)
unfolding insert_id contains
contains-insert_id k id [] = refl
contains-insert_id k id (j ∷ l) = ground (arith, contains-insert_id k id l)

contains-sort_ids : (k : String) (l : List String) → contains k (sort_ids l) ≡ contains k l
unfolding sort_ids contains
contains-sort_ids k [] = refl
contains-sort_ids k (id ∷ l) =
    ground (arith, contains-sort_ids k l, contains-insert_id k id (sort_ids l))

start-Inv : (g : DependencyGraph) → Inv g start
unfolding contains
start-Inv g = record { unrepeated = tt; marked = λ k m. m; known = λ k m. cc }

-- On every graph TopologicalSort returns an order without an error, and each node of the graph
-- stands in it exactly once and nothing else does.
pub topological_sort_complete :
    (g : DependencyGraph)
    → (order : List String) × (topological_sort g ≡ some (ok order))
      × Unrepeated order
      × ((k : String) → contains k order ≡ has_key k g)
unfolding topological_sort
topological_sort_complete g =
    let nodes_known = λ (k : String) (m : contains k (sort_ids (ids g)) ≡ true).
      has_key-ids g k (sym (contains-sort_ids k (ids g)) ∙ m) in
    let (t, e) = sort_each_returns g (sort_ids (ids g)) nodes_known in
    let (inv, grows, white, all) =
      sort_each_keeps g (search_fuel g) (sort_ids (ids g)) start t (start-Inv g) nodes_known
        (λ k m. m) e in
    (
      reverse t.result,
      ground (arith, detect_cycle-eq-none g),
      inv.unrepeated,
      λ k. ground (
        arith,
        contains-reverse k t.result,
        all k,
        contains-sort_ids k (ids g),
        contains-ids g k,
        inv.marked k,
        inv.known k,
      ),
    )

module _ (g : DependencyGraph) where
  -- Each node of the list depends only on nodes that stand behind it, of those in the graph.
  abbrev pub DependenciesFollow : List String → Type 0
  DependenciesFollow [] = Unit
  DependenciesFollow (u ∷ rest) =
      ((v : String) → contains v (edges g u) ≡ true → has_key v g ≡ true → contains v rest ≡ true)
      × DependenciesFollow rest

  -- `rank` falls along every dependency, so the graph has no cycle.
  abbrev pub IsRanked : (String → ℕ) → Type 0
  IsRanked rank =
      (u v : String) → contains v (edges g u) ≡ true → has_key v g ≡ true → rank v < rank u

module _ (g : DependencyGraph) (rank : String → ℕ) (ranked : IsRanked g rank) where
  abbrev Follows : Sorting → Type 0
  Follows s = DependenciesFollow g (reverse s.result)

  -- The nodes that a search has entered and not left all stand above `n`.
  abbrev Above : ℕ → Sorting → Type 0
  Above n s = (k : String) → contains k s.visited ≡ true → contains k s.result ≡ false → n ≤ rank k

  abbrev Settles : (String → Sorting → Option Sorting) → Type 0
  Settles search =
      (id : String) (s t : Sorting)
      → Inv g s
      → Follows s
      → Above (suc (rank id)) s
      → has_key id g ≡ true
      → contains id s.visited ≡ false
      → search id s ≡ some t
      → Follows t

  Above-Grows : (n : ℕ) {s t : Sorting} → Grows s t → Above n s → Above n t
  Above-Grows n {s} {t} grows h k m un = elim (Bool-cases (contains k s.visited)) [
    | inl old ↦ h k old (ground (arith, grows.result_stays k, Bool-cases (contains k s.result)))
    | inr new ↦ ground (arith, grows.new_finished k)
  ]

  finished_below :
      (n : ℕ) (s : Sorting) (v : String)
      → Above n s
      → contains v s.visited ≡ true
      → rank v < n
      → contains v s.result ≡ true
  finished_below n s v above m low = elim (Bool-cases (contains v s.result)) [
    | inl h ↦ h
    | inr un ↦ absurd (omega (arith, above v m un))
  ]

  sort_deps-Settles :
      (search : String → Sorting → Option Sorting)
      → SearchOk g search
      → Settles search
      → (n : ℕ) (deps : List String) (s t : Sorting) → Inv g s
      → Follows s
      → Above n s
      → ((v : String) → contains v deps ≡ true → has_key v g ≡ true → rank v < n)
      → sort_deps search g deps s ≡ some t
      → Follows t
        × ((v : String) → contains v deps ≡ true → has_key v g ≡ true → contains v t.result ≡ true)
  unfolding sort_deps contains
  sort_deps-Settles search good settles n [] s t inv f above low e =
      let same : s ≡ t = ground arith in (rw (← same) f, λ v m. cc)
  sort_deps-Settles search good settles n (dep ∷ deps) s t inv f above low e =
      elim (Bool-cases (has_key dep g && not (contains dep s.visited))) [
        | inr skip ↦
            let rest = rw (skip, sort_deps) at e in
            let (f', done) =
              sort_deps-Settles search good settles n deps s t inv f above
                (λ v m. low v (ground arith)) rest in
            let (inv', grows) = sort_deps_keeps g search good deps s t inv rest in
            (
              f',
              λ v m known. elim (Bool-cases (dep == v)) [
                | inl same ↦
                    let dep_is : dep ≡ v = (eq_iff dep v).0 same in
                    let low' : rank v < n = low v m known in
                    grows.result_stays v (
                      finished_below n s v above
                        (ground (
                          arith,
                          ap (λ k. contains k s.visited) dep_is,
                          ap (λ k. has_key k g) dep_is,
                        ))
                        low')
                | inr other ↦ done v (ground arith) known
              ],
            )
        | inl take ↦ elim (Option-cases (search dep s)) [
          | inl stuck ↦ ground arith
          | inr (s', found) ↦
              let known : has_key dep g ≡ true = ground arith in
              let new : contains dep s.visited ≡ false = ground arith in
              let step = good dep s s' inv known new found in
              let f₁ =
                settles dep s s' inv f
                  (λ k m un.
                    omega (arith, above k m un, low dep (ground (arith, eq_self dep)) known))
                  known new found in
              let rest : sort_deps search g deps s' ≡ some t = ground arith in
              let (f', done) =
                sort_deps-Settles search good settles n deps s' t step.inv f₁
                  (Above-Grows n step.grows above) (λ v m. low v (ground arith)) rest in
              let (inv', grows) = sort_deps_keeps g search good deps s' t step.inv rest in
              (
                f',
                λ v m known'.
                    ground (arith, done v, eq_iff dep v, grows.result_stays v, step.finished),
              )
        ]
      ]

  mark-Above : (id : String) (s : Sorting) → Above (suc (rank id)) s → Above (rank id) (mark id s)
  unfolding mark contains
  mark-Above id s above k m un = elim (Bool-cases (id == k)) [
    | inl same ↦ omega (arith, ap rank ((eq_iff id k).0 same))
    | inr other ↦ omega (arith, above k (ground arith) un)
  ]

  finish-Follows :
      (id : String) (s : Sorting)
      → Follows s
      → ((v : String)
          → contains v (edges g id) ≡ true
          → has_key v g ≡ true
          → contains v s.result ≡ true)
      → Follows (finish id s)
  unfolding finish
  finish-Follows id s f done =
      rw (reverse-append s.result (id ∷ []))
        ((λ v m known. contains-reverse v s.result ∙ done v m known), f)

  topological_sort_dfs-Settles : (fuel : ℕ) → Settles (topological_sort_dfs fuel g)
  topological_sort_dfs-Settles zero id s t inv f above known new e =
      unfold topological_sort_dfs in ground arith
  topological_sort_dfs-Settles (suc fuel) id s t inv f above known new e =
      let (s', found, last) = topological_sort_dfs_cases g fuel id s t e in
      let (f', done) =
        sort_deps-Settles (topological_sort_dfs fuel g) (topological_sort_dfs_keeps g fuel)
          (topological_sort_dfs-Settles fuel) (rank id) (edges g id) (mark id s) s'
          (mark-Inv g id s known inv) (unfold mark in f) (mark-Above id s above) (ranked id)
          found in
      rw (← last) (finish-Follows id s' f' done)

  sort_each_settles :
      (fuel : ℕ) (nodes : List String) (s t : Sorting)
      → Inv g s
      → Follows s
      → ((k : String) → contains k nodes ≡ true → has_key k g ≡ true)
      → ((k : String) → contains k s.visited ≡ true → contains k s.result ≡ true)
      → sort_each fuel g nodes s ≡ some t
      → Follows t
  unfolding sort_each contains
  sort_each_settles fuel [] s t inv f known white e =
      let same : s ≡ t = ground arith in rw (← same) f
  sort_each_settles fuel (id ∷ nodes) s t inv f known white e =
      elim (Bool-cases (contains id s.visited)) [
        | inl old ↦
            sort_each_settles fuel nodes s t inv f (λ k m. known k (ground arith)) white
              (rw (old, sort_each) at e)
        | inr new ↦ elim (Option-cases (topological_sort_dfs fuel g id s)) [
          | inl stuck ↦ ground arith
          | inr (s', found) ↦
              let here : has_key id g ≡ true = known id (ground (arith, eq_self id)) in
              let step = topological_sort_dfs_keeps g fuel id s s' inv here new found in
              let f' =
                topological_sort_dfs-Settles fuel id s s' inv f
                  (λ k m un. absurd (ground (arith, white k m))) here new found in
              sort_each_settles fuel nodes s' t step.inv f' (λ k m. known k (ground arith))
                (λ k m. ground (
                  arith,
                  step.grows.new_finished k,
                  white k,
                  step.grows.result_stays k,
                  Bool-cases (contains k s.visited),
                ))
                (ground arith)
        ]
      ]

-- On a graph without a cycle each plugin stands in the order before the plugins that it depends on.
pub topological_sort-DependenciesFollow :
    (g : DependencyGraph) (rank : String → ℕ) (order : List String)
    → IsRanked g rank
    → topological_sort g ≡ some (ok order)
    → DependenciesFollow g order
unfolding topological_sort
topological_sort-DependenciesFollow g rank order ranked e =
    let nodes_known = λ (k : String) (m : contains k (sort_ids (ids g)) ≡ true).
      has_key-ids g k (sym (contains-sort_ids k (ids g)) ∙ m) in
    let (t, found) = sort_each_returns g (sort_ids (ids g)) nodes_known in
    let f =
      sort_each_settles g rank ranked (search_fuel g) (sort_ids (ids g)) start t (start-Inv g) tt
        nodes_known (λ k m. m) found in
    let last : reverse t.result ≡ order = ground (arith, detect_cycle-eq-none g) in
    subst (DependenciesFollow g) last f
