-- ===== src/Plugin/Graph/Search.antt =====
-- What the search of TopologicalSort leaves as it was, and what it adds, on any graph.
use mathlib.Core.List.{reverse, reverse-append}
use bindxdb.Prelude.{
  ℕ, zero, suc, String, true, false, not, ◌&&◌, ◌≡◌, inl, inr, refl, Option, some, List, [], ◌∷◌,
  arith, contains, contains-append, contains-reverse, has_key, Unrepeated, eq_iff, eq_self,
  Bool-cases, Option-cases,
}
use bindxdb.Plugin.Graph.{
  DependencyGraph, Sorting, edges, sort_deps, append_result, topological_sort_dfs, sort_each, mark,
  finish,
}

-- Nothing is finished twice, what is finished is marked, and only nodes of the graph are marked.
pub record Inv (g : DependencyGraph) (s : Sorting) : Type 0 where
  pub unrepeated : Unrepeated (reverse s.result)
  pub marked : (k : String) → contains k s.result ≡ true → contains k s.visited ≡ true
  pub known : (k : String) → contains k s.visited ≡ true → has_key k g ≡ true

-- From `s` to `t` marks stay, finished ids stay, and exactly the newly marked ids are finished.
pub record Grows (s t : Sorting) : Type 0 where
  pub visited_stays : (k : String) → contains k s.visited ≡ true → contains k t.visited ≡ true
  pub result_stays : (k : String) → contains k s.result ≡ true → contains k t.result ≡ true
  pub new_finished :
      (k : String)
      → contains k t.visited ≡ true
      → contains k s.visited ≡ false
      → contains k t.result ≡ true
  pub finished_new :
      (k : String)
      → contains k t.result ≡ true
      → contains k s.result ≡ false
      → contains k s.visited ≡ false

pub Grows-refl : (s : Sorting) → Grows s s
Grows-refl s = record {
  visited_stays = λ k h. h;
  result_stays = λ k h. h;
  new_finished = λ k h n. cc;
  finished_new = λ k h n. cc;
}

pub Grows-trans : {s t u : Sorting} → Grows s t → Grows t u → Grows s u
Grows-trans {s} {t} {u} a b = record {
  visited_stays = λ k h. b.visited_stays k (a.visited_stays k h);
  result_stays = λ k h. b.result_stays k (a.result_stays k h);
  new_finished = λ k h n. elim (Bool-cases (contains k t.visited)) [
    | inl before ↦ b.result_stays k (a.new_finished k before n)
    | inr after ↦ b.new_finished k h after
  ];
  finished_new = λ k h n. elim (Bool-cases (contains k t.result)) [
    | inl before ↦ a.finished_new k before n
    | inr after ↦ ground (arith, b.finished_new k h after, a.visited_stays k)
  ];
}

-- What one search keeps and reaches.
pub record Finishes (g : DependencyGraph) (id : String) (s t : Sorting) : Type 0 where
  pub inv : Inv g t
  pub grows : Grows s t
  pub finished : contains id t.result ≡ true

abbrev pub SearchOk : DependencyGraph → (String → Sorting → Option Sorting) → Type 0
SearchOk g search =
    (id : String) (s t : Sorting)
    → Inv g s
    → has_key id g ≡ true
    → contains id s.visited ≡ false
    → search id s ≡ some t
    → Finishes g id s t

pub mark-Inv :
    (g : DependencyGraph) (id : String) (s : Sorting)
    → has_key id g ≡ true
    → Inv g s
    → Inv g (mark id s)
unfolding mark contains
mark-Inv g id s here h = record {
  unrepeated = h.unrepeated;
  marked = λ k m. ground (arith, h.marked k m);
  known = λ k m. ground (arith, h.known k, eq_iff id k);
}

module _ (g : DependencyGraph) (id : String) (s t : Sorting) (inv : Inv g s)
    (new : contains id s.visited ≡ false) (inv' : Inv g t) (grows : Grows (mark id s) t) where
  finish-fresh : contains id t.result ≡ false
  unfolding mark contains
  finish-fresh = ground (
    arith,
    grows.finished_new id,
    inv.marked id,
    eq_self id,
    Bool-cases (contains id t.result),
    Bool-cases (contains id s.result),
  )

  finish-Finishes : Finishes g id s (finish id t)
  unfolding finish mark contains
  finish-Finishes = record {
    inv = record {
      unrepeated =
          rw (reverse-append t.result (id ∷ []))
            ((rw contains-reverse finish-fresh), inv'.unrepeated);
      marked = λ k m. ground (
        arith,
        contains-append k t.result (id ∷ []),
        inv'.marked k,
        grows.visited_stays k,
        eq_iff id k,
        eq_self id,
      );
      known = λ k m. inv'.known k m;
    };
    grows = record {
      visited_stays = λ k h. ground (arith, grows.visited_stays k);
      result_stays =
          λ k h. ground (arith, grows.result_stays k, contains-append k t.result (id ∷ []));
      new_finished = λ k h n.
          ground (arith, grows.new_finished k, contains-append k t.result (id ∷ []), eq_iff id k);
      finished_new = λ k h n.
          ground
            (arith, grows.finished_new k, contains-append k t.result (id ∷ []), eq_iff id k, new);
    };
    finished = ground (arith, contains-append id t.result (id ∷ []), eq_self id);
  }

module _ (g : DependencyGraph) where
  pub sort_deps_keeps :
      (search : String → Sorting → Option Sorting)
      → SearchOk g search
      → (deps : List String) (s t : Sorting) → Inv g s
      → sort_deps search g deps s ≡ some t
      → Inv g t × Grows s t
  unfolding sort_deps
  sort_deps_keeps search good [] s t h e =
      let same : s ≡ t = ground arith in (rw (← same) h, rw (← same) (Grows-refl s))
  sort_deps_keeps search good (dep ∷ deps) s t h e =
      elim (Bool-cases (has_key dep g && not (contains dep s.visited))) [
        | inr skip ↦ sort_deps_keeps search good deps s t h (rw (skip, sort_deps) at e)
        | inl take ↦ elim (Option-cases (search dep s)) [
          | inl stuck ↦ ground arith
          | inr (s', found) ↦
              let step = good dep s s' h (ground arith) (ground arith) found in
              let (inv, grows) = sort_deps_keeps search good deps s' t step.inv (ground arith) in
              (inv, Grows-trans step.grows grows)
        ]
      ]

  -- A search that returns has run its loop from the marked state.
  pub topological_sort_dfs_cases :
      (fuel : ℕ) (id : String) (s t : Sorting)
      → topological_sort_dfs (suc fuel) g id s ≡ some t
      → (s' : Sorting) × (sort_deps (topological_sort_dfs fuel g) g (edges g id) (mark id s)
          ≡ some s')
        × (finish id s' ≡ t)
  unfolding topological_sort_dfs append_result mark finish
  topological_sort_dfs_cases fuel id s t e =
      elim (Option-cases (sort_deps (topological_sort_dfs fuel g) g (edges g id) (mark id s))) [
        | inl stuck ↦ ground arith
        | inr (s', found) ↦ (s', found, ground arith)
      ]

  pub topological_sort_dfs_returns :
      (fuel : ℕ) (id : String) (s s' : Sorting)
      → sort_deps (topological_sort_dfs fuel g) g (edges g id) (mark id s) ≡ some s'
      → topological_sort_dfs (suc fuel) g id s ≡ some (finish id s')
  unfolding topological_sort_dfs append_result
  topological_sort_dfs_returns fuel id s s' found =
      rw (found, topological_sort_dfs, append_result) refl

  pub topological_sort_dfs_keeps : (fuel : ℕ) → SearchOk g (topological_sort_dfs fuel g)
  topological_sort_dfs_keeps zero id s t h here new e = unfold topological_sort_dfs in ground arith
  topological_sort_dfs_keeps (suc fuel) id s t h here new e =
      let (s', found, last) = topological_sort_dfs_cases fuel id s t e in
      let (inv, grows) =
        sort_deps_keeps (topological_sort_dfs fuel g) (topological_sort_dfs_keeps fuel) (edges g id)
          (mark id s) s' (mark-Inv g id s here h) found in
      rw (← last) (finish-Finishes g id s s' h new inv grows)

  -- The loop over all nodes keeps the invariant and finishes each of them.
  pub sort_each_keeps :
      (fuel : ℕ) (nodes : List String) (s t : Sorting)
      → Inv g s
      → ((k : String) → contains k nodes ≡ true → has_key k g ≡ true)
      → ((k : String) → contains k s.visited ≡ true → contains k s.result ≡ true)
      → sort_each fuel g nodes s ≡ some t
      → Inv g t
        × Grows s t
        × ((k : String) → contains k t.visited ≡ true → contains k t.result ≡ true)
        × ((k : String) → contains k nodes ≡ true → contains k t.result ≡ true)
  unfolding sort_each contains
  sort_each_keeps fuel [] s t h nodes_known white e =
      let same : s ≡ t = ground arith in
      (rw (← same) h, rw (← same) (Grows-refl s), rw (← same) white, λ k m. cc)
  sort_each_keeps fuel (id ∷ nodes) s t h nodes_known white e =
      elim (Bool-cases (contains id s.visited)) [
        | inl old ↦
            let (inv, grows, white', all) =
              sort_each_keeps fuel nodes s t h (λ k m. nodes_known k (ground arith)) white
                (rw (old, sort_each) at e) in
            (
              inv,
              grows,
              white',
              λ k m. ground (arith, all k, eq_iff id k, grows.result_stays k, white k),
            )
        | inr new ↦ elim (Option-cases (topological_sort_dfs fuel g id s)) [
          | inl stuck ↦ ground arith
          | inr (s', found) ↦
              let step =
                topological_sort_dfs_keeps fuel id s s' h
                  (nodes_known id (ground (arith, eq_self id))) new found in
              let (inv, grows, white', all) =
                sort_each_keeps fuel nodes s' t step.inv (λ k m. nodes_known k (ground arith))
                  (λ k m. ground (
                    arith,
                    step.grows.new_finished k,
                    white k,
                    step.grows.result_stays k,
                    Bool-cases (contains k s.visited),
                  ))
                  (ground arith) in
              (
                inv,
                Grows-trans step.grows grows,
                white',
                λ k m. ground (arith, all k, eq_iff id k, grows.result_stays k, step.finished),
              )
        ]
      ]
