-- ===== src/Plugin/Graph/Cycles.antt =====
-- What DetectCycle returns.
use bindxdb.Prelude.{
  ℕ, zero, suc, ◌<◌, String, true, false, ◌≡◌, inl, inr, refl, ◌∙◌, Option, some, List, [], ◌∷◌,
  ◌++◌, arith, contains, length, lookup, has_key, eq_iff, eq_self, ◌==◌, Bool-cases, Option-cases,
  if◌then◌else◌, ok,
}
use bindxdb.Plugin.Graph.{
  DependencyGraph, Marks, Found, edges, ids, search_fuel, unset, cycle_from, detect_deps, settle,
  detect_cycles_dfs, detect_each, detect_cycle, is_nil,
}
use bindxdb.Plugin.Graph.Fuel.{
  unmarked, unmarked-le-length, unmarked_mono, unmarked-mark, contains-ids,
}

abbrev Search : Type 0
Search = String → List String → Marks → Option Found

contains-unset :
    (id k : String) (l : List String)
    → contains k (unset id l) ≡ (if id == k then false else contains k l)
unfolding unset contains
contains-unset id k [] = ground arith
contains-unset id k (j ∷ l) =
    ground (arith, contains-unset id k l, eq_iff j id, eq_iff id k, eq_iff j k)

-- A search that finds no cycle leaves the `TempVisit` flags as it found them.
abbrev Restores : Search → Type 0
Restores search =
    (id : String) (path : List String) (m m' : Marks)
    → search id path m ≡ some ([], m')
    → (k : String) → contains k m'.temp_visit ≡ contains k m.temp_visit

-- `TempVisit` set at a node.
abbrev enter : String → Marks → Marks
enter id m = record m { temp_visit = id ∷ m.temp_visit }

module _ (g : DependencyGraph) where
  detect_deps-Restores :
      (search : Search)
      → Restores search
      → (deps path : List String) (m m' : Marks) → detect_deps search g deps path m ≡ some ([], m')
      → (k : String) → contains k m'.temp_visit ≡ contains k m.temp_visit
  unfolding detect_deps
  detect_deps-Restores search keep [] path m m' e k = ground arith
  detect_deps-Restores search keep (dep ∷ deps) path m m' e k = elim (Bool-cases (has_key dep g)) [
    | inr skip ↦ detect_deps-Restores search keep deps path m m' (rw (skip, detect_deps) at e) k
    | inl take ↦ elim (Option-cases (search dep path m)) [
      | inl stuck ↦ ground arith
      | inr (([], m''), found) ↦
          detect_deps-Restores search keep deps path m'' m' (ground arith) k
          ∙ keep dep path m m'' found k
      | inr ((c ∷ cs, m''), found) ↦ ground arith
    ]
  ]

  detect_cycles_dfs-Restores : (fuel : ℕ) → Restores (detect_cycles_dfs fuel g)
  unfolding detect_cycles_dfs settle contains
  detect_cycles_dfs-Restores zero id path m m' e k = ground arith
  detect_cycles_dfs-Restores (suc fuel) id path m m' e k =
      elim (Bool-cases (contains id m.temp_visit)) [
        | inl again ↦ ground arith
        | inr new ↦ elim (Bool-cases (contains id m.visited)) [
          | inl old ↦ ground arith
          | inr unseen ↦
              elim (Option-cases (
                detect_deps (detect_cycles_dfs fuel g) g (edges g id) (path ++ id ∷ [])
                  (enter id m))) [
                    | inl stuck ↦ ground arith
                    | inr (([], m''), found) ↦ ground (
                      arith,
                      detect_deps-Restores (detect_cycles_dfs fuel g)
                          (detect_cycles_dfs-Restores fuel) (edges g id) (path ++ id ∷ [])
                          (enter id m) m'' found k,
                      contains-unset id k m''.temp_visit,
                      eq_iff id k,
                    )
                    | inr ((c ∷ cs, m''), found) ↦ ground arith
                  ]
        ]
      ]

  abbrev left : Marks → ℕ
  left m = unmarked (ids g) m.temp_visit

  -- With fuel `n` a search of a node returns.
  abbrev Ends : ℕ → Search → Type 0
  Ends n search =
      (id : String) (path : List String) (m : Marks)
      → left m < n
      → has_key id g ≡ true
      → (r : Found) × (search id path m ≡ some r)

  detect_deps-Ends :
      (n : ℕ) (search : Search)
      → Restores search
      → Ends n search
      → (deps path : List String) (m : Marks) → left m < n
      → (r : Found) × (detect_deps search g deps path m ≡ some r)
  unfolding detect_deps
  detect_deps-Ends n search keep ends [] path m h = (([], m), refl)
  detect_deps-Ends n search keep ends (dep ∷ deps) path m h = elim (Bool-cases (has_key dep g)) [
    | inr skip ↦
        let (r, e) = detect_deps-Ends n search keep ends deps path m h in
        (r, rw (skip, detect_deps) e)
    | inl take ↦ elim (Option-cases (search dep path m)) [
      | inl stuck ↦ let (r, e) = ends dep path m h take in ground arith
      | inr (([], m'), found) ↦
          let fewer =
            unmarked_mono (ids g) m.temp_visit m'.temp_visit
              (λ k t. keep dep path m m' found k ∙ t) in
          let (r, e) = detect_deps-Ends n search keep ends deps path m' (omega arith) in
          (r, ground arith)
      | inr ((c ∷ cs, m'), found) ↦ ((c ∷ cs, m'), ground arith)
    ]
  ]

  settle-some : (id : String) (r : Found) → (r' : Found) × (settle id (some r) ≡ some r')
  unfolding settle
  settle-some id ([], m) = (_, refl)
  settle-some id (c ∷ cs, m) = (_, refl)

  detect_cycles_dfs-Ends : (fuel : ℕ) → Ends fuel (detect_cycles_dfs fuel g)
  unfolding detect_cycles_dfs
  detect_cycles_dfs-Ends zero id path m h known = elim h [ ]
  detect_cycles_dfs-Ends (suc fuel) id path m h known =
      elim (Bool-cases (contains id m.temp_visit)) [
        | inl again ↦ ((cycle_from id path, m), rw (again, detect_cycles_dfs) refl)
        | inr new ↦ elim (Bool-cases (contains id m.visited)) [
          | inl old ↦ (([], m), ground arith)
          | inr unseen ↦
              let room = unmarked-mark (ids g) m.temp_visit id (contains-ids g id known) new in
              let (r, found) =
                detect_deps-Ends fuel (detect_cycles_dfs fuel g) (detect_cycles_dfs-Restores fuel)
                  (detect_cycles_dfs-Ends fuel) (edges g id) (path ++ id ∷ []) (enter id m)
                  (omega arith) in
              let (r', settled) = settle-some id r in (r', ground arith)
        ]
      ]

  detect_each_finds_none :
      (fuel : ℕ) (nodes cycle : List String) (m : Marks)
      → length (ids g) < fuel
      → ((k : String) → contains k nodes ≡ true → has_key k g ≡ true)
      → (m' : Marks) × (detect_each fuel g nodes cycle m ≡ some (cycle, m'))
  unfolding detect_each contains
  detect_each_finds_none fuel [] cycle m h known = (m, refl)
  detect_each_finds_none fuel (id ∷ nodes) cycle m h known =
      elim (Bool-cases (contains id m.visited)) [
        | inl old ↦
            let (m', e) =
              detect_each_finds_none fuel nodes cycle m h (λ k t. known k (ground arith)) in
            (m', rw (old, detect_each) e)
        | inr new ↦
            let here : has_key id g ≡ true = known id (ground (arith, eq_self id)) in
            let ((inner, m₁), found) =
              detect_cycles_dfs-Ends fuel id [] m
                (omega (arith, unmarked-le-length (ids g) m.temp_visit)) here in
            let (m', e) =
              detect_each_finds_none fuel nodes cycle m₁ h (λ k t. known k (ground arith)) in
            (m', ground arith)
      ]

pub has_key-ids :
    (g : DependencyGraph) (k : String) → contains k (ids g) ≡ true → has_key k g ≡ true
unfolding has_key lookup contains
has_key-ids [] k h = cc
has_key-ids ((id, node) ∷ g) k h = ground (arith, has_key-ids g k)

-- DetectCycle returns on every graph, and reports that there is no cycle, also where there is one:
-- the loop assigns a variable of its own that hides the result.
pub detect_cycle-eq-none : (g : DependencyGraph) → detect_cycle g ≡ some (ok [])
unfolding detect_cycle is_nil
detect_cycle-eq-none g =
    let (m', e) =
      detect_each_finds_none g (search_fuel g) (ids g) [] (record { visited = []; temp_visit = [] })
        (omega arith) (has_key-ids g) in
    ground arith
