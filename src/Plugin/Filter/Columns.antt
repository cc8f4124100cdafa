-- ===== src/Plugin/Filter/Columns.antt =====
-- What GetUsedColumns returns.
use bindxdb.Prelude.{
  String, Bool, true, ◌≡◌, ◌≢◌, ◌↔◌, ◌⊎◌, inl, inr, List, [], ◌∷◌, ◌++◌, has_key, has_key-insert,
  has_key-nil, eq_iff, arith, Any, Distinct, Bool-cases, All-append, sym, Any-append_cases,
  Any-append_left, Any-append_right,
}
use bindxdb.Plugin.Filter.{
  Filters, composite, nil, cons, Gathered, gather_one, gather, get_used_columns, gather_all,
}

-- The column stands in the list.
abbrev pub In : String → List String → Type 0
In c cols = Any (λ k. k ≡ c) cols

-- Some filter of the list uses the column.
abbrev pub Uses : {F : Type 0} → String → Filters F → Type 0
Uses c nil = ⊥
Uses c (cons f fs) = In c (get_used_columns f) ⊎ Uses c fs

record Inv (g : Gathered) : Type 0 where
  distinct : Distinct g.columns
  tracked : (c : String) → (has_key c g.seen ≡ true) ↔ In c g.columns

Distinct-append_new :
    (cols : List String) (c : String) → Distinct cols → ¬ In c cols → Distinct (cols ++ c ∷ [])
Distinct-append_new [] c d absent = (tt, tt)
Distinct-append_new (k ∷ cols) c d absent = (
  All-append (λ y. y ≢ k) cols (c ∷ []) d.0 ((λ e. absent (inl (sym e))), tt),
  Distinct-append_new cols c d.1 (λ m. absent (inr m)),
)

gather_one-Inv : (g : Gathered) (c : String) → Inv g → Inv (gather_one g c)
unfolding gather_one
gather_one-Inv g c h = elim (Bool-cases (has_key c g.seen)) [
  | inl old ↦ rw (old, gather_one) h
  | inr new ↦
      rw (new, gather_one)
        (record {
          distinct = Distinct-append_new g.columns c h.distinct (λ m. cc ((h.tracked c).1 m));
          tracked = λ k. (
            λ e. elim (Bool-cases (has_key k g.seen)) [
              | inl before ↦ Any-append_left _ g.columns _ ((h.tracked k).0 before)
              | inr after ↦
                  Any-append_right _ g.columns _
                    (inl (ground (arith, has_key-insert c k true g.seen, eq_iff c k)))
            ],
            λ m. elim (Any-append_cases (λ j. j ≡ k) g.columns (c ∷ []) m) [
              | inl before ↦ ground (arith, (h.tracked k).1 before, has_key-insert c k true g.seen)
              | inr last ↦ ground (arith, has_key-insert c k true g.seen, eq_iff c k)
            ],
          );
        })
]

gather_one_iff :
    (g : Gathered) (c k : String)
    → Inv g
    → In k (gather_one g c).columns ↔ (In k g.columns ⊎ (c ≡ k))
unfolding gather_one
gather_one_iff g c k h = elim (Bool-cases (has_key c g.seen)) [
  | inl old ↦
      rw (old, gather_one) (λ m. inl m, elim [ inl m ↦ m | inr e ↦ (h.tracked k).0 (rw e at old) ])
  | inr new ↦
      rw (new, gather_one)
        (
          λ m. elim (Any-append_cases (λ j. j ≡ k) g.columns (c ∷ []) m) [
            | inl before ↦ inl before
            | inr last ↦ inr (ground arith)
          ],
          elim [
            | inl m ↦ Any-append_left _ g.columns _ m
            | inr e ↦ Any-append_right _ g.columns _ (inl e)
          ],
        )
]

gather-Inv : (g : Gathered) (cols : List String) → Inv g → Inv (gather g cols)
unfolding gather
gather-Inv g [] h = h
gather-Inv g (c ∷ cols) h = gather-Inv (gather_one g c) cols (gather_one-Inv g c h)

gather_iff :
    (g : Gathered) (cols : List String) (k : String)
    → Inv g
    → In k (gather g cols).columns ↔ (In k g.columns ⊎ In k cols)
unfolding gather
gather_iff g [] k h = (λ m. inl m, elim [ inl m ↦ m | inr e ↦ absurd e ])
gather_iff g (c ∷ cols) k h =
    ground
      (arith, gather_iff (gather_one g c) cols k (gather_one-Inv g c h), gather_one_iff g c k h)

gather_all-Inv : {F : Type 0} (g : Gathered) (fs : Filters F) → Inv g → Inv (gather_all g fs)
unfolding get_used_columns gather_all
gather_all-Inv g nil h = h
gather_all-Inv g (cons f fs) h =
    gather_all-Inv (gather g (get_used_columns f)) fs (gather-Inv g (get_used_columns f) h)

gather_all_iff :
    {F : Type 0} (g : Gathered) (fs : Filters F) (k : String)
    → Inv g
    → In k (gather_all g fs).columns ↔ (In k g.columns ⊎ Uses k fs)
unfolding get_used_columns gather_all
gather_all_iff g nil k h = (λ m. inl m, elim [ inl m ↦ m | inr e ↦ absurd e ])
gather_all_iff g (cons f fs) k h = ground (
  arith,
  gather_all_iff (gather g (get_used_columns f)) fs k (gather-Inv g (get_used_columns f) h),
  gather_iff g (get_used_columns f) k h,
)

abbrev start : Gathered
start = record { columns = []; seen = [] }

start-Inv : Inv start
start-Inv = record { distinct = tt; tracked = λ c. (λ e. cc (has_key-nil Bool c), λ m. absurd m) }

-- A composite filter reports each column once, and exactly the columns that one of its filters uses.
pub get_used_columns_lem :
    {F : Type 0} (fs : Filters F) (and : Bool)
    → Distinct (get_used_columns (composite fs and))
      × ((c : String) → In c (get_used_columns (composite fs and)) ↔ Uses c fs)
unfolding get_used_columns
get_used_columns_lem fs and = (
  (gather_all-Inv start fs start-Inv).distinct,
  λ c. ground (arith, gather_all_iff start fs c start-Inv),
)
