-- ===== src/Config/Manager/Sources.antt =====
-- The order of the sources under AddSource.
use bindxdb.Prelude.{
  List, [], ◌∷◌, ◌++◌, ◌≡◌, refl, All, All-map, arith, ◌≤ℤ◌, leb_ℤ, leb_ℤ_iff, Bool-cases,
  if◌then◌else◌, inl, inr,
}
use bindxdb.Config.Types.{Source, ConfigManager}
use bindxdb.Config.Manager.{bubble, add_source}

module _ {F : Type 0} where
  -- Each source has at least the priority of those after it.
  abbrev pub Descending : List (Source F) → Type 0
  Descending [] = Unit
  Descending (s ∷ ss) = All (λ (t : Source F). t.priority ≤ℤ s.priority) ss × Descending ss

  -- The source in its place: after the sources of its priority and those of a higher one.
  abbrev pub place : Source F → List (Source F) → List (Source F)
  place s [] = s ∷ []
  place s (t ∷ ts) = if leb_ℤ s.priority t.priority then t ∷ place s ts else s ∷ t ∷ ts

  All-place :
      (P : Source F → Type 0) (s : Source F) (ts : List (Source F))
      → P s
      → All P ts
      → All P (place s ts)
  All-place P s [] p h = (p, tt)
  All-place P s (t ∷ ts) p h = ground (arith, All-place P s ts p h.1)

  place-Descending : (s : Source F) (ts : List (Source F)) → Descending ts → Descending (place s ts)
  place-Descending s [] h = (tt, tt)
  place-Descending s (t ∷ ts) (h, d) = elim (Bool-cases (leb_ℤ s.priority t.priority)) [
    | inl le ↦ rw le (
      All-place (λ (u : Source F). u.priority ≤ℤ t.priority) s ts
          ((leb_ℤ_iff s.priority t.priority).0 le) h,
      place-Descending s ts d,
    )
    | inr gt ↦
        let below : t.priority ≤ℤ s.priority =
          ground (arith, leb_ℤ_iff s.priority t.priority, gt) in
        rw gt (
          (
            below,
            All-map (λ (u : Source F) (q : u.priority ≤ℤ t.priority). ground (arith, q, below)) ts
                h,
          ),
          (h, d),
        )
  ]

  bubble-append :
      (s : Source F) (ts : List (Source F)) → Descending ts → bubble (ts ++ s ∷ []) ≡ place s ts
  unfolding bubble
  bubble-append s [] h = refl
  bubble-append s (t ∷ []) h = ground arith
  bubble-append s (t ∷ u ∷ us) (h, d) = rw (bubble-append s (u ∷ us) d) (ground (arith, h))

  -- On sources in order of descending priority, AddSource puts the new one after the sources of its
  -- own or a higher priority and before the others, and the order still descends.
  pub add_source-place :
      {S W : Type 0} (s : Source F) (m : ConfigManager F S W)
      → Descending m.sources
      → ((add_source s m).sources ≡ place s m.sources) × Descending (add_source s m).sources
  unfolding add_source
  add_source-place s m h = rw (bubble-append s m.sources h) (refl, place-Descending s m.sources h)
