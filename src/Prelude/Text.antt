-- ===== src/Prelude/Text.antt =====
-- Functions of Go's `strings` package that the source calls, over the characters of a text. The
-- separators are ASCII, so that cutting at characters is cutting at bytes.
use Prim.Native.Nat.{ℕ, ◌+◌, ◌-◌}
use Prim.Native.Char.{Char, code}
use Prim.Native.String.append
use Prim.Native.String.{String, ◌++◌}
use mathlib.Core.Path.{◌≡◌, refl, sym, subst, ap, ◌∙◌}
use mathlib.Core.Logic.{◌≢◌, inl, inr}
use mathlib.Core.Bool.{Bool, true, false, ◌&&◌}
use mathlib.Core.List.{List, [], ◌∷◌}
use native.Mathlib.Omega.{arith}
use text.Mathlib.TextEquality.{Char-path}
use mathlib.Core.Option.{Option, none, some}
use bindxdb.Prelude.Tests.{nat_eq, leb, ◌==◌, if◌then◌else◌, Bool-cases}
use bindxdb.Prelude.Lists.{List-cases}

-- Puts a character in front of the first part.
abbrev pub onto_first : Char → List String → List String
onto_first c [] = String.◌∷◌ c String.[] ∷ []
onto_first c (p ∷ ps) = String.◌∷◌ c p ∷ ps

-- strings.Split(s, sep) for a separator of one character, given by its number.
unfoldable pub split : ℕ → String → List String
split sep String.[] = "" ∷ []
split sep (String.◌∷◌ c s) =
    let rest = split sep s in if nat_eq (code c) sep then "" ∷ rest else onto_first c rest

-- strings.HasPrefix(s, p)
unfoldable pub has_prefix : String → String → Bool
has_prefix s String.[] = true
has_prefix String.[] (String.◌∷◌ d p) = false
has_prefix (String.◌∷◌ c s) (String.◌∷◌ d p) =
    let rest = has_prefix s p in if nat_eq (code c) (code d) then rest else false

abbrev pub cons_text : Char → Option String → Option String
cons_text c none = none
cons_text c (some s) = some (String.◌∷◌ c s)

-- The text before the suffix, where the text ends in it: strings.HasSuffix and TrimSuffix.
unfoldable pub strip_suffix : String → String → Option String
strip_suffix suffix String.[] = if suffix == "" then some "" else none
strip_suffix suffix (String.◌∷◌ c s) =
    let rest = strip_suffix suffix s in
    if suffix == String.◌∷◌ c s then some "" else cons_text c rest

-- unicode.ToLower and unicode.ToUpper where the answer is an ASCII character; other characters,
-- which no text of the source holds, are left as they are.
abbrev pub lower : ℕ → ℕ
lower c =
    if leb 65 c && leb c 90
    then c + 32
    else if nat_eq c 0x212a
    then 107
    else if nat_eq c 0x130
    then 105
    else c

abbrev pub upper : ℕ → ℕ
upper c =
    if leb 97 c && leb c 122
    then c - 32
    else if nat_eq c 0x131
    then 73
    else if nat_eq c 0x17f
    then 83
    else c

-- Whether a text, with each character taken by `f`, is the other text.
unfoldable pub folds_to : (ℕ → ℕ) → String → String → Bool
folds_to f String.[] String.[] = true
folds_to f (String.◌∷◌ c s) (String.◌∷◌ d t) =
    let rest = folds_to f s t in if nat_eq (f (code c)) (code d) then rest else false
folds_to f _ _ = false

-- No character of the text has the number.
abbrev pub Lacks : ℕ → String → Type 0
Lacks sep String.[] = Unit
Lacks sep (String.◌∷◌ c s) = (code c ≢ sep) × Lacks sep s

split-ne-nil : (sep : ℕ) (s : String) → split sep s ≢ []
unfolding split
split-ne-nil sep String.[] e = cc
split-ne-nil sep (String.◌∷◌ c s) e = elim (List-cases (split sep s)) [
  | inl empty ↦ absurd (split-ne-nil sep s empty)
  | inr (p, ps, q) ↦ ground arith
]

-- A text is split into one part exactly when it lacks the separator.
pub split-one : (sep : ℕ) (s a : String) → split sep s ≡ a ∷ [] → (s ≡ a) × Lacks sep s
unfolding split
split-one sep String.[] a e = (ground arith, tt)
split-one sep (String.◌∷◌ c s) a e = elim (Bool-cases (nat_eq (code c) sep)) [
  | inl same ↦ absurd (split-ne-nil sep s (ground arith))
  | inr other ↦ elim (List-cases (split sep s)) [
    | inl empty ↦ absurd (split-ne-nil sep s empty)
    | inr (p, ps, q) ↦
        let last : ps ≡ [] = ground arith in
        let (same, lacks) = split-one sep s p (q ∙ ap (λ l. p ∷ l) last) in
        (ground arith, (λ eq. ground arith, lacks))
  ]
]

pub split-Lacks : (sep : ℕ) (s : String) → Lacks sep s → split sep s ≡ s ∷ []
unfolding split
split-Lacks sep String.[] h = refl
split-Lacks sep (String.◌∷◌ c s) h = ground (arith, split-Lacks sep s h.1)

-- A text is split into two parts only if it is these parts around the separator.
pub split-two :
    (sep : Char) (s a b : String)
    → split (code sep) s ≡ a ∷ b ∷ []
    → (s ≡ a ++ String.◌∷◌ sep b) × Lacks (code sep) a × Lacks (code sep) b
unfolding split
split-two sep String.[] a b e = cc
split-two sep (String.◌∷◌ c s) a b e = elim (Bool-cases (nat_eq (code c) (code sep))) [
  | inl same ↦
      let (whole, lacks) = split-one (code sep) s b (ground arith) in
      let first : a ≡ "" = ground arith in
      (
        cc (Char-path c sep (ground arith), whole, first, append.nil (String.◌∷◌ sep b)),
        subst (Lacks (code sep)) (sym first) tt,
        subst (Lacks (code sep)) whole lacks,
      )
  | inr other ↦ elim (List-cases (split (code sep) s)) [
    | inl empty ↦ absurd (split-ne-nil (code sep) s empty)
    | inr (p, ps, q) ↦
        let last : ps ≡ b ∷ [] = ground arith in
        let (whole, left, right) = split-two sep s p b (q ∙ ap (λ l. p ∷ l) last) in
        let first : String.◌∷◌ c p ≡ a = ground arith in
        (
          cc (append.cons c p (String.◌∷◌ sep b)),
          subst (Lacks (code sep)) first (λ eq. ground arith, left),
          right,
        )
  ]
]

pub split-join :
    (sep : Char) (a b : String)
    → Lacks (code sep) a
    → Lacks (code sep) b
    → split (code sep) (a ++ String.◌∷◌ sep b) ≡ a ∷ b ∷ []
unfolding split
split-join sep String.[] b h k =
    rw (append.nil (String.◌∷◌ sep b)) (ground (arith, split-Lacks (code sep) b k))
split-join sep (String.◌∷◌ c a) b h k =
    rw (append.cons c a (String.◌∷◌ sep b)) (ground (arith, split-join sep a b h.1 k))

pub single-append : (c : Char) (s : String) → String.◌∷◌ c String.[] ++ s ≡ String.◌∷◌ c s
single-append c s = append.cons c String.[] s ∙ ap (λ t. String.◌∷◌ c t) (append.nil s)
