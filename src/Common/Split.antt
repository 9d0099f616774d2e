-- ===== src/Common/Split.antt =====
-- `strings.Split`, `strings.SplitN` with 2, and `strings.EqualFold`.
use Prim.Native.Nat.{ℕ, ◌+◌}
use Prim.Native.Char.{Char, code}
use Prim.Native.String
use Prim.Native.String.{String}
use text.Mathlib.TextLemmas.{nil-append, cons-append}
use mathlib.Core.Path.{◌≡◌, refl, ap, ◌∙◌}
use mathlib.Core.Bool.{Bool, true, false, ◌&&◌}
use mathlib.Core.Option.{Option, none, some}
use mathlib.Core.List.{List, [], ◌∷◌}
use native.Mathlib.Omega.{arith}
use job_manager_quorum.Common.Tests.{leb, ◌==◌, if◌then◌else◌}

-- A character in front of the first of some texts.
abbrev with_first : Char → List String → List String
with_first c [] = String.◌∷◌ c "" ∷ []
with_first c (p ∷ ps) = String.◌∷◌ c p ∷ ps

-- The separator is one character, by its code point.
unfoldable pub split : ℕ → String → List String
split sep String.[] = "" ∷ []
split sep (String.◌∷◌ c s) =
    let rest = split sep s in if code c == sep then "" ∷ rest else with_first c rest

-- The texts before and behind the first separator.
unfoldable pub split_once : ℕ → String → Option (String × String)
split_once sep String.[] = none
split_once sep (String.◌∷◌ c s) =
    let rest = split_once sep s in
    if code c == sep
    then some ("", s)
    else elim rest [ none ↦ none | some p ↦ some (String.◌∷◌ c p.0, p.1) ]

abbrev lower : ℕ → ℕ
lower c = if leb b'A' c && leb c b'Z' then c + 32 else c

-- For texts of which one has only ASCII letters other than K and S: no others fold to these.
unfoldable pub equal_fold : String → String → Bool
equal_fold String.[] String.[] = true
equal_fold String.[] (String.◌∷◌ d t) = false
equal_fold (String.◌∷◌ c s) String.[] = false
equal_fold (String.◌∷◌ c s) (String.◌∷◌ d t) = lower (code c) == lower (code d) && equal_fold s t

-- No character of the text is the separator.
abbrev pub Lacks : ℕ → String → Type 0
Lacks sep String.[] = Unit
Lacks sep (String.◌∷◌ c s) = ((code c == sep) ≡ false) × Lacks sep s

pub split-Lacks : (sep : ℕ) (p : String) → Lacks sep p → split sep p ≡ p ∷ []
unfolding split
split-Lacks sep String.[] h = refl
split-Lacks sep (String.◌∷◌ c p) (h, hs) = rw (h, split-Lacks sep p hs) refl

pub split-append :
    (p : String) (c : Char) (s : String)
    → Lacks (code c) p
    → split (code c) (String.◌++◌ p (String.◌∷◌ c s)) ≡ p ∷ split (code c) s
unfolding split
split-append String.[] c s h = ap (split (code c)) (nil-append (String.◌∷◌ c s)) ∙ ground arith
split-append (String.◌∷◌ d p) c s (h, hs) =
    ap (split (code c)) (cons-append d p (String.◌∷◌ c s)) ∙ rw (h, split-append p c s hs) refl

splits : split b'.' "ab.c." ≡ "ab" ∷ "c" ∷ "" ∷ []
unfolding split
splits = refl

cuts : split_once b' ' "bearer a b" ≡ some ("bearer", "a b")
unfolding split_once
cuts = refl

folds : equal_fold "bEARER" "Bearer" ≡ true
unfolding equal_fold
folds = refl
