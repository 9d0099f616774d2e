-- ===== src/Common/Text.antt =====
-- `strings.TrimSpace`, `strings.TrimPrefix` and texts as lists of characters.
use Prim.Native.Nat.{ℕ}
use Prim.Native.Char.{Char, code}
use Prim.Native.String.{String}
use mathlib.Core.Path.{◌≡◌, refl, sym, ap, ◌∙◌, subst}
use mathlib.Core.Logic.{inl, inr}
use mathlib.Core.Bool.{Bool, true, false, ◌&&◌, ◌||◌}
use mathlib.Core.Option.{Option, none, some}
use job_manager_quorum.Common.Tests.{Bool-cases, leb, ◌==◌, if◌then◌else◌}

-- `unicode.IsSpace`
unfoldable pub is_space : ℕ → Bool
is_space c =
    (leb 9 c && leb c 13)
    || c == 32
    || c == 0x85
    || c == 0xa0
    || c == 0x1680
    || (leb 0x2000 c && leb c 0x200a)
    || c == 0x2028
    || c == 0x2029
    || c == 0x202f
    || c == 0x205f
    || c == 0x3000

unfoldable pub trim_left : String → String
unfolding is_space
trim_left String.[] = ""
trim_left (String.◌∷◌ c s) =
    let rest = trim_left s in if is_space (code c) then rest else String.◌∷◌ c s

-- What is left of a character and of the trimmed text behind it.
keep_char : Char → String → String
unfolding is_space
keep_char c String.[] = if is_space (code c) then "" else String.◌∷◌ c ""
keep_char c (String.◌∷◌ d s) = String.◌∷◌ c (String.◌∷◌ d s)

unfoldable pub trim_right : String → String
unfolding keep_char
trim_right String.[] = ""
trim_right (String.◌∷◌ c s) = keep_char c (trim_right s)

unfoldable pub trim_space : String → String
unfolding trim_left trim_right
trim_space s = trim_right (trim_left s)

-- The text is empty, or its first character is no space.
abbrev StartsDark : String → Type 0
StartsDark String.[] = Unit
StartsDark (String.◌∷◌ c s) = is_space (code c) ≡ false

trim_left-StartsDark : (s : String) → StartsDark (trim_left s)
unfolding trim_left
trim_left-StartsDark String.[] = tt
trim_left-StartsDark (String.◌∷◌ c s) = elim (Bool-cases (is_space (code c))) [
  | inl blank ↦ rw (blank, trim_left) (trim_left-StartsDark s)
  | inr dark ↦ rw (dark, trim_left) dark
]

trim_left-dark : (s : String) → StartsDark s → trim_left s ≡ s
unfolding trim_left
trim_left-dark String.[] h = refl
trim_left-dark (String.◌∷◌ c s) h = rw h refl

keep_char-last :
    (c : Char) (b : Bool)
    → is_space (code c) ≡ b
    → keep_char c "" ≡ (if b then "" else String.◌∷◌ c "")
unfolding keep_char
keep_char-last c b h = ap (λ t. if t then "" else String.◌∷◌ c "") h

keep_char-StartsDark :
    (c : Char) (s : String) → is_space (code c) ≡ false → StartsDark (keep_char c s)
unfolding keep_char
keep_char-StartsDark c String.[] h = subst StartsDark (sym (keep_char-last c false h)) h
keep_char-StartsDark c (String.◌∷◌ d s) h = h

trim_right-StartsDark : (s : String) → StartsDark s → StartsDark (trim_right s)
unfolding trim_right
trim_right-StartsDark String.[] h = tt
trim_right-StartsDark (String.◌∷◌ c s) h = keep_char-StartsDark c (trim_right s) h

trim_right-keep_char :
    (c : Char) (s : String) → trim_right s ≡ s → trim_right (keep_char c s) ≡ keep_char c s
unfolding trim_right keep_char
trim_right-keep_char c String.[] h = elim (Bool-cases (is_space (code c))) [
  | inl blank ↦ ap trim_right (keep_char-last c true blank) ∙ sym (keep_char-last c true blank)
  | inr dark ↦ ap trim_right (keep_char-last c false dark)
]
trim_right-keep_char c (String.◌∷◌ d s) h = ap (keep_char c) h

trim_right-twice : (s : String) → trim_right (trim_right s) ≡ trim_right s
unfolding trim_right
trim_right-twice String.[] = refl
trim_right-twice (String.◌∷◌ c s) = trim_right-keep_char c (trim_right s) (trim_right-twice s)

-- A trimmed text is trimmed.
pub trim_space-twice : (s : String) → trim_space (trim_space s) ≡ trim_space s
unfolding trim_space
trim_space-twice s =
    ap trim_right (
      trim_left-dark (trim_right (trim_left s))
        (trim_right-StartsDark (trim_left s) (trim_left-StartsDark s)))
    ∙ trim_right-twice (trim_left s)

-- The text behind a prefix, if it begins with it.
unfoldable pub after_prefix : String → String → Option String
after_prefix String.[] s = some s
after_prefix (String.◌∷◌ c p) String.[] = none
after_prefix (String.◌∷◌ c p) (String.◌∷◌ d s) =
    let rest = after_prefix p s in if code c == code d then rest else none

abbrev or_else : String → Option String → String
or_else s none = s
or_else s (some t) = t

unfoldable pub trim_prefix : String → String → String
unfolding after_prefix
trim_prefix prefix s = or_else s (after_prefix prefix s)

trims : trim_space "  a b " ≡ "a b"
unfolding trim_space
trims = refl

trims_prefix : trim_prefix "/a/" "/a/7" ≡ "7"
unfolding trim_prefix
trims_prefix = refl
