-- ===== src/Common/Numerals.antt =====
-- `strconv.Atoi`, `strconv.Itoa`, `strings.Fields` and `strings.TrimPrefix`.
use Prim.Native.Nat.{ℕ, zero, suc, ◌+◌, ◌*◌, ◌-◌, ◌^◌, ◌/◌, ◌%◌, ◌<◌}
use Prim.Native.Char.{Char, code}
use Prim.Native.String
use Prim.Native.String.{String}
use text.Mathlib.TextLemmas.{cons≢nil}
use mathlib.Core.Path.{◌≡◌, refl, ap, ◌∙◌, subst}
use mathlib.Core.Bool.{Bool, true, false, ◌&&◌}
use mathlib.Core.Logic.{◌≢◌, inl, inr}
use native.Mathlib.Omega.{arith}
use mathlib.Core.Option.{Option, none, some}
use mathlib.Core.List.{List, [], ◌∷◌}
use job_manager_quorum.Common.Tests.{ltb, leb, ltb→lt, Bool-cases, ◌==◌, if◌then◌else◌}
use job_manager_quorum.Common.Int.{ℤ, pos, negsuc}
use job_manager_quorum.Common.Text.{is_space}

-- The value of a text of decimal digits behind a value, if it is one.
unfoldable pub digits_value : String → ℕ → Option ℕ
digits_value String.[] n = some n
digits_value (String.◌∷◌ c s) n =
    let rest = digits_value s (n * 10 + (code c - b'0')) in
    if leb b'0' (code c) && leb (code c) b'9' then rest else none

unfoldable pub unsigned : String → Option ℕ
unfolding digits_value
unsigned String.[] = none
unsigned (String.◌∷◌ c s) = digits_value (String.◌∷◌ c s) 0

abbrev pub negated : ℕ → ℤ
negated zero = pos 0
negated (suc n) = negsuc n

-- An int of 64 bits; a text that stands for a larger number is an error.
abbrev pub in_range : Bool → Option ℕ → Option ℤ
in_range negative none = none
in_range true (some n) = if leb n (2 ^ 63) then some (negated n) else none
in_range false (some n) = if ltb n (2 ^ 63) then some (pos n) else none

unfoldable pub atoi : String → Option ℤ
unfolding unsigned
atoi String.[] = none
atoi (String.◌∷◌ c s) =
    if code c == b'-'
    then in_range true (unsigned s)
    else if code c == b'+'
    then in_range false (unsigned s)
    else in_range false (unsigned (String.◌∷◌ c s))

abbrev flush : String → List String → List String
flush String.[] words = words
flush (String.◌∷◌ c s) words = String.◌∷◌ c s ∷ words

words_from : String → String → List String
unfolding is_space
words_from word String.[] = flush word []
words_from word (String.◌∷◌ c s) =
    let closed = words_from "" s in
    let longer = words_from (String.◌++◌ word (String.◌∷◌ c "")) s in
    if is_space (code c) then flush word closed else longer

unfoldable pub fields : String → List String
unfolding words_from
fields s = words_from "" s

-- The text behind `*/`, if it begins so.
unfoldable pub after_star_slash : String → Option String
after_star_slash String.[] = none
after_star_slash (String.◌∷◌ c String.[]) = none
after_star_slash (String.◌∷◌ c (String.◌∷◌ d s)) =
    if code c == b'*' && code d == b'/' then some s else none

-- `strconv.Itoa`, for numbers that are not negative.
digit : ℕ → Char
digit zero = "0"
digit (suc zero) = "1"
digit (suc (suc zero)) = "2"
digit (suc (suc (suc zero))) = "3"
digit (suc (suc (suc (suc zero)))) = "4"
digit (suc (suc (suc (suc (suc zero))))) = "5"
digit (suc (suc (suc (suc (suc (suc zero)))))) = "6"
digit (suc (suc (suc (suc (suc (suc (suc zero))))))) = "7"
digit (suc (suc (suc (suc (suc (suc (suc (suc zero)))))))) = "8"
digit (suc (suc (suc (suc (suc (suc (suc (suc (suc n))))))))) = "9"

-- The digits of a number in front of a text; the fuel is above the number.
emit : ℕ → ℕ → String → String
unfolding digit
emit zero n out = out
emit (suc fuel) n out =
    let more = emit fuel (n / 10) (String.◌∷◌ (digit (n % 10)) out) in
    if ltb n 10 then String.◌∷◌ (digit n) out else more

unfoldable pub itoa : ℕ → String
unfolding emit
itoa n = emit (suc n) n ""

-- The verb `%d` of package fmt, for an int.
unfoldable pub decimal : ℤ → String
unfolding itoa
decimal (pos n) = itoa n
decimal (negsuc n) = String.◌++◌ "-" (itoa (suc n))

digits_value-digit :
    (d m : ℕ) (s : String)
    → d < 10
    → digits_value (String.◌∷◌ (digit d) s) m ≡ digits_value s (m * 10 + d)
unfolding digits_value digit
digits_value-digit zero m s h = refl
digits_value-digit (suc zero) m s h = refl
digits_value-digit (suc (suc zero)) m s h = refl
digits_value-digit (suc (suc (suc zero))) m s h = refl
digits_value-digit (suc (suc (suc (suc zero)))) m s h = refl
digits_value-digit (suc (suc (suc (suc (suc zero))))) m s h = refl
digits_value-digit (suc (suc (suc (suc (suc (suc zero)))))) m s h = refl
digits_value-digit (suc (suc (suc (suc (suc (suc (suc zero))))))) m s h = refl
digits_value-digit (suc (suc (suc (suc (suc (suc (suc (suc zero)))))))) m s h = refl
digits_value-digit (suc (suc (suc (suc (suc (suc (suc (suc (suc zero))))))))) m s h = refl
digits_value-digit (suc (suc (suc (suc (suc (suc (suc (suc (suc (suc d)))))))))) m s h =
    absurd (omega arith)

digits_value-emit :
    (fuel n : ℕ) (out : String) → n < fuel → digits_value (emit fuel n out) 0 ≡ digits_value out n
unfolding emit
digits_value-emit zero n out h = absurd (omega arith)
digits_value-emit (suc fuel) n out h = elim (Bool-cases (ltb n 10)) [
  | inl small ↦
      rw small
        (digits_value-digit n 0 out (ltb→lt n 10 small) ∙ ap (digits_value out) (omega arith))
  | inr large ↦ rw large (
      digits_value-emit fuel (n / 10) (String.◌∷◌ (digit (n % 10)) out) (ground (arith, large))
      ∙ digits_value-digit (n % 10) (n / 10) out (omega arith)
      ∙ ap (digits_value out) (omega arith))
]

pub digits_value-itoa : (n : ℕ) → digits_value (itoa n) 0 ≡ some n
unfolding itoa digits_value
digits_value-itoa n = digits_value-emit (suc n) n "" (omega arith)

pub itoa_inj : (n m : ℕ) → itoa n ≡ itoa m → n ≡ m
itoa_inj n m e =
    ground (arith, digits_value-itoa n, digits_value-itoa m, ap (λ s. digits_value s 0) e)

pub itoa_nonempty : (n : ℕ) → itoa n ≢ ""
unfolding digits_value itoa
itoa_nonempty n e =
    let zero_only : n ≡ 0 = ground (arith, digits_value-itoa n, ap (λ s. digits_value s 0) e) in
    cons≢nil (subst (λ m. itoa m ≡ "") zero_only e)

writes : itoa 907 ≡ "907"
unfolding itoa
writes = refl

reads : atoi "-42" ≡ some (negsuc 41)
unfolding atoi
reads = refl

overflows : atoi "9223372036854775808" ≡ none
unfolding atoi
overflows = refl

splits : fields "*/5  * *" ≡ "*/5" ∷ "*" ∷ "*" ∷ []
unfolding fields
splits = refl
