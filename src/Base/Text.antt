-- ===== src/Base/Text.antt =====
-- Go strings, as the native texts: equality, byte order, concatenation, `strings.TrimSpace`, and the
-- decimal forms `%d` and `%03d` of `fmt.Sprintf`. The tests stay shut, so that a proof meets a Boolean.
use Prim.Native.Nat.{ℕ, zero, suc, ◌/◌, ◌%◌}
use Prim.Native.Char.{code}
use Prim.Native.String
use Prim.Native.String.{String, compare}
use mathlib.Core.Path.{◌≡◌, refl}
use mathlib.Core.Logic.{◌↔◌}
use mathlib.Core.Bool.{Bool, true, ◌||◌, ◌&&◌}
use mathlib.Core.List.{List, [], ◌∷◌}
use text.Mathlib.Text.{◌==◌ as str_eq, is_lt}
use text.Mathlib.TextEquality.{eq_iff}
use text.Mathlib.TextPositions.{eq_refl}
use rushes.Base.Tests.{ltb, leb, ◌==◌, if◌then◌else◌}
use rushes.Base.Lists.{get_or, any}
use rushes.Base.Int.{ℤ, pos, negsuc}

unfoldable pub text_eq : String → String → Bool
text_eq s t = str_eq s t

-- Go's `<` on strings: by bytes.
unfoldable pub text_lt : String → String → Bool
text_lt s t = is_lt (compare s t)

pub text_eq_iff : (s t : String) → (text_eq s t ≡ true) ↔ (s ≡ t)
unfolding text_eq
text_eq_iff s t = eq_iff s t

pub text_eq_refl : (s : String) → text_eq s s ≡ true
unfolding text_eq
text_eq_refl s = eq_refl s

-- Membership in a list of strings.
abbrev pub member : String → List String → Bool
member s xs = any (λ x. text_eq x s) xs

-- `unicode.IsSpace`.
unfoldable pub is_space : ℕ → Bool
is_space c =
    (leb 9 c && leb c 13)
    || c == 32
    || c == 0x85
    || c == 0xa0
    || c == 0x1680
    || (leb 0x2000 c && leb c 0x200a)
    || c == 0x2028
    || c == 0x2029
    || c == 0x202f
    || c == 0x205f
    || c == 0x3000

trim_left : String → String
trim_left String.[] = String.[]
trim_left (String.◌∷◌ c s) = if is_space (code c) then trim_left s else String.◌∷◌ c s

trim_right : String → String
trim_right String.[] = String.[]
trim_right (String.◌∷◌ c s) =
    let rest = trim_right s in
    if is_space (code c) && text_eq rest "" then String.[] else String.◌∷◌ c rest

unfoldable pub trim_space : String → String
unfolding trim_left trim_right is_space text_eq
trim_space s = trim_right (trim_left s)

abbrev digit_texts : List String
digit_texts = "0" ∷ "1" ∷ "2" ∷ "3" ∷ "4" ∷ "5" ∷ "6" ∷ "7" ∷ "8" ∷ "9" ∷ []

infixr 65 ◌<>◌
abbrev pub ◌<>◌ : String → String → String
s <> t = String.◌++◌ s t

-- The number has at most as many digits as the fuel.
decimal : ℕ → ℕ → String
decimal zero n = ""
decimal (suc fuel) n =
    let front = decimal fuel (n / 10) in
    if ltb n 10 then get_or digit_texts n "" else front <> get_or digit_texts (n % 10) ""

-- `%d`.
unfoldable pub itoa : ℤ → String
unfolding decimal
itoa (pos n) = decimal (suc n) n
itoa (negsuc n) = "-" <> decimal (suc (suc n)) (suc n)

-- `%03d`, at a number that is not negative.
unfoldable pub itoa_3 : ℕ → String
unfolding itoa
itoa_3 n =
    if ltb n 10
    then "00" <> itoa (pos n)
    else if ltb n 100
    then "0" <> itoa (pos n)
    else itoa (pos n)

texts : (trim_space " \t字幕 a  " ≡ "字幕 a") × (itoa (negsuc 41) ≡ "-42") × (itoa_3 7 ≡ "007")
unfolding trim_space itoa_3
texts = (refl, refl, refl)
