-- ===== src/Float/Fixed.antt =====
-- Whole numbers of thousandths: an instance of the interface to evaluate the model on. It has no NaN
-- and no infinity, and rounds halves away from zero, as `math.Round` does.
use Prim.Native.Nat.{◌*◌}
use rushes.Base.{
  ℕ, ◌+◌, ◌/◌, ◌%◌, ℤ, pos, negsuc, sub_ℕ, pos_part, neg_part, ◌-ℤ◌, ltb_ℤ, leb_ℤ, ◌==ℤ◌, ◌==◌,
  Bool, false, ◌≡◌, refl,
}
use mathlib.Core.Bool.{xor}
use rushes.Base.{if◌then◌else◌}
use rushes.Float.{Floats, scale, unscale}

-- The record that `fixed` fills is declared above; its values are thousandths.
abbrev pub Fixed : Type 0
Fixed = ℤ

magnitude : ℤ → ℕ
magnitude a = pos_part a + neg_part a

signed : Bool → ℕ → ℤ
signed is_negative n = if is_negative then sub_ℕ 0 n else pos n

is_neg : ℤ → Bool
is_neg a = ltb_ℤ a (pos 0)

scaled : ℤ → ℤ
unfolding signed is_neg magnitude
scaled n = signed (is_neg n) (magnitude n * 1000)

nearest : ℤ → ℤ
unfolding signed is_neg magnitude
nearest a = signed (is_neg a) ((magnitude a + 500) / 1000)

product : ℤ → ℤ → ℤ
unfolding signed is_neg magnitude
product a b = signed (xor (is_neg a) (is_neg b)) (magnitude a * magnitude b / 1000)

quotient : ℤ → ℤ → ℤ
unfolding signed is_neg magnitude
quotient a b = signed (xor (is_neg a) (is_neg b)) (magnitude a * 1000 / magnitude b)

instance unfoldable pub fixed : Floats Fixed
unfolding scaled nearest product quotient ◌-ℤ◌ xor
fixed = record {
  of_int = scaled;
  to_int = λ a. signed (is_neg a) (magnitude a / 1000);
  round = nearest;
  times = product;
  over = quotient;
  minus = λ a b. a -ℤ b;
  abs = λ a. pos (magnitude a);
  lt = ltb_ℤ;
  le = leb_ℤ;
  eq = ◌==ℤ◌;
  is_nan = λ a. false;
  is_inf = λ a. false;
  is_whole = λ a. (magnitude a % 1000) == 0;
  reparse = λ a. a;
  micro = pos 0;
  nano = pos 0;
}

rounding :
    (scale (pos 7) (pos 1500) ≡ pos 11)
    × (scale (negsuc 6) (pos 500) ≡ negsuc 3)
    × (unscale (pos 10) (pos 1250) ≡ pos 8)
unfolding fixed scale unscale
rounding = (refl, refl, refl)
