-- ===== src/Float.antt =====
-- Go's `float64`. The model takes the type and the operations that the timeline code applies to it as
-- an interface, and the facts that a theorem needs about them as named laws of IEEE arithmetic.
-- `Float/Fixed.antt` has an instance to run the model on.
pub mod Fixed
use rushes.Base.{ℤ, pos, Bool, true, false, ◌≡◌, ◌≤ℤ◌, ◌||◌, not}

-- `float32` values enter as the `float64` that Go converts them to.
pub record Floats (F : Type 0) : Type 0 where
  -- `float64(n)`, and `int(x)` at a whole `x`.
  pub of_int : ℤ → F
  pub to_int : F → ℤ
  -- `int(math.Round(x))`.
  pub round : F → ℤ
  pub times : F → F → F
  pub over : F → F → F
  pub minus : F → F → F
  -- `math.Abs`.
  pub abs : F → F
  -- Go's `<`, `<=` and `==` on floats, which fail on NaN.
  pub lt : F → F → Bool
  pub le : F → F → Bool
  pub eq : F → F → Bool
  pub is_nan : F → Bool
  pub is_inf : F → Bool
  -- `math.Trunc(x) == x`.
  pub is_whole : F → Bool
  -- The `float64` that the JSON text of a `float32` parses to.
  pub reparse : F → F
  -- The constants 0.000001 and 1e-9.
  pub micro : F
  pub nano : F

module _ {F : Type 0} ⦃fl : Floats F⦄ where
  open fl use {of_int, round, times, over, lt, is_nan, is_inf}

  -- `int(math.Round(float64(n) * rate))`.
  unfoldable pub scale : ℤ → F → ℤ
  scale n rate = round (times (of_int n) rate)

  -- `int(math.Round(float64(n) / rate))`.
  unfoldable pub unscale : ℤ → F → ℤ
  unscale n rate = round (over (of_int n) rate)

  -- `x < low || x > high` at whole bounds.
  unfoldable pub outside : ℤ → ℤ → F → Bool
  outside low high x = lt x (of_int low) || lt (of_int high) x

  -- `!math.IsNaN(x) && !math.IsInf(x, 0)`.
  abbrev pub is_finite : F → Bool
  is_finite x = not (is_nan x || is_inf x)
