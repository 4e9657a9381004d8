-- ===== src/Floats.antt =====
-- Python's `float`: the numbers and operations are a parameter of every definition that computes
-- with them, and what IEEE rounding promises of them is stated as laws.
pub mod Thousandths
use routstr_core.Prelude.{ℤ, pos, ◌≤ℤ◌, Bool, true, ◌≡◌}

pub record Floats : Type 1 where
  pub Float : Type 0
  -- `float(n)` and float literals with an integer value
  pub of_int : ℤ → Float
  pub add : Float → Float → Float
  pub sub : Float → Float → Float
  pub mul : Float → Float → Float
  pub div : Float → Float → Float
  -- `x <= y` and `x < y`, both false of a NaN
  pub le : Float → Float → Bool
  pub lt : Float → Float → Bool
  -- `round(x, 3)`
  pub round3 : Float → Float
  -- `math.ceil(x)`, `math.floor(x)`, `int(x)`
  pub ceil : Float → ℤ
  pub floor : Float → ℤ
  pub trunc : Float → ℤ

module _ (F : Floats) where
  open F use {Float, of_int, add, mul, div, le, round3, ceil, trunc}

  -- Of finite numbers: correct rounding is monotone, exact at 0, and keeps signs; integers come out
  -- in order. At an infinity or a NaN `math.ceil` raises, which no definition here has.
  pub record FloatLaws : Type 0 where
    pub le_trans : (a b c : Float) → le a b ≡ true → le b c ≡ true → le a c ≡ true
    pub add_mono : (a b c d : Float) → le a b ≡ true → le c d ≡ true → le (add a c) (add b d) ≡ true
    pub mul_mono :
        (a b c : Float)
        → le (of_int (pos 0)) c ≡ true
        → le a b ≡ true
        → le (mul a c) (mul b c) ≡ true
    pub mul_nonneg :
        (a b : Float)
        → le (of_int (pos 0)) a ≡ true
        → le (of_int (pos 0)) b ≡ true
        → le (of_int (pos 0)) (mul a b) ≡ true
    pub add_nonneg :
        (a b : Float)
        → le (of_int (pos 0)) a ≡ true
        → le (of_int (pos 0)) b ≡ true
        → le (of_int (pos 0)) (add a b) ≡ true
    pub div_mono :
        (a b c : Float)
        → le (of_int (pos 1)) c ≡ true
        → le a b ≡ true
        → le (div a c) (div b c) ≡ true
    pub div_nonneg :
        (a c : Float)
        → le (of_int (pos 0)) a ≡ true
        → le (of_int (pos 1)) c ≡ true
        → le (of_int (pos 0)) (div a c) ≡ true
    pub of_int_mono : (a b : ℤ) → a ≤ℤ b → le (of_int a) (of_int b) ≡ true
    pub round3_mono : (a b : Float) → le a b ≡ true → le (round3 a) (round3 b) ≡ true
    pub round3_nonneg :
        (a : Float) → le (of_int (pos 0)) a ≡ true → le (of_int (pos 0)) (round3 a) ≡ true
    pub ceil_mono : (a b : Float) → le a b ≡ true → ceil a ≤ℤ ceil b
    pub ceil_nonneg : (a : Float) → le (of_int (pos 0)) a ≡ true → pos 0 ≤ℤ ceil a
    pub trunc_nonneg : (a : Float) → le (of_int (pos 0)) a ≡ true → pos 0 ≤ℤ trunc a
