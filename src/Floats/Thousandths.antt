-- ===== src/Floats/Thousandths.antt =====
-- Thousandths, without a sign: a concrete `Floats` at which the laws hold.
use routstr_core.Prelude.{
  ℕ, ◌+◌, ◌-◌, ◌*◌, ◌/◌, ◌≤◌, ◌≡◌, ℤ, pos, negsuc, ◌≤ℤ◌, pos_part, true, leb, ltb, leb→le, arith,
}
use routstr_core.Floats.{Floats, FloatLaws}

abbrev pub thousandths : Floats
thousandths = record {
  Float = ℕ;
  of_int = λ n. pos_part n * 1000;
  add = λ a b. a + b;
  sub = λ a b. a - b;
  mul = λ a b. a * b / 1000;
  div = λ a b. a * 1000 / b;
  le = leb;
  lt = ltb;
  round3 = λ a. a;
  ceil = λ a. pos ((a + 999) / 1000);
  floor = λ a. pos (a / 1000);
  trunc = λ a. pos (a / 1000);
}

le→leb : (a b : ℕ) → a ≤ b → leb a b ≡ true
le→leb a b h = ground arith

mul_mono : (a b c : ℕ) → a ≤ b → a * c / 1000 ≤ b * c / 1000
mul_mono a b c h = let p : a * c ≤ b * c = grind arith in omega arith

div_mono : (a b c : ℕ) → 1000 ≤ c → a ≤ b → a * 1000 / c ≤ b * 1000 / c
div_mono a b c p h = grind arith

pos_part_mono : (a b : ℤ) → a ≤ℤ b → pos_part a * 1000 ≤ pos_part b * 1000
pos_part_mono (pos n) b h = omega arith
pos_part_mono (negsuc n) b h = omega arith

pub thousandths_laws : FloatLaws thousandths
thousandths_laws = record {
  le_trans = λ a b c p q. ground arith;
  add_mono = λ a b c d p q. ground arith;
  mul_mono = λ a b c p q. le→leb _ _ (mul_mono a b c (leb→le _ _ q));
  mul_nonneg = λ a b p q. ground arith;
  add_nonneg = λ a b p q. ground arith;
  div_mono = λ a b c p q. le→leb _ _ (div_mono a b c (leb→le _ _ p) (leb→le _ _ q));
  div_nonneg = λ a c p q. ground arith;
  of_int_mono = λ a b h. le→leb _ _ (pos_part_mono a b h);
  round3_mono = λ a b h. h;
  round3_nonneg = λ a h. h;
  ceil_mono = λ a b h. ground arith;
  ceil_nonneg = λ a h. omega arith;
  trunc_nonneg = λ a h. omega arith;
}
