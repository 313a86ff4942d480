-- ===== src/Z3/Arithmetic.antt =====
-- What Z3's operators mean on integers. The divisor of a quotient or remainder is positive here; Z3 rounds
-- down then, so that remainders are not negative.
use arith_exe.Prelude.{ℕ, suc, ◌-◌, ◌/◌, ◌%◌, ◌≡◌, Bool, not}
use arith_exe.Prelude.Int.{ℤ, pos, negsuc, ◌+ℤ◌, ◌-ℤ◌, ◌*ℤ◌, ltb_ℤ}
use arith_exe.Z3.{
  Z3, boolean, integer, same_value, plus, times, difference, quotient, remainder, less, less_equal,
  greater_equal, not_equals,
}

-- `a mod n` and `a div n`
abbrev pub mod_ℤ : ℤ → ℕ → ℕ
mod_ℤ (pos a) n = a % n
mod_ℤ (negsuc a) n = n - 1 - a % n

abbrev pub div_ℤ : ℤ → ℕ → ℤ
div_ℤ (pos a) n = pos (a / n)
div_ℤ (negsuc a) n = negsuc (a / n)

pub record Z3Arithmetic (Z : Z3) : Type 0 where
  pub plus_law : (a b : ℤ) → Z.meaning plus (integer a) (integer b) ≡ integer (a +ℤ b)
  pub times_law : (a b : ℤ) → Z.meaning times (integer a) (integer b) ≡ integer (a *ℤ b)
  pub difference_law : (a b : ℤ) → Z.meaning difference (integer a) (integer b) ≡ integer (a -ℤ b)
  pub negative_law : (a : ℤ) → Z.negative (integer a) ≡ integer (pos 0 -ℤ a)
  pub quotient_law :
      (a : ℤ) (n : ℕ)
      → Z.meaning quotient (integer a) (integer (pos (suc n))) ≡ integer (div_ℤ a (suc n))
  pub remainder_law :
      (a : ℤ) (n : ℕ)
      → Z.meaning remainder (integer a) (integer (pos (suc n))) ≡ integer (pos (mod_ℤ a (suc n)))
  pub less_law : (a b : ℤ) → Z.meaning less (integer a) (integer b) ≡ boolean (ltb_ℤ a b)
  pub less_equal_law :
      (a b : ℤ) → Z.meaning less_equal (integer a) (integer b) ≡ boolean (not (ltb_ℤ b a))
  pub greater_equal_law :
      (a b : ℤ) → Z.meaning greater_equal (integer a) (integer b) ≡ boolean (not (ltb_ℤ a b))
  pub not_equals_law :
      (a b : Bool)
      → Z.meaning not_equals (boolean a) (boolean b)
        ≡ boolean (not (same_value (boolean a) (boolean b)))
