-- ===== src/Integers.antt =====
-- lib/IntegerSemantics.h and lib/RelaxedIntegerSemantics.h: how the values of LLVM's integers, of a width,
-- are read as mathematical integers. `to_bv` and `from_bv`, which only call Z3's conversions of bit
-- vectors, are left out.
pub mod Meaning
pub mod Widths
pub mod Bitwise
pub mod Bits
pub mod Masks
mod Checks
use arith_exe.Prelude.{
  ℕ, zero, suc, ◌+◌, ◌-◌, ◌%◌, ◌/◌, ◌^◌, ◌==◌, ltb, Bool, true, false, not, ◌&&◌, ◌||◌, Option,
  none, some, if◌then◌else◌,
}
use arith_exe.Prelude.Int.{ℤ, pos, negsuc}
use arith_exe.Z3.{
  Z3, Operator, plus, times, difference, quotient, remainder, less, less_equal, greater,
  greater_equal, both, not_equals,
}

-- `width - 1` of 32 bits without a sign: it wraps at 0.
abbrev pub below : ℕ → ℕ
below width = (width + (2 ^ 32 - 1)) % 2 ^ 32

module _ (Z : Z3) where
  open Z use {Expr, apply, int_val, ite, minus, simplified, is_bool}

  abbrev pub constant : ℕ → Expr
  constant n = int_val (pos n)

  unfoldable pub as_int : Expr → Expr
  as_int value = if is_bool value then ite value (constant 1) (constant 0) else value

  abbrev pub doubled : ℕ → Expr
  doubled zero = constant 1
  doubled (suc exponent) = apply times (doubled exponent) (constant 2)

  unfoldable pub power_of_two : ℕ → Expr
  power_of_two exponent = simplified (doubled exponent)

  unfoldable pub as_unsigned : Expr → ℕ → Expr
  unfolding as_int power_of_two
  as_unsigned value width =
      if is_bool value
      then as_int value
      else simplified (apply remainder (as_int value) (power_of_two width))

  unfoldable pub as_signed : Expr → ℕ → Expr
  unfolding as_unsigned power_of_two
  as_signed value width =
      let unsigned_value = as_unsigned value width in
      if (width == 1) && is_bool value
      then ite value (int_val (negsuc 0)) (constant 0)
      else simplified (
          ite (apply greater_equal unsigned_value (power_of_two (below width)))
            (apply difference unsigned_value (power_of_two width)) unsigned_value)

  abbrev pub is_negative : Expr → Expr
  is_negative e = apply less e (constant 0)

  abbrev pub absolute : Expr → Expr
  absolute e = ite (is_negative e) (minus e) e

  unfoldable pub signed_div : Expr → Expr → Expr
  unfolding as_int
  signed_div lhs rhs =
      let left = as_int lhs in
      let right = as_int rhs in
      let quotient_of = apply quotient (absolute left) (absolute right) in
      simplified (
        ite (apply not_equals (is_negative left) (is_negative right)) (minus quotient_of)
          quotient_of)

  unfoldable pub signed_rem : Expr → Expr → Expr
  unfolding as_int
  signed_rem lhs rhs =
      let left = as_int lhs in
      let right = as_int rhs in
      let remainder_of = apply remainder (absolute left) (absolute right) in
      simplified (ite (is_negative left) (minus remainder_of) remainder_of)

  unfoldable pub signed_min : ℕ → Expr
  unfolding power_of_two
  signed_min width = minus (power_of_two (below width))

  unfoldable pub signed_max : ℕ → Expr
  unfolding power_of_two
  signed_max width = apply difference (power_of_two (below width)) (constant 1)

  unfoldable pub in_signed_range : Expr → ℕ → Expr
  unfolding as_int signed_min signed_max
  in_signed_range value width =
      Z.conj (apply greater_equal (as_int value) (signed_min width))
        (apply less_equal (as_int value) (signed_max width))

  unfoldable pub in_unsigned_range : Expr → ℕ → Expr
  unfolding as_int power_of_two
  in_unsigned_range value width =
      Z.conj (apply greater_equal (as_int value) (constant 0))
        (apply less (as_int value) (power_of_two width))
