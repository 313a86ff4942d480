-- ===== src/Integers/Bitwise.antt =====
-- lib/RelaxedIntegerSemantics.h: bitwise operations with a constant mask, on two's complements without a
-- width, and the factors of shifts.
use arith_exe.Prelude.{
  ℕ, zero, suc, ◌*◌, ◌/◌, ◌%◌, ◌^◌, ◌==◌, leb, Bool, true, false, Option, none, some, if◌then◌else◌,
  ◌>>=◌,
}
use arith_exe.Prelude.Int.{ℤ, pos, negsuc}
use arith_exe.Z3.{Z3, plus, times, difference, quotient, remainder}
use arith_exe.Integers.{constant, as_int}

-- `IntegerBitwiseOperation`
pub data IntegerBitwiseOperation : Type 0 where
  bitwise_and bitwise_or bitwise_xor : IntegerBitwiseOperation

abbrev pub is_negative_mask : ℤ → Bool
is_negative_mask (pos n) = false
is_negative_mask (negsuc n) = true

-- `mask`, after its complement is taken if it is negative
abbrev pub mask_bits : ℤ → ℕ
mask_bits (pos n) = n
mask_bits (negsuc n) = n

module _ (Z : Z3) where
  open Z use {Expr, apply, simplified}

  abbrev pub with_place : Expr → ℕ → Expr → Expr
  with_place lhs weight intersection = apply plus intersection (
      apply times (apply remainder (apply quotient lhs (constant Z weight)) (constant Z 2))
        (constant Z weight))

  -- The `while` loop. The fuel is the limit on the digits, which the source has too.
  unfoldable pub intersect : ℕ → Expr → ℕ → ℕ → Expr → Option Expr
  intersect zero lhs mask weight intersection = if mask == 0 then some intersection else none
  intersect (suc digits) lhs mask weight intersection =
      let rest =
        intersect digits lhs (mask / 2) (weight * 2)
          (if mask % 2 == 1 then with_place lhs weight intersection else intersection) in
      if mask == 0 then some intersection else rest

  abbrev pub combined : IntegerBitwiseOperation → Expr → Expr → Expr → Expr
  combined IntegerBitwiseOperation.bitwise_and lhs rhs intersection = simplified intersection
  combined IntegerBitwiseOperation.bitwise_or lhs rhs intersection =
      simplified (apply difference (apply plus lhs rhs) (apply times intersection (constant Z 1)))
  combined IntegerBitwiseOperation.bitwise_xor lhs rhs intersection =
      simplified (apply difference (apply plus lhs rhs) (apply times intersection (constant Z 2)))

  -- with the operands in order: the mask is on the right
  abbrev pub masked_within : ℕ → IntegerBitwiseOperation → Expr → Expr → ℤ → Option Expr
  masked_within limit operation lhs rhs mask =
      intersect limit lhs (mask_bits mask) 1 (constant Z 0) >>= λ intersection. some (
        combined operation lhs rhs
          (if is_negative_mask mask then apply difference lhs intersection else intersection))

  unfoldable pub masked : IntegerBitwiseOperation → Expr → Expr → ℤ → Option Expr
  masked operation lhs rhs mask = masked_within 4096 operation lhs rhs mask

  -- of two operands that are one expression
  abbrev pub same_operands : IntegerBitwiseOperation → Expr → Expr
  same_operands IntegerBitwiseOperation.bitwise_and lhs = lhs
  same_operands IntegerBitwiseOperation.bitwise_or lhs = lhs
  same_operands IntegerBitwiseOperation.bitwise_xor lhs = constant Z 0

  abbrev pub by_mask : IntegerBitwiseOperation → Expr → Expr → Option Expr
  by_mask operation lhs rhs = elim (Z.numeral rhs) [
    | some mask ↦ masked operation lhs rhs mask
    | none ↦ elim (Z.numeral lhs) [ some mask ↦ masked operation rhs lhs mask | none ↦ none ]
  ]

  unfoldable pub integer_bitwise : Expr → Expr → IntegerBitwiseOperation → Option Expr
  unfolding as_int
  integer_bitwise lhs rhs operation =
      let left = simplified (as_int Z lhs) in
      let right = simplified (as_int Z rhs) in
      if Z.same left right
      then some (same_operands operation left)
      else by_mask operation left right

  abbrev pub factor_of : ℤ → Option Expr
  factor_of (negsuc n) = some (constant Z 1)
  factor_of (pos n) = if leb n 4096 then some (constant Z (2 ^ n)) else none

  unfoldable pub integer_shift_factor : Expr → Option Expr
  unfolding as_int
  integer_shift_factor amount = Z.numeral (simplified (as_int Z amount)) >>= factor_of
