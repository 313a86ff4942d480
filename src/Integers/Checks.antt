-- ===== src/Integers/Checks.antt =====
-- Runs of lib/IntegerSemantics.h, and the theorems about it there.
use arith_exe.Prelude.{◌^◌, ◌≡◌, refl, ◌↔◌, inl, true, arith}
use arith_exe.Prelude.Int.{ℤ, pos, negsuc}
use arith_exe.Z3.{Value, integer, holds}
use arith_exe.Z3.Arithmetic.{mod_ℤ}
use arith_exe.Z3.Samples.{Term, number}
use arith_exe.Z3.Variable.{one_variable, one_variable_laws, one_variable_arithmetic, x}
use arith_exe.Integers.{as_int, as_signed, signed_div, signed_rem, in_signed_range}
use arith_exe.Integers.Bitwise.{IntegerBitwiseOperation, integer_bitwise}
use arith_exe.Integers.Masks.{Operates, integer_bitwise_lem}
use arith_exe.Integers.Meaning.{IsTruncated, signed_div-signed_rem}
use arith_exe.Integers.Widths.{InSigned, as_signed_lem, in_signed_range-as_signed}

abbrev minus_seven : Term Value
minus_seven = number (negsuc 6)

-- -7 divided by 2, under an interpretation that is not asked
signed_div-signed_rem_example :
    (q r : ℤ) × (one_variable.value
        (integer (pos 0))
        (signed_div one_variable minus_seven (number (pos 2)))
      ≡ integer q)
    × (one_variable.value (integer (pos 0)) (signed_rem one_variable minus_seven (number (pos 2)))
        ≡ integer r)
    × IsTruncated (negsuc 6) (pos 2) q r
signed_div-signed_rem_example =
    signed_div-signed_rem one_variable one_variable_laws one_variable_arithmetic (integer (pos 0))
      minus_seven (number (pos 2)) (negsuc 6) (pos 2) (inl (refl, refl)) (inl (refl, refl))
      (λ h. cc)

-- 200 at eight bits
as_signed_lem_example :
    (s : ℤ) × (one_variable.value (integer (pos 0)) (as_signed one_variable (number (pos 200)) 8)
      ≡ integer s)
    × InSigned 7 s
    × (mod_ℤ s (2 ^ 8) ≡ mod_ℤ (pos 200) (2 ^ 8))
as_signed_lem_example =
    as_signed_lem one_variable one_variable_laws one_variable_arithmetic (integer (pos 0))
      (number (pos 200)) (pos 200) refl refl 7 (omega arith)

in_signed_range-as_signed_example :
    (holds one_variable (integer (pos 0)) (in_signed_range one_variable (number (pos 200)) 8)
      ≡ true)
    ↔ (one_variable.value (integer (pos 0)) (as_signed one_variable (number (pos 200)) 8)
        ≡ integer (pos 200))
in_signed_range-as_signed_example =
    in_signed_range-as_signed one_variable one_variable_laws one_variable_arithmetic
      (integer (pos 0)) (number (pos 200)) (pos 200) refl refl 7 (omega arith)

-- The mask 12 on the variable, which is 10.
integer_bitwise_lem_example :
    Operates one_variable one_variable_laws one_variable_arithmetic
      (integer (pos 10))
      IntegerBitwiseOperation.bitwise_and
      (pos 10)
      (pos 12)
      (integer_bitwise one_variable x (number (pos 12)) IntegerBitwiseOperation.bitwise_and)
unfolding as_int
integer_bitwise_lem_example =
    integer_bitwise_lem one_variable one_variable_laws one_variable_arithmetic (integer (pos 10))
      IntegerBitwiseOperation.bitwise_and x (number (pos 12)) (pos 10) (pos 12) (inl (refl, refl))
      refl refl (omega arith)
