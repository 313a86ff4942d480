-- ===== src/LinearAlgebra/Checks.antt =====
-- Runs of lib/LinearAlgebra.h over the field of two elements, and the theorem about it there.
use arith_exe.Prelude.{
  ◌≡◌, refl, ◌≢◌, Bool, true, false, not, ◌&&◌, Option, none, some, List, [], ◌∷◌,
}
use arith_exe.LinearAlgebra.{Entries, Row, Matrix, eliminated, solve, multiply, inverse, blank}
use arith_exe.LinearAlgebra.Solutions.{Values}
use arith_exe.LinearAlgebra.Round.{Keeps}
use arith_exe.LinearAlgebra.Elimination.{Keeps-eliminated}

abbrev xor : Bool → Bool → Bool
xor true b = not b
xor false b = b

abbrev quotient : Bool → Bool → Option Bool
quotient a true = some a
quotient a false = none

abbrev same_bit : Bool → Bool → Bool
same_bit a b = not (xor a b)

abbrev bits : Entries
bits = record {
  Entry = Bool;
  nought = false;
  unit = true;
  add = xor;
  sub = xor;
  mul = λ a b. a && b;
  negative = λ a. a;
  simplified = λ a. a;
  div = quotient;
  same = same_bit;
  is_zero = not;
  is_larger = λ a b. a && not b;
}

xor_assoc : (a b c : Bool) → xor (xor a b) c ≡ xor a (xor b c)
xor_assoc true true true = refl
xor_assoc true true false = refl
xor_assoc true false c = refl
xor_assoc false b c = refl

xor_comm : (a b : Bool) → xor a b ≡ xor b a
xor_comm true true = refl
xor_comm true false = refl
xor_comm false true = refl
xor_comm false false = refl

and_assoc : (a b c : Bool) → ((a && b) && c) ≡ (a && (b && c))
and_assoc true b c = refl
and_assoc false b c = refl

and_comm : (a b : Bool) → (a && b) ≡ (b && a)
and_comm true true = refl
and_comm true false = refl
and_comm false true = refl
and_comm false false = refl

xor-and : (a b c : Bool) → (xor a b && c) ≡ xor (a && c) (b && c)
xor-and true true true = refl
xor-and true true false = refl
xor-and true false true = refl
xor-and true false false = refl
xor-and false b c = refl

and_cancel : (a b : Bool) → (a && b) ≡ false → a ≢ false → b ≡ false
and_cancel true b h k = h
and_cancel false b h k = absurd (k refl)

xor_back : (a b : Bool) → xor (xor a b) b ≡ a
xor_back true true = refl
xor_back true false = refl
xor_back false true = refl
xor_back false false = refl

quotient_lem : (a b c : Bool) → quotient a b ≡ some c → ((b && c) ≡ a) × (b ≢ false)
quotient_lem a true c h = (cc, (λ k. cc))
quotient_lem a false c h = cc

abbrev bit_values : Values bits
bit_values = record {
  Number = Bool;
  null = false;
  plus = xor;
  times = λ a b. a && b;
  value = λ a. a;
  plus_assoc = xor_assoc;
  plus_comm = xor_comm;
  null-plus = λ a. refl;
  times_assoc = and_assoc;
  times_comm = and_comm;
  null-times = λ a. refl;
  plus-times = xor-and;
  cancel = and_cancel;
  null_law = refl;
  simplified_law = λ a. refl;
  sub_law = xor_back;
  mul_law = λ a b. refl;
  div_law = quotient_lem;
}

-- The first pivot is zero, so that the rows are swapped.
abbrev system : List (Row bits)
system = (false ∷ true ∷ true ∷ []) ∷ (true ∷ true ∷ false ∷ []) ∷ []

abbrev solved : List (Row bits)
solved = (true ∷ false ∷ true ∷ []) ∷ (false ∷ true ∷ true ∷ []) ∷ []

eliminated_run : eliminated bits 0 2 system ≡ some solved
unfolding eliminated
eliminated_run = refl

Keeps-eliminated_example : Keeps bits bit_values 3 system solved
Keeps-eliminated_example =
    Keeps-eliminated bits bit_values 3 2 0 system solved (refl, (refl, tt)) refl eliminated_run

abbrev square : Matrix bits
square = record { rows = 2; cols = 2; values = (false ∷ true ∷ []) ∷ (true ∷ true ∷ []) ∷ [] }

abbrev right_side : Matrix bits
right_side = record { rows = 2; cols = 1; values = (true ∷ []) ∷ (false ∷ []) ∷ [] }

abbrev unknowns : Matrix bits
unknowns = record { rows = 2; cols = 1; values = (true ∷ []) ∷ (true ∷ []) ∷ [] }

solve_run : solve bits square right_side ≡ some unknowns
unfolding solve
solve_run = refl

multiply_run : multiply bits square unknowns ≡ some right_side
unfolding multiply
multiply_run = refl

-- `inverse` does not swap rows.
inverse_run : inverse bits square ≡ none
unfolding inverse
inverse_run = refl

abbrev upper : Matrix bits
upper = record { rows = 2; cols = 2; values = (true ∷ true ∷ []) ∷ (false ∷ true ∷ []) ∷ [] }

upper_run : inverse bits upper ≡ some upper
unfolding inverse
upper_run = refl

-- A singular system has a result that is no solution.
abbrev zero_matrix : Matrix bits
zero_matrix = blank bits 2 2

singular_run : solve bits zero_matrix right_side ≡ some right_side
unfolding solve blank
singular_run = refl
