-- ===== src/Expression/Checks.antt =====
-- Runs of lib/Expr.cpp over one integer variable, and the theorems about it there.
use arith_exe.Prelude.{ℕ, ◌≡◌, refl, true, false, some, [], ◌∷◌}
use arith_exe.Prelude.Int.{pos, negsuc, ◌-ℤ◌}
use arith_exe.Z3.{Value, boolean, integer, equals}
use arith_exe.Z3.Samples.{Term, number, choice, opposite}
use arith_exe.Z3.Variable.{one_variable, one_variable_laws, x}
use arith_exe.Expression.{Expression, from_expr, plain, as_expr, defined, operate, push_front, subs}
use arith_exe.Logic.Cases.{conditionally_eq, merge_from, merge_cases, piecewise2ite}
use arith_exe.Logic.Pieces.{expr2piecewise_passes, aux_passes, passes, collect_aux_vars}
use arith_exe.Logic.Cnf.{is_atom, simplify}
use arith_exe.Expression.Meaning.{Means, as_expr-Means, Means-from_expr}
use arith_exe.Expression.Operators.{Means-operate}
use arith_exe.Expression.Updates.{Means-push_front, Means-subs}

abbrev at : ℕ → Value
at n = integer (pos n)

abbrev nothing : Term Value
nothing = number (pos 0)

-- The condition that the variable is 1.
abbrev is_one : Term Value
is_one = one_variable.equal x (number (pos 1))

-- 7 where the variable is 1, undefined, and 9 elsewhere.
abbrev two_pieces : Expression one_variable
two_pieces =
    record {
      condition = is_one;
      expression = number (pos 7);
      definition = one_variable.bool_val false;
    }
    ∷ record {
      condition = one_variable.neg is_one;
      expression = number (pos 9);
      definition = one_variable.bool_val true;
    }
    ∷ []

seven : Means one_variable (at 1) two_pieces (at 7) false
seven = (refl, ((λ h. (refl, refl)), ((λ h. cc), tt)))

nine : Means one_variable (at 0) two_pieces (at 9) true
nine = (refl, ((λ h. cc), ((λ h. (refl, refl)), tt)))

as_expr-Means_example :
    (one_variable.value (at 1) (as_expr one_variable nothing two_pieces) ≡ at 7)
    × (one_variable.value (at 1) (defined one_variable nothing two_pieces) ≡ boolean false)
as_expr-Means_example =
    as_expr-Means one_variable (at 1) (at 7) false one_variable_laws nothing two_pieces seven

five : Means one_variable (at 0) (plain one_variable (number (pos 5))) (at 5) true
five = (refl, ((λ h. (refl, refl)), tt))

Means-operate_example :
    Means one_variable
      (at 0)
      (operate one_variable equals two_pieces (plain one_variable (number (pos 5))))
      (boolean false)
      true
Means-operate_example =
    Means-operate one_variable one_variable_laws (at 0) equals two_pieces
      (plain one_variable (number (pos 5))) (at 9) (at 5) true true
      (((λ h. cc), tt), (((λ h. cc), tt), tt)) nine five

Means-push_front_example :
    (pushed : Expression one_variable) × (push_front one_variable nothing is_one two_pieces
        (plain one_variable (number (pos 5)))
      ≡ some pushed)
    × Means one_variable (at 0) pushed (at 5) true
unfolding simplify is_atom
Means-push_front_example =
    Means-push_front one_variable one_variable_laws (at 0) nothing is_one two_pieces
      (plain one_variable (number (pos 5))) (at 9) (at 5) true true ((_, refl, refl), tt) nine five

-- What the expression means at 1 it means at 0 with 1 put for the variable.
Means-subs_example :
    Means one_variable
      (at 0)
      (subs one_variable nothing two_pieces (x ∷ []) (plain one_variable (number (pos 1)) ∷ []))
      (at 7)
      false
unfolding as_expr piecewise2ite
Means-subs_example =
    Means-subs one_variable one_variable_laws (at 0) nothing (x ∷ [])
      (plain one_variable (number (pos 1)) ∷ []) (λ m. refl) refl two_pieces (at 7) false seven

-- The opposite of a conditional in a conditional: of 7 where the variable is 1, and of it elsewhere.
abbrev conditional : Term Value
conditional = opposite (choice is_one (number (pos 7)) (choice is_one (number (pos 8)) x))

-- The conditions have no conditionals in them, so that no assertion
-- asks the solver.
conditional_passes : expr2piecewise_passes one_variable conditional ≡ true
unfolding expr2piecewise_passes aux_passes passes collect_aux_vars merge_cases merge_from
    conditionally_eq
conditional_passes = refl

Means-from_expr_example :
    Means one_variable (at 1) (from_expr one_variable conditional) (integer (negsuc 6)) true
unfolding ◌-ℤ◌
Means-from_expr_example =
    Means-from_expr one_variable one_variable_laws (at 1) conditional conditional_passes
