-- ===== src/Logic/Checks.antt =====
-- Runs of lib/logics.cpp over one variable of sort Bool, and the theorems about it there.
use arith_exe.Prelude.{
  ◌≡◌, ◌≢◌, refl, sym, subst, inl, inr, Bool, true, false, some, List, [], ◌∷◌, map, length, arith,
}
use arith_exe.Prelude.Int.{pos}
use arith_exe.Z3.{is_nil, CheckResult, Value, boolean, integer, In, Z3, Z3Laws, holds, all_hold}
use arith_exe.Z3.Samples.{Term, formula, number, negation, samples, samples_laws, answer, fits}
use arith_exe.Logic.Pieces.{collect_aux_vars, eliminate_ite, passes}
use arith_exe.Logic.Pieces.Marks.{eliminate_ite_lem}
use arith_exe.Logic.Cases.{
  is_equivalent, Case, conditionally_eq, merge_from, merge_cases, piecewise2ite,
}
use arith_exe.Logic.Denotes.{value-piecewise2ite, merge_from_enough}
use arith_exe.Logic.Cnf.{
  atoms, is_atom, to_cnf, minimize_from, minimize_conjunction, implicant, simplify,
}
use arith_exe.Logic.Atoms.{IsFormula, atomic, compound}
use arith_exe.Logic.Asserted.{QueriesAnswered, to_cnf-CnfAsserted}
use arith_exe.Logic.Minimize.{all_hold-minimize_conjunction}
use arith_exe.Logic.Simplify.{
  CnfAsserted, CnfAnswered, ClausesAnswered, to_cnf_lem, simplify_lem, simplify-entailed,
}

abbrev Constant : List (Term Bool) → Type 0
Constant [] = Unit {0}
Constant (t ∷ ts) = ⊥

-- Both interpretations are tried; there are no variables to replace.
abbrev solver : Z3
solver = samples Bool true (true ∷ false ∷ []) true true Constant (λ m src vs. m)

tried_lem : (m : Bool) → In m (true ∷ false ∷ [])
tried_lem true = inl refl
tried_lem false = inr (inl refl)

assign_lem :
    (m : Bool) (src : List (Term Bool)) (vs : List Value)
    → Constant src
    → length src ≡ length vs
    → map (solver.value m) src ≡ vs
assign_lem m [] [] c h = refl
assign_lem m [] (v ∷ vs) c h = absurd (omega (arith, h))
assign_lem m (t ∷ ts) vs c h = absurd c

solver_laws : Z3Laws solver
solver_laws =
    samples_laws Bool true (true ∷ false ∷ []) true true Constant (λ m src vs. m) (λ e. tried_lem)
      assign_lem

settled : (es : List (Term Bool)) → solver.check es ≢ CheckResult.unknown
settled es h = by_answer (fits Bool (true ∷ false ∷ []) es) h
  where
    by_answer : (found : Bool) → answer Bool found true ≡ CheckResult.unknown → ⊥
    by_answer true h = cc
    by_answer false h = cc

abbrev variable : Term Bool
variable = formula (λ m. boolean m)

abbrev unchanged : Term Bool
unchanged = formula (λ m. boolean true)

abbrev two_cases : List (Case solver)
two_cases =
    record { condition = variable; expression = number (pos 3) }
    ∷ record { condition = unchanged; expression = number (pos 3) }
    ∷ []

-- Both cases hold, with one value.
value-piecewise2ite_example :
    solver.value true (piecewise2ite solver (number (pos 0)) two_cases) ≡ integer (pos 3)
value-piecewise2ite_example =
    value-piecewise2ite solver solver_laws true (integer (pos 3)) (number (pos 0)) two_cases
      (refl, ((λ h. refl), ((λ h. refl), tt)))

merge_from_enough_example : merge_from solver 3 [] two_cases ≡ merge_from solver 2 [] two_cases
merge_from_enough_example = merge_from_enough solver 2 [] two_cases (omega arith)

-- One case is left.
merged_run : length (merge_cases solver two_cases) ≡ 1
unfolding merge_cases merge_from conditionally_eq
merged_run = refl

-- The second literal follows from the first.
all_hold-minimize_conjunction_example :
    all_hold solver false (minimize_conjunction solver (variable ∷ unchanged ∷ []) 0 unchanged)
    ≡ all_hold solver false (variable ∷ unchanged ∷ [])
all_hold-minimize_conjunction_example =
    all_hold-minimize_conjunction solver false solver_laws unchanged refl
      (variable ∷ unchanged ∷ []) 0

minimize_run : minimize_conjunction solver (variable ∷ unchanged ∷ []) 0 unchanged ≡ variable ∷ []
unfolding minimize_conjunction minimize_from
minimize_run = refl

atoms_run : atoms solver variable ≡ some (variable ∷ [])
unfolding atoms is_atom
atoms_run = refl

-- The one model is that where the variable is false, and its clause ends the loop.
asserted : CnfAsserted solver solver_laws variable (variable ∷ [])
unfolding implicant minimize_conjunction minimize_from
asserted s = (refl, λ t. no_more t)
  where
    no_more : {A : Type 0} → CheckResult.unsat ≡ CheckResult.sat → A
    no_more t = cc

answered : CnfAnswered solver solver_laws variable (variable ∷ [])
unfolding implicant minimize_conjunction minimize_from
answered = ((λ k. cc), λ s. ((refl, tt), ((λ k. cc), λ t. no_more t)))
  where
    no_more : {A : Type 0} → CheckResult.unsat ≡ CheckResult.sat → A
    no_more t = cc

to_cnf_lem_example :
    (clauses : List (Term Bool)) × (to_cnf solver variable ≡ some clauses)
    × ((m : Bool) → all_hold solver m clauses ≡ holds solver m variable)
to_cnf_lem_example =
    to_cnf_lem solver solver_laws variable (variable ∷ []) atoms_run asserted answered

all_answered :
    (clauses : List (Term Bool))
    → ClausesAnswered solver solver_laws false (unchanged ∷ []) refl clauses
all_answered [] = tt
all_answered (c ∷ cs) = (settled (unchanged ∷ solver.neg c ∷ []), all_answered cs)

simplify_lem_example :
    (e : Term Bool) × (simplify solver variable (unchanged ∷ []) ≡ some e)
    × (holds solver false e ≡ holds solver false variable)
simplify_lem_example =
    simplify_lem solver solver_laws false (unchanged ∷ []) refl variable (variable ∷ []) atoms_run
      asserted answered (λ clauses h. all_answered clauses)

-- The one clause, with its literal negated twice.
abbrev kept_clause : Term Bool
kept_clause = solver.mk_or (solver.neg (solver.neg variable) ∷ [])

abbrev simpler : Term Bool
simpler = solver.mk_and (solver.mk_or (solver.neg (solver.neg kept_clause) ∷ []) ∷ [])

simplify_run : simplify solver variable (unchanged ∷ []) ≡ some simpler
unfolding simplify atoms is_atom minimize_conjunction minimize_from
simplify_run = refl

simplify-entailed_example : holds solver true simpler ≡ true
simplify-entailed_example =
    simplify-entailed solver solver_laws true variable simpler (variable ∷ []) (unchanged ∷ [])
      atoms_run asserted simplify_run refl

-- The one constant of the goals has a mark, so that the solver is asked whether the result is
-- equivalent.
marks_run : is_nil (collect_aux_vars solver (solver.mk_or (variable ∷ []))) ≡ false
unfolding collect_aux_vars
marks_run = refl

variable-passes : passes solver variable ≡ true
unfolding passes collect_aux_vars is_equivalent
variable-passes = refl

eliminate_ite_lem_example :
    holds solver false (eliminate_ite solver variable) ≡ holds solver false variable
eliminate_ite_lem_example = eliminate_ite_lem solver solver_laws false variable variable-passes

-- The atom is found below the connective.
abbrev denied : Term Bool
denied = negation variable

denied-IsFormula : IsFormula solver solver_laws denied
unfolding is_atom
denied-IsFormula = compound denied refl below
  where
    below : (a : Term Bool) → In a (variable ∷ []) → IsFormula solver solver_laws a
    below a (inl e) = subst (IsFormula solver solver_laws) (sym e) (atomic variable refl)
    below a (inr i) = absurd i

denied_run : atoms solver denied ≡ some (variable ∷ [])
unfolding atoms is_atom
denied_run = refl

no_sat : {A : Type 0} → CheckResult.unsat ≡ CheckResult.sat → A
no_sat t = cc

denied-answered : CnfAnswered solver solver_laws denied (variable ∷ [])
unfolding implicant minimize_conjunction minimize_from
denied-answered = ((λ k. cc), λ s. ((refl, tt), ((λ k. cc), λ t. no_sat t)))

denied-QueriesAnswered :
    QueriesAnswered solver solver_laws (variable ∷ []) denied 2 (solver.neg denied ∷ [])
unfolding implicant minimize_conjunction minimize_from
denied-QueriesAnswered = λ s. ((λ k. cc), λ t. no_sat t)

to_cnf-CnfAsserted_example : CnfAsserted solver solver_laws denied (variable ∷ [])
to_cnf-CnfAsserted_example =
    to_cnf-CnfAsserted solver solver_laws (variable ∷ []) denied denied-IsFormula denied_run
      (λ a b o p h. cc) denied-answered denied-QueriesAnswered
