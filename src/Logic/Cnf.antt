-- ===== src/Logic/Cnf.antt =====
-- lib/logics.cpp: `minimize_conjunction`, the atoms of a formula, its conjunctive normal form, and
-- `simplify`. An exception of Z3 is `none`, and so is fuel that runs out.
use arith_exe.Prelude.{
  ℕ, zero, suc, ◌^◌, Bool, true, false, not, ◌||◌, Option, none, some, List, [], ◌∷◌, ◌++◌, map,
  if◌then◌else◌, length, take, drop, ◌>>=◌,
}
use arith_exe.Z3.{
  Z3, Kind, op_true, op_false, op_and, op_or, op_implies, op_xor, op_not, op_ite, op_eq, op_ge,
  op_le, op_lt, op_gt, op_uninterpreted, op_other, is_or,
}
use arith_exe.Logic.Cases.{is_unsat, is_sat}

module _ (Z : Z3) where
  open Z use {Expr, Model, neg, check, mk_or, mk_and, bool_val, args, kind, simplified}

  -- The recursion of `minimize_conjunction`, with the literals before the pivot and those from it on.
  unfoldable pub minimize_from : Expr → List Expr → List Expr → List Expr
  minimize_from assumption before [] = before
  minimize_from assumption before (pivot ∷ after) =
      let without = minimize_from assumption before after in
      let further = minimize_from assumption (before ++ pivot ∷ []) after in
      if is_unsat (check (bool_val true ∷ assumption ∷ (before ++ after) ++ neg pivot ∷ []))
      then without
      else further

  unfoldable pub minimize_conjunction : List Expr → ℕ → Expr → List Expr
  minimize_conjunction conjunction pivot assumption =
      minimize_from assumption (take pivot conjunction) (drop pivot conjunction)

  -- `t.arg(0).is_bool()`; Z3 throws where there is no argument.
  abbrev first_is_no_bool : List Expr → Option Bool
  first_is_no_bool [] = none
  first_is_no_bool (a ∷ rest) = some (not (Z.is_bool a))

  abbrev atom_kind : Kind → Bool
  atom_kind op_and = false
  atom_kind op_or = false
  atom_kind op_implies = false
  atom_kind op_true = false
  atom_kind op_false = false
  atom_kind op_xor = false
  atom_kind op_not = false
  atom_kind op_ite = true
  atom_kind op_eq = true
  atom_kind op_ge = true
  atom_kind op_le = true
  atom_kind op_lt = true
  atom_kind op_gt = true
  atom_kind op_uninterpreted = true
  atom_kind op_other = true

  unfoldable pub is_atom : Expr → Option Bool
  is_atom t =
      if not (Z.is_bool t)
      then some false
      else if not (Z.is_app t)
      then some false
      else if not (atom_kind (kind t))
      then some false
      else first_is_no_bool (args t)

  abbrev pub seen : Expr → List Expr → Bool
  seen t [] = false
  seen t (v ∷ visited) = Z.same_text v t || seen t visited

  -- `atoms_rec`, with the expressions that it has still to visit: the arguments come before them. Each
  -- visit takes an expression, so the size of all of them is enough fuel.
  unfoldable pub atoms_rec : ℕ → List Expr → List Expr → List Expr → Option (List Expr)
  atoms_rec fuel [] visited atms = some atms
  atoms_rec zero (t ∷ work) visited atms = some atms
  atoms_rec (suc fuel) (t ∷ work) visited atms =
      let skipped = atoms_rec fuel work visited atms in
      let listed = atoms_rec fuel (args t ++ work) (t ∷ visited) (atms ++ t ∷ []) in
      let passed = atoms_rec fuel (args t ++ work) (t ∷ visited) atms in
      if seen t visited then skipped else (is_atom t >>= λ atom. if atom then listed else passed)

  unfoldable pub atoms : Expr → Option (List Expr)
  unfolding atoms_rec
  atoms fml = atoms_rec (Z.size fml) (fml ∷ []) [] []

  -- The literal of the solver's model: negated where the model does not determine the atom, too.
  abbrev pub atom2literal : List Expr → Expr → Expr
  atom2literal snot a = if Z.eval_true snot a then a else neg a

  abbrev pub literals_of : List Expr → List Expr → List Expr
  literals_of atms snot = map (atom2literal snot) atms

  -- The formulas that were added to the solvers `s` and `snot`. The assertion before the core is read is
  -- left out: `Asserted` of Logic/Normal.antt states it.
  unfoldable pub implicant : List Expr → List Expr → List Expr → Expr
  unfolding minimize_conjunction minimize_from
  implicant atms s snot =
      let core = Z.unsat_core s (literals_of atms snot) in
      mk_or (map neg (minimize_conjunction core 0 (bool_val true)))

  -- The `while` loop, with `snot`. A clause excludes the truth values of the atoms in the model, where
  -- the model determines them all: then there are at most 2 ^ n rounds. None if there are more.
  unfoldable pub cnf_loop : ℕ → Expr → List Expr → List Expr → List Expr → Option (List Expr)
  unfolding implicant
  cnf_loop zero fml atms snot clauses = if is_sat (check snot) then none else some clauses
  cnf_loop (suc fuel) fml atms snot clauses =
      let clause = implicant atms (fml ∷ []) snot in
      let further =
        cnf_loop fuel fml atms (snot ++ clause ∷ []) (clauses ++ simplified clause ∷ []) in
      if is_sat (check snot) then further else some clauses

  unfoldable pub to_cnf : Expr → Option (List Expr)
  unfolding cnf_loop atoms
  to_cnf fml = do atms ← atoms fml; cnf_loop (2 ^ length atms) fml atms (neg fml ∷ []) []

  -- `literals`, the negated literals of the clause
  abbrev pub negated_literals : Expr → List Expr
  negated_literals clause = if is_or (kind clause) then map neg (args clause) else neg clause ∷ []

  -- The assumption is handed over as the pivot: its conversion to a number is 1, and there is no
  -- assumption.
  abbrev pub new_clause : Expr → Expr
  new_clause clause =
      mk_or (map neg (minimize_conjunction (negated_literals clause) 1 (bool_val true)))

  -- The loop over the clauses: those that the assumption does not entail, minimized.
  unfoldable pub remaining : List Expr → List Expr → List Expr
  remaining assumption [] = []
  remaining assumption (clause ∷ clauses) =
      if is_sat (check (assumption ++ neg clause ∷ []))
      then new_clause clause ∷ remaining assumption clauses
      else remaining assumption clauses

  -- `simplify`, with the assumption if there is one
  unfoldable pub simplify : Expr → List Expr → Option Expr
  unfolding remaining minimize_conjunction minimize_from to_cnf
  simplify expr assumption = do
    clauses ← to_cnf (simplified expr)
    some (mk_and (remaining assumption clauses))

  -- `Logic::simplify`
  unfoldable pub simplify_cnf : Expr → Option Expr
  unfolding to_cnf
  simplify_cnf fml = do clauses ← to_cnf fml; some (mk_and (map simplified clauses))
