-- ===== src/Logic/Cases.antt =====
-- lib/logics.cpp: the queries, and `merge_cases` and `piecewise2ite` on an expression by cases. The two
-- vectors of conditions and expressions, of one length, are a list of pairs.
use arith_exe.Prelude.{ℕ, zero, suc, Bool, true, false, List, [], ◌∷◌, ◌++◌, if◌then◌else◌, length}
use arith_exe.Z3.{CheckResult, Z3, differ}

abbrev pub is_unsat : CheckResult → Bool
is_unsat CheckResult.unsat = true
is_unsat CheckResult.sat = false
is_unsat CheckResult.unknown = false

abbrev pub is_sat : CheckResult → Bool
is_sat CheckResult.unsat = false
is_sat CheckResult.sat = true
is_sat CheckResult.unknown = false

module _ (Z : Z3) where
  open Z use {Expr, conj, disj, neg, ite, check}

  unfoldable pub implies : Expr → Expr → Bool
  implies a b = is_unsat (check (a ∷ neg b ∷ []))

  -- The timeout of three seconds is the solver's affair: it answers unknown.
  unfoldable pub conditionally_eq : Expr → Expr → Expr → Bool
  conditionally_eq cond e1 e2 = is_unsat (check (cond ∷ differ Z e1 e2 ∷ []))

  -- with the assumption, if any, added first
  unfoldable pub is_feasible : Expr → List Expr → Bool
  is_feasible fml assumption = is_sat (check (assumption ++ fml ∷ []))

  unfoldable pub is_equivalent : Expr → Expr → Bool
  is_equivalent f1 f2 = is_unsat (check (differ Z f1 f2 ∷ []))

  pub record Case : Type 0 where
    pub condition : Expr
    pub expression : Expr

  -- `merged.count(i)`, for a case other than the pivot
  abbrev pub is_merged : Case → Case → Bool
  is_merged pivot c = conditionally_eq c.condition pivot.expression c.expression

  -- The cases that are not merged into the pivot.
  unfoldable pub unmerged : Case → List Case → List Case
  unmerged pivot [] = []
  unmerged pivot (c ∷ cs) = if is_merged pivot c then unmerged pivot cs else c ∷ unmerged pivot cs

  -- `pivot_cond`, after the loop over the other cases
  unfoldable pub widened : Case → Expr → List Case → Expr
  widened pivot cond [] = cond
  widened pivot cond (c ∷ cs) =
      widened pivot (if is_merged pivot c then disj cond c.condition else cond) cs

  -- The `while` loop, with the cases before the pivot and those from it on. The next pivot is the case
  -- behind it that is left.
  unfoldable pub merge_from : ℕ → List Case → List Case → List Case
  unfolding unmerged widened
  merge_from zero before rest = before ++ rest
  merge_from (suc fuel) before [] = before
  merge_from (suc fuel) before (pivot ∷ after) =
      merge_from fuel
        (unmerged pivot before
          ++ record pivot { condition = widened pivot pivot.condition (before ++ after) } ∷ [])
        (unmerged pivot after)

  -- A round is done for each case at most once.
  unfoldable pub merge_cases : List Case → List Case
  merge_cases cases = merge_from (length cases) [] cases

  -- The loop that builds the conditional, from the first case on; the last condition is not asked.
  unfoldable pub ite_chain : Case → List Case → Expr
  ite_chain first [] = first.expression
  ite_chain first (second ∷ cases) = ite first.condition first.expression (ite_chain second cases)

  -- `back` of no cases is undefined in C++; it is `nothing` here.
  unfoldable pub chain_of : Expr → List Case → Expr
  chain_of nothing [] = nothing
  chain_of nothing (c ∷ cs) = ite_chain c cs

  unfoldable pub piecewise2ite : Expr → List Case → Expr
  piecewise2ite nothing [] = chain_of nothing (merge_cases [])
  piecewise2ite nothing (c ∷ []) = c.expression
  piecewise2ite nothing (c ∷ d ∷ cases) = chain_of nothing (merge_cases (c ∷ d ∷ cases))
