-- ===== src/Engine/Queries.antt =====
-- lib/engine.cpp: the outcomes of the queries `verify(state)` and `test(state)`.
use arith_exe.Prelude.{◌≡◌, refl, Bool, true, false, [], ◌∷◌}
use arith_exe.Engine.Defs.{
  z3_unknown, VeriResult, hold, fail, veri_unknown, TestResult, feasible, unfeasible, test_unknown,
  CheckResult, Backend, State, Engine,
}
use arith_exe.Engine.Run.{
  refutation, is_imprecise, imprecision, verify_state, test, record_issue, capture_counterexample,
}
use arith_exe.Engine.Explored.{IsRefuted}

module _ (B : Backend) (e : Engine B) (s : State B) where
  open B use {check, get_model}

  pub data Verified : Engine B × VeriResult → Type 0 where
    proved : check (refutation B s) ≡ CheckResult.unsat → Verified (e, hold)
    imprecise : ¬ IsRefuted B s → Verified (record_issue B e (imprecision B s), veri_unknown)
    undecided : ¬ IsRefuted B s → Verified (record_issue B e z3_unknown, veri_unknown)
    refuted :
        IsRefuted B s → Verified (capture_counterexample B e s (get_model (refutation B s)), fail)

  Verified-at :
      (c : CheckResult) (b : Bool)
      → check (refutation B s) ≡ c
      → is_imprecise B s ≡ b
      → Verified (verify_state B e s)
  unfolding verify_state
  Verified-at CheckResult.unsat b p q = rw (p, verify_state) (proved p)
  Verified-at CheckResult.sat true p q = rw (p, q, verify_state) (imprecise (λ r. cc))
  Verified-at CheckResult.sat false p q = rw (p, q, verify_state) (refuted (p, q))
  Verified-at CheckResult.unknown b p q = rw (p, verify_state) (undecided (λ r. cc))

  pub Verified-verify_state : Verified (verify_state B e s)
  Verified-verify_state = Verified-at (check (refutation B s)) (is_imprecise B s) refl refl

  pub data Tested : Engine B × TestResult → Type 0 where
    open_path : check (s.path_condition ∷ []) ≡ CheckResult.sat → Tested (e, feasible)
    closed_path : check (s.path_condition ∷ []) ≡ CheckResult.unsat → Tested (e, unfeasible)
    unsettled :
        check (s.path_condition ∷ []) ≡ CheckResult.unknown
        → Tested (record_issue B e z3_unknown, test_unknown)

  Tested-at : (c : CheckResult) → check (s.path_condition ∷ []) ≡ c → Tested (test B e s)
  unfolding test
  Tested-at CheckResult.unsat p = rw (p, test) (closed_path p)
  Tested-at CheckResult.sat p = rw (p, test) (open_path p)
  Tested-at CheckResult.unknown p = rw (p, test) (unsettled p)

  pub Tested-test : Tested (test B e s)
  Tested-test = Tested-at (check (s.path_condition ∷ [])) refl
