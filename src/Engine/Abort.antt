-- ===== src/Engine/Abort.antt =====
-- lib/engine.cpp: when the loop stops at the assertion that the status is RUNNING.
use arith_exe.Prelude.{
  ℕ, zero, suc, ◌≡◌, refl, sym, subst, inl, inr, Bool-cases, List, [], ◌∷◌, All, List-cases,
}
use arith_exe.Engine.Defs.{
  VerifierIssueKind, VeriResult, TestResult, Status, running, terminated, verifying, testing,
  reach_error, failed, CheckResult, Backend, State, Engine, z3_unknown,
}
use arith_exe.Engine.Run.{
  capture_function_certificates, capture_loop_certificates, imprecision, is_imprecise, record_issue,
}
use arith_exe.Engine.Loop.{
  aborted, after, fresh, Outcome, round, round_failed, round_of, round_reach_error, round_testing,
  round_verifying, run,
}
use arith_exe.Engine.Queries.{
  closed_path, imprecise, open_path, proved, refuted, Tested, Tested-test, undecided, unsettled,
  Verified, Verified-verify_state,
}
use arith_exe.Engine.Explored.{enters, executes, Explores, here, passes}
use arith_exe.Engine.Trees.{Explores-snoc, record_issue_states}
use arith_exe.Engine.Fail.{All-pushed, Reached}

module _ (B : Backend) (execute : State B → List (State B)) (initial : State B) where
  open B use {check}

  -- An error state is reached that Z3 shows unfeasible.
  abbrev Unfeasible : Type 0
  Unfeasible =
      (t : State B) × Explores B execute initial t
      × (t.status ≡ reach_error)
      × (check (t.path_condition ∷ []) ≡ CheckResult.unsat)

  -- A loop that returned did not stop.
  stopped : {x y : Engine B} → ◌≡◌ {A = Outcome B} (Outcome.done x) (aborted y) → Unfeasible
  stopped p = cc

  abbrev AreReached : List (State B) → Type 0
  AreReached states = All (Reached B execute initial) states

  recorded-AreReached :
      (e : Engine B) (k : VerifierIssueKind)
      → AreReached e.states
      → AreReached (record_issue B e k).states
  recorded-AreReached e k reached =
      subst AreReached (sym (record_issue_states B execute e k)) reached

  module _ (after_round : Engine B → Outcome B) (e' : Engine B)
      (ih : (e : Engine B) → AreReached e.states → after_round e ≡ aborted e' → Unfeasible) where
    abort_verifying :
        (s : State B) (e : Engine B) {o : Engine B × VeriResult}
        → s.status ≡ verifying
        → Reached B execute initial s
        → AreReached e.states
        → Verified B e s o
        → after B after_round (round_verifying B s o) ≡ aborted e'
        → Unfeasible
    unfolding round_verifying
    abort_verifying s e st path reached (proved u) h =
        ih _ (Explores-snoc B execute path (passes st (λ r. cc)), reached) h
    abort_verifying s e st path reached (imprecise n) h =
        ih _
          (
            Explores-snoc B execute path (passes st n),
            recorded-AreReached e (imprecision B s) reached,
          )
          h
    abort_verifying s e st path reached (undecided n) h =
        ih _ (Explores-snoc B execute path (passes st n), recorded-AreReached e z3_unknown reached)
          h
    abort_verifying s e st path reached (refuted r) h = cc

    abort_testing :
        (s : State B) (e : Engine B) {o : Engine B × TestResult}
        → s.status ≡ testing
        → Reached B execute initial s
        → AreReached e.states
        → Tested B e s o
        → after B after_round (round_testing B s o) ≡ aborted e'
        → Unfeasible
    unfolding round_testing
    abort_testing s e st path reached (open_path c) h =
        ih _ (Explores-snoc B execute path (enters st c), reached) h
    abort_testing s e st path reached (closed_path c) h = ih e reached h
    abort_testing s e st path reached (unsettled c) h =
        ih _ (recorded-AreReached e z3_unknown reached) h

    abort_reach_error :
        (s : State B) (e : Engine B) {o : Engine B × TestResult}
        → s.status ≡ reach_error
        → Reached B execute initial s
        → Tested B e s o
        → after B after_round (round_reach_error B s o) ≡ aborted e'
        → Unfeasible
    unfolding round_reach_error
    abort_reach_error s e st path (closed_path c) h = (s, path, st, c)
    abort_reach_error s e st path (unsettled c) h = cc
    abort_reach_error s e st path (open_path c) h = elim (Bool-cases (is_imprecise B s)) [
      | inl vague ↦ stopped (rw vague at h)
      | inr precise ↦ stopped (rw precise at h)
    ]

    abort_failed :
        (s : State B) (e : Engine B)
        → after B after_round (round_failed B s e) ≡ aborted e'
        → Unfeasible
    unfolding round_failed
    abort_failed s e h = elim (Bool-cases s.counterexample_complete) [
      | inl whole ↦ stopped (rw whole at h)
      | inr partial ↦ stopped (rw partial at h)
    ]

    abort_round_of :
        (st : Status) (s : State B) (e : Engine B)
        → s.status ≡ st
        → Reached B execute initial s
        → AreReached e.states
        → after B after_round (round_of B execute st s e) ≡ aborted e'
        → Unfeasible
    unfolding round_of capture_function_certificates capture_loop_certificates
    abort_round_of running s e st path reached h =
        ih _
          (All-pushed B execute initial (execute s) e.states
            (λ t i. Explores-snoc B execute path (executes st i)) reached)
          h
    abort_round_of terminated s e st path reached h = ih _ reached h
    abort_round_of verifying s e st path reached h =
        abort_verifying s e st path reached (Verified-verify_state B e s) h
    abort_round_of testing s e st path reached h =
        abort_testing s e st path reached (Tested-test B e s) h
    abort_round_of reach_error s e st path reached h =
        abort_reach_error s e st path (Tested-test B e s) h
    abort_round_of Status.unknown s e st path reached h = cc
    abort_round_of failed s e st path reached h = abort_failed s e h

  abort_run :
      (fuel : ℕ) (e e' : Engine B)
      → AreReached e.states
      → run B execute fuel e ≡ aborted e'
      → Unfeasible
  unfolding run round
  abort_run zero e e' reached h = cc
  abort_run (suc fuel) e e' reached h = elim (List-cases e.states) [
    | inl empty ↦ stopped (rw (empty, round) at h)
    | inr (s, rest, full) ↦
        let (path, others) = subst AreReached full reached in
        abort_round_of (run B execute fuel) e' (λ e1 r1 h1. abort_run fuel e1 e' r1 h1) s.status s
          (record e { states = rest }) refl path others (rw (full, round) at h)
  ]

  -- The loop stops at its assertion, from the fresh engine with the initial state, only if the
  -- exploration reaches an error state whose path condition Z3 shows unsatisfiable.
  pub run_aborted :
      (fuel : ℕ) (e : Engine B)
      → run B execute fuel (fresh B initial) ≡ aborted e
      → (t : State B) × Explores B execute initial t
        × (t.status ≡ reach_error)
        × (check (t.path_condition ∷ []) ≡ CheckResult.unsat)
  run_aborted fuel e h = abort_run fuel (fresh B initial) e (here, tt) h
