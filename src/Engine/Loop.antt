-- ===== src/Engine/Loop.antt =====
-- lib/engine.cpp: the rounds of `run(state)`, `run` itself, and the verdict of `verify()`.
use arith_exe.Prelude.{
  ℕ, zero, suc, Bool, true, false, not, ◌&&◌, ◌||◌, Option, none, some, List, [], ◌∷◌,
  if◌then◌else◌,
}
use arith_exe.Engine.Defs.{
  VeriResult, hold, fail, veri_unknown, TestResult, feasible, unfeasible, test_unknown,
  VerifierIssueKind, incomplete_counterexample, unknown_state, Status, running, terminated,
  verifying, testing, reach_error, failed, Backend, State, append_path_condition, Engine,
}
use arith_exe.Engine.Run.{
  record_issue, capture_counterexample, capture_loop_certificates, capture_function_certificates,
  imprecision, is_imprecise, verify_state, test, push_result, push_state, push_all, Round,
  continues, returns, aborts,
}

abbrev pub is_hold : VeriResult → Bool
is_hold hold = true
is_hold fail = false
is_hold veri_unknown = false

abbrev pub is_fail : VeriResult → Bool
is_fail hold = false
is_fail fail = true
is_fail veri_unknown = false

abbrev pub all_hold : List VeriResult → Bool
all_hold [] = true
all_hold (r ∷ rs) = is_hold r && all_hold rs

abbrev pub any_fail : List VeriResult → Bool
any_fail [] = false
any_fail (r ∷ rs) = is_fail r || any_fail rs

-- The verdict of `Engine::verify()` from the results of all paths.
unfoldable pub verdict : List VeriResult → VeriResult
verdict results = if all_hold results then hold else if any_fail results then fail else veri_unknown

module _ (B : Backend) where
  open B use {Instruction, get_model}

  abbrev violation : Engine B → Instruction → Engine B
  violation e i = record e { violation_instruction = some i }

  -- Status VERIFYING.
  abbrev pub verified : State B → State B
  verified s = record (append_path_condition B s s.condition_defined s.verification_condition) {
    status = running;
  }

  unfoldable pub round_verifying : State B → Engine B × VeriResult → Round B
  round_verifying s (e, hold) = continues (push_state B (push_result B e hold) (verified s))
  round_verifying s (e, veri_unknown) =
      continues (push_state B (push_result B e veri_unknown) (verified s))
  round_verifying s (e, fail) =
      returns (violation (push_result B e fail) (elim s.prev_pc [ some p ↦ p | none ↦ s.pc ]))

  -- Status REACH_ERROR. An unfeasible error path falls through to the assertion that the status is
  -- RUNNING.
  unfoldable pub round_reach_error : State B → Engine B × TestResult → Round B
  round_reach_error s (e, feasible) =
      if is_imprecise B s
      then returns (push_result B (record_issue B e (imprecision B s)) veri_unknown)
      else returns (
          capture_counterexample B (violation (push_result B e fail) s.pc) s
            (get_model (s.path_condition ∷ [])))
  round_reach_error s (e, test_unknown) =
      returns (push_result B (record_issue B e VerifierIssueKind.z3_unknown) veri_unknown)
  round_reach_error s (e, unfeasible) = aborts e

  -- Status TESTING.
  abbrev pub entered : State B → State B
  entered s = record s { status = running }

  unfoldable pub round_testing : State B → Engine B × TestResult → Round B
  round_testing s (e, feasible) = continues (push_state B e (entered s))
  round_testing s (e, test_unknown) = continues (push_result B e veri_unknown)
  round_testing s (e, unfeasible) = continues e

  -- Status FAIL.
  unfoldable pub round_failed : State B → Engine B → Round B
  round_failed s e =
      if not s.counterexample_complete
      then returns (push_result B (record_issue B e incomplete_counterexample) veri_unknown)
      else returns (violation (push_result B e fail) s.pc)

  pub data Outcome : Type 0 where
    done aborted out_of_fuel : Engine B → Outcome

  abbrev pub after : (Engine B → Outcome) → Round B → Outcome
  after next (continues e) = next e
  after next (returns e) = done e
  after next (aborts e) = aborted e

  -- The engine that `verify()` starts from, whatever the last run left, with the initial state pushed.
  abbrev pub fresh : State B → Engine B
  fresh initial = record {
    states = initial ∷ [];
    results = [];
    issue = none;
    violation_instruction = none;
    counterexample_inputs = [];
    loop_certificates = [];
    function_certificates = [];
  }

  -- `AInstruction::execute` gives the successors of a running state.
  module _ (execute : State B → List (State B)) where
    unfoldable pub round_of : Status → State B → Engine B → Round B
    unfolding round_verifying round_reach_error round_testing round_failed
    round_of running s e = continues (record e { states = push_all B (execute s) e.states })
    round_of terminated s e =
        continues (capture_function_certificates B (capture_loop_certificates B e s) s)
    round_of verifying s e = round_verifying s (verify_state B e s)
    round_of testing s e = round_testing s (test B e s)
    round_of reach_error s e = round_reach_error s (test B e s)
    round_of Status.unknown s e =
        returns (push_result B (record_issue B e unknown_state) veri_unknown)
    round_of failed s e = round_failed s e

    -- One round of `while (!states.empty())`.
    unfoldable pub round : Engine B → Round B
    unfolding round_of
    round e = elim e.states [
      | [] ↦ returns e
      | s ∷ rest ↦ round_of s.status s (record e { states = rest })
    ]

    -- The loop, at most `fuel` rounds of it: symbolic execution need not end.
    unfoldable pub run : ℕ → Engine B → Outcome
    run zero e = out_of_fuel e
    run (suc fuel) e = after (run fuel) (round e)

    -- `Engine::verify()` from the initial state; none if the loop was not through within the fuel, or
    -- stopped at the failed assertion.
    unfoldable pub verify : ℕ → State B → Option VeriResult
    verify fuel initial = elim (run fuel (fresh initial)) [
      | done e ↦ some (verdict e.results)
      | aborted e ↦ none
      | out_of_fuel e ↦ none
    ]
