-- ===== src/Engine/Run.antt =====
-- lib/engine.cpp: the queries `verify(state)` and `test(state)`, what is captured, and the loop `run`.
use arith_exe.Prelude.{
  ℕ, zero, suc, ◌+◌, Bool, false, not, ◌||◌, none, some, List, [], ◌∷◌, ◌++◌, if◌then◌else◌,
}
use arith_exe.Prelude.Int.{pos, negsuc}
use arith_exe.Engine.Defs.{
  VeriResult, hold, fail, veri_unknown, TestResult, feasible, unfeasible, test_unknown,
  VerifierIssueKind, z3_unknown, over_approximation, incomplete_counterexample, CheckResult,
  Backend, NondetCall, State, Rendered, integer, text, CounterexampleInput, Engine,
}

module _ (B : Backend) where
  open B use {
    Formula, Model, Term, Instruction, Certificate, neg, check, get_model, eval, numeral_i64,
    is_true, is_false, same_subject,
  }

  unfoldable pub record_issue : Engine B → VerifierIssueKind → Engine B
  record_issue e kind = elim e.issue [ none ↦ record e { issue = some kind } | some k ↦ e ]

  -- Every argument that is short of the count, from `index` on.
  values_below : Model → (ℕ → Term) → ℕ → ℕ → List Term
  values_below model at zero index = []
  values_below model at (suc rounds) index =
      eval model (at index) ∷ values_below model at rounds (index + 1)

  -- The values that a call returned, under a model; a count that is no numeral or is negative gives
  -- none.
  unfoldable pub call_values : Model → NondetCall B → List Term
  unfolding values_below
  call_values model call = elim call.value [
    | some v ↦ eval model v ∷ []
    | none ↦ elim call.values_at [
      | none ↦ []
      | some at ↦ elim call.count [
        | none ↦ []
        | some c ↦ elim (numeral_i64 (eval model c)) [
          | none ↦ []
          | some (pos count) ↦ values_below model at count 0
          | some (negsuc _) ↦ []
        ]
      ]
    ]
  ]

  unfoldable pub render_value : Term → Rendered B
  render_value value = elim (numeral_i64 value) [
    | some n ↦ integer n
    | none ↦
        if is_true value
        then integer (pos 1)
        else if is_false value
        then integer (pos 0)
        else text value
  ]

  inputs_of : Instruction → List Term → List (CounterexampleInput B)
  unfolding render_value
  inputs_of call [] = []
  inputs_of call (v ∷ vs) = record { call = call; rendered = render_value v } ∷ inputs_of call vs

  inputs_of_calls : Model → List (NondetCall B) → List (CounterexampleInput B)
  unfolding inputs_of call_values
  inputs_of_calls model [] = []
  inputs_of_calls model (call ∷ calls) =
      inputs_of call.instruction (call_values model call) ++ inputs_of_calls model calls

  unfoldable pub capture_counterexample : Engine B → State B → Model → Engine B
  unfolding inputs_of_calls
  capture_counterexample e state model = record e {
    counterexample_inputs = inputs_of_calls model state.nondet_calls;
  }

  -- `std::any_of`: a certificate for the same loop or function is there
  unfoldable pub already_recorded : Certificate → List Certificate → Bool
  already_recorded c [] = false
  already_recorded c (d ∷ ds) = same_subject d c || already_recorded c ds

  -- The loop of `capture_loop_certificates` and of `capture_function_certificates`.
  unfoldable pub add_certificates : List Certificate → List Certificate → List Certificate
  unfolding already_recorded
  add_certificates recorded [] = recorded
  add_certificates recorded (c ∷ cs) =
      add_certificates (if already_recorded c recorded then recorded else recorded ++ c ∷ []) cs

  unfoldable pub capture_loop_certificates : Engine B → State B → Engine B
  unfolding add_certificates
  capture_loop_certificates e state = record e {
    loop_certificates = add_certificates e.loop_certificates state.loop_certificates;
  }

  unfoldable pub capture_function_certificates : Engine B → State B → Engine B
  unfolding add_certificates
  capture_function_certificates e state = record e {
    function_certificates = add_certificates e.function_certificates state.function_certificates;
  }

  -- The kind that both imprecise violations are recorded under.
  abbrev pub imprecision : State B → VerifierIssueKind
  imprecision state = if state.is_over_approx then over_approximation else incomplete_counterexample

  abbrev pub is_imprecise : State B → Bool
  is_imprecise state = state.is_over_approx || not state.counterexample_complete

  -- The query of `verify(state)`.
  abbrev pub refutation : State B → List Formula
  refutation state =
      state.path_condition ∷ state.condition_defined ∷ neg state.verification_condition ∷ []

  unfoldable pub verify_state : Engine B → State B → Engine B × VeriResult
  verify_state e state = elim (check (refutation state)) [
    | CheckResult.unsat ↦ (e, hold)
    | CheckResult.sat ↦
        if is_imprecise state
        then (record_issue e (imprecision state), veri_unknown)
        else (capture_counterexample e state (get_model (refutation state)), fail)
    | CheckResult.unknown ↦ (record_issue e z3_unknown, veri_unknown)
  ]

  unfoldable pub test : Engine B → State B → Engine B × TestResult
  test e state = elim (check (state.path_condition ∷ [])) [
    | CheckResult.unsat ↦ (e, unfeasible)
    | CheckResult.sat ↦ (e, feasible)
    | CheckResult.unknown ↦ (record_issue e z3_unknown, test_unknown)
  ]

  abbrev pub push_result : Engine B → VeriResult → Engine B
  push_result e r = record e { results = e.results ++ r ∷ [] }

  abbrev pub push_state : Engine B → State B → Engine B
  push_state e s = record e { states = s ∷ e.states }

  -- What one round of the loop does: go on, return, or stop at the failed assertion
  -- `cur_state->status == State::RUNNING`.
  pub data Round : Type 0 where
    continues returns aborts : Engine B → Round

  -- `for (auto& new_state : new_states) states.push(new_state)`
  unfoldable pub push_all : List (State B) → List (State B) → List (State B)
  push_all [] stack = stack
  push_all (s ∷ new_states) stack = push_all new_states (s ∷ stack)
