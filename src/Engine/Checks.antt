-- ===== src/Engine/Checks.antt =====
-- lib/engine.cpp on a small program: the solver decides closed formulas, and an instruction is a
-- number.
use arith_exe.Prelude.{
  ℕ, ◌≡◌, ◌==◌, arith, if◌then◌else◌, refl, Bool, true, false, not, ◌&&◌, none, some, List, [], ◌∷◌,
}
use arith_exe.Prelude.Int.{pos}
use arith_exe.Engine.Defs.{
  hold, fail, terminated, verifying, CheckResult, Backend, integer, State, append_path_condition,
  Engine,
}
use arith_exe.Engine.Run.{
  add_certificates, already_recorded, capture_counterexample, capture_function_certificates,
  capture_loop_certificates, push_all, verify_state,
}
use arith_exe.Engine.Loop.{fresh, round, round_of, round_verifying, run, verdict, verify, done}
use arith_exe.Engine.Explored.{Explores, IsSafe, Violates, placed_at, here}
use arith_exe.Engine.Hold.{verify_hold}
use arith_exe.Engine.Fail.{verify_fail}
use arith_exe.Engine.Abort.{run_aborted}
use arith_exe.Engine.Defs.{reach_error}
use arith_exe.Engine.Run.{test}
use arith_exe.Engine.Loop.{aborted, round_reach_error}
use arith_exe.Engine.Certificates.{Grown, add_certificates-Grown}

abbrev all_true : List Bool → Bool
all_true [] = true
all_true (b ∷ bs) = b && all_true bs

abbrev closed_formulas : Backend
closed_formulas = record {
  Formula = Bool;
  Model = Unit {0};
  Term = ℕ;
  Instruction = ℕ;
  Certificate = ℕ;
  Rest = Unit {0};
  conj = λ a b. a && b;
  neg = not;
  is_int = λ a. false;
  is_not_zero = λ a. a;
  check = λ assumptions. if all_true assumptions then CheckResult.sat else CheckResult.unsat;
  get_model = λ assumptions. tt;
  eval = λ model t. t;
  numeral_i64 = λ t. some (pos t);
  is_true = λ t. false;
  is_false = λ t. false;
  same_subject = λ a b. a == b;
}

-- An assertion at the instruction 1.
abbrev asserting : Bool → State closed_formulas
asserting condition = record {
  status = verifying;
  path_condition = true;
  condition_defined = true;
  verification_condition = condition;
  pc = 2;
  prev_pc = some 1;
  is_over_approx = false;
  counterexample_complete = true;
  nondet_calls = record { instruction = 0; value = some 7; values_at = none; count = none } ∷ [];
  loop_certificates = 5 ∷ [];
  function_certificates = [];
  rest = tt;
}

abbrev halt : State closed_formulas → List (State closed_formulas)
halt s = record s { status = terminated } ∷ []

holds : verify closed_formulas halt 9 (asserting true) ≡ some hold
unfolding verify run round round_of round_verifying verify_state append_path_condition push_all
    capture_loop_certificates capture_function_certificates add_certificates already_recorded
    verdict
holds = refl

abbrev after_failure : Engine closed_formulas
after_failure = record (fresh closed_formulas (asserting false)) {
  states = [];
  results = fail ∷ [];
  violation_instruction = some 1;
  counterexample_inputs = record { call = 0; rendered = integer (pos 7) } ∷ [];
}

fails : run closed_formulas halt 9 (fresh closed_formulas (asserting false)) ≡ done after_failure
unfolding run round round_of round_verifying verify_state capture_counterexample
fails = refl

fails_verdict : verdict after_failure.results ≡ fail
unfolding verdict
fails_verdict = refl

verify_hold_example : IsSafe closed_formulas (asserting true)
verify_hold_example =
    verify_hold closed_formulas halt 9 (asserting true) (asserting true) holds here

verify_fail_example :
    (t : State closed_formulas) × Explores closed_formulas halt (asserting false) t
    × Violates closed_formulas t
    × (after_failure.violation_instruction ≡ some (placed_at closed_formulas t.status t))
verify_fail_example =
    verify_fail closed_formulas halt (asserting false) 9 after_failure fails fails_verdict

same_number : (c : ℕ) → (c == c) ≡ true
same_number c = ground arith

add_certificates-Grown_example :
    Grown closed_formulas
      (4 ∷ [])
      (5 ∷ 4 ∷ 5 ∷ [])
      (add_certificates closed_formulas (4 ∷ []) (5 ∷ 4 ∷ 5 ∷ []))
add_certificates-Grown_example =
    add_certificates-Grown closed_formulas same_number (4 ∷ []) (5 ∷ 4 ∷ 5 ∷ []) (tt, tt)

-- An error call behind a contradiction.
abbrev unreachable : State closed_formulas
unreachable = record (asserting true) { status = reach_error; path_condition = false }

abbrev stopped_engine : Engine closed_formulas
stopped_engine = record (fresh closed_formulas unreachable) { states = [] }

stops : run closed_formulas halt 9 (fresh closed_formulas unreachable) ≡ aborted stopped_engine
unfolding run round round_of round_reach_error test
stops = refl

run_aborted_example :
    (t : State closed_formulas) × Explores closed_formulas halt unreachable t
    × (t.status ≡ reach_error)
    × (closed_formulas.check (t.path_condition ∷ []) ≡ CheckResult.unsat)
run_aborted_example = run_aborted closed_formulas halt unreachable 9 stopped_engine stops
