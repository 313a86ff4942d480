-- ===== src/Engine/Defs.antt =====
-- The data of the engine: verdicts (lib/common.h), states (lib/state.h), and what it takes from Z3,
-- LLVM and the instructions. A formula is what `as_expr` gives of an `Expression`; the
-- exceptions of Z3 are left out.
use arith_exe.Prelude.{ℕ, Bool, Option, List, if◌then◌else◌}
use arith_exe.Prelude.Int.{ℤ}
pub use arith_exe.Z3.{CheckResult}

pub data VeriResult : Type 0 where
  hold fail veri_unknown : VeriResult

pub data TestResult : Type 0 where
  feasible unfeasible test_unknown : TestResult

-- the kinds of `VerifierIssueKind` that the engine records
pub data VerifierIssueKind : Type 0 where
  z3_unknown over_approximation incomplete_counterexample unknown_state : VerifierIssueKind

-- `State::Status`
pub data Status : Type 0 where
  running terminated verifying testing reach_error unknown failed : Status

-- What is not the engine's own: the formulas, solver and models of Z3, LLVM's instructions, loops and
-- functions, and all of a state that the engine passes on without a look.
pub record Backend : Type 1 where
  pub Formula : Type 0
  pub Model : Type 0
  pub Term : Type 0
  pub Instruction : Type 0
  pub Certificate : Type 0
  pub Rest : Type 0
  pub conj : Formula → Formula → Formula
  pub neg : Formula → Formula
  pub is_int : Formula → Bool
  pub is_not_zero : Formula → Formula
  pub check : List Formula → CheckResult
  pub get_model : List Formula → Model
  pub eval : Model → Term → Term
  pub numeral_i64 : Term → Option ℤ
  pub is_true : Term → Bool
  pub is_false : Term → Bool
  pub same_subject : Certificate → Certificate → Bool

module _ (B : Backend) where
  open B use {Formula, Term, Instruction, Certificate, Rest, conj, is_int, is_not_zero}

  -- `NondetCall`: one value, or a value for each index below a count (`values` or `sequence`).
  pub record NondetCall : Type 0 where
    pub instruction : Instruction
    pub value : Option Term
    pub values_at : Option (ℕ → Term)
    pub count : Option Term

  pub record State : Type 0 where
    pub status : Status
    pub path_condition : Formula
    pub condition_defined : Formula
    pub verification_condition : Formula
    pub pc : Instruction
    pub prev_pc : Option Instruction
    pub is_over_approx : Bool
    pub counterexample_complete : Bool
    pub nondet_calls : List NondetCall
    pub loop_certificates : List Certificate
    pub function_certificates : List Certificate
    pub rest : Rest

  abbrev normalize_bool : Formula → Formula
  normalize_bool expr = if is_int expr then is_not_zero expr else expr

  -- `State::append_path_condition`, for a condition and its definedness
  unfoldable pub append_path_condition : State → Formula → Formula → State
  append_path_condition state defined appended = record state {
    path_condition =
        conj (conj (normalize_bool state.path_condition) defined) (normalize_bool appended);
  }

  -- The text of a concrete value in a counterexample.
  pub data Rendered : Type 0 where
    integer : ℤ → Rendered
    text : Term → Rendered

  pub record CounterexampleInput : Type 0 where
    pub call : Instruction
    pub rendered : Rendered

  -- The fields of `Engine` that a run changes.
  pub record Engine : Type 0 where
    pub states : List State
    pub results : List VeriResult
    pub issue : Option VerifierIssueKind
    pub violation_instruction : Option Instruction
    pub counterexample_inputs : List CounterexampleInput
    pub loop_certificates : List Certificate
    pub function_certificates : List Certificate
