-- ===== src/Engine/Explored.antt =====
-- The tree of states that the loop of lib/engine.cpp explores, as a relation on states that does not
-- mention the stack, and what makes a state a violation or safe.
use arith_exe.Prelude.{◌≡◌, ◌≢◌, ◌⊎◌, true, false, none, some, List, [], ◌∷◌}
use arith_exe.Engine.Defs.{
  Status, running, terminated, verifying, testing, reach_error, failed, CheckResult, Backend, State,
}
use arith_exe.Engine.Run.{is_imprecise, refutation}
use arith_exe.Engine.Loop.{entered, verified}

module _ (B : Backend) where
  open B use {Instruction, check}

  abbrev pub In : State B → List (State B) → Type 0
  In a [] = ⊥
  In a (x ∷ xs) = (a ≡ x) ⊎ In a xs

  -- An assertion that fails on the path: by a precise model, or by none.
  abbrev pub IsRefuted : State B → Type 0
  IsRefuted s = (check (refutation B s) ≡ CheckResult.sat) × (is_imprecise B s ≡ false)

  -- What a state of each status shows.
  abbrev pub ViolatesAt : Status → State B → Type 0
  ViolatesAt verifying s = IsRefuted s
  ViolatesAt reach_error s =
      (check (s.path_condition ∷ []) ≡ CheckResult.sat) × (is_imprecise B s ≡ false)
  ViolatesAt failed s = s.counterexample_complete ≡ true
  ViolatesAt running s = ⊥
  ViolatesAt terminated s = ⊥
  ViolatesAt testing s = ⊥
  ViolatesAt Status.unknown s = ⊥

  abbrev pub Violates : State B → Type 0
  Violates s = ViolatesAt s.status s

  -- The instruction that a violation is reported at.
  abbrev pub placed_at : Status → State B → Instruction
  placed_at verifying s = elim s.prev_pc [ some p ↦ p | none ↦ s.pc ]
  placed_at running s = s.pc
  placed_at terminated s = s.pc
  placed_at testing s = s.pc
  placed_at reach_error s = s.pc
  placed_at Status.unknown s = s.pc
  placed_at failed s = s.pc

  -- Z3 proved the assertion, or settled the branch; no error, failed or unknown state.
  abbrev pub SafeAt : Status → State B → Type 0
  SafeAt verifying s = check (refutation B s) ≡ CheckResult.unsat
  SafeAt testing s = check (s.path_condition ∷ []) ≢ CheckResult.unknown
  SafeAt reach_error s = ⊥
  SafeAt failed s = ⊥
  SafeAt Status.unknown s = ⊥
  SafeAt running s = Unit {0}
  SafeAt terminated s = Unit {0}

  abbrev pub IsSafe : State B → Type 0
  IsSafe s = SafeAt s.status s

  module _ (execute : State B → List (State B)) where
    -- A running state goes to its successors, a feasible branch is entered, and a path goes on behind
    -- an assertion that was not refuted.
    pub data Step (s : State B) : State B → Type 0 where
      executes : {t : State B} → s.status ≡ running → In t (execute s) → Step s t
      enters :
          s.status ≡ testing
          → check (s.path_condition ∷ []) ≡ CheckResult.sat
          → Step s (entered B s)
      passes : s.status ≡ verifying → ¬ IsRefuted s → Step s (verified B s)

    pub data Explores : State B → State B → Type 0 where
      here : {s : State B} → Explores s s
      next : {s t u : State B} → Step s t → Explores t u → Explores s u
