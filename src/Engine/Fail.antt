-- ===== src/Engine/Fail.antt =====
-- lib/engine.cpp: what the verdict FAIL shows.
use arith_exe.Prelude.{
  ℕ, zero, suc, ◌≡◌, refl, sym, ap, subst, ◌∙◌, ◌≢◌, inl, inr, Bool, true, false, Option, none,
  some, List, [], ◌∷◌, All, Bool-cases, List-cases,
}
use arith_exe.Engine.Defs.{
  VerifierIssueKind, incomplete_counterexample, unknown_state, VeriResult, TestResult, hold, fail,
  veri_unknown, Status, running, terminated, verifying, testing, reach_error, failed, Backend,
  State, Engine,
}
use arith_exe.Engine.Run.{
  is_imprecise, imprecision, push_all, push_result, record_issue, capture_counterexample,
  capture_loop_certificates, capture_function_certificates,
}
use arith_exe.Engine.Loop.{
  round, round_of, round_verifying, round_reach_error, round_testing, round_failed, run, Outcome,
  done, aborted, out_of_fuel, after, is_fail, verdict, any_fail, fresh,
}
use arith_exe.Engine.Queries.{
  Verified, proved, imprecise, undecided, refuted, Verified-verify_state, Tested, open_path,
  closed_path, unsettled, Tested-test,
}
use arith_exe.Engine.Explored.{
  In, ViolatesAt, Violates, placed_at, executes, enters, passes, Explores, here,
}
use arith_exe.Engine.Trees.{
  any_fail-append, verdict-fail, record_issue_results, record_issue_states, Explores-snoc,
  results_of,
}

module _ (B : Backend) (execute : State B → List (State B)) (initial : State B) where
  abbrev pub Reached : State B → Type 0
  Reached = Explores B execute initial

  -- The run ended with a violation, at a state that the exploration reaches.
  abbrev Found : Engine B → Type 0
  Found e =
      (t : State B) × Reached t
      × Violates B t
      × (e.violation_instruction ≡ some (placed_at B t.status t))

  -- No FAIL so far, and all states on the stack are reached.
  abbrev IsClear : Engine B → Type 0
  IsClear e = (any_fail e.results ≡ false) × All Reached e.states

  pushed-IsClear :
      (e : Engine B) (r : VeriResult) → is_fail r ≡ false → IsClear e → IsClear (push_result B e r)
  pushed-IsClear e r n (clear, reached) = (any_fail-append e.results r clear n, reached)

  recorded-IsClear :
      (e : Engine B) (k : VerifierIssueKind) → IsClear e → IsClear (record_issue B e k)
  recorded-IsClear e k (clear, reached) = (
    ap any_fail (record_issue_results B execute e k) ∙ clear,
    subst (All Reached) (sym (record_issue_states B execute e k)) reached,
  )

  pub All-pushed :
      (new_states stack : List (State B))
      → ((t : State B) → In B t new_states → Reached t)
      → All Reached stack
      → All Reached (push_all B new_states stack)
  unfolding push_all
  All-pushed [] stack new old = old
  All-pushed (s ∷ new_states) stack new old =
      All-pushed new_states (s ∷ stack) (λ t i. new t (inr i)) (new s (inl refl), old)

  module _ (after_round : Engine B → Outcome B) (e' : Engine B) (bad : any_fail e'.results ≡ true)
      (ih : (e : Engine B) → IsClear e → after_round e ≡ done e' → Found e') where
    -- A round that returns without a FAIL.
    returned_clear :
        {x : Outcome B} → x ≡ done e' → any_fail (results_of B execute x) ≡ false → Found e'
    returned_clear h clear =
        absurd (clash (sym clear ∙ ap (λ x. any_fail (results_of B execute x)) h ∙ bad))
      where
        clash : ◌≢◌ {A = Bool} false true
        clash x = cc

    abbrev violation_of : Outcome B → Option B.Instruction
    violation_of (done e) = e.violation_instruction
    violation_of (aborted e) = none
    violation_of (out_of_fuel e) = none

    -- A round that returns with a violation.
    returned-Found :
        {x : Outcome B} (s : State B) (st : Status)
        → s.status ≡ st
        → Reached s
        → ViolatesAt B st s
        → x ≡ done e'
        → violation_of x ≡ some (placed_at B st s)
        → Found e'
    returned-Found s st at path violation h placed = (
      s,
      path,
      subst (λ k. ViolatesAt B k s) (sym at) violation,
      sym (ap violation_of h) ∙ placed ∙ ap (λ k. some (placed_at B k s)) (sym at),
    )

    fail_verifying :
        (s : State B) (e : Engine B) {o : Engine B × VeriResult}
        → s.status ≡ verifying
        → Reached s
        → IsClear e
        → Verified B e s o
        → after B after_round (round_verifying B s o) ≡ done e'
        → Found e'
    unfolding round_verifying capture_counterexample
    fail_verifying s e st path (clear, reached) (proved u) h =
        ih _
          (
            (any_fail-append e.results hold clear refl),
            (Explores-snoc B execute path (passes st (λ r. cc)), reached),
          )
          h
    fail_verifying s e st path clear (imprecise n) h =
        let (still, reached) =
          pushed-IsClear (record_issue B e (imprecision B s)) veri_unknown refl
            (recorded-IsClear e (imprecision B s) clear) in
        ih _ (still, (Explores-snoc B execute path (passes st n), reached)) h
    fail_verifying s e st path clear (undecided n) h =
        let (still, reached) =
          pushed-IsClear (record_issue B e VerifierIssueKind.z3_unknown) veri_unknown refl
            (recorded-IsClear e VerifierIssueKind.z3_unknown clear) in
        ih _ (still, (Explores-snoc B execute path (passes st n), reached)) h
    fail_verifying s e st path clear (refuted r) h = returned-Found s verifying st path r h refl

    fail_testing :
        (s : State B) (e : Engine B) {o : Engine B × TestResult}
        → s.status ≡ testing
        → Reached s
        → IsClear e
        → Tested B e s o
        → after B after_round (round_testing B s o) ≡ done e'
        → Found e'
    unfolding round_testing
    fail_testing s e st path (clear, reached) (open_path c) h =
        ih _ (clear, (Explores-snoc B execute path (enters st c), reached)) h
    fail_testing s e st path clear (closed_path c) h = ih e clear h
    fail_testing s e st path clear (unsettled c) h =
        ih _
          (pushed-IsClear (record_issue B e VerifierIssueKind.z3_unknown) veri_unknown refl
            (recorded-IsClear e VerifierIssueKind.z3_unknown clear))
          h

    fail_reach_error :
        (s : State B) (e : Engine B) {o : Engine B × TestResult}
        → s.status ≡ reach_error
        → Reached s
        → IsClear e
        → Tested B e s o
        → after B after_round (round_reach_error B s o) ≡ done e'
        → Found e'
    unfolding round_reach_error capture_counterexample
    fail_reach_error s e st path clear (closed_path c) h = cc
    fail_reach_error s e st path clear (unsettled c) h =
        returned_clear h
          (pushed-IsClear
            (record_issue B (record_issue B e VerifierIssueKind.z3_unknown)
              VerifierIssueKind.z3_unknown)
            veri_unknown refl
            (recorded-IsClear (record_issue B e VerifierIssueKind.z3_unknown)
              VerifierIssueKind.z3_unknown
              (recorded-IsClear e VerifierIssueKind.z3_unknown clear))).0
    fail_reach_error s e st path clear (open_path c) h = elim (Bool-cases (is_imprecise B s)) [
      | inl vague ↦
          returned_clear (rw vague at h)
            (pushed-IsClear (record_issue B e (imprecision B s)) veri_unknown refl
              (recorded-IsClear e (imprecision B s) clear)).0
      | inr precise ↦ returned-Found s reach_error st path (c, precise) (rw precise at h) refl
    ]

    fail_failed :
        (s : State B) (e : Engine B)
        → s.status ≡ failed
        → Reached s
        → IsClear e
        → after B after_round (round_failed B s e) ≡ done e'
        → Found e'
    unfolding round_failed
    fail_failed s e st path clear h = elim (Bool-cases s.counterexample_complete) [
      | inl whole ↦ returned-Found s failed st path whole (rw whole at h) refl
      | inr partial ↦
          returned_clear (rw partial at h)
            (pushed-IsClear (record_issue B e incomplete_counterexample) veri_unknown refl
              (recorded-IsClear e incomplete_counterexample clear)).0
    ]

    fail_round_of :
        (st : Status) (s : State B) (e : Engine B)
        → s.status ≡ st
        → Reached s
        → IsClear e
        → after B after_round (round_of B execute st s e) ≡ done e'
        → Found e'
    unfolding round_of capture_function_certificates capture_loop_certificates
    fail_round_of running s e st path (clear, reached) h =
        ih _
          (
            clear,
            All-pushed (execute s) e.states (λ t i. Explores-snoc B execute path (executes st i))
                reached,
          )
          h
    fail_round_of terminated s e st path clear h = ih _ clear h
    fail_round_of verifying s e st path clear h =
        fail_verifying s e st path clear (Verified-verify_state B e s) h
    fail_round_of testing s e st path clear h = fail_testing s e st path clear (Tested-test B e s) h
    fail_round_of reach_error s e st path clear h =
        fail_reach_error s e st path clear (Tested-test B e s) h
    fail_round_of Status.unknown s e st path clear h =
        returned_clear h
          (pushed-IsClear (record_issue B e unknown_state) veri_unknown refl
            (recorded-IsClear e unknown_state clear)).0
    fail_round_of failed s e st path clear h = fail_failed s e st path clear h

  fail_run :
      (fuel : ℕ) (e e' : Engine B)
      → any_fail e'.results ≡ true
      → IsClear e
      → run B execute fuel e ≡ done e'
      → Found e'
  unfolding run round
  fail_run zero e e' bad clear h = cc
  fail_run (suc fuel) e e' bad (clear, reached) h = elim (List-cases e.states) [
    | inl empty ↦
        returned_clear (run B execute fuel) e' bad (λ e1 c1 h1. fail_run fuel e1 e' bad c1 h1)
          (rw (empty, round) at h) clear
    | inr (s, rest, full) ↦
        let (path, others) = subst (All Reached) full reached in
        fail_round_of (run B execute fuel) e' bad (λ e1 c1 h1. fail_run fuel e1 e' bad c1 h1)
          s.status s (record e { states = rest }) refl path (clear, others) (rw (full, round) at h)
  ]

  -- If the loop is through within the fuel, from the fresh engine with the initial state, and the
  -- verdict on its results is FAIL, then the exploration reaches a state from the initial one that
  -- is a violation (a refuted assertion on a precise path, a feasible precise error state, or a failed
  -- state with a complete counterexample), and the recorded violation instruction is that state's.
  pub verify_fail :
      (fuel : ℕ) (e : Engine B)
      → run B execute fuel (fresh B initial) ≡ done e
      → verdict e.results ≡ fail
      → (t : State B) × Explores B execute initial t
        × Violates B t
        × (e.violation_instruction ≡ some (placed_at B t.status t))
  verify_fail fuel e h bad =
      fail_run fuel (fresh B initial) e (verdict-fail e.results bad) (refl, (here, tt)) h
