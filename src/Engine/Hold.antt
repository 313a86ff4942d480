-- ===== src/Engine/Hold.antt =====
-- lib/engine.cpp: what the verdict HOLD shows.
use arith_exe.Prelude.{
  ℕ, zero, suc, ◌≡◌, refl, sym, ap, subst, ◌∙◌, ◌≢◌, inl, inr, true, not, some, List, [], ◌∷◌, ◌++◌,
  All, Bool-cases, List-cases,
}
use arith_exe.Engine.Defs.{
  VerifierIssueKind, incomplete_counterexample, unknown_state, VeriResult, TestResult, hold, fail,
  veri_unknown, Status, running, terminated, verifying, testing, reach_error, failed, Backend,
  State, Engine,
}
use arith_exe.Engine.Run.{
  is_imprecise, imprecision, push_all, record_issue, capture_counterexample,
  capture_loop_certificates, capture_function_certificates,
}
use arith_exe.Engine.Loop.{
  entered, verified, round, round_of, round_verifying, round_reach_error, round_testing,
  round_failed, run, verify, Outcome, done, aborted, out_of_fuel, after, all_hold, fresh,
}
use arith_exe.Engine.Queries.{
  Verified, proved, imprecise, undecided, refuted, Verified-verify_state, Tested, open_path,
  closed_path, unsettled, Tested-test,
}
use arith_exe.Engine.Explored.{In, SafeAt, IsSafe, Step, executes, enters, passes, Explores}
use arith_exe.Engine.Trees.{
  all_hold-append, verdict-hold, none_ne_some, IsSafeTree, All-push_all, tree_lem, results_of,
}

module _ (B : Backend) (execute : State B → List (State B)) where
  open B use {check}

  -- One round, for any continuation with the property.
  module _ (after_round : Engine B → Outcome B) (e' : Engine B) (good : all_hold e'.results ≡ true)
      (ih : (e : Engine B)
        → after_round e ≡ done e'
        → (all_hold e.results ≡ true) × All (IsSafeTree B execute) e.states) where
    abbrev Conclusion : State B → Engine B → Type 0
    Conclusion s e =
        (all_hold e.results ≡ true) × (IsSafeTree B execute s × All (IsSafeTree B execute) e.states)

    -- A result other than HOLD is never pushed.
    pushed_hold :
        (rs : List VeriResult) (r : VeriResult) → r ≢ hold → all_hold (rs ++ r ∷ []) ≡ true → ⊥
    pushed_hold rs r n h = n (all_hold-append rs r h).1

    -- Nor does a round return with one.
    returned_hold :
        {x : Outcome B}
        → x ≡ done e'
        → (rs : List VeriResult) (r : VeriResult) → r ≢ hold
        → (results_of B execute) x ≡ rs ++ r ∷ []
        → ⊥
    returned_hold h rs r n pushed =
        pushed_hold rs r n (ap all_hold (sym pushed ∙ ap (results_of B execute) h) ∙ good)

    hold_verifying :
        (s : State B) (e : Engine B) {o : Engine B × VeriResult}
        → s.status ≡ verifying
        → Verified B e s o
        → after B after_round (round_verifying B s o) ≡ done e'
        → Conclusion s e
    unfolding round_verifying capture_counterexample
    hold_verifying s e st (proved u) h =
        let (all, trees) = ih _ h in
        (
          (all_hold-append e.results hold all).0,
          (
            tree_lem B execute s (subst (λ k. SafeAt B k s) (sym st) u)
                (λ t step. passed t step trees.0),
            trees.1,
          ),
        )
      where
        passed :
            (t : State B)
            → Step B execute s t
            → IsSafeTree B execute (verified B s)
            → IsSafeTree B execute t
        passed t (executes r i) tree = cc
        passed t (enters r c) tree = cc
        passed t (passes r n) tree = tree
    hold_verifying s e st (imprecise n) h = absurd (
        pushed_hold ((record_issue B e (imprecision B s)).results) veri_unknown (λ x. cc)
          (ih _ h).0)
    hold_verifying s e st (undecided n) h = absurd (
        pushed_hold ((record_issue B e VerifierIssueKind.z3_unknown).results) veri_unknown (λ x. cc)
          (ih _ h).0)
    hold_verifying s e st (refuted r) h = absurd (returned_hold h e.results fail (λ x. cc) refl)

    hold_testing :
        (s : State B) (e : Engine B) {o : Engine B × TestResult}
        → s.status ≡ testing
        → Tested B e s o
        → after B after_round (round_testing B s o) ≡ done e'
        → Conclusion s e
    unfolding round_testing
    hold_testing s e st (open_path c) h =
        let (all, trees) = ih _ h in
        (
          all,
          (
            tree_lem B execute s (subst (λ k. SafeAt B k s) (sym st) (λ u. cc))
                (λ t step. opened t step trees.0),
            trees.1,
          ),
        )
      where
        opened :
            (t : State B)
            → Step B execute s t
            → IsSafeTree B execute (entered B s)
            → IsSafeTree B execute t
        opened t (executes r i) tree = cc
        opened t (enters r x) tree = tree
        opened t (passes r n) tree = cc
    hold_testing s e st (closed_path c) h =
        let (all, trees) = ih e h in
        (
          all,
          (
            tree_lem B execute s (subst (λ k. SafeAt B k s) (sym st) (λ u. cc))
                (λ t step. closed t step),
            trees,
          ),
        )
      where
        closed : (t : State B) → Step B execute s t → IsSafeTree B execute t
        closed t (executes r i) = cc
        closed t (enters r x) = cc
        closed t (passes r n) = cc
    hold_testing s e st (unsettled c) h = absurd (
        pushed_hold (record_issue B e VerifierIssueKind.z3_unknown).results veri_unknown (λ x. cc)
          (ih _ h).0)

    hold_reach_error :
        (s : State B) (e : Engine B) {o : Engine B × TestResult}
        → Tested B e s o
        → after B after_round (round_reach_error B s o) ≡ done e'
        → ⊥
    unfolding round_reach_error capture_counterexample
    hold_reach_error s e (closed_path c) h = cc
    hold_reach_error s e (unsettled c) h =
        returned_hold h
          (record_issue B (record_issue B e VerifierIssueKind.z3_unknown)
            VerifierIssueKind.z3_unknown).results
          veri_unknown (λ x. cc) refl
    hold_reach_error s e (open_path c) h = elim (Bool-cases (is_imprecise B s)) [
      | inl vague ↦
          returned_hold (rw vague at h) (record_issue B e (imprecision B s)).results veri_unknown
            (λ x. cc) refl
      | inr precise ↦ returned_hold (rw precise at h) e.results fail (λ x. cc) refl
    ]

    hold_failed :
        (s : State B) (e : Engine B) → after B after_round (round_failed B s e) ≡ done e' → ⊥
    unfolding round_failed
    hold_failed s e h = elim (Bool-cases (not s.counterexample_complete)) [
      | inl partial ↦
          returned_hold (rw partial at h) (record_issue B e incomplete_counterexample).results
            veri_unknown (λ x. cc) refl
      | inr whole ↦ returned_hold (rw whole at h) e.results fail (λ x. cc) refl
    ]

    hold_running :
        (s : State B) (e : Engine B)
        → s.status ≡ running
        → after_round (record e { states = push_all B (execute s) e.states }) ≡ done e'
        → Conclusion s e
    hold_running s e st h =
        let (all, trees) = ih _ h in
        let (new_trees, old_trees) = All-push_all B execute (execute s) e.states trees in
        (
          all,
          (
            tree_lem B execute s (subst (λ k. SafeAt B k s) (sym st) tt)
                (λ t step. stepped t step new_trees),
            old_trees,
          ),
        )
      where
        stepped :
            (t : State B)
            → Step B execute s t
            → ((u : State B) → In B u (execute s) → IsSafeTree B execute u)
            → IsSafeTree B execute t
        stepped t (executes r i) trees = trees t i
        stepped t (enters r x) trees = cc
        stepped t (passes r n) trees = cc

    hold_terminated :
        (s : State B) (e : Engine B)
        → s.status ≡ terminated
        → after_round (capture_function_certificates B (capture_loop_certificates B e s) s)
          ≡ done e'
        → Conclusion s e
    unfolding capture_function_certificates capture_loop_certificates
    hold_terminated s e st h =
        let (all, trees) = ih _ h in
        (
          all,
          (
            tree_lem B execute s (subst (λ k. SafeAt B k s) (sym st) tt) (λ t step. ended t step),
            trees,
          ),
        )
      where
        ended : (t : State B) → Step B execute s t → IsSafeTree B execute t
        ended t (executes r i) = cc
        ended t (enters r x) = cc
        ended t (passes r n) = cc

    hold_round_of :
        (st : Status) (s : State B) (e : Engine B)
        → s.status ≡ st
        → after B after_round (round_of B execute st s e) ≡ done e'
        → Conclusion s e
    unfolding round_of
    hold_round_of running s e st h = hold_running s e st h
    hold_round_of terminated s e st h = hold_terminated s e st h
    hold_round_of verifying s e st h = hold_verifying s e st (Verified-verify_state B e s) h
    hold_round_of testing s e st h = hold_testing s e st (Tested-test B e s) h
    hold_round_of reach_error s e st h = absurd (hold_reach_error s e (Tested-test B e s) h)
    hold_round_of Status.unknown s e st h =
        absurd
          (returned_hold h (record_issue B e unknown_state).results veri_unknown (λ x. cc) refl)
    hold_round_of failed s e st h = absurd (hold_failed s e h)

  hold_run :
      (fuel : ℕ) (e e' : Engine B)
      → run B execute fuel e ≡ done e'
      → all_hold e'.results ≡ true
      → (all_hold e.results ≡ true) × All (IsSafeTree B execute) e.states
  unfolding run round
  hold_run zero e e' h good = cc
  hold_run (suc fuel) e e' h good = elim (List-cases e.states) [
    | inl empty ↦
        let same = ap (results_of B execute) (rw (empty, round) at h) in
        (ap all_hold same ∙ good, rw (empty, All) tt)
    | inr (s, rest, full) ↦
        let (all, both) =
          hold_round_of (run B execute fuel) e' good (λ e1 h1. hold_run fuel e1 e' h1 good) s.status
            s (record e { states = rest }) refl (rw (full, round) at h) in
        (all, rw full both)
  ]

  -- If `verify` gives HOLD within the fuel, then every state that the exploration reaches from the
  -- initial one is safe: Z3 refuted the negation of each assertion, settled each branch, and no
  -- error, failed or unknown state is reached.
  pub verify_hold :
      (fuel : ℕ) (initial t : State B)
      → verify B execute fuel initial ≡ some hold
      → Explores B execute initial t
      → IsSafe B t
  unfolding verify
  verify_hold fuel initial t h path = by_outcome (run B execute fuel (fresh B initial)) refl
    where
      by_outcome : (x : Outcome B) → run B execute fuel (fresh B initial) ≡ x → IsSafe B t
      by_outcome (done e) q =
          (hold_run fuel (fresh B initial) e q (verdict-hold e.results (rw (verify, q) at h))).1.0 t
            path
      by_outcome (aborted e) q = absurd (none_ne_some (rw (verify, q) at h))
      by_outcome (out_of_fuel e) q = absurd (none_ne_some (rw (verify, q) at h))
