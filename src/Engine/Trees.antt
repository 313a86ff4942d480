-- ===== src/Engine/Trees.antt =====
-- lib/engine.cpp: the tree of states behind a state, and the lists of results that `verify()` reads.
use arith_exe.Prelude.{
  ◌≡◌, refl, sym, subst, true, false, Option, none, some, List, [], ◌∷◌, ◌++◌, All, arith, ⊎_elim,
}
use arith_exe.Engine.Defs.{
  VerifierIssueKind, VeriResult, hold, fail, veri_unknown, Backend, State, Engine,
}
use arith_exe.Engine.Run.{push_all, record_issue}
use arith_exe.Engine.Loop.{
  Outcome, done, aborted, out_of_fuel, is_fail, verdict, all_hold, any_fail,
}
use arith_exe.Engine.Explored.{In, IsSafe, Step, Explores, here, next}

pub all_hold-append :
    (rs : List VeriResult) (r : VeriResult)
    → all_hold (rs ++ r ∷ []) ≡ true
    → (all_hold rs ≡ true) × (r ≡ hold)
all_hold-append [] hold h = (refl, refl)
all_hold-append [] fail h = cc
all_hold-append [] veri_unknown h = cc
all_hold-append (hold ∷ rs) r h = all_hold-append rs r h
all_hold-append (fail ∷ rs) r h = cc
all_hold-append (veri_unknown ∷ rs) r h = cc

pub verdict-hold : (rs : List VeriResult) → some (verdict rs) ≡ some hold → all_hold rs ≡ true
unfolding verdict
verdict-hold rs h = ground arith

pub none_ne_some : {r : VeriResult} → ◌≡◌ {A = Option VeriResult} none (some r) → ⊥
none_ne_some h = cc

-- A result other than FAIL leaves the results without a FAIL.
pub any_fail-append :
    (rs : List VeriResult) (r : VeriResult)
    → any_fail rs ≡ false
    → is_fail r ≡ false
    → any_fail (rs ++ r ∷ []) ≡ false
any_fail-append [] r h q = rw q refl
any_fail-append (hold ∷ rs) r h q = any_fail-append rs r h q
any_fail-append (fail ∷ rs) r h q = cc
any_fail-append (veri_unknown ∷ rs) r h q = any_fail-append rs r h q

pub verdict-fail : (rs : List VeriResult) → verdict rs ≡ fail → any_fail rs ≡ true
unfolding verdict
verdict-fail rs h = ground arith

module _ (B : Backend) (execute : State B → List (State B)) where
  open B use {check}

  -- Everything explored from the state is safe.
  abbrev pub IsSafeTree : State B → Type 0
  IsSafeTree s = (t : State B) → Explores B execute s t → IsSafe B t

  pub All-push_all :
      (new_states stack : List (State B))
      → All IsSafeTree (push_all B new_states stack)
      → ((t : State B) → In B t new_states → IsSafeTree t) × All IsSafeTree stack
  unfolding push_all
  All-push_all [] stack h = (λ t i. absurd i, h)
  All-push_all (s ∷ new_states) stack h =
      let (rest, both) = All-push_all new_states (s ∷ stack) h in
      (λ t i. ⊎_elim (λ e. subst IsSafeTree (sym e) both.0) (rest t) i, both.1)

  pub tree_lem :
      (s : State B)
      → IsSafe B s
      → ((t : State B) → Step B execute s t → IsSafeTree t)
      → IsSafeTree s
  tree_lem s safe later t here = safe
  tree_lem s safe later t (next {t = u} step rest) = later u step t rest

  pub record_issue_results :
      (e : Engine B) (k : VerifierIssueKind) → (record_issue B e k).results ≡ e.results
  unfolding record_issue
  record_issue_results e k = ground arith

  pub record_issue_states :
      (e : Engine B) (k : VerifierIssueKind) → (record_issue B e k).states ≡ e.states
  unfolding record_issue
  record_issue_states e k = ground arith

  pub Explores-snoc :
      {i s t : State B} → Explores B execute i s → Step B execute s t → Explores B execute i t
  Explores-snoc here step = next step here
  Explores-snoc (next first rest) step = next first (Explores-snoc rest step)

  abbrev pub results_of : Outcome B → List VeriResult
  results_of (done e) = e.results
  results_of (aborted e) = e.results
  results_of (out_of_fuel e) = e.results
