-- ===== src/Session/Activation.antt =====
-- lib/VerificationSession.cpp and lib/AnalysisManager.cpp: which session and which analyses a thread
-- uses. The two thread-local pointers are one record; null is none.
use arith_exe.Prelude.{◌≡◌, refl, Option, some, List, [], ◌∷◌, ◌++◌}

module _ {Session Manager : Type 0} (analysis_manager : Session → Manager) where
  pub record Thread : Type 0 where
    pub active_session : Option Session
    pub active_instance : Option Manager

  -- The fields of `Activation`.
  pub record Activation : Type 0 where
    pub previous_session : Option Session
    pub previous_manager : Option Manager

  -- `AnalysisManager::set_active`
  unfoldable pub set_active : Thread → Option Manager → Thread × Option Manager
  set_active t manager = (record t { active_instance = manager }, t.active_instance)

  -- The constructor of `Activation`.
  unfoldable pub activate : Thread → Session → Thread × Activation
  unfolding set_active
  activate t session =
      let (t', previous) = set_active t (some (analysis_manager session)) in
      (
        record t' { active_session = some session },
        record { previous_session = t.active_session; previous_manager = previous },
      )

  -- The destructor of `Activation`.
  unfoldable pub release : Thread → Activation → Thread
  unfolding set_active
  release t a = (set_active (record t { active_session = a.previous_session }) a.previous_manager).0

  -- `VerificationSession::current`, none where it throws
  abbrev pub current : Thread → Option Session
  current t = t.active_session

  -- Blocks that activate a session, one in another or one after another.
  pub data Blocks : Type 0 where
    finish : Blocks
    block : Session → Blocks → Blocks → Blocks

  -- Run the blocks, and note the thread at the end of each before its activation is released.
  unfoldable pub run_blocks : Thread → Blocks → Thread × List Thread
  unfolding activate release
  run_blocks t finish = (t, [])
  run_blocks t (block session inner rest) =
      let (t1, activation) = activate t session in
      let (t2, noted) = run_blocks t1 inner in
      let (t3, later) = run_blocks (release t2 activation) rest in (t3, noted ++ t2 ∷ later)

  -- What is right to note: the block's own session and its analyses.
  abbrev pub threads_of : Blocks → List Thread
  threads_of finish = []
  threads_of (block session inner rest) =
      threads_of inner
      ++ record { active_session = some session; active_instance = some (analysis_manager session) }
        ∷ threads_of rest

  -- However activations are nested, the thread is afterwards what it was before, and at the end of
  -- each block the block's session and its analyses are the active ones.
  pub run_blocks_lem : (t : Thread) (blocks : Blocks) → run_blocks t blocks ≡ (t, threads_of blocks)
  unfolding run_blocks
  run_blocks_lem t finish = refl
  run_blocks_lem t (block session inner rest) =
      rw (run_blocks_lem (activate t session).0 inner, run_blocks_lem t rest) refl
