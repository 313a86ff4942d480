-- ===== src/Session/Paths.antt =====
-- lib/VerificationSession.{h,cpp}: the alphabets of loop paths, `intern_loop_path`. Loops are LLVM's, so
-- that they and their equality are parameters.
use arith_exe.Prelude.{
  ℕ, ◌+◌, ◌%◌, ◌^◌, Bool, true, false, ◌&&◌, Option, none, some, List, [], ◌∷◌, ◌==◌,
}
use arith_exe.PathExpression.Word.{PathSymbol}
use arith_exe.Session.Maps.{find, insert_or_assign}

pub record PathDecisionEvent : Type 0 where
  pub site : ℕ
  pub choice : ℕ

abbrev pub Decisions : Type 0
Decisions = List PathDecisionEvent

-- the defaulted comparison of `PathDecisionEvent`, for equality
abbrev pub same_event : PathDecisionEvent → PathDecisionEvent → Bool
same_event a b = a.site == b.site && a.choice == b.choice

-- `==` of two vectors of events
abbrev pub same_decisions : Decisions → Decisions → Bool
same_decisions [] [] = true
same_decisions [] (y ∷ ys) = false
same_decisions (x ∷ xs) [] = false
same_decisions (x ∷ xs) (y ∷ ys) = same_event x y && same_decisions xs ys

abbrev pub Alphabet : Type 0
Alphabet = List (Decisions × PathSymbol)

module _ {Loop : Type 0} (same_loop : Loop → Loop → Bool) where
  -- The fields that `intern_loop_path` uses.
  pub record PathSession : Type 0 where
    pub loop_path_alphabets : List (Loop × Alphabet)
    pub next_path_symbol : PathSymbol

  -- `loop_path_alphabets[loop]`: an empty alphabet at first
  unfoldable pub alphabet_of : PathSession → Loop → Alphabet
  alphabet_of s loop = elim (find same_loop s.loop_path_alphabets loop) [ none ↦ [] | some a ↦ a ]

  -- The symbol of a path that is interned.
  unfoldable pub symbol_of : PathSession → Loop → Decisions → Option PathSymbol
  symbol_of s loop decisions = find same_decisions (alphabet_of s loop) decisions

  -- The counter has 32 bits. A path that is found leaves the session as it is, but for an empty
  -- alphabet of a loop without one.
  unfoldable pub intern_loop_path : PathSession → Loop → Decisions → PathSession × PathSymbol
  intern_loop_path s loop decisions = elim (symbol_of s loop decisions) [
    | some symbol ↦ (
      record s {
        loop_path_alphabets =
            insert_or_assign same_loop s.loop_path_alphabets loop (alphabet_of s loop);
      },
      symbol,
    )
    | none ↦ (
      record {
        loop_path_alphabets =
            insert_or_assign same_loop s.loop_path_alphabets loop
              (insert_or_assign same_decisions (alphabet_of s loop) decisions s.next_path_symbol);
        next_path_symbol = (s.next_path_symbol + 1) % 2 ^ 32;
      },
      s.next_path_symbol,
    )
  ]

  -- What `clear_module_state` leaves of it.
  abbrev pub cleared : PathSession
  cleared = record { loop_path_alphabets = []; next_path_symbol = 1 }

  -- The symbols of a sequence of calls, and the session after them.
  unfoldable pub intern_all : PathSession → List (Loop × Decisions) → PathSession × List PathSymbol
  intern_all s [] = (s, [])
  intern_all s ((loop, decisions) ∷ requests) =
      let (s1, symbol) = intern_loop_path s loop decisions in
      let (s2, symbols) = intern_all s1 requests in (s2, symbol ∷ symbols)
