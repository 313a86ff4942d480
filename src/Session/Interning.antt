-- ===== src/Session/Interning.antt =====
-- lib/VerificationSession.cpp: `intern_loop_path` numbers the paths of all loops one to one.
use arith_exe.Prelude.{
  ℕ, zero, suc, ◌+◌, ◌%◌, ◌^◌, ◌<◌, ◌≡◌, refl, sym, ap, ap₂, ◌∙◌, ◌↔◌, ◌⊎◌, inl, inr, Bool, true,
  false, ◌&&◌, Option, none, some, List, [], ◌∷◌, arith, if◌then◌else◌, Bool-cases, length,
  get_elem?,
}
use native.Mathlib.Nat.{mod-eq_of_lt}
use arith_exe.PathExpression.Word.{PathSymbol}
use arith_exe.Session.Maps.{IsEquality, find, insert_or_assign, find-insert_or_assign}
use arith_exe.Session.Paths.{
  Decisions, Alphabet, same_decisions, PathSession, alphabet_of, symbol_of, intern_loop_path,
  cleared, intern_all,
}
use arith_exe.Session.Numbering.{
  same_decisions-IsEquality, alphabet_of-assign, IsNumbered, IsInterned, same_symbols, one_more,
}

module _ {Loop : Type 0} (same_loop : Loop → Loop → Bool) (equality : IsEquality same_loop) where
  module _ (s : PathSession same_loop) (numbered : IsNumbered same_loop equality s) (loop : Loop)
      (d : Decisions) (room : s.next_path_symbol + 1 < 2 ^ 32) where
    -- The alphabet of the loop, written back with nothing new.
    written_back :
        (other : Loop) (e : Decisions)
        → symbol_of same_loop
            (record s {
              loop_path_alphabets =
                  insert_or_assign same_loop s.loop_path_alphabets loop
                    (alphabet_of same_loop s loop);
            })
            other
            e
          ≡ symbol_of same_loop s other e
    unfolding symbol_of
    written_back other e =
        ap (λ a. find same_decisions a e)
          (alphabet_of-assign same_loop equality s loop other (alphabet_of same_loop s loop)
              s.next_path_symbol
            ∙ back (Bool-cases (same_loop loop other)))
      where
        back :
            (same_loop loop other ≡ true) ⊎ (same_loop loop other ≡ false)
            → (if same_loop loop other
                then alphabet_of same_loop s loop
                else alphabet_of same_loop s other)
              ≡ alphabet_of same_loop s other
        back (inl h) = rw h (ap (alphabet_of same_loop s) (equality.sound loop other h))
        back (inr h) = rw h refl

    abbrev added : Alphabet
    added = insert_or_assign same_decisions (alphabet_of same_loop s loop) d s.next_path_symbol

    extended :
        (n : ℕ) (other : Loop) (e : Decisions)
        → symbol_of same_loop
            (record {
              loop_path_alphabets = insert_or_assign same_loop s.loop_path_alphabets loop added;
              next_path_symbol = n;
            })
            other
            e
          ≡ (if same_loop loop other && same_decisions d e
              then some s.next_path_symbol
              else symbol_of same_loop s other e)
    unfolding symbol_of
    extended n other e =
        ap (λ a. find same_decisions a e)
          (alphabet_of-assign same_loop equality s loop other added n)
        ∙ at_loop (Bool-cases (same_loop loop other))
      where
        at_loop :
            (same_loop loop other ≡ true) ⊎ (same_loop loop other ≡ false)
            → find same_decisions
                (if same_loop loop other then added else alphabet_of same_loop s other)
                e
              ≡ (if same_loop loop other && same_decisions d e
                  then some s.next_path_symbol
                  else find same_decisions (alphabet_of same_loop s other) e)
        at_loop (inl h) =
            rw
              (
                h,
                find-insert_or_assign same_decisions same_decisions-IsEquality
                    (alphabet_of same_loop s loop) d e s.next_path_symbol,
                equality.sound loop other h,
              )
              refl
        at_loop (inr h) = rw h refl

    -- A call keeps the numbering one to one and every path's symbol, and the symbol that it returns is
    -- the path's. The counter is not at the end of its range.
    pub IsInterned-intern_loop_path :
        IsInterned same_loop equality s loop d (intern_loop_path same_loop s loop d)
    unfolding intern_loop_path
    IsInterned-intern_loop_path = by_symbol (symbol_of same_loop s loop d) refl
      where
        by_symbol :
            (o : Option PathSymbol)
            → symbol_of same_loop s loop d ≡ o
            → IsInterned same_loop equality s loop d (intern_loop_path same_loop s loop d)
        by_symbol (some n) h =
            rw (intern_loop_path, h)
              (same_symbols same_loop equality s numbered loop d n h _ refl written_back)
        by_symbol none h =
            rw (intern_loop_path, h)
              (one_more same_loop equality s numbered loop d h _ (mod-eq_of_lt room)
                (extended ((s.next_path_symbol + 1) % 2 ^ 32)))

  -- Each symbol is the one that the session has for the request.
  abbrev Matches : PathSession same_loop → List (Loop × Decisions) → List PathSymbol → Type 0
  Matches s [] [] = Unit {0}
  Matches s [] (m ∷ ms) = ⊥
  Matches s (r ∷ rs) [] = ⊥
  Matches s (r ∷ rs) (m ∷ ms) = (symbol_of same_loop s r.0 r.1 ≡ some m) × Matches s rs ms

  record IsServed (s : PathSession same_loop) (rs : List (Loop × Decisions))
      (o : PathSession same_loop × List PathSymbol) : Type 0 where
    pub numbered : IsNumbered same_loop equality o.0
    pub matches : Matches o.0 rs o.1
    pub kept :
        (loop : Loop) (d : Decisions) (m : ℕ)
        → symbol_of same_loop s loop d ≡ some m
        → symbol_of same_loop o.0 loop d ≡ some m

  IsServed-intern_all :
      (s : PathSession same_loop) (rs : List (Loop × Decisions))
      → IsNumbered same_loop equality s
      → s.next_path_symbol + length rs < 2 ^ 32
      → IsServed s rs (intern_all same_loop s rs)
  unfolding intern_all
  IsServed-intern_all s [] numbered room = record {
    numbered = numbered;
    matches = tt;
    kept = λ l d m p. p;
  }
  IsServed-intern_all s ((loop, d) ∷ rs) numbered room =
      let first = IsInterned-intern_loop_path s numbered loop d (omega arith) in
      let rest =
        IsServed-intern_all (intern_loop_path same_loop s loop d).0 rs first.numbered
          (omega (arith, first.at_most)) in
      record {
        numbered = rest.numbered;
        matches = (rest.kept loop d _ first.found, rest.matches);
        kept = λ l e m p. rest.kept l e m (first.kept l e m p);
      }

  length-Matches :
      (s : PathSession same_loop) (rs : List (Loop × Decisions)) (ms : List PathSymbol)
      → Matches s rs ms
      → length ms ≡ length rs
  length-Matches s [] [] h = refl
  length-Matches s [] (m ∷ ms) h = absurd h
  length-Matches s (r ∷ rs) [] h = absurd h
  length-Matches s (r ∷ rs) (m ∷ ms) h = ap suc (length-Matches s rs ms h.1)

  matched_at :
      (s : PathSession same_loop) (rs : List (Loop × Decisions)) (ms : List PathSymbol) (i : ℕ)
      → Matches s rs ms
      → i < length rs
      → (r : Loop × Decisions) × (m : PathSymbol) × (get_elem? rs i ≡ some r)
        × (get_elem? ms i ≡ some m)
        × (symbol_of same_loop s r.0 r.1 ≡ some m)
  matched_at s [] ms i h inside = absurd (omega (arith, inside))
  matched_at s (r ∷ rs) [] i h inside = absurd h
  matched_at s (r ∷ rs) (m ∷ ms) zero h inside = (r, m, refl, refl, h.0)
  matched_at s (r ∷ rs) (m ∷ ms) (suc i) h inside = matched_at s rs ms i h.1 (omega (arith, inside))

  some_eq : {A : Type 0} {a b : A} → ◌≡◌ {A = Option A} (some a) (some b) → a ≡ b
  some_eq h = cc

  cleared-IsNumbered : IsNumbered same_loop equality (cleared same_loop)
  unfolding symbol_of alphabet_of find
  cleared-IsNumbered = record { below = λ l d m p. cc; injective = λ l o d e m p q. cc }

  -- In a session that was just cleared, fewer than 2 ^ 32 - 1 calls of `intern_loop_path` return as
  -- many symbols, and two of the symbols are the same exactly if the calls had the same loop and the
  -- same decisions. The equality of loops is decided.
  pub intern_all_injective :
      (rs : List (Loop × Decisions)) (i j : ℕ)
      → 1 + length rs < 2 ^ 32
      → i < length rs
      → j < length rs
      → (length (intern_all same_loop (cleared same_loop) rs).1 ≡ length rs)
        × ((get_elem? (intern_all same_loop (cleared same_loop) rs).1 i
              ≡ get_elem? (intern_all same_loop (cleared same_loop) rs).1 j)
            ↔ (get_elem? rs i ≡ get_elem? rs j))
  intern_all_injective rs i j room at_i at_j =
      let o = intern_all same_loop (cleared same_loop) rs in
      let served = IsServed-intern_all (cleared same_loop) rs cleared-IsNumbered room in
      let (r, m, ri, mi, here) = matched_at o.0 rs o.1 i served.matches at_i in
      let (q, n, qj, nj, there) = matched_at o.0 rs o.1 j served.matches at_j in
      (
        length-Matches o.0 rs o.1 served.matches,
        (
          (λ h.
              let same : m ≡ n = some_eq (sym mi ∙ h ∙ nj) in
              let (loops, decisions) =
                served.numbered.injective r.0 q.0 r.1 q.1 n (here ∙ ap some same) there in
              ri ∙ ap some (ap₂ (λ l d. (l, d)) loops decisions) ∙ sym qj),
          (λ h.
              let same : r ≡ q = some_eq (sym ri ∙ h ∙ qj) in
              mi ∙ sym here ∙ ap (λ x. symbol_of same_loop o.0 x.0 x.1) same ∙ there ∙ sym nj),
        ),
      )
