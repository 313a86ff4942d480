-- ===== src/Session/Numbering.antt =====
-- lib/VerificationSession.cpp: symbols stand for paths one to one.
use arith_exe.Prelude.{
  ℕ, ◌+◌, ◌≤◌, ◌<◌, ◌≡◌, refl, sym, ap, ap₂, ◌∙◌, ◌⊎◌, inl, inr, ⊎_elim, Bool, true, ◌&&◌, Option,
  none, some, [], ◌∷◌, arith, if◌then◌else◌, Bool-cases,
}
use arith_exe.PathExpression.Word.{PathSymbol}
use arith_exe.Session.Maps.{IsEquality, insert_or_assign, find-insert_or_assign}
use arith_exe.Session.Paths.{
  Decisions, Alphabet, same_decisions, PathSession, alphabet_of, symbol_of,
}

same_decisions_sound : (a b : Decisions) → same_decisions a b ≡ true → a ≡ b
same_decisions_sound [] [] h = refl
same_decisions_sound [] (y ∷ ys) h = cc
same_decisions_sound (x ∷ xs) [] h = cc
same_decisions_sound (x ∷ xs) (y ∷ ys) h =
    let site : x.site ≡ y.site = ground (arith, h) in
    let choice : x.choice ≡ y.choice = ground (arith, h) in
    let rest = same_decisions_sound xs ys (ground (arith, h)) in
    ap₂ (λ e es. e ∷ es) (ap₂ (λ s c. record { site = s; choice = c }) site choice) rest

same_decisions_refl : (a : Decisions) → same_decisions a a ≡ true
same_decisions_refl [] = refl
same_decisions_refl (x ∷ xs) = ground (arith, same_decisions_refl xs)

pub same_decisions-IsEquality : IsEquality same_decisions
same_decisions-IsEquality = record {
  sound = same_decisions_sound;
  complete = λ a b e. ap (same_decisions a) (sym e) ∙ same_decisions_refl a;
}

module _ {Loop : Type 0} (same_loop : Loop → Loop → Bool) (equality : IsEquality same_loop) where
  pub alphabet_of-assign :
      (s : PathSession same_loop) (loop other : Loop) (a : Alphabet) (n : ℕ)
      → alphabet_of same_loop
          (record {
            loop_path_alphabets = insert_or_assign same_loop s.loop_path_alphabets loop a;
            next_path_symbol = n;
          })
          other
        ≡ (if same_loop loop other then a else alphabet_of same_loop s other)
  unfolding alphabet_of
  alphabet_of-assign s loop other a n = elim (Bool-cases (same_loop loop other)) [
    | inl e ↦
        rw
          (
            alphabet_of,
            find-insert_or_assign same_loop equality s.loop_path_alphabets loop other a,
            e,
          )
          refl
    | inr e ↦
        rw
          (
            alphabet_of,
            find-insert_or_assign same_loop equality s.loop_path_alphabets loop other a,
            e,
          )
          refl
  ]

  -- All interned symbols are below the counter, and no two paths have one symbol.
  pub record IsNumbered (s : PathSession same_loop) : Type 0 where
    pub below :
        (loop : Loop) (d : Decisions) (m : ℕ)
        → symbol_of same_loop s loop d ≡ some m
        → m < s.next_path_symbol
    pub injective :
        (loop other : Loop) (d e : Decisions) (m : ℕ)
        → symbol_of same_loop s loop d ≡ some m
        → symbol_of same_loop s other e ≡ some m
        → (loop ≡ other) × (d ≡ e)

  -- What a call leaves.
  pub record IsInterned (s : PathSession same_loop) (loop : Loop) (d : Decisions)
      (o : PathSession same_loop × PathSymbol) : Type 0 where
    pub numbered : IsNumbered o.0
    pub at_most : o.0.next_path_symbol ≤ s.next_path_symbol + 1
    pub found : symbol_of same_loop o.0 loop d ≡ some o.1
    pub kept :
        (other : Loop) (e : Decisions) (m : ℕ)
        → symbol_of same_loop s other e ≡ some m
        → symbol_of same_loop o.0 other e ≡ some m

  module _ (s : PathSession same_loop) (numbered : IsNumbered s) (loop : Loop) (d : Decisions) where
    -- A session with the same symbols and the same counter.
    pub same_symbols :
        (n : ℕ)
        → symbol_of same_loop s loop d ≡ some n
        → (s' : PathSession same_loop) → s'.next_path_symbol ≡ s.next_path_symbol
        → ((other : Loop) (e : Decisions)
            → symbol_of same_loop s' other e ≡ symbol_of same_loop s other e)
        → IsInterned s loop d (s', n)
    same_symbols n h s' counter same = record {
      numbered = record {
        below = λ l e m p. omega (arith, counter, numbered.below l e m (sym (same l e) ∙ p));
        injective =
            λ l o e f m p q. numbered.injective l o e f m (sym (same l e) ∙ p) (sym (same o f) ∙ q);
      };
      at_most = omega (arith, counter);
      found = same loop d ∙ h;
      kept = λ o e m p. same o e ∙ p;
    }

    -- A session with one more symbol.
    pub one_more :
        symbol_of same_loop s loop d ≡ none
        → (s' : PathSession same_loop) → s'.next_path_symbol ≡ s.next_path_symbol + 1
        → ((other : Loop) (e : Decisions)
            → symbol_of same_loop s' other e ≡ (
                if same_loop loop other && same_decisions d e
                then some s.next_path_symbol
                else symbol_of same_loop s other e))
        → IsInterned s loop d (s', s.next_path_symbol)
    one_more fresh s' counter symbols = record {
      numbered = record { below = below; injective = injective };
      at_most = omega (arith, counter);
      found =
          symbols loop d
          ∙ ap (λ b. if b then some s.next_path_symbol else symbol_of same_loop s loop d)
              (both loop d refl refl);
      kept = kept;
    }
      where
        some_eq : {m n : ℕ} → ◌≡◌ {A = Option ℕ} (some m) (some n) → m ≡ n
        some_eq h = cc

        none_ne : {m : ℕ} → ◌≡◌ {A = Option ℕ} none (some m) → ⊥
        none_ne h = cc

        both :
            (o : Loop) (e : Decisions)
            → loop ≡ o
            → d ≡ e
            → (same_loop loop o && same_decisions d e) ≡ true
        both o e p q =
            rw (equality.complete loop o p, same_decisions-IsEquality.complete d e q) refl

        origin :
            (o : Loop) (e : Decisions) (m : ℕ)
            → symbol_of same_loop s' o e ≡ some m
            → ((loop ≡ o) × (d ≡ e) × (m ≡ s.next_path_symbol))
              ⊎ (symbol_of same_loop s o e ≡ some m)
        origin o e m p = elim (Bool-cases (same_loop loop o && same_decisions d e)) [
          | inl b ↦ inl (
            equality.sound loop o (ground (arith, b)),
            same_decisions-IsEquality.sound d e (ground (arith, b)),
            some_eq (
                sym p
                ∙ symbols o e
                ∙ ap (λ x. if x then some s.next_path_symbol else symbol_of same_loop s o e) b),
          )
          | inr b ↦ inr (
              ap (λ x. if x then some s.next_path_symbol else symbol_of same_loop s o e) (sym b)
              ∙ sym (symbols o e)
              ∙ p)
        ]

        below :
            (o : Loop) (e : Decisions) (m : ℕ)
            → symbol_of same_loop s' o e ≡ some m
            → m < s'.next_path_symbol
        below o e m p =
            ⊎_elim (λ (_, _, is). omega (arith, counter, is))
              (λ old. omega (arith, counter, numbered.below o e m old)) (origin o e m p)

        injective :
            (l o : Loop) (e f : Decisions) (m : ℕ)
            → symbol_of same_loop s' l e ≡ some m
            → symbol_of same_loop s' o f ≡ some m
            → (l ≡ o) × (e ≡ f)
        injective l o e f m p q =
            ⊎_elim
              (λ (a, b, is).
                ⊎_elim (λ (a', b', _). (sym a ∙ a', sym b ∙ b'))
                  (λ old. absurd (omega (arith, is, numbered.below o f m old))) (origin o f m q))
              (λ old.
                ⊎_elim (λ (_, _, is). absurd (omega (arith, is, numbered.below l e m old)))
                  (λ old'. numbered.injective l o e f m old old') (origin o f m q))
              (origin l e m p)

        kept :
            (o : Loop) (e : Decisions) (m : ℕ)
            → symbol_of same_loop s o e ≡ some m
            → symbol_of same_loop s' o e ≡ some m
        kept o e m p = elim (Bool-cases (same_loop loop o && same_decisions d e)) [
          | inl b ↦
              let l : loop ≡ o = equality.sound loop o (ground (arith, b)) in
              let q : d ≡ e = same_decisions-IsEquality.sound d e (ground (arith, b)) in
              absurd (none_ne (sym fresh ∙ ap₂ (symbol_of same_loop s) l q ∙ p))
          | inr b ↦
              symbols o e
              ∙ ap (λ x. if x then some s.next_path_symbol else symbol_of same_loop s o e) b
              ∙ p
        ]
