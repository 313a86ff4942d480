-- ===== src/Logic/Asserted.antt =====
-- lib/logics.cpp: the assertion of `implicant` in the run of `to_cnf`.
use arith_exe.Prelude.{
  ℕ, zero, suc, ◌^◌, ◌≡◌, refl, sym, ap, ap₂, ◌∙◌, ◌≢◌, inl, inr, Bool, true, false, List, [], ◌∷◌,
  ◌++◌, map, length, All, some, arith, Bool-cases,
}
use arith_exe.Z3.{CheckResult, Z3, Z3Laws, holds, all_hold, truth, Occurs}
use arith_exe.Logic.Cases.{is_sat}
use arith_exe.Logic.Cnf.{atom2literal, literals_of, implicant, atoms}
use arith_exe.Logic.Minimize.{all_hold-append}
use arith_exe.Logic.Atoms.{IsFormula, atoms_lem}
use arith_exe.Logic.Normal.{
  is_sat_lem, not_sat_lem, IsSound, Asserted, IsTotal, IsAsserted, IsAnswered, next, round-IsSound,
  start-IsSound,
}
use arith_exe.Logic.Simplify.{CnfAsserted, CnfAnswered}

module _ (Z : Z3) (laws : Z3Laws Z) (atms : List Z.Expr) (fml : Z.Expr) where
  open Z use {Expr, Model, neg, check, simplified}

  literal_only :
      (m n : Model) (snot : List Expr) (a : Expr)
      → Z.eval_true snot a ≡ holds Z n a
      → holds Z m (atom2literal Z snot a) ≡ true
      → holds Z m a ≡ holds Z n a
  literal_only m n snot a e h = elim (Bool-cases (Z.eval_true snot a)) [
    | inl t ↦ let here : holds Z m a ≡ true = sym (rw t refl) ∙ h in here ∙ sym t ∙ e
    | inr t ↦
        let here : holds Z m (neg a) ≡ true = sym (rw t refl) ∙ h in
        let negated = ap truth (laws.neg_law m a) in ground (arith, here, negated, t, e)
  ]

  -- The literals of a model that determines the atoms hold only where these have its truth values.
  literals_only :
      (m n : Model) (snot others : List Expr)
      → All (λ a. Z.eval_true snot a ≡ holds Z n a) others
      → all_hold Z m (map (atom2literal Z snot) others) ≡ true
      → map (holds Z m) others ≡ map (holds Z n) others
  literals_only m n snot [] e h = refl
  literals_only m n snot (a ∷ others) e h =
      ap₂ (λ b bs. b ∷ bs) (literal_only m n snot a e.0 (ground (arith, h)))
        (literals_only m n snot others e.1 (ground (arith, h)))

  -- The solver answers the query of `implicant` in each round of the loop.
  abbrev pub QueriesAnswered : ℕ → List Expr → Type 0
  QueriesAnswered zero snot = Unit {0}
  QueriesAnswered (suc fuel) snot =
      check snot ≡ CheckResult.sat
      → (check (literals_of Z atms snot ++ fml ∷ []) ≢ CheckResult.unknown)
        × QueriesAnswered fuel (next Z laws atms fml snot)

  module _
      (determine : (m n : Model)
        → map (holds Z m) atms ≡ map (holds Z n) atms
        → holds Z m fml ≡ holds Z n fml) where
    -- A model of the query would be one of the formula with the truth values of a model of its negation.
    round-Asserted :
        (snot clauses : List Expr)
        → IsSound Z laws atms fml snot clauses
        → check snot ≡ CheckResult.sat
        → IsTotal Z laws atms fml snot
        → check (literals_of Z atms snot ++ fml ∷ []) ≢ CheckResult.unknown
        → Asserted Z laws atms fml snot
    round-Asserted snot clauses sound satisfied total known =
        let query = literals_of Z atms snot ++ fml ∷ [] in
        elim (Bool-cases (is_sat (check query))) [
          | inl h ↦
              let model = Z.get_model snot in
              let other = Z.get_model query in
              let at_model = laws.sat_law snot satisfied in
              let question = sound.asked model in
              let at_other = laws.sat_law query (is_sat_lem _ h) in
              let parts = all_hold-append Z other (literals_of Z atms snot) (fml ∷ []) in
              let same =
                determine other model
                  (literals_only other model snot atms total (ground (arith, at_other, parts))) in
              absurd (clash (ground (arith, at_model, question, at_other, parts, same)))
          | inr h ↦ not_sat_lem _ known h
        ]
      where
        clash : ◌≡◌ {A = Bool} false true → ⊥
        clash x = cc

    run-IsAsserted :
        (fuel : ℕ) (snot clauses : List Expr)
        → IsSound Z laws atms fml snot clauses
        → IsAnswered Z laws atms fml fuel snot
        → QueriesAnswered fuel snot
        → IsAsserted Z laws atms fml fuel snot
    run-IsAsserted zero snot clauses sound answered queries = tt
    run-IsAsserted (suc fuel) snot clauses sound answered queries = λ satisfied.
        let (total, answered_next) = answered.1 satisfied in
        let (known, queries_next) = queries satisfied in
        let asserted = round-Asserted snot clauses sound satisfied total known in
        (
          asserted,
          run-IsAsserted fuel (next Z laws atms fml snot)
              (clauses ++ simplified (implicant Z atms (fml ∷ []) snot) ∷ [])
              (round-IsSound Z laws atms fml snot clauses sound asserted) answered_next
              queries_next,
        )

  -- The assertion of `implicant` never fails in the run of `to_cnf`, whose literals then contradict the
  -- formula. The formula is made of atoms by the connectives of propositional logic, Z3 finds its atoms,
  -- and expressions that stand in it and have one text are one expression; in the run, the solver never
  -- answers unknown to the loop's check or the query of `implicant`, and its models determine the atoms.
  pub to_cnf-CnfAsserted :
      IsFormula Z laws fml
      → atoms Z fml ≡ some atms
      → ((a b : Expr) → Occurs Z a fml → Occurs Z b fml → Z.same_text a b ≡ true → a ≡ b)
      → CnfAnswered Z laws fml atms
      → QueriesAnswered (2 ^ length atms) (neg fml ∷ [])
      → CnfAsserted Z laws fml atms
  to_cnf-CnfAsserted formula found texts answered queries =
      run-IsAsserted (λ m n agree. atoms_lem Z laws m n fml atms agree texts formula found)
        (2 ^ length atms) (neg fml ∷ []) [] (start-IsSound Z laws atms fml) answered queries
