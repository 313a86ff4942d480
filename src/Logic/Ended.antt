-- ===== src/Logic/Ended.antt =====
-- lib/logics.cpp: what the loop of `to_cnf` gives.
use arith_exe.Prelude.{
  ℕ, zero, suc, ◌+◌, ◌^◌, ◌≤◌, ◌≡◌, refl, sym, subst, ◌∙◌, ◌≢◌, inl, inr, Bool, true, false, List,
  ◌∷◌, length, if◌then◌else◌, Option, none, some, arith, Bool-cases,
}
use arith_exe.Z3.{CheckResult, Z3, Z3Laws, holds, all_hold}
use arith_exe.Logic.Cases.{is_sat}
use arith_exe.Logic.Cnf.{cnf_loop}
use arith_exe.Logic.Vectors.{Vector, length-AreDistinct}
use arith_exe.Logic.Normal.{
  is_sat_lem, not_sat_lem, IsSound, AreExcluded, vector, IsAsserted, IsAnswered, new, length-vector,
  round-IsSound, round-AreExcluded,
}

module _ (Z : Z3) (laws : Z3Laws Z) (atms : List Z.Expr) (fml : Z.Expr) where
  open Z use {Expr, Model, neg, check, simplified}

  stopped :
      {clauses result : List Expr} (b : Bool) (further : Option (List Expr))
      → b ≡ false
      → (if b then further else some clauses) ≡ some result
      → clauses ≡ result
  stopped true further s h = cc
  stopped false further s h = cc

  -- The clauses follow from the formula, whatever the solver answers.
  pub cnf_loop-entailed :
      (fuel : ℕ) (snot clauses result : List Expr)
      → IsSound Z laws atms fml snot clauses
      → IsAsserted Z laws atms fml fuel snot
      → cnf_loop Z fuel fml atms snot clauses ≡ some result
      → (m : Model) → holds Z m fml ≡ true
      → all_hold Z m result ≡ true
  unfolding cnf_loop
  cnf_loop-entailed zero snot clauses result sound asserted h m f =
      elim (Bool-cases (is_sat (check snot))) [
        | inl s ↦ absurd (ran_out (is_sat (check snot)) s h)
        | inr s ↦ subst (λ cs. all_hold Z m cs ≡ true) (stopped _ none s h) (sound.entailed m f)
      ]
    where
      ran_out : (b : Bool) → b ≡ true → (if b then none else some clauses) ≡ some result → ⊥
      ran_out true s h = cc
      ran_out false s h = cc
  cnf_loop-entailed (suc fuel) snot clauses result sound asserted h m f =
      elim (Bool-cases (is_sat (check snot))) [
        | inl s ↦
            let (asserts, asserted_next) = asserted (is_sat_lem (check snot) s) in
            cnf_loop-entailed fuel _ _ result
              (round-IsSound Z laws atms fml snot clauses sound asserts) asserted_next
              (went_on (is_sat (check snot)) _ s h) m f
        | inr s ↦ subst (λ cs. all_hold Z m cs ≡ true) (stopped _ _ s h) (sound.entailed m f)
      ]
    where
      went_on :
          (b : Bool) (further : Option (List Expr))
          → b ≡ true
          → (if b then further else some clauses) ≡ some result
          → further ≡ some result
      went_on true further s h = h
      went_on false further s h = cc

  ended :
      (snot clauses : List Expr)
      → IsSound Z laws atms fml snot clauses
      → check snot ≢ CheckResult.unknown
      → is_sat (check snot) ≡ false
      → (m : Model) → all_hold Z m clauses ≡ holds Z m fml
  ended snot clauses sound known h m =
      let no_model = laws.unsat_law snot m (not_sat_lem (check snot) known h) in
      elim (Bool-cases (holds Z m fml)) [
        | inl h1 ↦ sound.entailed m h1 ∙ sym h1
        | inr h1 ↦ ground (arith, h1, no_model, sound.asked m)
      ]

  -- The loop ends within the fuel, with clauses that are equivalent to the formula.
  pub cnf_loop_lem :
      (fuel : ℕ) (snot clauses : List Expr) (found : List Vector)
      → IsSound Z laws atms fml snot clauses
      → AreExcluded Z laws atms fml clauses found
      → IsAsserted Z laws atms fml fuel snot
      → IsAnswered Z laws atms fml fuel snot
      → 2 ^ length atms ≤ fuel + length found
      → (result : List Expr) × (cnf_loop Z fuel fml atms snot clauses ≡ some result)
        × ((m : Model) → all_hold Z m result ≡ holds Z m fml)
  unfolding cnf_loop
  cnf_loop_lem zero snot clauses found sound before asserted known enough =
      elim (Bool-cases (is_sat (check snot))) [
        | inl h ↦
            let different =
              new Z laws atms fml snot clauses sound found before (is_sat_lem _ h) found
                before.excluded in
            absurd (
              omega (
                arith,
                enough,
                length-AreDistinct (length atms) (vector Z laws atms fml (Z.get_model snot) ∷ found)
                    (length-vector Z laws atms fml (Z.get_model snot), before.lengths)
                    (different, before.distinct),
              ))
        | inr h ↦ (clauses, rw h refl, ended snot clauses sound known h)
      ]
  cnf_loop_lem (suc fuel) snot clauses found sound before asserted answered enough =
      elim (Bool-cases (is_sat (check snot))) [
        | inl h ↦
            let satisfied = is_sat_lem (check snot) h in
            let (asserts, asserted_next) = asserted satisfied in
            let (total, answered_next) = answered.1 satisfied in
            rw h (
              cnf_loop_lem fuel _ _ (vector Z laws atms fml (Z.get_model snot) ∷ found)
                (round-IsSound Z laws atms fml snot clauses sound asserts)
                (round-AreExcluded Z laws atms fml snot clauses sound found before satisfied total)
                asserted_next answered_next (omega (arith, enough)))
        | inr h ↦ (clauses, rw h refl, ended snot clauses sound answered.0 h)
      ]
