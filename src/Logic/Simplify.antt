-- ===== src/Logic/Simplify.antt =====
-- lib/logics.cpp: lemmas on `to_cnf` and `simplify`.
use arith_exe.Prelude.{
  ◌^◌, ◌≡◌, refl, sym, ap, ◌∙◌, inl, inr, true, not, Option, none, some, ◌≢◌, All, List, [], ◌∷◌,
  ◌++◌, map, length, arith, Bool-cases,
}
use arith_exe.Z3.{CheckResult, Z3, Z3Laws, holds, all_hold, truth, is_or}
use arith_exe.Logic.Cases.{is_sat}
use arith_exe.Logic.Cnf.{
  atoms, to_cnf, cnf_loop, minimize_conjunction, negated_literals, new_clause, remaining, simplify,
}
use arith_exe.Logic.Minimize.{
  all_hold-append, any_holds-neg, all_hold-neg, all_hold-minimize_conjunction,
}
use arith_exe.Logic.Normal.{IsAsserted, IsAnswered, not_sat_lem, start-IsSound, start-AreExcluded}
use arith_exe.Logic.Ended.{cnf_loop_lem, cnf_loop-entailed}

module _ (Z : Z3) (laws : Z3Laws Z) where
  open Z use {Expr, Model, neg, check, simplified, mk_and}

  -- The assertions that `to_cnf` makes hold.
  abbrev pub CnfAsserted : Expr → List Expr → Type 0
  CnfAsserted fml atms = IsAsserted Z laws atms fml (2 ^ length atms) (neg fml ∷ [])

  -- In `to_cnf`, the solver answers each check, and its models determine the atoms.
  abbrev pub CnfAnswered : Expr → List Expr → Type 0
  CnfAnswered fml atms = IsAnswered Z laws atms fml (2 ^ length atms) (neg fml ∷ [])

  -- Where Z3 finds the atoms, and in the run of `to_cnf` on the formula the assertions hold, the solver
  -- never answers unknown to the loop's check and its models determine the atoms: the loop ends, in at
  -- most 2 ^ n rounds for n atoms, with clauses that all hold exactly where the formula does.
  pub to_cnf_lem :
      (fml : Expr) (atms : List Expr)
      → atoms Z fml ≡ some atms
      → CnfAsserted fml atms
      → CnfAnswered fml atms
      → (clauses : List Expr) × (to_cnf Z fml ≡ some clauses)
        × ((m : Model) → all_hold Z m clauses ≡ holds Z m fml)
  unfolding to_cnf cnf_loop
  to_cnf_lem fml atms found asserted answered =
      let (clauses, ends, same) =
        cnf_loop_lem Z laws atms fml (2 ^ length atms) (neg fml ∷ []) [] []
          (start-IsSound Z laws atms fml) (start-AreExcluded Z laws atms fml) asserted answered
          (omega arith) in
      (clauses, rw (to_cnf, found) ends, same)

  to_cnf-entailed :
      (fml : Expr) (atms clauses : List Expr)
      → atoms Z fml ≡ some atms
      → CnfAsserted fml atms
      → to_cnf Z fml ≡ some clauses
      → (m : Model) → holds Z m fml ≡ true
      → all_hold Z m clauses ≡ true
  unfolding to_cnf cnf_loop
  to_cnf-entailed fml atms clauses found asserted h =
      cnf_loop-entailed Z laws atms fml (2 ^ length atms) (neg fml ∷ []) [] clauses
        (start-IsSound Z laws atms fml) asserted (sym (rw (to_cnf, found) refl) ∙ h)

  module _ (m : Model) where
    holds-negated_literals :
        (clause : Expr) → all_hold Z m (negated_literals Z clause) ≡ not (holds Z m clause)
    holds-negated_literals clause = elim (Bool-cases (is_or (Z.kind clause))) [
      | inl h ↦ rw h (all_hold-neg Z m laws (Z.args clause) ∙ ap not (sym (laws.or_law m clause h)))
      | inr h ↦ let negated = ap truth (laws.neg_law m clause) in rw h (ground (arith, negated))
    ]

    holds-new_clause : (clause : Expr) → holds Z m (new_clause Z clause) ≡ holds Z m clause
    holds-new_clause clause =
        let kept = minimize_conjunction Z (negated_literals Z clause) 1 (Z.bool_val true) in
        let as_or = ap truth (laws.mk_or_law m (map neg kept)) in
        let negated = any_holds-neg Z m laws kept in
        let same =
          all_hold-minimize_conjunction Z m laws (Z.bool_val true)
            (ap truth (laws.bool_val_law m true)) (negated_literals Z clause) 1 in
        ground (arith, as_or, negated, same, holds-negated_literals clause)

    -- A clause is dropped only if it is entailed or the solver does not say.
    remaining-entailed :
        (assumption clauses : List Expr)
        → all_hold Z m clauses ≡ true
        → all_hold Z m (remaining Z assumption clauses) ≡ true
    unfolding remaining
    remaining-entailed assumption [] h = refl
    remaining-entailed assumption (clause ∷ clauses) h =
        let rest = remaining-entailed assumption clauses (ground (arith, h)) in
        elim (Bool-cases (is_sat (check (assumption ++ neg clause ∷ [])))) [
          | inl s ↦ rw s (ground (arith, holds-new_clause clause, rest, h))
          | inr s ↦ rw s rest
        ]

    -- Whatever the solver answers, also unknown, a formula that `simplify` gives holds wherever the
    -- expression holds. Z3 finds the atoms of the simplified expression, and the assertions of `to_cnf`
    -- hold.
    pub simplify-entailed :
        (expr e : Expr) (atms assumption : List Expr)
        → atoms Z (simplified expr) ≡ some atms
        → CnfAsserted (simplified expr) atms
        → simplify Z expr assumption ≡ some e
        → holds Z m expr ≡ true
        → holds Z m e ≡ true
    unfolding simplify
    simplify-entailed expr e atms assumption found asserted h true_here =
        let (clauses, cnf, is) = clauses_of (to_cnf Z (simplified expr)) refl h in
        let all =
          to_cnf-entailed (simplified expr) atms clauses found asserted cnf m
            (ap truth (laws.simplified_law m expr) ∙ true_here) in
        ap (holds Z m) (sym is)
        ∙ ap truth (laws.mk_and_law m (remaining Z assumption clauses))
        ∙ remaining-entailed assumption clauses all
      where
        clauses_of :
            (o : Option (List Expr))
            → to_cnf Z (simplified expr) ≡ o
            → simplify Z expr assumption ≡ some e
            → (clauses : List Expr) × (to_cnf Z (simplified expr) ≡ some clauses)
              × (mk_and (remaining Z assumption clauses) ≡ e)
        clauses_of none c h = absurd (clash (sym (rw (simplify, c) refl) ∙ h))
          where
            clash : none ≡ some e → ⊥
            clash x = cc
        clauses_of (some clauses) c h = (clauses, c, inner (sym (rw (simplify, c) refl) ∙ h))
          where
            inner :
                some (mk_and (remaining Z assumption clauses)) ≡ some e
                → mk_and (remaining Z assumption clauses) ≡ e
            inner x = cc

    module _ (assumption : List Expr) (assumed : all_hold Z m assumption ≡ true) where
      -- The solver answers whether the assumption entails each of the clauses.
      abbrev pub ClausesAnswered : List Expr → Type 0
      ClausesAnswered clauses =
          All (λ clause. check (assumption ++ neg clause ∷ []) ≢ CheckResult.unknown) clauses

      all_hold-remaining :
          (clauses : List Expr)
          → ClausesAnswered clauses
          → all_hold Z m (remaining Z assumption clauses) ≡ all_hold Z m clauses
      unfolding remaining
      all_hold-remaining [] known = refl
      all_hold-remaining (clause ∷ clauses) known =
          let rest = all_hold-remaining clauses known.1 in
          elim (Bool-cases (is_sat (check (assumption ++ neg clause ∷ [])))) [
            | inl h ↦ rw h (ground (arith, holds-new_clause clause, rest))
            | inr h ↦
                let query = assumption ++ neg clause ∷ [] in
                let no_model = laws.unsat_law query m (not_sat_lem (check query) known.0 h) in
                let parts = all_hold-append Z m assumption (neg clause ∷ []) in
                let negated = ap truth (laws.neg_law m clause) in
                rw h (ground (arith, no_model, parts, negated, assumed, rest))
          ]

      -- `simplify` gives a formula that holds, wherever the assumption does, exactly where the
      -- expression holds. Z3 finds the atoms of the simplified expression; in the run of `to_cnf` on it
      -- the assertions hold, the solver never answers unknown to the loop's check and its models
      -- determine the atoms; and it never answers unknown on the clauses of `to_cnf`.
      pub simplify_lem :
          (expr : Expr) (atms : List Expr)
          → atoms Z (simplified expr) ≡ some atms
          → CnfAsserted (simplified expr) atms
          → CnfAnswered (simplified expr) atms
          → ((clauses : List Expr)
              → to_cnf Z (simplified expr) ≡ some clauses
              → ClausesAnswered clauses)
          → (e : Expr) × (simplify Z expr assumption ≡ some e) × (holds Z m e ≡ holds Z m expr)
      unfolding simplify remaining
      simplify_lem expr atms found asserted answered known =
          let (clauses, cnf, same) = to_cnf_lem (simplified expr) atms found asserted answered in
          (
            mk_and (remaining Z assumption clauses),
            rw (simplify, cnf) refl,
            ap truth (laws.mk_and_law m (remaining Z assumption clauses))
                ∙ all_hold-remaining clauses (known clauses cnf)
                ∙ same m
                ∙ ap truth (laws.simplified_law m expr),
          )
