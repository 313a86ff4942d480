-- ===== src/Logic/Normal.antt =====
-- lib/logics.cpp: the rounds of the loop of `to_cnf`, what the solver answers in them, and the invariant.
use arith_exe.Prelude.{
  ℕ, zero, suc, ◌≡◌, refl, sym, ap, ◌∙◌, ◌≢◌, inl, inr, Bool, true, false, not, ◌&&◌, List, [], ◌∷◌,
  ◌++◌, map, length, All, arith, Bool-cases,
}
use arith_exe.Z3.{CheckResult, Z3, Z3Laws, holds, all_hold, truth}
use arith_exe.Logic.Cases.{is_sat}
use arith_exe.Logic.Cnf.{minimize_conjunction, atom2literal, literals_of, implicant}
use arith_exe.Logic.Minimize.{
  all_hold-append, all_hold_subset, any_holds-neg, all_hold-minimize_conjunction,
}
use arith_exe.Logic.Vectors.{Vector, AreDistinct, HaveLength}

pub is_sat_lem : (r : CheckResult) → is_sat r ≡ true → r ≡ CheckResult.sat
is_sat_lem CheckResult.unsat h = cc
is_sat_lem CheckResult.sat h = refl
is_sat_lem CheckResult.unknown h = cc

pub not_sat_lem :
    (r : CheckResult) → r ≢ CheckResult.unknown → is_sat r ≡ false → r ≡ CheckResult.unsat
not_sat_lem CheckResult.unsat n h = refl
not_sat_lem CheckResult.sat n h = cc
not_sat_lem CheckResult.unknown n h = absurd (n refl)

module _ (Z : Z3) (laws : Z3Laws Z) (atms : List Z.Expr) (fml : Z.Expr) where
  open Z use {Expr, Model, neg, check, simplified}

  abbrev pub vector : Model → Vector
  vector m = map (holds Z m) atms

  -- The assertion of `implicant`: the literals of the model contradict the formula.
  abbrev pub Asserted : List Expr → Type 0
  Asserted snot = check (literals_of Z atms snot ++ fml ∷ []) ≡ CheckResult.unsat

  -- The model of `snot` determines the atoms.
  abbrev pub IsTotal : List Expr → Type 0
  IsTotal snot = All (λ a. Z.eval_true snot a ≡ holds Z (Z.get_model snot) a) atms

  abbrev pub next : List Expr → List Expr
  next snot = snot ++ implicant Z atms (fml ∷ []) snot ∷ []

  -- The assertion holds in each round of the loop from a state of `snot`.
  abbrev pub IsAsserted : ℕ → List Expr → Type 0
  IsAsserted zero snot = Unit {0}
  IsAsserted (suc fuel) snot =
      check snot ≡ CheckResult.sat → Asserted snot × IsAsserted fuel (next snot)

  -- In the loop from a state of `snot`, the solver answers each check of `snot`, and its models determine
  -- the atoms.
  abbrev pub IsAnswered : ℕ → List Expr → Type 0
  IsAnswered zero snot = check snot ≢ CheckResult.unknown
  IsAnswered (suc fuel) snot =
      (check snot ≢ CheckResult.unknown)
      × (check snot ≡ CheckResult.sat → IsTotal snot × IsAnswered fuel (next snot))

  literal_lem :
      (m n : Model) (snot : List Expr) (a : Expr)
      → Z.eval_true snot a ≡ holds Z n a
      → holds Z m a ≡ holds Z n a
      → holds Z m (atom2literal Z snot a) ≡ true
  literal_lem m n snot a e h = elim (Bool-cases (Z.eval_true snot a)) [
    | inl t ↦ rw t (ground (arith, t, e, h))
    | inr t ↦ let negated = ap truth (laws.neg_law m a) in rw t (ground (arith, t, e, h, negated))
  ]

  -- The literals of a model that determines the atoms hold where these have its truth values.
  literals_hold :
      (m n : Model) (snot others : List Expr)
      → All (λ a. Z.eval_true snot a ≡ holds Z n a) others
      → map (holds Z m) others ≡ map (holds Z n) others
      → all_hold Z m (map (atom2literal Z snot) others) ≡ true
  literals_hold m n snot [] e h = refl
  literals_hold m n snot (a ∷ others) e h =
      let first : holds Z m a ≡ holds Z n a = cc in
      let rest : map (holds Z m) others ≡ map (holds Z n) others = cc in
      ground (arith, literal_lem m n snot a e.0 first, literals_hold m n snot others e.1 rest)

  -- What does not depend on the models: the clauses follow from the formula, and `snot` asks for them.
  pub record IsSound (snot clauses : List Expr) : Type 0 where
    pub entailed : (m : Model) → holds Z m fml ≡ true → all_hold Z m clauses ≡ true
    pub asked : (m : Model) → all_hold Z m snot ≡ (not (holds Z m fml) && all_hold Z m clauses)

  -- `found` holds the truth values of the models so far.
  pub record AreExcluded (clauses : List Expr) (found : List Vector) : Type 0 where
    pub excluded : All (λ v. (m : Model) → vector m ≡ v → all_hold Z m clauses ≡ false) found
    pub distinct : AreDistinct found
    pub lengths : HaveLength (length atms) found

  pub length-vector : (m : Model) → length (vector m) ≡ length atms
  length-vector m = go atms
    where
      go : (others : List Expr) → length (map (holds Z m) others) ≡ length others
      go [] = refl
      go (a ∷ others) = ap suc (go others)

  module _ (snot clauses : List Expr) (sound : IsSound snot clauses) where
    abbrev core : List Expr
    core = Z.unsat_core (fml ∷ []) (literals_of Z atms snot)

    abbrev clause : Expr
    clause = implicant Z atms (fml ∷ []) snot

    holds-implicant : (m : Model) → holds Z m clause ≡ not (all_hold Z m core)
    unfolding implicant
    holds-implicant m =
        let kept = minimize_conjunction Z core 0 (Z.bool_val true) in
        ap truth (laws.mk_or_law m (map neg kept))
        ∙ any_holds-neg Z m laws kept
        ∙ ap not (
            all_hold-minimize_conjunction Z m laws (Z.bool_val true)
              (ap truth (laws.bool_val_law m true)) core 0)

    last_holds :
        (m : Model)
        → all_hold Z m (clauses ++ simplified clause ∷ [])
          ≡ (all_hold Z m clauses && holds Z m clause)
    last_holds m =
        let parts = all_hold-append Z m clauses (simplified clause ∷ []) in
        let same = ap truth (laws.simplified_law m clause) in ground (arith, parts, same)

    module _ (asserted : Asserted snot) where
      clause_entailed : (m : Model) → holds Z m fml ≡ true → holds Z m clause ≡ true
      clause_entailed m h =
          let no_model = laws.core_law (fml ∷ []) (literals_of Z atms snot) m asserted in
          let parts = all_hold-append Z m core (fml ∷ []) in
          ground (arith, no_model, parts, h, holds-implicant m)

      pub round-IsSound : IsSound (snot ++ clause ∷ []) (clauses ++ simplified clause ∷ [])
      round-IsSound = record {
        entailed = λ m h.
            let before = sound.entailed m h in
            ground (arith, before, clause_entailed m h, last_holds m);
        asked = λ m.
            let parts = all_hold-append Z m snot (clause ∷ []) in
            ground (arith, parts, sound.asked m, last_holds m);
      }

    module _ (found : List Vector) (before : AreExcluded clauses found)
        (satisfied : check snot ≡ CheckResult.sat) where
      abbrev model : Model
      model = Z.get_model snot

      at_model : all_hold Z model clauses ≡ true
      at_model =
          let satisfies = laws.sat_law snot satisfied in
          let question = sound.asked model in ground (arith, satisfies, question)

      -- The model gives the atoms other truth values than those before it.
      pub new :
          (vs : List Vector)
          → All (λ v. (m : Model) → vector m ≡ v → all_hold Z m clauses ≡ false) vs
          → All (λ v. vector model ≢ v) vs
      new [] h = tt
      new (v ∷ vs) h = ((λ e. clash (sym (h.0 model e) ∙ at_model)), new vs h.1)
        where
          clash : ◌≡◌ {A = Bool} false true → ⊥
          clash x = cc

      module _ (determined : IsTotal snot) where
        clause_excludes : (m : Model) → vector m ≡ vector model → holds Z m clause ≡ false
        clause_excludes m h =
            let all =
              all_hold_subset Z m core (literals_of Z atms snot)
                (laws.core_subset (fml ∷ []) (literals_of Z atms snot))
                (literals_hold m model snot atms determined h) in
            ground (arith, all, holds-implicant m)

        pub round-AreExcluded :
            AreExcluded (clauses ++ simplified clause ∷ []) (vector model ∷ found)
        round-AreExcluded = record {
          excluded = (
            (λ m h. ground (arith, clause_excludes m h, last_holds m)),
            still_excluded found before.excluded,
          );
          distinct = (new found before.excluded, before.distinct);
          lengths = (length-vector model, before.lengths);
        }
          where
            still_excluded :
                (vs : List Vector)
                → All (λ v. (m : Model) → vector m ≡ v → all_hold Z m clauses ≡ false) vs
                → All
                    (λ v.
                      (m : Model)
                      → vector m ≡ v
                      → all_hold Z m (clauses ++ simplified clause ∷ []) ≡ false)
                    vs
            still_excluded [] h = tt
            still_excluded (v ∷ vs) h = (
              (λ m e. let earlier = h.0 m e in ground (arith, earlier, last_holds m)),
              still_excluded vs h.1,
            )

  pub start-IsSound : IsSound (neg fml ∷ []) []
  start-IsSound = record {
    entailed = λ m h. refl;
    asked = λ m. let negated = ap truth (laws.neg_law m fml) in ground (arith, negated);
  }

  pub start-AreExcluded : AreExcluded [] []
  start-AreExcluded = record { excluded = tt; distinct = tt; lengths = tt }
