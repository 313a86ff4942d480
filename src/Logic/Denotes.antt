-- ===== src/Logic/Denotes.antt =====
-- lib/logics.cpp: `merge_cases` and `piecewise2ite` keep the value of an expression by cases.
use arith_exe.Prelude.{
  ℕ, zero, suc, ◌≤◌, ◌≡◌, refl, sym, ap, ◌∙◌, ◌⊎◌, inl, inr, Bool, true, false, not, ◌&&◌, ◌||◌,
  List, [], ◌∷◌, ◌++◌, append-nil, if◌then◌else◌, length, All, All-append, arith, Bool-cases,
}
use arith_exe.Z3.{CheckResult, Value, truth, Z3, Z3Laws, holds, differ}
use arith_exe.Logic.Cases.{
  is_unsat, Case, conditionally_eq, is_merged, unmerged, widened, merge_from, merge_cases,
  ite_chain, chain_of, piecewise2ite,
}

pub is_unsat_lem : (r : CheckResult) → is_unsat r ≡ true → r ≡ CheckResult.unsat
is_unsat_lem CheckResult.unsat h = refl
is_unsat_lem CheckResult.sat h = cc
is_unsat_lem CheckResult.unknown h = cc

module _ (Z : Z3) where
  open Z use {Expr, Model, value}

  abbrev pub covers : Model → List (Case Z) → Bool
  covers m [] = false
  covers m (c ∷ cs) = holds Z m c.condition || covers m cs

  abbrev pub Agrees : Model → Value → Case Z → Type 0
  Agrees m v c = holds Z m c.condition ≡ true → value m c.expression ≡ v

  -- Some condition holds, and each case whose condition holds has the value.
  abbrev pub Denotes : Model → List (Case Z) → Value → Type 0
  Denotes m cs v = (covers m cs ≡ true) × All (Agrees m v) cs

  pub covers-append :
      (m : Model) (xs ys : List (Case Z)) → covers m (xs ++ ys) ≡ (covers m xs || covers m ys)
  covers-append m [] ys = refl
  covers-append m (x ∷ xs) ys = ground (arith, covers-append m xs ys)

  pub All-split :
      (P : Case Z → Type 0) (xs ys : List (Case Z)) → All P (xs ++ ys) → All P xs × All P ys
  All-split P [] ys h = (tt, h)
  All-split P (x ∷ xs) ys h = let (front, back) = All-split P xs ys h.1 in ((h.0, front), back)

  All-unmerged :
      (P : Case Z → Type 0) (p : Case Z) (cs : List (Case Z)) → All P cs → All P (unmerged Z p cs)
  unfolding unmerged
  All-unmerged P p [] h = tt
  All-unmerged P p (c ∷ cs) h = elim (Bool-cases (is_merged Z p c)) [
    | inl e ↦ rw e (All-unmerged P p cs h.1)
    | inr e ↦ rw e (h.0, All-unmerged P p cs h.1)
  ]

  length-unmerged : (p : Case Z) (cs : List (Case Z)) → length (unmerged Z p cs) ≤ length cs
  unfolding unmerged
  length-unmerged p [] = omega arith
  length-unmerged p (c ∷ cs) = ground (arith, length-unmerged p cs)

  module _ (laws : Z3Laws Z) (m : Model) where
    pub conditionally_eq_lem :
        (cond e1 e2 : Expr)
        → conditionally_eq Z cond e1 e2 ≡ true
        → holds Z m cond ≡ true
        → value m e1 ≡ value m e2
    unfolding conditionally_eq
    conditionally_eq_lem cond e1 e2 h c =
        let no_model = laws.unsat_law (cond ∷ differ Z e1 e2 ∷ []) m (is_unsat_lem _ h) in
        let negated = ap truth (laws.neg_law m (Z.equal e1 e2)) in
        (laws.equal_law m e1 e2).0 (ground (arith, no_model, negated, c))

    -- A case that is merged into the pivot holds.
    abbrev merged_holds : Case Z → List (Case Z) → Bool
    merged_holds p [] = false
    merged_holds p (c ∷ cs) = (is_merged Z p c && holds Z m c.condition) || merged_holds p cs

    holds-widened :
        (p : Case Z) (cond : Expr) (cs : List (Case Z))
        → holds Z m (widened Z p cond cs) ≡ (holds Z m cond || merged_holds p cs)
    unfolding widened
    holds-widened p cond [] = ground arith
    holds-widened p cond (c ∷ cs) = elim (Bool-cases (is_merged Z p c)) [
      | inl e ↦
          let both = ap truth (laws.disj_law m cond c.condition) in
          let rest = holds-widened p (Z.disj cond c.condition) cs in
          rw e (ground (arith, both, rest))
      | inr e ↦ rw e (holds-widened p cond cs)
    ]

    -- A case that holds is merged or left.
    covers-unmerged :
        (p : Case Z) (cs : List (Case Z))
        → (not (covers m cs) || (merged_holds p cs || covers m (unmerged Z p cs))) ≡ true
    unfolding unmerged
    covers-unmerged p [] = refl
    covers-unmerged p (c ∷ cs) = elim (Bool-cases (is_merged Z p c)) [
      | inl e ↦ rw e (ground (arith, covers-unmerged p cs))
      | inr e ↦ rw e (ground (arith, covers-unmerged p cs))
    ]

    merged_holds-append :
        (p : Case Z) (xs ys : List (Case Z))
        → merged_holds p (xs ++ ys) ≡ (merged_holds p xs || merged_holds p ys)
    merged_holds-append p [] ys = refl
    merged_holds-append p (x ∷ xs) ys = ground (arith, merged_holds-append p xs ys)

    merged_value :
        (p : Case Z) (v : Value) (cs : List (Case Z))
        → All (Agrees m v) cs
        → merged_holds p cs ≡ true
        → value m p.expression ≡ v
    merged_value p v [] agree h = cc
    merged_value p v (c ∷ cs) agree h =
        elim (Bool-cases (is_merged Z p c && holds Z m c.condition)) [
          | inl e ↦
              conditionally_eq_lem c.condition p.expression c.expression (ground (arith, e))
                (ground (arith, e))
              ∙ agree.0 (ground (arith, e))
          | inr e ↦ merged_value p v cs agree.1 (ground (arith, e, h))
        ]

    Denotes-round :
        (v : Value) (before after : List (Case Z)) (p : Case Z)
        → Denotes m (before ++ p ∷ after) v
        → Denotes m
            ((unmerged Z p before
                ++ record p { condition = widened Z p p.condition (before ++ after) } ∷ [])
              ++ unmerged Z p after)
            v
    Denotes-round v before after p (cover, agree) = (
      covered,
      All-append (Agrees m v) (unmerged Z p before ++ pivot ∷ []) (unmerged Z p after)
          (All-append (Agrees m v) (unmerged Z p before) (pivot ∷ [])
            (All-unmerged (Agrees m v) p before front) (agrees, tt))
          (All-unmerged (Agrees m v) p after back.1),
    )
      where
        pivot : Case Z
        pivot = record p { condition = widened Z p p.condition (before ++ after) }

        front : All (Agrees m v) before
        front = (All-split (Agrees m v) before (p ∷ after) agree).0

        back : All (Agrees m v) (p ∷ after)
        back = (All-split (Agrees m v) before (p ∷ after) agree).1

        covered : covers m ((unmerged Z p before ++ pivot ∷ []) ++ unmerged Z p after) ≡ true
        covered = ground (
          arith,
          cover,
          covers-append m before (p ∷ after),
          covers-append m (unmerged Z p before ++ pivot ∷ []) (unmerged Z p after),
          covers-append m (unmerged Z p before) (pivot ∷ []),
          covers-unmerged p before,
          covers-unmerged p after,
          merged_holds-append p before after,
          holds-widened p p.condition (before ++ after),
        )

        agrees : Agrees m v pivot
        agrees h = elim (Bool-cases (holds Z m p.condition)) [
          | inl own ↦ back.0 own
          | inr other ↦
              merged_value p v (before ++ after) (All-append (Agrees m v) before after front back.1)
                (ground (arith, other, h, holds-widened p p.condition (before ++ after)))
        ]

    Denotes-merge_from :
        (v : Value) (fuel : ℕ) (before rest : List (Case Z))
        → Denotes m (before ++ rest) v
        → Denotes m (merge_from Z fuel before rest) v
    unfolding merge_from
    Denotes-merge_from v zero before rest h = h
    Denotes-merge_from v (suc fuel) before [] h = rw (sym (append-nil before)) h
    Denotes-merge_from v (suc fuel) before (p ∷ after) h =
        Denotes-merge_from v fuel _ _ (Denotes-round v before after p h)

    pub Denotes-merge_cases :
        (v : Value) (cs : List (Case Z)) → Denotes m cs v → Denotes m (merge_cases Z cs) v
    unfolding merge_cases
    Denotes-merge_cases v cs h = Denotes-merge_from v (length cs) [] cs h

    value-ite_chain :
        (v : Value) (c : Case Z) (cs : List (Case Z))
        → Denotes m (c ∷ cs) v
        → value m (ite_chain Z c cs) ≡ v
    unfolding ite_chain
    value-ite_chain v c [] (cover, agree) = agree.0 (ground (arith, cover))
    value-ite_chain v c (d ∷ cs) (cover, agree) =
        laws.ite_law m c.condition c.expression (ite_chain Z d cs)
        ∙ chosen (λ k. value-ite_chain v d cs k) (Bool-cases (holds Z m c.condition))
      where
        chosen :
            (Denotes m (d ∷ cs) v → value m (ite_chain Z d cs) ≡ v)
            → (holds Z m c.condition ≡ true) ⊎ (holds Z m c.condition ≡ false)
            → (if holds Z m c.condition then value m c.expression else value m (ite_chain Z d cs))
              ≡ v
        chosen rest (inl h) = rw h (agree.0 h)
        chosen rest (inr h) = rw h (rest (ground (arith, cover, h), agree.1))

    value-chain_of :
        (v : Value) (nothing : Expr) (cs : List (Case Z))
        → Denotes m cs v
        → value m (chain_of Z nothing cs) ≡ v
    unfolding chain_of
    value-chain_of v nothing [] (cover, agree) = cc
    value-chain_of v nothing (c ∷ cs) h = value-ite_chain v c cs h

    -- If some condition holds, and all cases whose conditions hold have one value, then that is the
    -- value of the conditional that `piecewise2ite` builds.
    pub value-piecewise2ite :
        (v : Value) (nothing : Expr) (cs : List (Case Z))
        → Denotes m cs v
        → value m (piecewise2ite Z nothing cs) ≡ v
    unfolding piecewise2ite
    value-piecewise2ite v nothing [] (cover, agree) = cc
    value-piecewise2ite v nothing (c ∷ []) (cover, agree) = agree.0 (ground (arith, cover))
    value-piecewise2ite v nothing (c ∷ d ∷ cs) h =
        value-chain_of v nothing (merge_cases Z (c ∷ d ∷ cs)) (Denotes-merge_cases v (c ∷ d ∷ cs) h)

  -- Once the fuel is as large as the number of cases that are left, more changes nothing.
  pub merge_from_enough :
      (fuel : ℕ) (before rest : List (Case Z))
      → length rest ≤ fuel
      → merge_from Z (suc fuel) before rest ≡ merge_from Z fuel before rest
  unfolding merge_from
  merge_from_enough zero before [] h = sym (append-nil before)
  merge_from_enough zero before (p ∷ after) h = absurd (omega (arith, h))
  merge_from_enough (suc fuel) before [] h = refl
  merge_from_enough (suc fuel) before (p ∷ after) h =
      merge_from_enough fuel _ (unmerged Z p after) (omega (arith, h, length-unmerged p after))
