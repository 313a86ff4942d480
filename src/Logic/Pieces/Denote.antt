-- ===== src/Logic/Pieces/Denote.antt =====
-- lib/logics.cpp: the cases of `expr2piecewise` and the value of the expression, where the assertions hold.
use arith_exe.Prelude.{
  ℕ, zero, suc, ◌≤◌, ◌≡◌, refl, sym, subst, ap, ap₂, ◌∙◌, inl, inr, Bool, true, false, ◌&&◌, ◌||◌,
  List, [], ◌∷◌, map, if◌then◌else◌, All, All-append, arith, Bool-cases,
}
use arith_exe.Z3.{Z3, Z3Laws, Value, truth, holds, total, is_ite}
use arith_exe.Logic.Cases.{Case}
use arith_exe.Logic.Denotes.{covers, covers-append, Agrees, Denotes, Denotes-merge_cases}
use arith_exe.Logic.Pieces.{
  choices, eliminated_all, settle, application, branches, aux_expr2piecewise, expr2piecewise,
  settle_passes, branches_pass, arguments_pass, aux_passes, expr2piecewise_passes,
}
use arith_exe.Logic.Pieces.Marks.{eliminate_ite_lem}
use arith_exe.Logic.Pieces.Choices.{AllDenote, choices_lem, covers-application, Agrees-application}

module _ (Z : Z3) (laws : Z3Laws Z) (m : Z.Model) where
  open Z use {Expr, value, conj, neg, bool_val}

  covers-eliminated_all :
      (cs : List (Case Z))
      → settle_passes Z cs ≡ true
      → covers Z m (eliminated_all Z cs) ≡ covers Z m cs
  covers-eliminated_all [] p = refl
  covers-eliminated_all (c ∷ cs) p =
      ap₂ (λ a b. a || b) (eliminate_ite_lem Z laws m c.condition (ground (arith, p)))
        (covers-eliminated_all cs (ground (arith, p)))

  Agrees-eliminated_all :
      (v : Value) (cs : List (Case Z))
      → settle_passes Z cs ≡ true
      → All (Agrees Z m v) cs
      → All (Agrees Z m v) (eliminated_all Z cs)
  Agrees-eliminated_all v [] p h = tt
  Agrees-eliminated_all v (c ∷ cs) p h =
      let keeps = eliminate_ite_lem Z laws m c.condition (ground (arith, p)) in
      ((λ k. h.0 (sym keeps ∙ k)), Agrees-eliminated_all v cs (ground (arith, p)) h.1)

  Denotes-settle :
      (v : Value) (cs : List (Case Z))
      → settle_passes Z cs ≡ true
      → Denotes Z m cs v
      → Denotes Z m (settle Z cs) v
  unfolding settle
  Denotes-settle v cs p (cover, agree) =
      Denotes-merge_cases Z laws m v (eliminated_all Z cs)
        (covers-eliminated_all cs p ∙ cover, Agrees-eliminated_all v cs p agree)

  -- The cases apply where the condition does, and have the value of the expression.
  abbrev Splits : Expr → Expr → List (Case Z) → Type 0
  Splits e c cs = (covers Z m cs ≡ holds Z m c) × All (Agrees Z m (value m e)) cs

  Agrees-none : (v : Value) (cs : List (Case Z)) → covers Z m cs ≡ false → All (Agrees Z m v) cs
  Agrees-none v [] h = tt
  Agrees-none v (c ∷ cs) h =
      ((λ k. cc_absurd (ground (arith, h, k))), Agrees-none v cs (ground (arith, h)))
    where
      cc_absurd : {A : Type 0} → ◌≡◌ {A = Bool} false true → A
      cc_absurd x = cc

  -- What a visit of expressions up to a size gives.
  module _ (visit : Expr → Expr → List (Case Z)) (pass : Expr → Expr → Bool) (fuel : ℕ)
      (visited : (e c : Expr) → Z.size e ≤ fuel → pass e c ≡ true → Splits e c (visit e c)) where
    Splits-branches :
        (e c : Expr)
        → Z.size e ≤ suc fuel
        → is_ite (Z.kind e) ≡ true
        → branches_pass Z pass c (Z.args e) ≡ true
        → Splits e c (branches Z visit c (Z.args e))
    Splits-branches e c small ite p =
        let (x, a, b, shape, is) = laws.ite_args_law m e ite in
        let smaller = laws.size_law e in
        let sum = ap (total Z.size) shape in
        let passed : branches_pass Z pass c (x ∷ a ∷ b ∷ []) ≡ true =
          sym (ap (branches_pass Z pass c) shape) ∙ p in
        let (cover_a, agree_a) =
          visited a (conj x c) (omega (arith, small, smaller, sum)) (ground (arith, passed)) in
        let (cover_b, agree_b) =
          visited b (conj (neg x) c) (omega (arith, small, smaller, sum))
            (ground (arith, passed)) in
        let both_a = ap truth (laws.conj_law m x c) in
        let both_b = ap truth (laws.conj_law m (neg x) c) in
        let negated = ap truth (laws.neg_law m x) in
        rw shape (
          covers-append Z m (visit a (conj x c)) (visit b (conj (neg x) c))
              ∙ ground (arith, cover_a, cover_b, both_a, both_b, negated),
          All-append (Agrees Z m (value m e)) (visit a (conj x c)) (visit b (conj (neg x) c))
              (elim (Bool-cases (holds Z m x)) [
                | inl h ↦
                    subst (λ v. All (Agrees Z m v) (visit a (conj x c)))
                      (sym (is ∙ chosen (holds Z m x) (value m a) (value m b) h)) agree_a
                | inr h ↦
                    Agrees-none (value m e) (visit a (conj x c))
                      (ground (arith, cover_a, both_a, h))
              ])
              (elim (Bool-cases (holds Z m x)) [
                | inl h ↦
                    Agrees-none (value m e) (visit b (conj (neg x) c))
                      (ground (arith, cover_b, both_b, negated, h))
                | inr h ↦
                    subst (λ v. All (Agrees Z m v) (visit b (conj (neg x) c)))
                      (sym (is ∙ other (holds Z m x) (value m a) (value m b) h)) agree_b
              ]),
        )
      where
        chosen : (x : Bool) (v w : Value) → x ≡ true → (if x then v else w) ≡ v
        chosen x v w h = rw h refl

        other : (x : Bool) (v w : Value) → x ≡ false → (if x then v else w) ≡ w
        other x v w h = rw h refl

    abbrev argument_passes : Expr → Bool
    argument_passes a = pass a (bool_val true) && settle_passes Z (visit a (bool_val true))

    AllDenote-settle :
        (es : List Expr)
        → total Z.size es ≤ fuel
        → arguments_pass Z argument_passes es ≡ true
        → AllDenote Z laws m (map (λ a. settle Z (visit a (bool_val true))) es) es
    AllDenote-settle [] h p = tt
    AllDenote-settle (e ∷ es) h p =
        let (cover, agree) = visited e (bool_val true) (omega (arith, h)) (ground (arith, p)) in
        (
          Denotes-settle (value m e) (visit e (bool_val true)) (ground (arith, p))
              (cover ∙ ap truth (laws.bool_val_law m true), agree),
          AllDenote-settle es (omega (arith, h)) (ground (arith, p)),
        )

    Splits-application :
        (e c : Expr)
        → Z.size e ≤ suc fuel
        → arguments_pass Z argument_passes (Z.args e) ≡ true
        → Splits e c (
            map
              (application Z e c)
              (choices (map (λ a. settle Z (visit a (bool_val true))) (Z.args e))))
    Splits-application e c small p =
        let css = map (λ a. settle Z (visit a (bool_val true))) (Z.args e) in
        let (applies, fit) =
          choices_lem Z laws m css (Z.args e)
            (AllDenote-settle (Z.args e) (omega (arith, small, laws.size_law e)) p) in
        (
          covers-application Z laws m e c (choices css) ∙ ground (arith, applies),
          Agrees-application Z laws m e c (choices css) fit,
        )

  aux_expr2piecewise_lem :
      (fuel : ℕ) (e c : Expr)
      → Z.size e ≤ fuel
      → aux_passes Z fuel e c ≡ true
      → Splits e c (aux_expr2piecewise Z fuel e c)
  unfolding aux_expr2piecewise aux_passes
  aux_expr2piecewise_lem zero e c h p = absurd (omega (arith, h, laws.size_law e))
  aux_expr2piecewise_lem (suc fuel) e c h p =
      let visited = aux_expr2piecewise_lem fuel in
      elim (Bool-cases (Z.is_const e || Z.is_var e || Z.is_quantifier e)) [
        | inl leaf ↦ rw leaf (ground arith, ((λ k. refl), tt))
        | inr inner ↦ elim (Bool-cases (is_ite (Z.kind e))) [
          | inl ite ↦
              rw (inner, laws.app_law e inner, ite)
                (Splits-branches (aux_expr2piecewise Z fuel) (aux_passes Z fuel) fuel visited e c h
                  ite (sym (rw (inner, laws.app_law e inner, ite) refl) ∙ p))
          | inr plain ↦
              rw (inner, laws.app_law e inner, plain)
                (Splits-application (aux_expr2piecewise Z fuel) (aux_passes Z fuel) fuel visited e c
                  h (sym (rw (inner, laws.app_law e inner, plain) refl) ∙ p))
        ]
      ]

  -- Where the assertions hold, the cases of `expr2piecewise` apply in every case and have the value of the
  -- expression.
  pub Denotes-expr2piecewise :
      (e : Expr) → expr2piecewise_passes Z e ≡ true → Denotes Z m (expr2piecewise Z e) (value m e)
  unfolding expr2piecewise expr2piecewise_passes
  Denotes-expr2piecewise e p =
      let (cover, agree) =
        aux_expr2piecewise_lem (Z.size e) e (bool_val true) (omega arith) (ground (arith, p)) in
      Denotes-settle (value m e) (aux_expr2piecewise Z (Z.size e) e (bool_val true))
        (ground (arith, p)) (cover ∙ ap truth (laws.bool_val_law m true), agree)
