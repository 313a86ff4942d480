-- ===== src/Logic/Minimize.antt =====
-- lib/logics.cpp: `minimize_conjunction` drops literals and keeps the conjunction.
use arith_exe.Prelude.{
  take-append-drop, ℕ, ◌≡◌, refl, sym, ap, ◌∙◌, inl, inr, true, not, ◌&&◌, List, [], ◌∷◌, ◌++◌,
  append-nil, append_assoc, map, take, drop, All, arith, Bool-cases,
}
use arith_exe.Z3.{Z3, Z3Laws, holds, all_hold, any_holds, truth, In}
use arith_exe.Logic.Cases.{is_unsat}
use arith_exe.Logic.Denotes.{is_unsat_lem}
use arith_exe.Logic.Cnf.{minimize_from, minimize_conjunction}

module _ (Z : Z3) (m : Z.Model) where
  open Z use {Expr, neg, check, bool_val}

  pub all_hold-append :
      (xs ys : List Expr) → all_hold Z m (xs ++ ys) ≡ (all_hold Z m xs && all_hold Z m ys)
  all_hold-append [] ys = refl
  all_hold-append (x ∷ xs) ys = ground (arith, all_hold-append xs ys)

  pub all_hold-In :
      (xs : List Expr) (x : Expr) → In x xs → all_hold Z m xs ≡ true → holds Z m x ≡ true
  all_hold-In [] x i h = absurd i
  all_hold-In (y ∷ xs) x (inl e) h = ap (holds Z m) e ∙ ground (arith, h)
  all_hold-In (y ∷ xs) x (inr i) h = all_hold-In xs x i (ground (arith, h))

  pub all_hold_subset :
      (xs ys : List Expr) → All (λ x. In x ys) xs → all_hold Z m ys ≡ true → all_hold Z m xs ≡ true
  all_hold_subset [] ys h k = refl
  all_hold_subset (x ∷ xs) ys h k =
      let first = all_hold-In ys x h.0 k in
      let rest = all_hold_subset xs ys h.1 k in ground (arith, first, rest)

  pub any_holds-neg :
      (laws : Z3Laws Z) (xs : List Expr) → any_holds Z m (map neg xs) ≡ not (all_hold Z m xs)
  any_holds-neg laws [] = refl
  any_holds-neg laws (x ∷ xs) =
      let first = ap truth (laws.neg_law m x) in
      let rest = any_holds-neg laws xs in ground (arith, first, rest)

  pub all_hold-neg :
      (laws : Z3Laws Z) (xs : List Expr) → all_hold Z m (map neg xs) ≡ not (any_holds Z m xs)
  all_hold-neg laws [] = refl
  all_hold-neg laws (x ∷ xs) =
      let first = ap truth (laws.neg_law m x) in
      let rest = all_hold-neg laws xs in ground (arith, first, rest)

  module _ (laws : Z3Laws Z) (assumption : Expr) (assumed : holds Z m assumption ≡ true) where
    -- A literal that the others entail.
    entailed :
        (before after : List Expr) (pivot : Expr)
        → is_unsat (check (bool_val true ∷ assumption ∷ (before ++ after) ++ neg pivot ∷ [])) ≡ true
        → all_hold Z m (before ++ pivot ∷ after) ≡ all_hold Z m (before ++ after)
    entailed before after pivot h =
        let list = bool_val true ∷ assumption ∷ (before ++ after) ++ neg pivot ∷ [] in
        let no_model = laws.unsat_law list m (is_unsat_lem (check list) h) in
        let trivial = ap truth (laws.bool_val_law m true) in
        let negated = ap truth (laws.neg_law m pivot) in
        let parts = all_hold-append (before ++ after) (neg pivot ∷ []) in
        let with_pivot = all_hold-append before (pivot ∷ after) in
        let without = all_hold-append before after in
        ground (arith, no_model, trivial, negated, parts, with_pivot, without, assumed)

    minimize_from_lem :
        (before rest : List Expr)
        → all_hold Z m (minimize_from Z assumption before rest) ≡ all_hold Z m (before ++ rest)
    unfolding minimize_from
    minimize_from_lem before [] = ap (all_hold Z m) (sym (append-nil before))
    minimize_from_lem before (pivot ∷ after) =
        elim (Bool-cases
          (is_unsat (check (bool_val true ∷ assumption ∷ (before ++ after) ++ neg pivot ∷ [])))) [
            | inl h ↦ rw h (minimize_from_lem before after ∙ sym (entailed before after pivot h))
            | inr h ↦ rw h (
                minimize_from_lem (before ++ pivot ∷ []) after
                ∙ ap (all_hold Z m) (append_assoc before (pivot ∷ []) after))
          ]

    -- Under the assumption the literals that are left hold exactly where all held.
    pub all_hold-minimize_conjunction :
        (conjunction : List Expr) (pivot : ℕ)
        → all_hold Z m (minimize_conjunction Z conjunction pivot assumption)
          ≡ all_hold Z m conjunction
    unfolding minimize_conjunction
    all_hold-minimize_conjunction conjunction pivot =
        minimize_from_lem (take pivot conjunction) (drop pivot conjunction)
        ∙ ap (all_hold Z m) (take-append-drop pivot conjunction)
