-- ===== src/Logic/Pieces/Marks.antt =====
-- lib/logics.cpp: `collect_aux_vars` finds the constants with a mark, and `eliminate_ite` keeps what holds
-- where its assertion does.
use arith_exe.Prelude.{
  ℕ, zero, suc, ◌+◌, ◌≤◌, ◌≡◌, refl, sym, subst, ap, ◌∙◌, inl, inr, Bool, true, false, not, ◌&&◌,
  List, [], ◌∷◌, ◌++◌, if◌then◌else◌, All, arith, Bool-cases,
}
use arith_exe.Z3.{
  Z3, Z3Laws, truth, holds, total, is_nil, In, is_constant, Occurs, itself, inside, IsUnmarked,
  differ,
}
use arith_exe.Logic.Cases.{is_equivalent}
use arith_exe.Logic.Denotes.{is_unsat_lem}
use arith_exe.Logic.Pieces.{
  listed, marked, collect_vars_rec, collect_vars, collect_aux_vars, eliminate_ite, passes,
}

module _ {A : Type 0} (P : A → Type 0) where
  All-split : (xs ys : List A) → All P (xs ++ ys) → All P xs × All P ys
  All-split [] ys h = (tt, h)
  All-split (x ∷ xs) ys h = let (front, back) = All-split xs ys h.1 in ((h.0, front), back)

  All-In : (a : A) (xs : List A) → All P xs → In a xs → P a
  All-In a [] h i = absurd i
  All-In a (x ∷ xs) h (inl e) = subst P (sym e) h.0
  All-In a (x ∷ xs) h (inr i) = All-In a xs h.1 i

nil-In : {A : Type 0} (a : A) (xs : List A) → is_nil xs ≡ true → In a xs → ⊥
nil-In a [] h i = i
nil-In a (x ∷ xs) h i = cc

pub total-append :
    {A : Type 0} (f : A → ℕ) (xs ys : List A) → total f (xs ++ ys) ≡ total f xs + total f ys
total-append f [] ys = omega arith
total-append f (x ∷ xs) ys = omega (arith, total-append f xs ys)

module _ (Z : Z3) (laws : Z3Laws Z) where
  open Z use {Expr, mk_or, simplified}

  marked-append :
      (vars : List Expr) (e : Expr)
      → is_nil (marked Z (vars ++ e ∷ [])) ≡ (is_nil (marked Z vars) && not (Z.has_mark e))
  marked-append [] e = elim (Bool-cases (Z.has_mark e)) [ inl h ↦ rw h refl | inr h ↦ rw h refl ]
  marked-append (v ∷ vars) e = elim (Bool-cases (Z.has_mark v)) [
    | inl h ↦ rw h refl
    | inr h ↦ rw h (marked-append vars e)
  ]

  listed_unmarked :
      (vars : List Expr) (e : Expr)
      → is_nil (marked Z vars) ≡ true
      → listed Z e vars ≡ true
      → Z.has_mark e ≡ false
  listed_unmarked [] e h l = cc
  listed_unmarked (v ∷ vars) e h l = elim (Bool-cases (Z.same_text v e)) [
    | inl s ↦ sym (laws.same_text_law v e s) ∙ first (Z.has_mark v) (marked Z vars) h
    | inr s ↦ listed_unmarked vars e (rest (Z.has_mark v) (marked Z vars) h) (ground (arith, l, s))
  ]
    where
      first : (b : Bool) (ms : List Expr) → is_nil (if b then v ∷ ms else ms) ≡ true → b ≡ false
      first true ms h = cc
      first false ms h = refl

      rest :
          (b : Bool) (ms : List Expr) → is_nil (if b then v ∷ ms else ms) ≡ true → is_nil ms ≡ true
      rest true ms h = cc
      rest false ms h = h

  -- The variables with another one, if it was not among them.
  added_unmarked :
      (vars : List Expr) (e : Expr)
      → is_nil (marked Z (if listed Z e vars then vars else vars ++ e ∷ [])) ≡ true
      → (is_nil (marked Z vars) ≡ true) × (Z.has_mark e ≡ false)
  added_unmarked vars e h = elim (Bool-cases (listed Z e vars)) [
    | inl l ↦
        let same : is_nil (marked Z vars) ≡ true = sym (rw l refl) ∙ h in
        (same, listed_unmarked vars e same l)
    | inr l ↦
        let both : is_nil (marked Z (vars ++ e ∷ [])) ≡ true = sym (rw l refl) ∙ h in
        let split = marked-append vars e in
        (ground (arith, both, split), ground (arith, both, split))
  ]

  constant_unmarked :
      (x e : Expr)
      → Occurs Z x e
      → is_nil (Z.args e) ≡ true
      → Z.has_mark e ≡ false
      → Z.has_mark x ≡ false
  constant_unmarked x e (itself _) nil h = h
  constant_unmarked x e (inside _ a _ i o) nil h = absurd (nil-In a (Z.args e) nil i)

  inner_unmarked :
      (x e : Expr)
      → Occurs Z x e
      → is_constant Z e ≡ false
      → All (IsUnmarked Z) (Z.args e)
      → is_constant Z x ≡ true
      → Z.has_mark x ≡ false
  inner_unmarked x e (itself _) c h k = absurd (clash (sym k ∙ c))
    where
      clash : ◌≡◌ {A = Bool} true false → ⊥
      clash p = cc
  inner_unmarked x e (inside _ a _ i o) c h k = All-In (IsUnmarked Z) a (Z.args e) h i x o k

  -- If no variable that is collected has a mark, none had before, and no constant has that occurs.
  collect_vars_rec_lem :
      (fuel : ℕ) (work vars : List Expr)
      → total Z.size work ≤ fuel
      → is_nil (marked Z (collect_vars_rec Z fuel work vars)) ≡ true
      → (is_nil (marked Z vars) ≡ true) × All (IsUnmarked Z) work
  unfolding collect_vars_rec
  collect_vars_rec_lem fuel [] vars small h = (h, tt)
  collect_vars_rec_lem zero (e ∷ work) vars small h = absurd (omega (arith, small, laws.size_law e))
  collect_vars_rec_lem (suc fuel) (e ∷ work) vars small h = elim (Bool-cases (is_constant Z e)) [
    | inl c ↦
        let (before, rest) =
          collect_vars_rec_lem fuel work (if listed Z e vars then vars else vars ++ e ∷ [])
            (omega (arith, small, laws.size_law e)) (sym (rw c refl) ∙ h) in
        let (none_before, unmarked) = added_unmarked vars e before in
        (none_before, ((λ x o k. constant_unmarked x e o (ground (arith, c)) unmarked), rest))
    | inr c ↦
        let (before, rest) =
          collect_vars_rec_lem fuel (Z.args e ++ work) vars
            (omega (arith, small, laws.size_law e, total-append Z.size (Z.args e) work))
            (sym (rw c refl) ∙ h) in
        let (arguments, others) = All-split (IsUnmarked Z) (Z.args e) work rest in
        (before, ((λ x o k. inner_unmarked x e o c arguments k), others))
  ]

  collect_aux_vars_lem : (e : Expr) → is_nil (collect_aux_vars Z e) ≡ true → IsUnmarked Z e
  unfolding collect_aux_vars collect_vars
  collect_aux_vars_lem e h = (collect_vars_rec_lem (Z.size e) (e ∷ []) [] (omega arith) h).1.0

  is_equivalent_lem :
      (m : Z.Model) (a b : Expr) → is_equivalent Z a b ≡ true → holds Z m a ≡ holds Z m b
  unfolding is_equivalent
  is_equivalent_lem m a b h =
      let no_model = laws.unsat_law (differ Z a b ∷ []) m (is_unsat_lem _ h) in
      let negated = ap truth (laws.neg_law m (Z.equal a b)) in
      ap truth ((laws.equal_law m a b).0 (ground (arith, no_model, negated)))

  -- Where the assertion holds, the result holds exactly where the expression does.
  pub eliminate_ite_lem :
      (m : Z.Model) (e : Expr) → passes Z e ≡ true → holds Z m (eliminate_ite Z e) ≡ holds Z m e
  unfolding passes eliminate_ite
  eliminate_ite_lem m e h =
      let eliminated = mk_or (Z.elim_term_ite e) in
      elim (Bool-cases (is_nil (collect_aux_vars Z eliminated))) [
        | inl n ↦
            rw (eliminate_ite, n)
              (ap truth (laws.simplified_law m eliminated)
                ∙ laws.elim_term_ite_law m e (collect_aux_vars_lem eliminated n))
        | inr n ↦
            let aux_vars = collect_aux_vars Z eliminated in
            let shorter = simplified (mk_or (Z.qe (Z.exists aux_vars eliminated))) in
            rw (eliminate_ite, n)
              (ap truth (laws.simplified_law m shorter)
                ∙ is_equivalent_lem m shorter e (sym (rw (passes, n) refl) ∙ h))
      ]
