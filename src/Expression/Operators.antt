-- ===== src/Expression/Operators.antt =====
-- lib/Expr.cpp: what the binary operators mean.
use arith_exe.Prelude.{
  ◌≡◌, refl, ap, ap₂, ◌∙◌, ◌≢◌, inl, inr, Bool, true, false, ◌&&◌, ◌||◌, [], ◌∷◌, ◌++◌, All,
  All-append, arith, Bool-cases,
}
use arith_exe.Z3.{
  CheckResult, Z3, Z3Laws, holds, Value, boolean, truth, Operator, plus, times, difference,
  quotient, remainder, equals, not_equals, less, less_equal, greater, greater_equal, both, either,
  exclusive,
}
use arith_exe.Logic.Cases.{is_feasible, is_sat}
use arith_exe.Expression.{Piece, Expression, paired, paired_all, bin_operator, lambda_of, operate}
use arith_exe.Expression.Meaning.{has_case, Gives, Means}

module _ (Z : Z3) where
  open Z use {Expr, Model, value, conj, check}

  -- Z3 settles whether a case of the one and a case of the other can apply together.
  abbrev pub AreSettled : Expression Z → Expression Z → Type 0
  AreSettled lhs rhs =
      All (λ l. All (λ r. check (conj l.condition r.condition ∷ []) ≢ CheckResult.unknown) rhs) lhs

  has_case-append :
      (m : Model) (xs ys : Expression Z)
      → has_case Z m (xs ++ ys) ≡ (has_case Z m xs || has_case Z m ys)
  has_case-append m [] ys = refl
  has_case-append m (x ∷ xs) ys = ground (arith, has_case-append m xs ys)

  infeasible_lem :
      (e : Expr)
      → check (e ∷ []) ≢ CheckResult.unknown
      → is_feasible Z e [] ≡ false
      → check (e ∷ []) ≡ CheckResult.unsat
  unfolding is_feasible
  infeasible_lem e settled h = by_result (check (e ∷ [])) settled h
    where
      by_result :
          (r : CheckResult) → r ≢ CheckResult.unknown → is_sat r ≡ false → r ≡ CheckResult.unsat
      by_result CheckResult.unsat n f = refl
      by_result CheckResult.sat n f = cc
      by_result CheckResult.unknown n f = absurd (n refl)

  module _ (laws : Z3Laws Z) (m : Model) where
    -- Two cases that apply are feasible together.
    feasible_lem :
        (a b : Expr)
        → check (conj a b ∷ []) ≢ CheckResult.unknown
        → holds Z m a ≡ true
        → holds Z m b ≡ true
        → is_feasible Z (conj a b) [] ≡ true
    feasible_lem a b settled p q = elim (Bool-cases (is_feasible Z (conj a b) [])) [
      | inl h ↦ h
      | inr h ↦
          let none_holds = laws.unsat_law (conj a b ∷ []) m (infeasible_lem (conj a b) settled h) in
          let both = ap truth (laws.conj_law m a b) in
          absurd (clash (ground (arith, none_holds, both, p, q)))
    ]
      where
        clash : ◌≡◌ {A = Bool} false true → ⊥
        clash x = cc

    module _ (op : Expr → Expr → Expr) (vop : Value → Value → Value)
        (op_law : (a b : Expr) → value m (op a b) ≡ vop (value m a) (value m b)) (vl vr : Value)
        (bl br : Bool) where
      Gives-paired :
          (l r : Piece Z)
          → Gives Z m vl bl l
          → Gives Z m vr br r
          → All (Gives Z m (vop vl vr) (bl && br)) (paired Z op l r)
      Gives-paired l r gl gr = elim (Bool-cases (is_feasible Z (conj l.condition r.condition) [])) [
        | inl h ↦ rw h (gives, tt)
        | inr h ↦ rw h tt
      ]
        where
          gives : Gives Z m (vop vl vr) (bl && br) (record {
            condition = conj l.condition r.condition;
            expression = op l.expression r.expression;
            definition = conj l.definition r.definition;
          })
          gives h =
              let both = ap truth (laws.conj_law m l.condition r.condition) in
              let (left, left_defined) = gl (ground (arith, both, h)) in
              let (right, right_defined) = gr (ground (arith, both, h)) in
              (
                op_law l.expression r.expression ∙ ap₂ vop left right,
                laws.conj_law m l.definition r.definition
                    ∙ ap₂ (λ x y. boolean (truth x && truth y)) left_defined right_defined,
              )

      Gives-paired_all :
          (l : Piece Z) (rs : Expression Z)
          → Gives Z m vl bl l
          → All (Gives Z m vr br) rs
          → All (Gives Z m (vop vl vr) (bl && br)) (paired_all Z op l rs)
      Gives-paired_all l [] gl gr = tt
      Gives-paired_all l (r ∷ rs) gl gr =
          All-append (Gives Z m (vop vl vr) (bl && br)) (paired Z op l r) (paired_all Z op l rs)
            (Gives-paired l r gl gr.0) (Gives-paired_all l rs gl gr.1)

      Gives-bin_operator :
          (lhs rhs : Expression Z)
          → All (Gives Z m vl bl) lhs
          → All (Gives Z m vr br) rhs
          → All (Gives Z m (vop vl vr) (bl && br)) (bin_operator Z op lhs rhs)
      unfolding bin_operator
      Gives-bin_operator [] rhs gl gr = tt
      Gives-bin_operator (l ∷ lhs) rhs gl gr =
          All-append (Gives Z m (vop vl vr) (bl && br)) (paired_all Z op l rhs)
            (bin_operator Z op lhs rhs) (Gives-paired_all l rhs gl.0 gr)
            (Gives-bin_operator lhs rhs gl.1 gr)

    has_case-paired_all :
        (op : Expr → Expr → Expr) (l : Piece Z) (rs : Expression Z)
        → All (λ r. check (conj l.condition r.condition ∷ []) ≢ CheckResult.unknown) rs
        → holds Z m l.condition ≡ true
        → has_case Z m rs ≡ true
        → has_case Z m (paired_all Z op l rs) ≡ true
    has_case-paired_all op l [] settled h k = cc
    has_case-paired_all op l (r ∷ rs) settled h k = elim (Bool-cases (holds Z m r.condition)) [
      | inl now ↦
          let both = ap truth (laws.conj_law m l.condition r.condition) in
          let kept = feasible_lem l.condition r.condition settled.0 h now in
          has_case-append m (paired Z op l r) (paired_all Z op l rs)
          ∙ rw kept (ground (arith, both, h, now))
      | inr later ↦
          let rest = has_case-paired_all op l rs settled.1 h (ground (arith, k, later)) in
          has_case-append m (paired Z op l r) (paired_all Z op l rs) ∙ ground (arith, rest)
    ]

    has_case-bin_operator :
        (op : Expr → Expr → Expr) (lhs rhs : Expression Z)
        → AreSettled lhs rhs
        → has_case Z m lhs ≡ true
        → has_case Z m rhs ≡ true
        → has_case Z m (bin_operator Z op lhs rhs) ≡ true
    unfolding bin_operator
    has_case-bin_operator op [] rhs settled h k = cc
    has_case-bin_operator op (l ∷ lhs) rhs settled h k = elim (Bool-cases (holds Z m l.condition)) [
      | inl now ↦
          let here = has_case-paired_all op l rhs settled.0 now k in
          has_case-append m (paired_all Z op l rhs) (bin_operator Z op lhs rhs)
          ∙ ground (arith, here)
      | inr later ↦
          let there = has_case-bin_operator op lhs rhs settled.1 (ground (arith, h, later)) k in
          has_case-append m (paired_all Z op l rhs) (bin_operator Z op lhs rhs)
          ∙ ground (arith, there)
    ]

    lambda_of_lem :
        (o : Operator) (a b : Expr)
        → value m (lambda_of Z o a b) ≡ Z.meaning o (value m a) (value m b)
    lambda_of_lem plus a b = laws.apply_law m plus a b
    lambda_of_lem times a b = laws.apply_law m times a b
    lambda_of_lem difference a b = laws.apply_law m difference a b
    lambda_of_lem quotient a b =
        laws.simplified_law m (Z.apply quotient a b) ∙ laws.apply_law m quotient a b
    lambda_of_lem remainder a b = laws.apply_law m remainder a b
    lambda_of_lem equals a b = laws.apply_law m equals a b
    lambda_of_lem not_equals a b = laws.apply_law m not_equals a b
    lambda_of_lem less a b = laws.apply_law m less a b
    lambda_of_lem less_equal a b = laws.apply_law m less_equal a b
    lambda_of_lem greater a b = laws.apply_law m greater a b
    lambda_of_lem greater_equal a b = laws.apply_law m greater_equal a b
    lambda_of_lem both a b = laws.apply_law m both a b
    lambda_of_lem either a b = laws.apply_law m either a b
    lambda_of_lem exclusive a b = laws.apply_law m exclusive a b

    -- A binary operator on expressions by cases means what the operator means on their values, and is
    -- defined where both are, provided that Z3 settles the feasibility of each pair of cases.
    pub Means-operate :
        (o : Operator) (lhs rhs : Expression Z) (vl vr : Value) (bl br : Bool)
        → AreSettled lhs rhs
        → Means Z m lhs vl bl
        → Means Z m rhs vr br
        → Means Z m (operate Z o lhs rhs) (Z.meaning o vl vr) (bl && br)
    unfolding operate
    Means-operate o lhs rhs vl vr bl br settled (cl, gl) (cr, gr) = (
      has_case-bin_operator (lambda_of Z o) lhs rhs settled cl cr,
      Gives-bin_operator (lambda_of Z o) (Z.meaning o) (lambda_of_lem o) vl vr bl br lhs rhs gl gr,
    )
