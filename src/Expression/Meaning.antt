-- ===== src/Expression/Meaning.antt =====
-- lib/Expr.cpp: what an expression by cases means under an interpretation, and that the operations keep
-- to it.
use arith_exe.Prelude.{List, ◌≡◌, refl, ap, ◌∙◌, Bool, true, false, ◌||◌, [], ◌∷◌, All}
use arith_exe.Z3.{Z3, Z3Laws, holds, Value, boolean}
use arith_exe.Expression.{from_expr, as_pieces}
use arith_exe.Logic.Pieces.{expr2piecewise, expr2piecewise_passes}
use arith_exe.Logic.Pieces.Denote.{Denotes-expr2piecewise}
use arith_exe.Logic.Cases.{Case}
use arith_exe.Logic.Denotes.{covers, Agrees, value-piecewise2ite}
use arith_exe.Expression.{Piece, Expression, expression_cases, definition_cases, as_expr, defined}

module _ (Z : Z3) where
  open Z use {Expr, Model, value, conj, disj, neg, check}

  abbrev pub has_case : Model → Expression Z → Bool
  has_case m [] = false
  has_case m (p ∷ e) = holds Z m p.condition || has_case m e

  abbrev pub Gives : Model → Value → Bool → Piece Z → Type 0
  Gives m v b p =
      holds Z m p.condition ≡ true → (value m p.expression ≡ v) × (value m p.definition ≡ boolean b)

  -- The expression has the value `v`, and `b` says whether it is defined: some case applies, and all
  -- cases that apply say so.
  abbrev pub Means : Model → Expression Z → Value → Bool → Type 0
  Means m e v b = (has_case m e ≡ true) × All (Gives m v b) e

  covers-expression_cases :
      (m : Model) (e : Expression Z) → covers Z m (expression_cases Z e) ≡ has_case m e
  covers-expression_cases m [] = refl
  covers-expression_cases m (p ∷ e) =
      ap (λ r. holds Z m p.condition || r) (covers-expression_cases m e)

  covers-definition_cases :
      (m : Model) (e : Expression Z) → covers Z m (definition_cases Z e) ≡ has_case m e
  covers-definition_cases m [] = refl
  covers-definition_cases m (p ∷ e) =
      ap (λ r. holds Z m p.condition || r) (covers-definition_cases m e)

  module _ (m : Model) (v : Value) (b : Bool) where
    Agrees-expression_cases :
        (e : Expression Z) → All (Gives m v b) e → All (Agrees Z m v) (expression_cases Z e)
    Agrees-expression_cases [] h = tt
    Agrees-expression_cases (p ∷ e) h = (λ c. (h.0 c).0, Agrees-expression_cases e h.1)

    Agrees-definition_cases :
        (e : Expression Z)
        → All (Gives m v b) e
        → All (Agrees Z m (boolean b)) (definition_cases Z e)
    Agrees-definition_cases [] h = tt
    Agrees-definition_cases (p ∷ e) h = (λ c. (h.0 c).1, Agrees-definition_cases e h.1)

    -- `as_expr` has the value that the expression by cases has, and `defined` holds exactly if it is
    -- defined.
    pub as_expr-Means :
        (laws : Z3Laws Z) (nothing : Expr) (e : Expression Z)
        → Means m e v b
        → (value m (as_expr Z nothing e) ≡ v) × (value m (defined Z nothing e) ≡ boolean b)
    unfolding as_expr defined
    as_expr-Means laws nothing [] (cover, give) = cc
    as_expr-Means laws nothing (p ∷ e) (cover, give) = (
      value-piecewise2ite Z laws m v nothing (expression_cases Z (p ∷ e))
          (covers-expression_cases m (p ∷ e) ∙ cover, Agrees-expression_cases (p ∷ e) give),
      value-piecewise2ite Z laws m (boolean b) nothing (definition_cases Z (p ∷ e))
          (covers-definition_cases m (p ∷ e) ∙ cover, Agrees-definition_cases (p ∷ e) give),
    )

  -- The expression by cases that is made from a Z3 expression has the value of that expression and is
  -- defined, under every interpretation, if the assertions that `expr2piecewise` makes on it hold.
  pub Means-from_expr :
      (laws : Z3Laws Z) (m : Model) (e : Expr)
      → expr2piecewise_passes Z e ≡ true
      → Means m (from_expr Z e) (value m e) true
  unfolding from_expr
  Means-from_expr laws m e passed =
      let (cover, agree) = Denotes-expr2piecewise Z laws m e passed in
      (covered (expr2piecewise Z e) ∙ cover, gives (value m e) (expr2piecewise Z e) agree)
    where
      covered : (cases : List (Case Z)) → has_case m (as_pieces Z cases) ≡ covers Z m cases
      covered [] = refl
      covered (c ∷ cases) = ap (λ r. holds Z m c.condition || r) (covered cases)

      gives :
          (v : Value) (cases : List (Case Z))
          → All (Agrees Z m v) cases
          → All (Gives m v true) (as_pieces Z cases)
      gives v [] h = tt
      gives v (c ∷ cases) h = ((λ k. (h.0 k, laws.bool_val_law m true)), gives v cases h.1)
