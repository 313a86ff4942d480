-- ===== src/Expression.antt =====
-- lib/Expr.{h,cpp}: expressions by cases, each with the condition under which it is defined.
pub mod Meaning
pub mod Operators
pub mod Updates
mod Checks
use arith_exe.Prelude.{
  ℕ, Bool, true, false, List, [], ◌∷◌, ◌++◌, map, if◌then◌else◌, Option, none, some, ◌>>=◌,
}
use arith_exe.Prelude.Int.{ℤ, pos}
use arith_exe.Z3.{
  Z3, Operator, plus, times, difference, quotient, remainder, equals, not_equals, less, less_equal,
  greater, greater_equal, both, either, exclusive,
}
use arith_exe.Logic.Cnf.{simplify}
use arith_exe.Logic.Pieces.{expr2piecewise}
use arith_exe.Logic.Cases.{Case, is_feasible, piecewise2ite}

module _ (Z : Z3) where
  open Z use {Expr, conj, disj, neg, bool_val}

  -- One entry of the three vectors, which have one length.
  pub record Piece : Type 0 where
    pub condition : Expr
    pub expression : Expr
    pub definition : Expr

  abbrev pub Expression : Type 0
  Expression = List Piece

  abbrev pub expression_cases : Expression → List (Case Z)
  expression_cases pieces =
      map (λ p. record { condition = p.condition; expression = p.expression }) pieces

  abbrev pub definition_cases : Expression → List (Case Z)
  definition_cases pieces =
      map (λ p. record { condition = p.condition; expression = p.definition }) pieces

  -- cases that are all defined
  abbrev pub as_pieces : List (Case Z) → Expression
  as_pieces [] = []
  as_pieces (c ∷ cases) =
      record { condition = c.condition; expression = c.expression; definition = bool_val true }
      ∷ as_pieces cases

  -- `Expression(expr)`
  unfoldable pub from_expr : Expr → Expression
  from_expr e = as_pieces (expr2piecewise Z e)

  -- The same of a numeral, or of an application to constants: one case that always applies.
  abbrev pub plain : Expr → Expression
  plain e = record { condition = bool_val true; expression = e; definition = bool_val true } ∷ []

  -- For no cases Z3's `back` is undefined: `nothing`.
  unfoldable pub as_expr : Expr → Expression → Expr
  as_expr nothing e = piecewise2ite Z nothing (expression_cases e)

  unfoldable pub defined : Expr → Expression → Expr
  defined nothing [] = bool_val true
  defined nothing (p ∷ e) = piecewise2ite Z nothing (definition_cases (p ∷ e))

  -- One pair of indices: nothing is pushed if the conditions are not feasible together.
  abbrev pub paired : (Expr → Expr → Expr) → Piece → Piece → Expression
  paired op l r =
      if is_feasible Z (conj l.condition r.condition) []
      then record {
        condition = conj l.condition r.condition;
        expression = op l.expression r.expression;
        definition = conj l.definition r.definition;
      }
        ∷ []
      else []

  abbrev pub paired_all : (Expr → Expr → Expr) → Piece → Expression → Expression
  paired_all op l [] = []
  paired_all op l (r ∷ rs) = paired op l r ++ paired_all op l rs

  -- The loop over `cartesian_product`, in its order.
  unfoldable pub bin_operator : (Expr → Expr → Expr) → Expression → Expression → Expression
  bin_operator op [] rhs = []
  bin_operator op (l ∷ lhs) rhs = paired_all op l rhs ++ bin_operator op lhs rhs

  -- The operator that is handed to `bin_operator`: only the quotient is simplified.
  abbrev pub lambda_of : Operator → Expr → Expr → Expr
  lambda_of quotient l r = Z.simplified (Z.apply quotient l r)
  lambda_of plus l r = Z.apply plus l r
  lambda_of times l r = Z.apply times l r
  lambda_of difference l r = Z.apply difference l r
  lambda_of remainder l r = Z.apply remainder l r
  lambda_of equals l r = Z.apply equals l r
  lambda_of not_equals l r = Z.apply not_equals l r
  lambda_of less l r = Z.apply less l r
  lambda_of less_equal l r = Z.apply less_equal l r
  lambda_of greater l r = Z.apply greater l r
  lambda_of greater_equal l r = Z.apply greater_equal l r
  lambda_of both l r = Z.apply both l r
  lambda_of either l r = Z.apply either l r
  lambda_of exclusive l r = Z.apply exclusive l r

  -- `operator+` and the others
  unfoldable pub operate : Operator → Expression → Expression → Expression
  operate o lhs rhs = bin_operator (lambda_of o) lhs rhs

  -- `operator!`
  unfoldable pub negate : Expression → Expression
  negate [] = []
  negate (p ∷ e) =
      record p {
        expression =
            if Z.is_bool p.expression
            then neg p.expression
            else Z.equal p.expression (Z.int_val (pos 0));
      }
      ∷ negate e

  -- unary `operator-`
  unfoldable pub opposite : Expression → Expression
  opposite [] = []
  opposite (p ∷ e) = record p { expression = Z.minus p.expression } ∷ opposite e

  -- The loop of `push_front`, with `acc_cond`; `simplify` may throw.
  abbrev pub behind : Expr → Expression → Option Expression
  behind acc_cond [] = some []
  behind acc_cond (p ∷ e) = do
    condition ← simplify Z (conj (neg acc_cond) p.condition) []
    rest ← behind (disj acc_cond p.condition) e
    some (record p { condition = condition } ∷ rest)

  unfoldable pub push_front : Expr → Expr → Expression → Expression → Option Expression
  push_front nothing condition expr e = do
    rest ← behind condition e
    some (
        record {
          condition = condition;
          expression = as_expr nothing expr;
          definition = defined nothing expr;
        }
        ∷ rest)

  abbrev pub substituted : List Expr → List Expr → Expression → Expression
  substituted src dst [] = []
  substituted src dst (p ∷ e) =
      record {
        condition = Z.substitute p.condition src dst;
        expression = Z.simplified (Z.substitute p.expression src dst);
        definition = Z.simplified (Z.substitute p.definition src dst);
      }
      ∷ substituted src dst e

  -- The assertion that there are as many sources as destinations is left out.
  unfoldable pub subs : Expr → Expression → List Expr → List Expression → Expression
  subs nothing e src dst = substituted src (map (as_expr nothing) dst) e
