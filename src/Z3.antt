-- ===== src/Z3.antt =====
-- What lib/ takes from Z3: expressions, their values under an interpretation of all symbols, and the
-- solver. The laws are Z3's documented behaviour. Sorts are not tracked: an expression whose value is no
-- truth value holds under no interpretation. Values of sorts other than Bool and Int are left out.
pub mod Terms
pub mod Samples
pub mod Variable
pub mod Arithmetic
use arith_exe.Prelude.{
  ℕ, ◌+◌, ◌<◌, ◌≡◌, Bool, true, false, not, ◌&&◌, ◌||◌, List, [], ◌∷◌, ◌++◌, map, if◌then◌else◌,
  Option, some, ◌↔◌, ◌⊎◌, All, length, ◌==◌, refl, ap, arith,
}
use arith_exe.Prelude.Int.{ℤ, pos, negsuc}

-- `z3::check_result`
pub data CheckResult : Type 0 where
  unsat sat unknown : CheckResult

pub data Value : Type 0 where
  boolean : Bool → Value
  integer : ℤ → Value

-- the operators that z3++ overloads and lib/Expr.cpp uses
pub data Operator : Type 0 where
  plus times difference quotient remainder equals not_equals less less_equal greater greater_equal
        both either exclusive :
      Operator

-- `Z3_decl_kind`, as far as lib/ asks for it
pub data Kind : Type 0 where
  op_true op_false op_and op_or op_implies op_xor op_not op_ite op_eq op_ge op_le op_lt op_gt
        op_uninterpreted op_other :
      Kind

abbrev pub truth : Value → Bool
truth (boolean b) = b
truth (integer n) = false

abbrev pub total : {A : Type 0} → (A → ℕ) → List A → ℕ
total f [] = 0
total f (x ∷ xs) = f x + total f xs

abbrev pub is_or : Kind → Bool
is_or op_or = true
is_or op_true = false
is_or op_false = false
is_or op_and = false
is_or op_implies = false
is_or op_xor = false
is_or op_not = false
is_or op_ite = false
is_or op_eq = false
is_or op_ge = false
is_or op_le = false
is_or op_lt = false
is_or op_gt = false
is_or op_uninterpreted = false
is_or op_other = false

-- the connectives of propositional logic
abbrev pub is_connective : Kind → Bool
is_connective op_or = true
is_connective op_true = true
is_connective op_false = true
is_connective op_and = true
is_connective op_implies = true
is_connective op_xor = true
is_connective op_not = true
is_connective op_ite = false
is_connective op_eq = false
is_connective op_ge = false
is_connective op_le = false
is_connective op_lt = false
is_connective op_gt = false
is_connective op_uninterpreted = false
is_connective op_other = false

abbrev pub is_ite : Kind → Bool
is_ite op_or = false
is_ite op_true = false
is_ite op_false = false
is_ite op_and = false
is_ite op_implies = false
is_ite op_xor = false
is_ite op_not = false
is_ite op_ite = true
is_ite op_eq = false
is_ite op_ge = false
is_ite op_le = false
is_ite op_lt = false
is_ite op_gt = false
is_ite op_uninterpreted = false
is_ite op_other = false

abbrev pub is_uninterpreted : Kind → Bool
is_uninterpreted op_or = false
is_uninterpreted op_true = false
is_uninterpreted op_false = false
is_uninterpreted op_and = false
is_uninterpreted op_implies = false
is_uninterpreted op_xor = false
is_uninterpreted op_not = false
is_uninterpreted op_ite = false
is_uninterpreted op_eq = false
is_uninterpreted op_ge = false
is_uninterpreted op_le = false
is_uninterpreted op_lt = false
is_uninterpreted op_gt = false
is_uninterpreted op_uninterpreted = true
is_uninterpreted op_other = false

abbrev pub is_nil {ℓ} : {A : Type ℓ} → List A → Bool
is_nil [] = true
is_nil (x ∷ xs) = false

abbrev pub In : {A : Type 0} → A → List A → Type 0
In a [] = ⊥
In a (x ∷ xs) = (a ≡ x) ⊎ In a xs

abbrev pub same_value : Value → Value → Bool
same_value (boolean true) (boolean true) = true
same_value (boolean false) (boolean false) = true
same_value (boolean true) (boolean false) = false
same_value (boolean false) (boolean true) = false
same_value (boolean a) (integer n) = false
same_value (integer n) (boolean a) = false
same_value (integer (pos a)) (integer (pos b)) = a == b
same_value (integer (negsuc a)) (integer (negsuc b)) = a == b
same_value (integer (pos a)) (integer (negsuc b)) = false
same_value (integer (negsuc a)) (integer (pos b)) = false

pub same_value_sound : (v w : Value) → same_value v w ≡ true → v ≡ w
same_value_sound (boolean true) (boolean true) h = refl
same_value_sound (boolean false) (boolean false) h = refl
same_value_sound (boolean true) (boolean false) h = cc
same_value_sound (boolean false) (boolean true) h = cc
same_value_sound (boolean a) (integer n) h = cc
same_value_sound (integer n) (boolean a) h = cc
same_value_sound (integer (pos a)) (integer (pos b)) h =
    ap (λ n. integer (pos n)) (ground (arith, h))
same_value_sound (integer (negsuc a)) (integer (negsuc b)) h =
    ap (λ n. integer (negsuc n)) (ground (arith, h))
same_value_sound (integer (pos a)) (integer (negsuc b)) h = cc
same_value_sound (integer (negsuc a)) (integer (pos b)) h = cc

pub same_value_refl : (v : Value) → same_value v v ≡ true
same_value_refl (boolean true) = refl
same_value_refl (boolean false) = refl
same_value_refl (integer (pos a)) = ground arith
same_value_refl (integer (negsuc a)) = ground arith

pub record Z3 : Type 1 where
  pub Expr : Type 0
  pub Model : Type 0
  pub value : Model → Expr → Value
  pub bool_val : Bool → Expr
  pub conj : Expr → Expr → Expr
  pub disj : Expr → Expr → Expr
  pub neg : Expr → Expr
  pub ite : Expr → Expr → Expr → Expr
  pub equal : Expr → Expr → Expr
  pub int_val : ℤ → Expr
  pub minus : Expr → Expr
  pub apply : Operator → Expr → Expr → Expr
  pub is_bool : Expr → Bool
  -- how an expression is built
  pub is_app : Expr → Bool
  pub kind : Expr → Kind
  pub args : Expr → List Expr
  -- `is_numeral` and `get_numeral_int`
  pub numeral : Expr → Option ℤ
  pub same_text : Expr → Expr → Bool
  -- `z3::eq`: one expression
  pub same : Expr → Expr → Bool
  -- `is_const`, `is_var`, `is_quantifier`, and the declaration applied to other arguments
  pub is_const : Expr → Bool
  pub is_var : Expr → Bool
  pub is_quantifier : Expr → Bool
  pub rebuild : Expr → List Expr → Expr
  -- the goals of the tactics "elim-term-ite" and "qe", the quantifier, and whether the text has a "!"
  pub elim_term_ite : Expr → List Expr
  pub qe : Expr → List Expr
  pub exists : List Expr → Expr → Expr
  pub has_mark : Expr → Bool
  pub size : Expr → ℕ
  pub mk_and : List Expr → Expr
  pub mk_or : List Expr → Expr
  pub simplified : Expr → Expr
  pub substitute : Expr → List Expr → List Expr → Expr
  -- distinct uninterpreted constants
  pub AreVariables : List Expr → Type 0
  -- what the operators mean
  pub meaning : Operator → Value → Value → Value
  pub negative : Value → Value
  -- an interpretation, changed at some variables
  pub assign : Model → List Expr → List Value → Model
  -- the solver, on all that was added to it
  pub check : List Expr → CheckResult
  pub get_model : List Expr → Model
  -- whether the solver's model evaluates the expression to true. It need not give a value to every symbol:
  -- the model above is a completion of it.
  pub eval_true : List Expr → Expr → Bool
  -- what was added, and the assumptions of the check
  pub unsat_core : List Expr → List Expr → List Expr

module _ (Z : Z3) where
  open Z use {Expr, Model, value}

  abbrev pub holds : Model → Expr → Bool
  holds m e = truth (value m e)

  abbrev pub all_hold : Model → List Expr → Bool
  all_hold m [] = true
  all_hold m (e ∷ es) = holds m e && all_hold m es

  abbrev pub any_holds : Model → List Expr → Bool
  any_holds m [] = false
  any_holds m (e ∷ es) = holds m e || any_holds m es

  -- `a != b`
  abbrev pub differ : Expr → Expr → Expr
  differ a b = Z.neg (Z.equal a b)

  -- `is_const() && num_args() == 0`, and no numeral, truth value or constant of a theory
  abbrev pub is_constant : Expr → Bool
  is_constant e = Z.is_const e && is_nil (Z.args e) && is_uninterpreted (Z.kind e)

  -- The first expression stands in the second.
  pub data Occurs : Expr → Expr → Type 0 where
    itself : (e : Expr) → Occurs e e
    inside : (x a e : Expr) → In a (Z.args e) → Occurs x a → Occurs x e

  abbrev pub IsUnmarked : Expr → Type 0
  IsUnmarked e = (x : Expr) → Occurs x e → is_constant x ≡ true → Z.has_mark x ≡ false

  pub record Z3Laws : Type 0 where
    pub bool_val_law : (m : Model) (b : Bool) → value m (Z.bool_val b) ≡ boolean b
    pub conj_law :
        (m : Model) (a b : Expr) → value m (Z.conj a b) ≡ boolean (holds m a && holds m b)
    pub disj_law :
        (m : Model) (a b : Expr) → value m (Z.disj a b) ≡ boolean (holds m a || holds m b)
    pub neg_law : (m : Model) (a : Expr) → value m (Z.neg a) ≡ boolean (not (holds m a))
    pub int_val_law : (m : Model) (n : ℤ) → value m (Z.int_val n) ≡ integer n
    pub numeral_law : (n : ℤ) → Z.numeral (Z.int_val n) ≡ some n
    pub numeral_value_law :
        (m : Model) (e : Expr) (n : ℤ) → Z.numeral e ≡ some n → value m e ≡ integer n
    pub minus_law : (m : Model) (a : Expr) → value m (Z.minus a) ≡ Z.negative (value m a)
    pub apply_law :
        (m : Model) (o : Operator) (a b : Expr)
        → value m (Z.apply o a b) ≡ Z.meaning o (value m a) (value m b)
    pub ite_law :
        (m : Model) (c a b : Expr)
        → value m (Z.ite c a b) ≡ (if holds m c then value m a else value m b)
    pub equal_law :
        (m : Model) (a b : Expr) → (holds m (Z.equal a b) ≡ true) ↔ (value m a ≡ value m b)
    pub mk_and_law : (m : Model) (es : List Expr) → value m (Z.mk_and es) ≡ boolean (all_hold m es)
    pub mk_or_law : (m : Model) (es : List Expr) → value m (Z.mk_or es) ≡ boolean (any_holds m es)
    pub substitute_law :
        (m : Model) (e : Expr) (src dst : List Expr)
        → Z.AreVariables src
        → length src ≡ length dst
        → value m (Z.substitute e src dst) ≡ value (Z.assign m src (map (value m) dst)) e
    pub assign_law :
        (m : Model) (src : List Expr) (vs : List Value)
        → Z.AreVariables src
        → length src ≡ length vs
        → map (value (Z.assign m src vs)) src ≡ vs
    pub same_law : (a b : Expr) → Z.same a b ≡ true → a ≡ b
    pub or_law :
        (m : Model) (e : Expr) → is_or (Z.kind e) ≡ true → holds m e ≡ any_holds m (Z.args e)
    pub connective_law :
        (m n : Model) (e : Expr)
        → is_connective (Z.kind e) ≡ true
        → map (holds m) (Z.args e) ≡ map (holds n) (Z.args e)
        → holds m e ≡ holds n e
    pub size_law : (e : Expr) → total Z.size (Z.args e) < Z.size e
    pub app_law :
        (e : Expr) → (Z.is_const e || Z.is_var e || Z.is_quantifier e) ≡ false → Z.is_app e ≡ true
    pub rebuild_law :
        (m : Model) (e : Expr) (es : List Expr)
        → map (value m) es ≡ map (value m) (Z.args e)
        → value m (Z.rebuild e es) ≡ value m e
    pub ite_args_law :
        (m : Model) (e : Expr)
        → is_ite (Z.kind e) ≡ true
        → (c a b : Expr) × (Z.args e ≡ c ∷ a ∷ b ∷ [])
          × (value m e ≡ (if holds m c then value m a else value m b))
    pub same_text_law : (a b : Expr) → Z.same_text a b ≡ true → Z.has_mark a ≡ Z.has_mark b
    -- "elim-term-ite" replaces conditionals by fresh constants, whose names have a "!". Where the goals
    -- have none, one of them holds exactly where the expression does.
    pub elim_term_ite_law :
        (m : Model) (e : Expr)
        → IsUnmarked (Z.mk_or (Z.elim_term_ite e))
        → holds m (Z.mk_or (Z.elim_term_ite e)) ≡ holds m e
    pub simplified_law : (m : Model) (e : Expr) → value m (Z.simplified e) ≡ value m e
    pub unsat_law :
        (es : List Expr) (m : Model) → Z.check es ≡ CheckResult.unsat → all_hold m es ≡ false
    pub sat_law :
        (es : List Expr) → Z.check es ≡ CheckResult.sat → all_hold (Z.get_model es) es ≡ true
    pub core_law :
        (es lits : List Expr) (m : Model)
        → Z.check (lits ++ es) ≡ CheckResult.unsat
        → all_hold m (Z.unsat_core es lits ++ es) ≡ false
    pub core_subset : (es lits : List Expr) → All (λ l. In l lits) (Z.unsat_core es lits)
