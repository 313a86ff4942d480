-- ===== src/Z3/Terms.antt =====
-- The expressions of the instance Z3/Samples.antt: a term is a function of the interpretation.
use arith_exe.Z3.Arithmetic.{mod_ℤ, div_ℤ}
use arith_exe.Prelude.{
  zero, suc, ℕ, ◌+◌, Bool, true, false, not, ◌&&◌, ◌||◌, List, [], ◌∷◌, if◌then◌else◌, Option, none,
  some,
}
use arith_exe.Prelude.Int.{ℤ, pos, negsuc, ◌+ℤ◌, ◌-ℤ◌, ◌*ℤ◌, ltb_ℤ}
use arith_exe.Z3.{
  CheckResult, Value, boolean, integer, truth, Operator, plus, times, difference, quotient,
  remainder, equals, not_equals, less, less_equal, greater, greater_equal, both, either, exclusive,
  Kind, same_value,
}

abbrev number_of : Value → ℤ
number_of (boolean b) = pos 0
number_of (integer n) = n

-- Z3 lets the quotient by zero be anything; nothing is asked of negative divisors.
abbrev sample_quotient : ℤ → ℤ → ℤ
sample_quotient a (pos zero) = pos 0
sample_quotient a (pos (suc n)) = div_ℤ a (suc n)
sample_quotient a (negsuc n) = pos 0

abbrev sample_remainder : ℤ → ℤ → ℤ
sample_remainder a (pos zero) = pos 0
sample_remainder a (pos (suc n)) = pos (mod_ℤ a (suc n))
sample_remainder a (negsuc n) = pos 0

abbrev same_bool : Bool → Bool → Bool
same_bool true b = b
same_bool false b = not b

-- Exclusive or is that of truth values; bit vectors are left out.
abbrev pub sample_meaning : Operator → Value → Value → Value
sample_meaning plus v w = integer (number_of v +ℤ number_of w)
sample_meaning times v w = integer (number_of v *ℤ number_of w)
sample_meaning difference v w = integer (number_of v -ℤ number_of w)
sample_meaning quotient v w = integer (sample_quotient (number_of v) (number_of w))
sample_meaning remainder v w = integer (sample_remainder (number_of v) (number_of w))
sample_meaning equals v w = boolean (same_value v w)
sample_meaning not_equals v w = boolean (not (same_value v w))
sample_meaning less v w = boolean (ltb_ℤ (number_of v) (number_of w))
sample_meaning less_equal v w = boolean (not (ltb_ℤ (number_of w) (number_of v)))
sample_meaning greater v w = boolean (ltb_ℤ (number_of w) (number_of v))
sample_meaning greater_equal v w = boolean (not (ltb_ℤ (number_of v) (number_of w)))
sample_meaning both v w = boolean (truth v && truth w)
sample_meaning either v w = boolean (truth v || truth w)
sample_meaning exclusive v w = boolean (not (same_bool (truth v) (truth w)))

abbrev pub sample_negative : Value → Value
sample_negative v = integer (pos 0 -ℤ number_of v)

module _ (Model : Type 0) where
  -- A formula is an atom, whose one argument is no truth value; a choice is a
  -- conditional; an opposite and a negation are applications to any term.
  pub data Term : Type 0 where
    formula : (Model → Value) → Term
    leaf : (Model → Value) → Term
    number : ℤ → Term
    choice : Term → Term → Term → Term
    opposite : Term → Term
    negation : Term → Term

  abbrev pub term_value : Model → Term → Value
  term_value m (formula f) = f m
  term_value m (leaf f) = f m
  term_value m (number n) = integer n
  term_value m (choice c a b) = if truth (term_value m c) then term_value m a else term_value m b
  term_value m (opposite t) = sample_negative (term_value m t)
  term_value m (negation t) = boolean (not (truth (term_value m t)))

  abbrev pub term_holds : Model → Term → Bool
  term_holds m t = truth (term_value m t)

  abbrev pub is_formula : Term → Bool
  is_formula (formula f) = true
  is_formula (leaf f) = false
  is_formula (number n) = false
  is_formula (choice c a b) = false
  is_formula (opposite t) = false
  is_formula (negation t) = true

  abbrev pub is_leaf : Term → Bool
  is_leaf (formula f) = false
  is_leaf (leaf f) = true
  is_leaf (number n) = true
  is_leaf (choice c a b) = false
  is_leaf (opposite t) = false
  is_leaf (negation t) = false

  abbrev pub term_kind : Term → Kind
  term_kind (formula f) = Kind.op_ge
  term_kind (leaf f) = Kind.op_uninterpreted
  term_kind (number n) = Kind.op_ge
  term_kind (choice c a b) = Kind.op_ite
  term_kind (opposite t) = Kind.op_other
  term_kind (negation t) = Kind.op_not

  abbrev pub term_args : Term → List Term
  term_args (formula f) = leaf f ∷ []
  term_args (leaf f) = []
  term_args (number n) = []
  term_args (choice c a b) = c ∷ a ∷ b ∷ []
  term_args (opposite t) = t ∷ []
  term_args (negation t) = t ∷ []

  abbrev pub rebuilt : Term → List Term → Term
  rebuilt (formula f) [] = formula f
  rebuilt (formula f) (t ∷ ts) = formula (λ m. term_value m t)
  rebuilt (leaf f) ts = leaf f
  rebuilt (number n) ts = number n
  rebuilt (choice c a b) [] = choice c a b
  rebuilt (choice c a b) (x ∷ []) = choice c a b
  rebuilt (choice c a b) (x ∷ y ∷ []) = choice c a b
  rebuilt (choice c a b) (x ∷ y ∷ z ∷ ts) = choice x y z
  rebuilt (opposite t) [] = opposite t
  rebuilt (opposite t) (x ∷ ts) = opposite x
  rebuilt (negation t) [] = negation t
  rebuilt (negation t) (x ∷ ts) = negation x

  abbrev pub term_numeral : Term → Option ℤ
  term_numeral (formula f) = none
  term_numeral (leaf f) = none
  term_numeral (number n) = some n
  term_numeral (choice c a b) = none
  term_numeral (opposite t) = none
  term_numeral (negation t) = none

  abbrev pub term_size : Term → ℕ
  term_size (formula f) = 2
  term_size (leaf f) = 1
  term_size (number n) = 1
  term_size (choice c a b) = suc (term_size c + (term_size a + term_size b))
  term_size (opposite t) = suc (term_size t)
  term_size (negation t) = suc (term_size t)

  abbrev pub all_terms : Model → List Term → Bool
  all_terms m [] = true
  all_terms m (t ∷ ts) = term_holds m t && all_terms m ts

  abbrev pub any_term : Model → List Term → Bool
  any_term m [] = false
  any_term m (t ∷ ts) = term_holds m t || any_term m ts

  abbrev pub fits : List Model → List Term → Bool
  fits [] ts = false
  fits (m ∷ ms) ts = all_terms m ts || fits ms ts

  abbrev pub fitting : Model → List Model → List Term → Model
  fitting default [] ts = default
  fitting default (m ∷ ms) ts = if all_terms m ts then m else fitting default ms ts

  abbrev pub answer : Bool → Bool → CheckResult
  answer found complete =
      if found then CheckResult.sat else if complete then CheckResult.unsat else CheckResult.unknown
