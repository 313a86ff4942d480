-- ===== src/Z3/Variable.antt =====
-- The instance with one variable: an interpretation is its value, and 0 and 1 are tried.
use arith_exe.Prelude.{◌≡◌, refl, ap, false, List, [], ◌∷◌, map, length, arith}
use arith_exe.Prelude.Int.{pos}
use arith_exe.Z3.{Value, integer, Z3, Z3Laws}
use arith_exe.Z3.Arithmetic.{Z3Arithmetic}
use arith_exe.Z3.Samples.{
  Term, formula, leaf, number, choice, opposite, negation, term_value, samples, samples_laws,
  samples_arithmetic,
}

-- The variable is the one numeral that the interpretation chooses: it is kept as a leaf.
abbrev pub x : Term Value
x = leaf (λ m. m)

abbrev IsVariable : Term Value → Type 0
IsVariable (formula f) = ⊥
IsVariable (leaf f) = (m : Value) → f m ≡ m
IsVariable (number n) = ⊥
IsVariable (choice c a b) = ⊥
IsVariable (opposite t) = ⊥
IsVariable (negation t) = ⊥

abbrev AreVariable : List (Term Value) → Type 0
AreVariable [] = Unit {0}
AreVariable (t ∷ []) = IsVariable t
AreVariable (t ∷ u ∷ ts) = ⊥

abbrev assigned : Value → List (Term Value) → List Value → Value
assigned m [] vs = m
assigned m (t ∷ ts) [] = m
assigned m (t ∷ ts) (v ∷ vs) = v

abbrev tried : List Value
tried = integer (pos 0) ∷ integer (pos 1) ∷ []

abbrev pub one_variable : Z3
one_variable = samples Value (integer (pos 0)) tried false false AreVariable assigned

assigned_lem :
    (m : Value) (src : List (Term Value)) (vs : List Value)
    → AreVariable src
    → length src ≡ length vs
    → map (term_value Value (assigned m src vs)) src ≡ vs
assigned_lem m [] [] h k = refl
assigned_lem m [] (v ∷ vs) h k = absurd (omega (arith, k))
assigned_lem m (formula f ∷ []) vs h k = absurd h
assigned_lem m (number n ∷ []) vs h k = absurd h
assigned_lem m (choice c a b ∷ []) vs h k = absurd h
assigned_lem m (opposite t ∷ []) vs h k = absurd h
assigned_lem m (negation t ∷ []) vs h k = absurd h
assigned_lem m (leaf f ∷ []) [] h k = absurd (omega (arith, k))
assigned_lem m (leaf f ∷ []) (v ∷ []) h k = ap (λ w. w ∷ []) (h v)
assigned_lem m (leaf f ∷ []) (v ∷ w ∷ vs) h k = absurd (omega (arith, k))
assigned_lem m (t ∷ u ∷ ts) vs h k = absurd h

pub one_variable_laws : Z3Laws one_variable
one_variable_laws =
    samples_laws Value (integer (pos 0)) tried false false AreVariable assigned (λ e m. cc)
      assigned_lem

pub one_variable_arithmetic : Z3Arithmetic one_variable
one_variable_arithmetic =
    samples_arithmetic Value (integer (pos 0)) tried false false AreVariable assigned
