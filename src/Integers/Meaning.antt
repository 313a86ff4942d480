-- ===== src/Integers/Meaning.antt =====
-- lib/IntegerSemantics.h: what the integers' operations mean.
use arith_exe.Prelude.{
  ℕ, zero, suc, ◌+◌, ◌*◌, ◌%◌, ◌/◌, ◌<◌, ◌≡◌, refl, ap, ap₂, ◌∙◌, ◌≢◌, ◌⊎◌, inl, inr, Bool, true,
  false, not, if◌then◌else◌, arith, Bool-cases,
}
use arith_exe.Prelude.Int.{ℤ, pos, negsuc, ◌+ℤ◌, ◌-ℤ◌, ◌*ℤ◌, ltb_ℤ}
use arith_exe.Z3.{Z3, Z3Laws, Value, boolean, integer, truth, same_value, holds}
use arith_exe.Z3.Arithmetic.{Z3Arithmetic}
use arith_exe.Z3.{less, quotient, remainder, not_equals}
use arith_exe.Integers.{constant, as_int, is_negative, absolute, signed_div, signed_rem}
use native.Mathlib.Nat.{mod-add-div', mod-lt}

abbrev pub is_neg : ℤ → Bool
is_neg (pos n) = false
is_neg (negsuc n) = true

abbrev pub magnitude : ℤ → ℕ
magnitude (pos n) = n
magnitude (negsuc n) = suc n

-- Division as in C: the quotient is rounded towards zero, and the remainder has the sign of the dividend.
abbrev pub IsTruncated : ℤ → ℤ → ℤ → ℤ → Type 0
IsTruncated a b q r =
    (q *ℤ b +ℤ r ≡ a) × (magnitude r < magnitude b) × ((r ≡ pos 0) ⊎ (is_neg r ≡ is_neg a))

abbrev pub with_sign : Bool → ℕ → ℤ
with_sign true n = pos 0 -ℤ pos n
with_sign false n = pos n

truncated :
    (a b : ℤ)
    → (n k r : ℕ) → magnitude b ≡ suc n
    → r + k * suc n ≡ magnitude a
    → r < suc n
    → IsTruncated a b
        (with_sign (not (same_value (boolean (is_neg a)) (boolean (is_neg b)))) k)
        (with_sign (is_neg a) r)
unfolding ◌-ℤ◌ ◌*ℤ◌ ◌+ℤ◌
truncated (pos x) (pos y) n k r e h l = (ground arith, ground arith, inr refl)
truncated (pos x) (negsuc y) n k r e h l = (ground arith, ground arith, ground arith)
truncated (negsuc x) (pos y) n k r e h l = (ground arith, ground arith, ground arith)
truncated (negsuc x) (negsuc y) n k r e h l = (ground arith, ground arith, ground arith)

module _ (Z : Z3) (laws : Z3Laws Z) (arithmetic : Z3Arithmetic Z) (m : Z.Model) where
  open Z use {Expr, Model, value}

  -- The expression is the integer, or a truth value that is read as 1 or 0.
  abbrev pub Reads : Expr → ℤ → Type 0
  Reads e a =
      ((Z.is_bool e ≡ false) × (value m e ≡ integer a))
      ⊎ ((Z.is_bool e ≡ true) × (a ≡ (if holds Z m e then pos 1 else pos 0)))

  pub value-constant : (n : ℕ) → value m (constant Z n) ≡ integer (pos n)
  value-constant n = laws.int_val_law m (pos n)

  pub value-as_int : (e : Expr) (a : ℤ) → Reads e a → value m (as_int Z e) ≡ integer a
  unfolding as_int
  value-as_int e a (inl (sort, is)) = rw sort is
  value-as_int e a (inr (sort, is)) =
      rw sort (laws.ite_law m e (constant Z 1) (constant Z 0) ∙ chosen (Bool-cases (holds Z m e)))
    where
      chosen :
          ((holds Z m e ≡ true) ⊎ (holds Z m e ≡ false))
          → (if holds Z m e then value m (constant Z 1) else value m (constant Z 0)) ≡ integer a
      chosen (inl h) = rw (h, is, h) (value-constant 1)
      chosen (inr h) = rw (h, is, h) (value-constant 0)

  pub value-is_negative :
      (e : Expr) (a : ℤ) → value m e ≡ integer a → value m (is_negative Z e) ≡ boolean (is_neg a)
  value-is_negative e a is =
      laws.apply_law m less e (constant Z 0)
      ∙ ap₂ (Z.meaning less) is (value-constant 0)
      ∙ arithmetic.less_law a (pos 0)
      ∙ ap boolean (by_sign a)
    where
      by_sign : (a : ℤ) → ltb_ℤ a (pos 0) ≡ is_neg a
      by_sign (pos n) = ground arith
      by_sign (negsuc n) = ground arith

  pub value-minus :
      (e : Expr) (a : ℤ) → value m e ≡ integer a → value m (Z.minus e) ≡ integer (pos 0 -ℤ a)
  value-minus e a is = laws.minus_law m e ∙ ap Z.negative is ∙ arithmetic.negative_law a

  pub value-ite :
      (c x y : Expr) (b : Bool) (v w : Value)
      → value m c ≡ boolean b
      → value m x ≡ v
      → value m y ≡ w
      → value m (Z.ite c x y) ≡ (if b then v else w)
  value-ite c x y b v w hc hx hy =
      laws.ite_law m c x y
      ∙ ap (λ t. if t then value m x else value m y) (ap truth hc)
      ∙ ap₂ (λ s t. if b then s else t) hx hy

  pub value-absolute :
      (e : Expr) (a : ℤ)
      → value m e ≡ integer a
      → value m (absolute Z e) ≡ integer (pos (magnitude a))
  unfolding ◌-ℤ◌
  value-absolute e a is =
      value-ite (is_negative Z e) (Z.minus e) e (is_neg a) (integer (pos 0 -ℤ a)) (integer a)
        (value-is_negative e a is) (value-minus e a is) is
      ∙ by_sign a
    where
      by_sign :
          (a : ℤ)
          → (if is_neg a then integer (pos 0 -ℤ a) else integer a) ≡ integer (pos (magnitude a))
      by_sign (pos n) = refl
      by_sign (negsuc n) = ground arith

  module _ (lhs rhs : Expr) (a b : ℤ) (left : Reads lhs a) (right : Reads rhs b) where
    -- The quotient and the remainder of the magnitudes, for a divisor that is not zero.
    magnitudes :
        (n : ℕ)
        → magnitude b ≡ suc n
        → (value m (Z.apply quotient (absolute Z (as_int Z lhs)) (absolute Z (as_int Z rhs)))
            ≡ integer (pos (magnitude a / suc n)))
          × (value m (Z.apply remainder (absolute Z (as_int Z lhs)) (absolute Z (as_int Z rhs)))
              ≡ integer (pos (magnitude a % suc n)))
    magnitudes n h =
        let x = value-absolute (as_int Z lhs) a (value-as_int lhs a left) in
        let y =
          value-absolute (as_int Z rhs) b (value-as_int rhs b right)
          ∙ ap (λ k. integer (pos k)) h in
        (
          laws.apply_law m quotient (absolute Z (as_int Z lhs)) (absolute Z (as_int Z rhs))
              ∙ ap₂ (Z.meaning quotient) x y
              ∙ arithmetic.quotient_law (pos (magnitude a)) n,
          laws.apply_law m remainder (absolute Z (as_int Z lhs)) (absolute Z (as_int Z rhs))
              ∙ ap₂ (Z.meaning remainder) x y
              ∙ arithmetic.remainder_law (pos (magnitude a)) n,
        )

    -- A negation under a condition.
    value-signed :
        (c e : Expr) (sign : Bool) (k : ℕ)
        → value m c ≡ boolean sign
        → value m e ≡ integer (pos k)
        → value m (Z.simplified (Z.ite c (Z.minus e) e)) ≡ integer (with_sign sign k)
    value-signed c e sign k hc he =
        laws.simplified_law m (Z.ite c (Z.minus e) e)
        ∙ value-ite c (Z.minus e) e sign (integer (pos 0 -ℤ pos k)) (integer (pos k)) hc
            (value-minus e (pos k) he) he
        ∙ by_sign sign
      where
        by_sign :
            (sign : Bool)
            → (if sign then integer (pos 0 -ℤ pos k) else integer (pos k))
              ≡ integer (with_sign sign k)
        by_sign true = refl
        by_sign false = refl

    -- `signed_div` and `signed_rem` are the quotient and the remainder of C's division, which rounds
    -- towards zero, if the divisor is not zero.
    pub signed_div-signed_rem :
        b ≢ pos 0
        → (q r : ℤ) × (value m (signed_div Z lhs rhs) ≡ integer q)
          × (value m (signed_rem Z lhs rhs) ≡ integer r)
          × IsTruncated a b q r
    unfolding signed_div signed_rem
    signed_div-signed_rem nonzero =
        let (n, h) = positive b nonzero in
        let (div_is, rem_is) = magnitudes n h in
        let left_sign = value-is_negative (as_int Z lhs) a (value-as_int lhs a left) in
        let right_sign = value-is_negative (as_int Z rhs) b (value-as_int rhs b right) in
        let opposite =
          laws.apply_law m not_equals (is_negative Z (as_int Z lhs)) (is_negative Z (as_int Z rhs))
          ∙ ap₂ (Z.meaning not_equals) left_sign right_sign
          ∙ arithmetic.not_equals_law (is_neg a) (is_neg b) in
        (
          with_sign (not (same_value (boolean (is_neg a)) (boolean (is_neg b))))
              (magnitude a / suc n),
          with_sign (is_neg a) (magnitude a % suc n),
          value-signed _ _ _ (magnitude a / suc n) opposite div_is,
          value-signed _ _ _ (magnitude a % suc n) left_sign rem_is,
          truncated a b n (magnitude a / suc n) (magnitude a % suc n) h
              (mod-add-div' (magnitude a) (suc n)) (mod-lt (magnitude a) (omega arith)),
        )
      where
        positive : (b : ℤ) → b ≢ pos 0 → (n : ℕ) × (magnitude b ≡ suc n)
        positive (pos zero) h = absurd (h refl)
        positive (pos (suc n)) h = (n, refl)
        positive (negsuc n) h = (n, refl)
