-- ===== src/Integers/Masks.antt =====
-- lib/RelaxedIntegerSemantics.h: what `integer_bitwise` gives for a constant mask.
use arith_exe.Prelude.{
  ℕ, zero, suc, ◌+◌, ◌*◌, ◌/◌, ◌%◌, ◌^◌, ◌<◌, ◌≡◌, refl, sym, subst, ap, ap₂, ◌∙◌, inl, inr, ◌==◌,
  ==_iff, Bool, true, false, Option, some, if◌then◌else◌, arith, Bool-cases,
}
use arith_exe.Prelude.Int.{ℤ, pos, negsuc, ◌+ℤ◌, ◌-ℤ◌, ◌*ℤ◌}
use arith_exe.Z3.{Z3, Z3Laws, Value, integer, plus, times, difference, quotient, remainder}
use arith_exe.Z3.Arithmetic.{mod_ℤ, div_ℤ, Z3Arithmetic}
use arith_exe.Integers.{constant, as_int}
use arith_exe.Integers.Meaning.{Reads, value-as_int, value-constant}
use arith_exe.Integers.Widths.{power_positive}
use arith_exe.Integers.Bitwise.{
  IntegerBitwiseOperation, with_place, intersect, combined, masked_within, masked, by_mask,
  integer_bitwise,
}
use arith_exe.Integers.Bits.{digit, meet, result, on_digits, Below, digit-result}
use native.Mathlib.Nat.{pow-suc, div-div-eq-div-mul}

meet-zero : (f : ℕ) (a : ℤ) → meet f a 0 ≡ 0
meet-zero zero a = refl
meet-zero (suc f) a = omega (arith, meet-zero f (div_ℤ a 2))

div_ℤ-div_ℤ : (a : ℤ) (n : ℕ) → div_ℤ (div_ℤ a n) 2 ≡ div_ℤ a (n * 2)
div_ℤ-div_ℤ (pos x) n = ap pos (div-div-eq-div-mul x n 2)
div_ℤ-div_ℤ (negsuc x) n = ap negsuc (div-div-eq-div-mul x n 2)

-- One round of the sum: the digit at the weight, and twice the weight for the rest.
round_lem : (v w d r : ℕ) → v + d * w + w * 2 * r ≡ v + w * (d + 2 * r)
round_lem v w d r = grind arith

module _ (Z : Z3) (laws : Z3Laws Z) (arithmetic : Z3Arithmetic Z) (m : Z.Model) where
  open Z use {Expr, value, apply}

  -- The value of an operation, from the law of its meaning.
  value-apply :
      (o : arith_exe.Z3.Operator) (x y : Expr) (v w r : Value)
      → value m x ≡ v
      → value m y ≡ w
      → Z.meaning o v w ≡ r
      → value m (apply o x y) ≡ r
  value-apply o x y v w r hx hy h = laws.apply_law m o x y ∙ ap₂ (Z.meaning o) hx hy ∙ h

  -- There is an expression, with the digits that the operation makes of those of `a` and `b`.
  abbrev pub Operates : IntegerBitwiseOperation → ℤ → ℤ → Option Expr → Type 0
  Operates op a b found =
      (e : Expr) × (c : ℤ) × (found ≡ some e)
      × (value m e ≡ integer c)
      × ((i : ℕ) → digit c i ≡ on_digits op (digit a i) (digit b i))

  module _ (lhs : Expr) (a : ℤ) (is : value m lhs ≡ integer a) where
    value-with_place :
        (k v : ℕ) (inter : Expr)
        → value m inter ≡ integer (pos v)
        → value m (with_place Z lhs (2 ^ k) inter)
          ≡ integer (pos (v + mod_ℤ (div_ℤ a (2 ^ k)) 2 * 2 ^ k))
    unfolding ◌+ℤ◌ ◌*ℤ◌
    value-with_place k v inter h =
        let (p, e) = power_positive k in
        let place = value-constant Z laws arithmetic m (2 ^ k) in
        let divided =
          value-apply quotient lhs (constant Z (2 ^ k)) _ _ (integer (div_ℤ a (2 ^ k))) is place (
            ap (λ n. Z.meaning quotient (integer a) (integer (pos n))) e
            ∙ arithmetic.quotient_law a p
            ∙ ap (λ n. integer (div_ℤ a n)) (sym e)) in
        let digit_is =
          value-apply remainder (apply quotient lhs (constant Z (2 ^ k))) (constant Z 2) _ _ _
            divided (value-constant Z laws arithmetic m 2)
            (arithmetic.remainder_law (div_ℤ a (2 ^ k)) 1) in
        let product =
          value-apply times _ (constant Z (2 ^ k)) _ _ _ digit_is place
            (arithmetic.times_law (pos (mod_ℤ (div_ℤ a (2 ^ k)) 2)) (pos (2 ^ k))) in
        value-apply plus inter _ _ _ _ h product (arithmetic.plus_law (pos v) _)
        ∙ ap integer (ground arith)

    intersect_lem :
        (f k n v : ℕ) (inter : Expr)
        → n < 2 ^ f
        → value m inter ≡ integer (pos v)
        → (e : Expr) × (intersect Z f lhs n (2 ^ k) inter ≡ some e)
          × (value m e ≡ integer (pos (v + 2 ^ k * meet f (div_ℤ a (2 ^ k)) n)))
    unfolding intersect
    intersect_lem zero k zero v inter l h =
        (inter, refl, h ∙ ap (λ x. integer (pos x)) (omega arith))
    intersect_lem zero k (suc n) v inter l h = absurd (omega (arith, l))
    intersect_lem (suc f) k n v inter l h = elim (Bool-cases (n == 0)) [
      | inl e ↦
          let none_left : n ≡ 0 = (==_iff n 0).0 e in
          (
            inter,
            rw e refl,
            h
                ∙ ap (λ x. integer (pos x))
                    (sum_zero (2 ^ k) (meet (suc f) (div_ℤ a (2 ^ k)) n) (
                      ap (meet (suc f) (div_ℤ a (2 ^ k))) none_left
                      ∙ meet-zero (suc f) (div_ℤ a (2 ^ k)))),
          )
      | inr e ↦
          let doubled = pow-suc 2 k in
          let (x, found, is_x) =
            intersect_lem f (suc k) (n / 2)
              (v + (if n % 2 == 1 then mod_ℤ (div_ℤ a (2 ^ k)) 2 else 0) * 2 ^ k)
              (if n % 2 == 1 then with_place Z lhs (2 ^ k) inter else inter)
              (ground (arith, l, pow-suc 2 f)) (next (n % 2 == 1)) in
          (
            x,
            rw e (
                ap
                  (λ w.
                    intersect Z f lhs (n / 2) w
                      (if n % 2 == 1 then with_place Z lhs (2 ^ k) inter else inter))
                  (sym doubled)
                ∙ found),
            is_x
                ∙ ap
                    (λ w. integer (
                      pos (
                        v
                        + (if n % 2 == 1 then mod_ℤ (div_ℤ a (2 ^ k)) 2 else 0) * 2 ^ k
                        + w * meet f (div_ℤ a w) (n / 2))))
                    doubled
                ∙ ap
                    (λ y. integer (
                      pos (
                        v
                        + (if n % 2 == 1 then mod_ℤ (div_ℤ a (2 ^ k)) 2 else 0) * 2 ^ k
                        + 2 ^ k * 2 * meet f y (n / 2))))
                    (sym (div_ℤ-div_ℤ a (2 ^ k)))
                ∙ ap (λ y. integer (pos y))
                    (round_lem v (2 ^ k) (if n % 2 == 1 then mod_ℤ (div_ℤ a (2 ^ k)) 2 else 0)
                      (meet f (div_ℤ (div_ℤ a (2 ^ k)) 2) (n / 2))),
          )
    ]
      where
        sum_zero : (w r : ℕ) → r ≡ 0 → v ≡ v + w * r
        sum_zero w r z = rw z (omega arith)

        next :
            (odd : Bool)
            → value m (if odd then with_place Z lhs (2 ^ k) inter else inter)
              ≡ integer (pos (v + (if odd then mod_ℤ (div_ℤ a (2 ^ k)) 2 else 0) * 2 ^ k))
        next true = value-with_place k v inter h
        next false = h ∙ ap (λ x. integer (pos x)) (omega arith)

    value-combined :
        (op : IntegerBitwiseOperation) (rhs i : Expr) (b c : ℤ)
        → value m rhs ≡ integer b
        → value m i ≡ integer c
        → value m (combined Z op lhs rhs i) ≡ integer (result op a b c)
    unfolding ◌+ℤ◌ ◌*ℤ◌
    value-combined IntegerBitwiseOperation.bitwise_and rhs i b c hb hi =
        laws.simplified_law m i ∙ hi
    value-combined IntegerBitwiseOperation.bitwise_or rhs i b c hb hi =
        laws.simplified_law m _
        ∙ value-apply difference _ _ _ _ _
            (value-apply plus lhs rhs _ _ _ is hb (arithmetic.plus_law a b))
            (value-apply times i (constant Z 1) _ _ _ hi (value-constant Z laws arithmetic m 1)
              (arithmetic.times_law c (pos 1)))
            (arithmetic.difference_law (a +ℤ b) (c *ℤ pos 1))
        ∙ ap (λ x. integer (a +ℤ b -ℤ x)) (once c)
      where
        once : (c : ℤ) → c *ℤ pos 1 ≡ c
        once (pos n) = ground arith
        once (negsuc n) = ground arith
    value-combined IntegerBitwiseOperation.bitwise_xor rhs i b c hb hi =
        laws.simplified_law m _
        ∙ value-apply difference _ _ _ _ _
            (value-apply plus lhs rhs _ _ _ is hb (arithmetic.plus_law a b))
            (value-apply times i (constant Z 2) _ _ _ hi (value-constant Z laws arithmetic m 2)
              (arithmetic.times_law c (pos 2)))
            (arithmetic.difference_law (a +ℤ b) (c *ℤ pos 2))
        ∙ ap (λ x. integer (a +ℤ b -ℤ x)) (twice c)
      where
        twice : (c : ℤ) → c *ℤ pos 2 ≡ c +ℤ c
        twice (pos n) = ground arith
        twice (negsuc n) = ground arith

    intersect_all :
        (f n : ℕ)
        → n < 2 ^ f
        → (e : Expr) × (intersect Z f lhs n 1 (constant Z 0) ≡ some e)
          × (value m e ≡ integer (pos (meet f a n)))
    intersect_all f n h =
        let (e, found, is_e) =
          intersect_lem f 0 n 0 (constant Z 0) h (value-constant Z laws arithmetic m 0) in
        (
          e,
          found,
          is_e
              ∙ ap (λ k. integer (pos k)) (omega arith)
              ∙ ap (λ x. integer (pos (meet f x n))) (whole a),
        )
      where
        whole : (a : ℤ) → div_ℤ a 1 ≡ a
        whole (pos n) = ground arith
        whole (negsuc n) = ground arith

    Operates-masked_within :
        (f : ℕ) (op : IntegerBitwiseOperation) (rhs : Expr) (b : ℤ)
        → value m rhs ≡ integer b
        → Below f b
        → Operates op a b (masked_within Z f op lhs rhs b)
    Operates-masked_within f op rhs (pos n) hb h =
        let (i, found, is_i) = intersect_all f n h in
        (
          combined Z op lhs rhs i,
          result op a (pos n) (pos (meet f a n)),
          rw found refl,
          value-combined op rhs i (pos n) (pos (meet f a n)) hb is_i,
          λ k. digit-result op k f a (pos n) h,
        )
    Operates-masked_within f op rhs (negsuc n) hb h =
        let (i, found, is_i) = intersect_all f n h in
        (
          combined Z op lhs rhs (apply difference lhs i),
          result op a (negsuc n) (a -ℤ pos (meet f a n)),
          rw found refl,
          value-combined op rhs (apply difference lhs i) (negsuc n) (a -ℤ pos (meet f a n)) hb (
              value-apply difference lhs i _ _ _ is is_i
                (arithmetic.difference_law a (pos (meet f a n)))),
          λ k. digit-result op k f a (negsuc n) h,
        )

    Operates-masked :
        (op : IntegerBitwiseOperation) (rhs : Expr) (b : ℤ)
        → value m rhs ≡ integer b
        → Below 4096 b
        → Operates op a b (masked Z op lhs rhs b)
    unfolding masked
    Operates-masked op rhs b hb h = Operates-masked_within 4096 op rhs b hb h

  by_mask_lem :
      (op : IntegerBitwiseOperation) (l r : Expr) (b : ℤ)
      → Z.numeral r ≡ some b
      → by_mask Z op l r ≡ masked Z op l r b
  by_mask_lem op l r b h = rw (by_mask, h) refl

  -- With a constant of at most 4096 digits on the right, `integer_bitwise` gives an integer each of whose
  -- binary digits is what the operation makes of the operands' digits; the operands are different
  -- expressions.
  pub integer_bitwise_lem :
      (op : IntegerBitwiseOperation) (lhs rhs : Expr) (a b : ℤ)
      → Reads Z laws arithmetic m lhs a
      → Z.numeral (Z.simplified (as_int Z rhs)) ≡ some b
      → Z.same (Z.simplified (as_int Z lhs)) (Z.simplified (as_int Z rhs)) ≡ false
      → Below 4096 b
      → Operates op a b (integer_bitwise Z lhs rhs op)
  unfolding integer_bitwise
  integer_bitwise_lem op lhs rhs a b reads found apart h =
      subst (Operates op a b) (sym (rw apart refl ∙ by_mask_lem op left right b found)) (
        Operates-masked left a
          (laws.simplified_law m (as_int Z lhs) ∙ value-as_int Z laws arithmetic m lhs a reads) op
          right b (laws.numeral_value_law m right b found) h)
    where
      left : Expr
      left = Z.simplified (as_int Z lhs)

      right : Expr
      right = Z.simplified (as_int Z rhs)
