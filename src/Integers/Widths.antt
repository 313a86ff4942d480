-- ===== src/Integers/Widths.antt =====
-- lib/IntegerSemantics.h: the reading of an integer at a width, and the range tests.
use arith_exe.Prelude.{
  ℕ, zero, suc, ◌+◌, ◌-◌, ◌%◌, ◌^◌, ◌≤◌, ◌<◌, ◌≡◌, refl, sym, subst, ap, ap₂, ◌∙◌, ◌↔◌, inl, ◌==◌,
  leb, Bool, true, false, not, ◌&&◌, if◌then◌else◌, arith,
}
use arith_exe.Prelude.Int.{ℤ, pos, negsuc, pos_part, neg_part, ◌-ℤ◌, ◌*ℤ◌, ltb_ℤ}
use arith_exe.Z3.{
  Z3, Z3Laws, integer, truth, holds, times, difference, remainder, less_equal, greater_equal,
}
use arith_exe.Z3.Arithmetic.{mod_ℤ, Z3Arithmetic}
use arith_exe.Integers.{
  below, constant, as_int, doubled, power_of_two, as_unsigned, as_signed, signed_min, signed_max,
  in_signed_range,
}
use arith_exe.Integers.Meaning.{value-as_int, value-constant, value-minus, value-ite}
use native.Mathlib.Nat.{mod-lt, mod-eq_of_lt, add-mod_right, pow-suc}

-- The integers of `w` bits and a sign.
abbrev pub InSigned : ℕ → ℤ → Type 0
InSigned w a = (neg_part a ≤ 2 ^ w) × (pos_part a < 2 ^ w)

below_lem : (w : ℕ) → w < 2 ^ 32 → below (suc w) ≡ w
below_lem w h = ap (λ n. n % 4294967296) (omega arith) ∙ add-mod_right w 4294967296 ∙ mod-eq_of_lt h

halves : (w : ℕ) → 2 ^ suc w ≡ 2 ^ w + 2 ^ w
halves w = omega (arith, pow-suc 2 w)

pub power_positive : (w : ℕ) → (n : ℕ) × (2 ^ w ≡ suc n)
power_positive zero = (0, refl)
power_positive (suc w) = let (n, h) = power_positive w in (n + n + 1, omega (arith, pow-suc 2 w, h))

-- The number below the modulus, moved down by the modulus in the upper half.
abbrev pub centred : ℕ → ℕ → ℤ
centred w u = if leb (2 ^ w) u then pos u -ℤ pos (2 ^ suc w) else pos u

InSigned-centred : (w u : ℕ) → u < 2 ^ suc w → InSigned w (centred w u)
unfolding ◌-ℤ◌
InSigned-centred w u k = ground (arith, halves w)

mod_ℤ-centred : (w u : ℕ) → u < 2 ^ suc w → mod_ℤ (centred w u) (2 ^ suc w) ≡ u
unfolding ◌-ℤ◌
mod_ℤ-centred w u k = ground (arith, mod-eq_of_lt k, mod-eq_of_lt (down u k))
  where
    down : (u : ℕ) → u < 2 ^ suc w → 2 ^ suc w - u - 1 < 2 ^ suc w
    down u k = omega arith

-- An integer in the range is what is read from its remainder.
centred-mod_ℤ : (w : ℕ) (a : ℤ) → InSigned w a → centred w (mod_ℤ a (2 ^ suc w)) ≡ a
unfolding ◌-ℤ◌
centred-mod_ℤ w (pos n) (low, high) = ground (arith, halves w, mod-eq_of_lt (up n high))
  where
    up : (n : ℕ) → n < 2 ^ w → n < 2 ^ suc w
    up n h = omega (arith, h, halves w)
centred-mod_ℤ w (negsuc n) (low, high) = ground (arith, halves w, mod-eq_of_lt (up n low))
  where
    up : (n : ℕ) → suc n ≤ 2 ^ w → n < 2 ^ suc w
    up n h = omega (arith, h, halves w)

in_range_iff :
    (w : ℕ) (a : ℤ) (n : ℕ)
    → 2 ^ w ≡ suc n
    → ((not (ltb_ℤ a (pos 0 -ℤ pos (2 ^ w))) && not (ltb_ℤ (pos (2 ^ w) -ℤ pos 1) a)) ≡ true)
      ↔ InSigned w a
unfolding ◌-ℤ◌
in_range_iff w a n h = ground arith

module _ (Z : Z3) (laws : Z3Laws Z) (arithmetic : Z3Arithmetic Z) (m : Z.Model) where
  open Z use {Expr, value}

  value-doubled : (n : ℕ) → value m (doubled Z n) ≡ integer (pos (2 ^ n))
  unfolding ◌*ℤ◌
  value-doubled zero = value-constant Z laws arithmetic m 1
  value-doubled (suc n) =
      laws.apply_law m times (doubled Z n) (constant Z 2)
      ∙ ap₂ (Z.meaning times) (value-doubled n) (value-constant Z laws arithmetic m 2)
      ∙ arithmetic.times_law (pos (2 ^ n)) (pos 2)
      ∙ ap integer (ground (arith, pow-suc 2 n))

  pub value-power_of_two : (n : ℕ) → value m (power_of_two Z n) ≡ integer (pos (2 ^ n))
  unfolding power_of_two
  value-power_of_two n = laws.simplified_law m (doubled Z n) ∙ value-doubled n

  module _ (e : Expr) (a : ℤ) (sort : Z.is_bool e ≡ false) (is : value m e ≡ integer a) where
    value-as_unsigned : (w : ℕ) → value m (as_unsigned Z e w) ≡ integer (pos (mod_ℤ a (2 ^ w)))
    unfolding as_unsigned
    value-as_unsigned w =
        let (n, h) = power_positive w in
        rw (as_unsigned, sort)
          (laws.simplified_law m (Z.apply remainder e (power_of_two Z w))
            ∙ laws.apply_law m remainder e (power_of_two Z w)
            ∙ ap₂ (Z.meaning remainder) is (value-power_of_two w ∙ ap (λ k. integer (pos k)) h)
            ∙ arithmetic.remainder_law a n
            ∙ ap (λ k. integer (pos (mod_ℤ a k))) (sym h))

    value-half :
        (w : ℕ) → w < 2 ^ 32 → value m (power_of_two Z (below (suc w))) ≡ integer (pos (2 ^ w))
    value-half w small =
        value-power_of_two (below (suc w)) ∙ ap (λ n. integer (pos (2 ^ n))) (below_lem w small)

    value-as_signed :
        (w : ℕ)
        → w < 2 ^ 32
        → value m (as_signed Z e (suc w)) ≡ integer (centred w (mod_ℤ a (2 ^ suc w)))
    unfolding as_signed
    value-as_signed w small =
        let u = as_unsigned Z e (suc w) in
        let half = power_of_two Z (below (suc w)) in
        let n = mod_ℤ a (2 ^ suc w) in
        let is_u = value-as_unsigned (suc w) in
        let is_half = value-half w small in
        let compared =
          laws.apply_law m greater_equal u half
          ∙ ap₂ (Z.meaning greater_equal) is_u is_half
          ∙ arithmetic.greater_equal_law (pos n) (pos (2 ^ w)) in
        let moved =
          laws.apply_law m difference u (power_of_two Z (suc w))
          ∙ ap₂ (Z.meaning difference) is_u (value-power_of_two (suc w))
          ∙ arithmetic.difference_law (pos n) (pos (2 ^ suc w)) in
        rw (as_signed, not_truth (suc w == 1))
          (laws.simplified_law m (
              Z.ite (Z.apply greater_equal u half) (Z.apply difference u (power_of_two Z (suc w)))
                u)
            ∙ value-ite Z laws arithmetic m (Z.apply greater_equal u half)
                (Z.apply difference u (power_of_two Z (suc w))) u
                (not (ltb_ℤ (pos n) (pos (2 ^ w)))) (integer (pos n -ℤ pos (2 ^ suc w)))
                (integer (pos n)) compared moved is_u
            ∙ chosen n (2 ^ w) (pos n -ℤ pos (2 ^ suc w)))
      where
        not_truth : (b : Bool) → (b && Z.is_bool e) ≡ false
        not_truth b = ground (arith, sort)

        chosen :
            (n h : ℕ) (x : ℤ)
            → (if not (ltb_ℤ (pos n) (pos h)) then integer x else integer (pos n))
              ≡ integer (if leb h n then x else pos n)
        chosen n h x = ground arith

    mod_ℤ-bound : (w : ℕ) → mod_ℤ a (2 ^ w) < 2 ^ w
    mod_ℤ-bound w = let (n, h) = power_positive w in by_sign a n h
      where
        by_sign : (a : ℤ) (n : ℕ) → 2 ^ w ≡ suc n → mod_ℤ a (2 ^ w) < 2 ^ w
        by_sign (pos x) n h = mod-lt x (omega (arith, h))
        by_sign (negsuc x) n h = omega (arith, h)

    -- `as_signed` at a positive width (less than 2^32) gives the integer in the signed range of that
    -- width that is congruent to the value modulo two to the width.
    pub as_signed_lem :
        (w : ℕ)
        → w < 2 ^ 32
        → (s : ℤ) × (value m (as_signed Z e (suc w)) ≡ integer s)
          × InSigned w s
          × (mod_ℤ s (2 ^ suc w) ≡ mod_ℤ a (2 ^ suc w))
    as_signed_lem w small = (
      centred w (mod_ℤ a (2 ^ suc w)),
      value-as_signed w small,
      InSigned-centred w (mod_ℤ a (2 ^ suc w)) (mod_ℤ-bound (suc w)),
      mod_ℤ-centred w (mod_ℤ a (2 ^ suc w)) (mod_ℤ-bound (suc w)),
    )

    in_signed_range_iff :
        (w : ℕ) → w < 2 ^ 32 → (holds Z m (in_signed_range Z e (suc w)) ≡ true) ↔ InSigned w a
    unfolding in_signed_range signed_min signed_max ◌-ℤ◌
    in_signed_range_iff w small =
        let integer_is = value-as_int Z laws arithmetic m e a (inl (sort, is)) in
        let least =
          value-minus Z laws arithmetic m (power_of_two Z (below (suc w))) (pos (2 ^ w))
            (value-half w small) in
        let greatest =
          laws.apply_law m difference (power_of_two Z (below (suc w))) (constant Z 1)
          ∙ ap₂ (Z.meaning difference) (value-half w small) (value-constant Z laws arithmetic m 1)
          ∙ arithmetic.difference_law (pos (2 ^ w)) (pos 1) in
        let above =
          laws.apply_law m greater_equal (as_int Z e) (signed_min Z (suc w))
          ∙ ap₂ (Z.meaning greater_equal) integer_is least
          ∙ arithmetic.greater_equal_law a (pos 0 -ℤ pos (2 ^ w)) in
        let under =
          laws.apply_law m less_equal (as_int Z e) (signed_max Z (suc w))
          ∙ ap₂ (Z.meaning less_equal) integer_is greatest
          ∙ arithmetic.less_equal_law a (pos (2 ^ w) -ℤ pos 1) in
        let both =
          ap truth (
            laws.conj_law m (Z.apply greater_equal (as_int Z e) (signed_min Z (suc w)))
              (Z.apply less_equal (as_int Z e) (signed_max Z (suc w))))
          ∙ ap₂ (λ x y. truth x && truth y) above under in
        let (n, h) = power_positive w in
        ((λ k. (in_range_iff w a n h).0 (sym both ∙ k)), (λ k. both ∙ (in_range_iff w a n h).1 k))

    -- `in_signed_range` holds exactly if the value is what `as_signed` makes of it, at a positive width.
    pub in_signed_range-as_signed :
        (w : ℕ)
        → w < 2 ^ 32
        → (holds Z m (in_signed_range Z e (suc w)) ≡ true)
          ↔ (value m (as_signed Z e (suc w)) ≡ value m e)
    in_signed_range-as_signed w small = (
      (λ h.
          value-as_signed w small
          ∙ ap integer (centred-mod_ℤ w a ((in_signed_range_iff w small).0 h))
          ∙ sym is),
      (λ h. (in_signed_range_iff w small).1 (in_range (sym (value-as_signed w small) ∙ h ∙ is))),
    )
      where
        number : {x y : ℤ} → integer x ≡ integer y → x ≡ y
        number h = cc

        in_range : integer (centred w (mod_ℤ a (2 ^ suc w))) ≡ integer a → InSigned w a
        in_range h =
            subst (InSigned w) (number h)
              (InSigned-centred w (mod_ℤ a (2 ^ suc w)) (mod_ℤ-bound (suc w)))
