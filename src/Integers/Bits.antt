-- ===== src/Integers/Bits.antt =====
-- lib/RelaxedIntegerSemantics.h: the bitwise operations act on each binary digit.
use arith_exe.Prelude.{
  ℕ, zero, suc, ◌+◌, ◌-◌, ◌*◌, ◌/◌, ◌%◌, ◌^◌, ◌<◌, ◌≡◌, refl, ap, ◌∙◌, inl, inr, ◌==◌,
  if◌then◌else◌, arith, Bool-cases,
}
use arith_exe.Prelude.Int.{ℤ, pos, negsuc, pos_part, neg_part, ◌+ℤ◌, ◌-ℤ◌, int_laws}
use arith_exe.Z3.Arithmetic.{mod_ℤ, div_ℤ}
use native.Mathlib.Nat.{pow-suc}
use arith_exe.Integers.Bitwise.{IntegerBitwiseOperation, mask_bits}

-- the binary digits of an integer, in two's complement
abbrev pub digit : ℤ → ℕ → ℕ
digit a zero = mod_ℤ a 2
digit a (suc i) = digit (div_ℤ a 2) i

-- the sum that the loop adds up
abbrev pub meet : ℕ → ℤ → ℕ → ℕ
meet zero a n = 0
meet (suc f) a n = (if n % 2 == 1 then mod_ℤ a 2 else 0) + 2 * meet f (div_ℤ a 2) (n / 2)

abbrev pub result : IntegerBitwiseOperation → ℤ → ℤ → ℤ → ℤ
result IntegerBitwiseOperation.bitwise_and a b i = i
result IntegerBitwiseOperation.bitwise_or a b i = a +ℤ b -ℤ i
result IntegerBitwiseOperation.bitwise_xor a b i = a +ℤ b -ℤ (i +ℤ i)

abbrev pub intersection_of : ℕ → ℤ → ℤ → ℤ
intersection_of f a (pos n) = pos (meet f a n)
intersection_of f a (negsuc n) = a -ℤ pos (meet f a n)

abbrev pub on_digits : IntegerBitwiseOperation → ℕ → ℕ → ℕ
on_digits IntegerBitwiseOperation.bitwise_and x y = x * y
on_digits IntegerBitwiseOperation.bitwise_or x y = x + y - x * y
on_digits IntegerBitwiseOperation.bitwise_xor x y = (x + y) % 2

halves_lem :
    (a : ℤ)
    → (pos_part a + neg_part (div_ℤ a 2) + neg_part (div_ℤ a 2)
        ≡ mod_ℤ a 2 + pos_part (div_ℤ a 2) + pos_part (div_ℤ a 2) + neg_part a)
      × (mod_ℤ a 2 < 2)
halves_lem (pos n) = (ground arith, ground arith)
halves_lem (negsuc n) = (ground arith, ground arith)

unique_lem :
    (x y : ℤ) (d : ℕ)
    → d < 2
    → pos_part x + neg_part y + neg_part y ≡ d + pos_part y + pos_part y + neg_part x
    → (mod_ℤ x 2 ≡ d) × (div_ℤ x 2 ≡ y)
unique_lem (pos n) (pos k) d l h = (ground arith, ground arith)
unique_lem (negsuc n) (pos k) d l h = (ground arith, ground arith)
unique_lem (pos n) (negsuc k) d l h = (ground arith, ground arith)
unique_lem (negsuc n) (negsuc k) d l h = (ground arith, ground arith)

bit_lem :
    (x y : ℕ)
    → x < 2
    → y < 2
    → (x * y < 2)
      × (x + y - x * y < 2)
      × (x * y + (x + y - x * y) ≡ x + y)
      × ((x + y) % 2 + x * y + x * y ≡ x + y)
      × ((x + y) % 2 < 2)
bit_lem zero zero l k = (omega arith, omega arith, refl, refl, omega arith)
bit_lem zero (suc zero) l k = (omega arith, omega arith, refl, refl, omega arith)
bit_lem (suc zero) zero l k = (omega arith, omega arith, refl, refl, omega arith)
bit_lem (suc zero) (suc zero) l k = (omega arith, omega arith, refl, refl, omega arith)
bit_lem (suc (suc x)) y l k = absurd (omega (arith, l))
bit_lem x (suc (suc y)) l k = absurd (omega (arith, k))

-- Twice one integer and a digit give another.
abbrev IsTwice : ℤ → ℕ → ℤ → Type 0
IsTwice x d y = pos_part x + neg_part y + neg_part y ≡ d + pos_part y + pos_part y + neg_part x

IsTwice-intersection_of :
    (f : ℕ) (a b : ℤ)
    → IsTwice
        (intersection_of (suc f) a b)
        (mod_ℤ a 2 * mod_ℤ b 2)
        (intersection_of f (div_ℤ a 2) (div_ℤ b 2))
IsTwice-intersection_of f a (pos n) = elim (Bool-cases (n % 2 == 1)) [
  | inl h ↦ let odd : n % 2 ≡ 1 = ground (arith, h) in rw (h, odd) (ground arith)
  | inr h ↦ let even : n % 2 ≡ 0 = ground (arith, h) in rw (h, even) (ground arith)
]
IsTwice-intersection_of f a (negsuc n) = elim (Bool-cases (n % 2 == 1)) [
  | inl h ↦
      let odd : n % 2 ≡ 1 = ground (arith, h) in
      let (twice, l) = halves_lem a in rw (h, odd) (omega (int_laws, twice))
  | inr h ↦
      let even : n % 2 ≡ 0 = ground (arith, h) in
      let (twice, l) = halves_lem a in rw (h, even) (omega (int_laws, twice))
]

IsTwice-result :
    (op : IntegerBitwiseOperation) (a b i a' b' i' : ℤ) (x y : ℕ)
    → x < 2
    → y < 2
    → IsTwice a x a'
    → IsTwice b y b'
    → IsTwice i (x * y) i'
    → IsTwice (result op a b i) (on_digits op x y) (result op a' b' i') × (on_digits op x y < 2)
IsTwice-result IntegerBitwiseOperation.bitwise_and a b i a' b' i' x y l k ha hb hi =
    (hi, (bit_lem x y l k).0)
IsTwice-result IntegerBitwiseOperation.bitwise_or a b i a' b' i' x y l k ha hb hi =
    let (p, q, r, s, t) = bit_lem x y l k in (omega (int_laws, r, ha, hb, hi), q)
IsTwice-result IntegerBitwiseOperation.bitwise_xor a b i a' b' i' x y l k ha hb hi =
    let (p, q, r, s, t) = bit_lem x y l k in (omega (int_laws, s, ha, hb, hi), t)

abbrev pub Below : ℕ → ℤ → Type 0
Below f b = mask_bits b < 2 ^ f

Below-div_ℤ : (f : ℕ) (b : ℤ) → Below (suc f) b → Below f (div_ℤ b 2)
Below-div_ℤ f (pos n) h = ground (arith, pow-suc 2 f)
Below-div_ℤ f (negsuc n) h = ground (arith, pow-suc 2 f)

meet_more : (f : ℕ) (a : ℤ) (n : ℕ) → n < 2 ^ f → meet f a n ≡ meet (suc f) a n
meet_more zero a zero h = refl
meet_more zero a (suc n) h = absurd (omega (arith, h))
meet_more (suc f) a n h =
    ap (λ k. (if n % 2 == 1 then mod_ℤ a 2 else 0) + 2 * k)
      (meet_more f (div_ℤ a 2) (n / 2) (ground (arith, h, pow-suc 2 f)))

intersection_of_more :
    (f : ℕ) (a b : ℤ) → Below f b → intersection_of f a b ≡ intersection_of (suc f) a b
intersection_of_more f a (pos n) h = ap pos (meet_more f a n h)
intersection_of_more f a (negsuc n) h = ap (λ k. a -ℤ pos k) (meet_more f a n h)

-- The first digit of a result, and the result of the halves.
step_lem :
    (op : IntegerBitwiseOperation) (f : ℕ) (a b : ℤ)
    → (mod_ℤ (result op a b (intersection_of (suc f) a b)) 2 ≡ on_digits op (mod_ℤ a 2) (mod_ℤ b 2))
      × (div_ℤ (result op a b (intersection_of (suc f) a b)) 2
          ≡ result op (div_ℤ a 2) (div_ℤ b 2) (intersection_of f (div_ℤ a 2) (div_ℤ b 2)))
step_lem op f a b =
    let (twice_a, bit_a) = halves_lem a in
    let (twice_b, bit_b) = halves_lem b in
    let whole = intersection_of (suc f) a b in
    let half = intersection_of f (div_ℤ a 2) (div_ℤ b 2) in
    let (twice, bit) =
      IsTwice-result op a b whole (div_ℤ a 2) (div_ℤ b 2) half (mod_ℤ a 2) (mod_ℤ b 2) bit_a bit_b
        twice_a twice_b (IsTwice-intersection_of f a b) in
    unique_lem (result op a b whole) (result op (div_ℤ a 2) (div_ℤ b 2) half)
      (on_digits op (mod_ℤ a 2) (mod_ℤ b 2)) bit twice

-- Each digit of the result is that of the operands' digits.
pub digit-result :
    (op : IntegerBitwiseOperation) (i f : ℕ) (a b : ℤ)
    → Below f b
    → digit (result op a b (intersection_of f a b)) i ≡ on_digits op (digit a i) (digit b i)
digit-result op zero f a b h =
    ap (λ k. mod_ℤ (result op a b k) 2) (intersection_of_more f a b h) ∙ (step_lem op f a b).0
digit-result op (suc i) zero a b h =
    ap (λ k. digit (div_ℤ (result op a b k) 2) i) (intersection_of_more zero a b h)
    ∙ ap (λ k. digit k i) (step_lem op zero a b).1
    ∙ digit-result op i zero (div_ℤ a 2) (div_ℤ b 2) (none_left b h)
  where
    none_left : (b : ℤ) → Below zero b → Below zero (div_ℤ b 2)
    none_left (pos n) h = ground arith
    none_left (negsuc n) h = ground arith
digit-result op (suc i) (suc f) a b h =
    ap (λ k. digit k i) (step_lem op f a b).1
    ∙ digit-result op i f (div_ℤ a 2) (div_ℤ b 2) (Below-div_ℤ f b h)
