-- ===== src/PathExpression/Word/Primitive.antt =====
-- What `is_primitive_path_word` (lib/PathExpression.cpp) decides: no shorter word has the word as a
-- power.
use native.Mathlib.Nat.{
  mod-eq_of_lt, mod-eq-sub-mod, mul-mod_left, mod-lt, mod-le, mod-mod, div-add-mod',
}
use native.Mathlib.Decide.{ℕ_discrete}
use arith_exe.Prelude.{
  ℕ, zero, suc, ◌+◌, ◌-◌, ◌*◌, ◌/◌, ◌%◌, ◌≤◌, ◌<◌, ◌≡◌, refl, sym, ap, subst, ◌∙◌, ◌≢◌, ◌↔◌, inl,
  inr, true, [], ◌∷◌, ◌++◌, arith, ltb, length, take, get_or, length-take, Bool-cases,
}
use arith_exe.PathExpression.Word.{
  PathWord, repeat, periodic_from, primitive_from, is_primitive_path_word,
}
use arith_exe.PathExpression.Word.Segment.{length-repeat}

pub get_or_ext :
    (xs ys : PathWord)
    → length xs ≡ length ys
    → ((i : ℕ) → i < length xs → get_or xs i 0 ≡ get_or ys i 0)
    → xs ≡ ys
get_or_ext [] [] e h = refl
get_or_ext [] (y ∷ ys) e h = absurd (omega arith)
get_or_ext (x ∷ xs) [] e h = absurd (omega arith)
get_or_ext (x ∷ xs) (y ∷ ys) e h =
    let heads : x ≡ y = h 0 (omega arith) in
    let tails : xs ≡ ys = get_or_ext xs ys (omega arith) (λ i lt. h (suc i) (omega arith)) in cc

pub get_or-append :
    (xs ys : PathWord) (i : ℕ)
    → (i < length xs → get_or (xs ++ ys) i 0 ≡ get_or xs i 0)
      × (length xs ≤ i → get_or (xs ++ ys) i 0 ≡ get_or ys (i - length xs) 0)
get_or-append [] ys i = (λ h. absurd (omega arith), λ h. ap (λ k. get_or ys k 0) (omega arith))
get_or-append (x ∷ xs) ys zero = (λ h. refl, λ h. absurd (omega arith))
get_or-append (x ∷ xs) ys (suc i) =
    let (low, high) = get_or-append xs ys i in
    (λ h. low (omega arith), λ h. high (omega arith) ∙ ap (λ k. get_or ys k 0) (omega arith))

-- A power is read through the index modulo the length of its root.
pub get_or-repeat :
    (w : PathWord) (k i : ℕ)
    → i < k * length w
    → get_or (repeat w k) i 0 ≡ get_or w (i % length w) 0
get_or-repeat w zero i h = absurd (omega arith)
get_or-repeat w (suc k) i h = elim (Bool-cases (ltb i (length w))) [
  | inl low ↦
      let lt : i < length w = ground arith in
      (get_or-append w (repeat w k) i).0 lt ∙ ap (λ j. get_or w j 0) (sym (mod-eq_of_lt lt))
  | inr high ↦
      let ge : length w ≤ i = ground arith in
      let rest : i - length w < k * length w = grind arith in
      (get_or-append w (repeat w k) i).1 ge
      ∙ get_or-repeat w k (i - length w) rest
      ∙ ap (λ j. get_or w j 0) (sym (mod-eq-sub-mod ge))
]

pub get_or-take : (n : ℕ) (w : PathWord) (i : ℕ) → i < n → get_or (take n w) i 0 ≡ get_or w i 0
get_or-take zero w i h = absurd (omega arith)
get_or-take (suc n) [] i h = refl
get_or-take (suc n) (x ∷ w) zero h = refl
get_or-take (suc n) (x ∷ w) (suc i) h = get_or-take n w i (omega arith)

-- A proper power has a root that is not empty and is shorter than the power.
proper : (k r n : ℕ) → suc n ≡ k * r → k ≢ 1 → (1 ≤ r) × (r < suc n)
proper zero r n e ne = absurd (omega arith)
proper (suc zero) r n e ne = absurd (ne refl)
proper (suc (suc k)) zero n e ne = absurd (omega arith)
proper (suc (suc k)) (suc r) n e ne = (omega arith, grind arith)

single : (q n : ℕ) → n / q ≡ 1 → n / q * q ≡ n → q < n → ⊥
single q n one size lt = let e : 1 * q ≡ n = rw one at size in omega arith

-- Every symbol agrees with the one at its index modulo `period`.
abbrev pub HasPeriod : PathWord → ℕ → Type 0
HasPeriod w period = (i : ℕ) → i < length w → get_or w i 0 ≡ get_or w (i % period) 0

module _ (w : PathWord) where
  periodic_from_iff :
      (period i rounds : ℕ)
      → (periodic_from w period i rounds ≡ true)
        ↔ ((j : ℕ) → i ≤ j → j < i + rounds → get_or w j 0 ≡ get_or w (j % period) 0)
  unfolding periodic_from
  periodic_from_iff period i zero = (λ h j lo hi. absurd (omega arith), λ h. refl)
  periodic_from_iff period i (suc rounds) =
      let (sound, complete) = periodic_from_iff period (i + 1) rounds in
      (
        λ h j lo hi. elim (Bool-cases (ltb i j)) [
          | inl later ↦ sound (ground arith) j (ground arith) (omega arith)
          | inr here ↦ let e : j ≡ i = ground arith in rw e (ground arith)
        ],
        λ all.
            let here = all i (omega arith) (omega arith) in
            let rest = complete (λ j lo hi. all j (omega arith) (omega arith)) in ground arith,
      )

  periodic_iff : (period : ℕ) → (periodic_from w period 0 (length w) ≡ true) ↔ HasPeriod w period
  periodic_iff period =
      let (sound, complete) = periodic_from_iff period 0 (length w) in
      (
        λ h i lt. sound h i (omega arith) (omega arith),
        λ h. complete (λ j lo hi. h j (omega arith)),
      )

  primitive_from_iff :
      (period rounds : ℕ)
      → (primitive_from w period rounds ≡ true)
        ↔ ((q : ℕ) → period ≤ q → q < period + rounds → length w % q ≡ 0 → ¬ HasPeriod w q)
  unfolding primitive_from
  primitive_from_iff period zero = (λ h q lo hi. absurd (omega arith), λ h. refl)
  primitive_from_iff period (suc rounds) =
      let (sound, complete) = primitive_from_iff (period + 1) rounds in
      let (holds, found) = periodic_iff period in
      (
        λ h q lo hi divides has. elim (Bool-cases (ltb period q)) [
          | inl later ↦ sound (ground arith) q (ground arith) (omega arith) divides has
          | inr here ↦
              let e : q ≡ period = ground arith in
              let yes_periodic = found (subst (HasPeriod w) e has) in ground arith
        ],
        λ all.
            let rest = complete (λ q lo hi. all q (omega arith) (omega arith)) in
            let here = all period (omega arith) (omega arith) in
            elim (Bool-cases (periodic_from w period 0 (length w))) [
              | inl per ↦
                  let indivisible : length w % period ≢ 0 = λ z. here z (holds per) in ground arith
              | inr aper ↦ ground arith
            ],
      )

  -- A power of `u` has the length of `u` as a period.
  period_of_repeat : (u : PathWord) (k : ℕ) → w ≡ repeat u k → HasPeriod w (length u)
  period_of_repeat u k e i lt =
      let size : length w ≡ k * length u = ap length e ∙ length-repeat u k in
      let inside : i < k * length u = omega arith in
      let read = get_or-repeat u k i inside in
      let small : i % length u < k * length u = omega (arith, mod-le i (length u)) in
      let again = get_or-repeat u k (i % length u) small in
      rw e (read ∙ sym (again ∙ ap (λ j. get_or u j 0) (mod-mod i (length u))))

  -- A period that divides the length gives the word as a power.
  repeat_of_period :
      (p : ℕ)
      → 0 < p
      → p ≤ length w
      → length w % p ≡ 0
      → HasPeriod w p
      → w ≡ repeat (take p w) (length w / p)
  repeat_of_period p pos fits divides has =
      let root_size : length (take p w) ≡ p = omega (arith, length-take p w) in
      let size : length w / p * p ≡ length w = omega (arith, div-add-mod' (length w) p) in
      get_or_ext w (repeat (take p w) (length w / p))
        (sym (length-repeat (take p w) (length w / p) ∙ rw root_size size))
        λ i lt.
          let inside : i < length w / p * length (take p w) = rw root_size (omega arith) in
          has i lt
          ∙ sym (
              get_or-repeat (take p w) (length w / p) i inside
              ∙ ap (λ k. get_or (take p w) (i % k) 0) root_size
              ∙ get_or-take p w (i % p) (mod-lt i pos))

-- A word passes exactly if it is not empty and is no power of a word but its own first power.
pub is_primitive_path_word_iff :
    (w : PathWord)
    → (is_primitive_path_word w ≡ true)
      ↔ ((w ≢ []) × ((u : PathWord) (k : ℕ) → w ≡ repeat u k → k ≡ 1))
unfolding is_primitive_path_word
is_primitive_path_word_iff [] = (λ h. cc, λ h. absurd (h.0 refl))
is_primitive_path_word_iff (x ∷ t) = (sound, complete)
  where
    w : PathWord
    w = x ∷ t

    sound :
        primitive_from (x ∷ t) 1 (length t) ≡ true
        → ((x ∷ t) ≢ []) × ((u : PathWord) (k : ℕ) → (x ∷ t) ≡ repeat u k → k ≡ 1)
    sound h = (
      λ e. cc,
      λ u k e. elim (ℕ_discrete k 1) [
        | yes one ↦ one
        | no other ↦
            let size : suc (length t) ≡ k * length u = ap length e ∙ length-repeat u k in
            let (root, shorter) = proper k (length u) (length t) size other in
            let divides : suc (length t) % length u ≡ 0 = rw size (mul-mod_left k (length u)) in
            absurd (
              (primitive_from_iff (x ∷ t) 1 (length t)).0 h (length u) root (omega arith) divides
                (period_of_repeat (x ∷ t) u k e))
      ],
    )

    complete :
        ((x ∷ t) ≢ []) × ((u : PathWord) (k : ℕ) → (x ∷ t) ≡ repeat u k → k ≡ 1)
        → primitive_from (x ∷ t) 1 (length t) ≡ true
    complete (_, only) = (primitive_from_iff (x ∷ t) 1 (length t)).1 λ q lo hi divides has.
        let whole = repeat_of_period (x ∷ t) q lo (omega arith) divides has in
        let one = only (take q (x ∷ t)) (suc (length t) / q) whole in
        let size : suc (length t) / q * q ≡ suc (length t) =
          omega (arith, div-add-mod' (suc (length t)) q) in
        absurd (single q (suc (length t)) one size (omega arith))
