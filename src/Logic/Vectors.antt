-- ===== src/Logic/Vectors.antt =====
-- Lists of truth values: at most 2 ^ n of length n are different.
use arith_exe.Prelude.{
  ℕ, zero, suc, ◌+◌, ◌^◌, ◌≤◌, ◌≡◌, refl, ap, ◌≢◌, Bool, true, false, List, [], ◌∷◌, length, All,
  arith,
}
use native.Mathlib.Nat.{pow-suc}

abbrev pub Vector : Type 0
Vector = List Bool

-- No vector stands twice in the list.
abbrev pub AreDistinct : List Vector → Type 0
AreDistinct [] = Unit {0}
AreDistinct (v ∷ vs) = All (λ w. v ≢ w) vs × AreDistinct vs

-- The tails of the vectors that start with the truth value.
abbrev tails : Bool → List Vector → List Vector
tails b [] = []
tails b ([] ∷ vs) = tails b vs
tails true ((true ∷ v) ∷ vs) = v ∷ tails true vs
tails true ((false ∷ v) ∷ vs) = tails true vs
tails false ((true ∷ v) ∷ vs) = tails false vs
tails false ((false ∷ v) ∷ vs) = v ∷ tails false vs

differ_tails :
    (b : Bool) (v : Vector) (vs : List Vector)
    → All (λ w. (b ∷ v) ≢ w) vs
    → All (λ w. v ≢ w) (tails b vs)
differ_tails b v [] h = tt
differ_tails true v ([] ∷ vs) h = differ_tails true v vs h.1
differ_tails false v ([] ∷ vs) h = differ_tails false v vs h.1
differ_tails true v ((true ∷ w) ∷ vs) h =
    (λ e. h.0 (ap (λ x. true ∷ x) e), differ_tails true v vs h.1)
differ_tails true v ((false ∷ w) ∷ vs) h = differ_tails true v vs h.1
differ_tails false v ((true ∷ w) ∷ vs) h = differ_tails false v vs h.1
differ_tails false v ((false ∷ w) ∷ vs) h =
    (λ e. h.0 (ap (λ x. false ∷ x) e), differ_tails false v vs h.1)

tails-AreDistinct : (b : Bool) (vs : List Vector) → AreDistinct vs → AreDistinct (tails b vs)
tails-AreDistinct b [] h = tt
tails-AreDistinct true ([] ∷ vs) h = tails-AreDistinct true vs h.1
tails-AreDistinct false ([] ∷ vs) h = tails-AreDistinct false vs h.1
tails-AreDistinct true ((true ∷ v) ∷ vs) h =
    (differ_tails true v vs h.0, tails-AreDistinct true vs h.1)
tails-AreDistinct true ((false ∷ v) ∷ vs) h = tails-AreDistinct true vs h.1
tails-AreDistinct false ((true ∷ v) ∷ vs) h = tails-AreDistinct false vs h.1
tails-AreDistinct false ((false ∷ v) ∷ vs) h =
    (differ_tails false v vs h.0, tails-AreDistinct false vs h.1)

abbrev pub HaveLength : ℕ → List Vector → Type 0
HaveLength n vs = All (λ v. length v ≡ n) vs

tails-HaveLength :
    (n : ℕ) (b : Bool) (vs : List Vector) → HaveLength (suc n) vs → HaveLength n (tails b vs)
tails-HaveLength n b [] h = tt
tails-HaveLength n true ([] ∷ vs) h = tails-HaveLength n true vs h.1
tails-HaveLength n false ([] ∷ vs) h = tails-HaveLength n false vs h.1
tails-HaveLength n true ((true ∷ v) ∷ vs) h = (omega (arith, h.0), tails-HaveLength n true vs h.1)
tails-HaveLength n true ((false ∷ v) ∷ vs) h = tails-HaveLength n true vs h.1
tails-HaveLength n false ((true ∷ v) ∷ vs) h = tails-HaveLength n false vs h.1
tails-HaveLength n false ((false ∷ v) ∷ vs) h =
    (omega (arith, h.0), tails-HaveLength n false vs h.1)

length-tails :
    (n : ℕ) (vs : List Vector)
    → HaveLength (suc n) vs
    → length vs ≡ length (tails true vs) + length (tails false vs)
length-tails n [] h = refl
length-tails n ([] ∷ vs) h = absurd (omega (arith, h.0))
length-tails n ((true ∷ v) ∷ vs) h = omega (arith, length-tails n vs h.1)
length-tails n ((false ∷ v) ∷ vs) h = omega (arith, length-tails n vs h.1)

pub length-AreDistinct :
    (n : ℕ) (vs : List Vector) → HaveLength n vs → AreDistinct vs → length vs ≤ 2 ^ n
length-AreDistinct zero [] h d = omega arith
length-AreDistinct zero (v ∷ []) h d = omega arith
length-AreDistinct zero ([] ∷ [] ∷ vs) h d = absurd (d.0.0 refl)
length-AreDistinct zero ([] ∷ (b ∷ w) ∷ vs) h d = absurd (omega (arith, h.1.0))
length-AreDistinct zero ((b ∷ v) ∷ w ∷ vs) h d = absurd (omega (arith, h.0))
length-AreDistinct (suc n) vs h d = omega (
  arith,
  length-tails n vs h,
  length-AreDistinct n (tails true vs) (tails-HaveLength n true vs h) (tails-AreDistinct true vs d),
  length-AreDistinct n (tails false vs) (tails-HaveLength n false vs h)
      (tails-AreDistinct false vs d),
  pow-suc 2 n,
)
