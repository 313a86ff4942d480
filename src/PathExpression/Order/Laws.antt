-- ===== src/PathExpression/Order/Laws.antt =====
-- The comparisons of lib/PathExpression.{h,cpp} are weak orders: lexicographic products and lists of
-- weak orders are.
use Prim.Native.Nat.{compare, Ordering}
use arith_exe.Prelude.{◌-◌, ◌≡◌, refl, true, false, List, [], ◌∷◌, arith, length}
use arith_exe.PathExpression.Word.{ConcretePathPower, size_max}
use arith_exe.PathExpression.Order.{
  then, compare_list, compare_power, PathSchemaCandidate, compare_candidate, candidate_lt,
}

abbrev pub flip : Ordering → Ordering
flip Ordering.lt = Ordering.gt
flip Ordering.eq = Ordering.eq
flip Ordering.gt = Ordering.lt

pub record IsWeakOrder {ℓ} {A : Type ℓ} (cmp : A → A → Ordering) : Type ℓ where
  pub flips : (x y : A) → cmp y x ≡ flip (cmp x y)
  pub lt_trans : (x y z : A) → cmp x y ≡ Ordering.lt → cmp y z ≡ Ordering.lt → cmp x z ≡ Ordering.lt
  pub eq_left : (x y z : A) → cmp x y ≡ Ordering.eq → cmp x z ≡ cmp y z
  pub eq_right : (x y z : A) → cmp y z ≡ Ordering.eq → cmp x y ≡ cmp x z

pub compare-IsWeakOrder : IsWeakOrder compare
compare-IsWeakOrder = record {
  flips = λ x y. ground arith;
  lt_trans = λ x y z p q. ground arith;
  eq_left = λ x y z p. ground arith;
  eq_right = λ x y z p. ground arith;
}

pub on-IsWeakOrder {ℓ κ} :
    {A : Type ℓ} {B : Type κ} {cmp : B → B → Ordering} (f : A → B)
    → IsWeakOrder cmp
    → IsWeakOrder (λ x y. cmp (f x) (f y))
on-IsWeakOrder f h = record {
  flips = λ x y. h.flips (f x) (f y);
  lt_trans = λ x y z. h.lt_trans (f x) (f y) (f z);
  eq_left = λ x y z. h.eq_left (f x) (f y) (f z);
  eq_right = λ x y z. h.eq_right (f x) (f y) (f z);
}

then-flip : (a b : Ordering) → then (flip a) (flip b) ≡ flip (then a b)
then-flip Ordering.lt b = refl
then-flip Ordering.eq b = refl
then-flip Ordering.gt b = refl

pub then-IsWeakOrder {ℓ} :
    {A : Type ℓ} {c d : A → A → Ordering}
    → IsWeakOrder c
    → IsWeakOrder d
    → IsWeakOrder (λ x y. then (c x y) (d x y))
then-IsWeakOrder {c} {d} h k = record {
  flips = λ x y. rw (h.flips x y, k.flips x y) (then-flip (c x y) (d x y));
  lt_trans = λ x y z p q.
      ground (arith, h.lt_trans x y z, k.lt_trans x y z, h.eq_left x y z, h.eq_right x y z);
  eq_left = λ x y z p. ground (arith, h.eq_left x y z, k.eq_left x y z);
  eq_right = λ x y z p. ground (arith, h.eq_right x y z, k.eq_right x y z);
}

module _ {ℓ} {A : Type ℓ} {cmp : A → A → Ordering} (h : IsWeakOrder cmp) where
  list_flips : (xs ys : List A) → compare_list cmp ys xs ≡ flip (compare_list cmp xs ys)
  list_flips [] [] = refl
  list_flips [] (y ∷ ys) = refl
  list_flips (x ∷ xs) [] = refl
  list_flips (x ∷ xs) (y ∷ ys) =
      rw (h.flips x y, list_flips xs ys) (then-flip (cmp x y) (compare_list cmp xs ys))

  list_lt_trans :
      (xs ys zs : List A)
      → compare_list cmp xs ys ≡ Ordering.lt
      → compare_list cmp ys zs ≡ Ordering.lt
      → compare_list cmp xs zs ≡ Ordering.lt
  list_lt_trans [] [] zs p q = cc
  list_lt_trans [] (y ∷ ys) [] p q = cc
  list_lt_trans [] (y ∷ ys) (z ∷ zs) p q = refl
  list_lt_trans (x ∷ xs) [] zs p q = cc
  list_lt_trans (x ∷ xs) (y ∷ ys) [] p q = cc
  list_lt_trans (x ∷ xs) (y ∷ ys) (z ∷ zs) p q =
      ground (arith, h.lt_trans x y z, list_lt_trans xs ys zs, h.eq_left x y z, h.eq_right x y z)

  list_eq_left :
      (xs ys zs : List A)
      → compare_list cmp xs ys ≡ Ordering.eq
      → compare_list cmp xs zs ≡ compare_list cmp ys zs
  list_eq_left [] [] zs p = refl
  list_eq_left [] (y ∷ ys) zs p = cc
  list_eq_left (x ∷ xs) [] zs p = cc
  list_eq_left (x ∷ xs) (y ∷ ys) [] p = refl
  list_eq_left (x ∷ xs) (y ∷ ys) (z ∷ zs) p = ground (arith, h.eq_left x y z, list_eq_left xs ys zs)

  list_eq_right :
      (xs ys zs : List A)
      → compare_list cmp ys zs ≡ Ordering.eq
      → compare_list cmp xs ys ≡ compare_list cmp xs zs
  list_eq_right xs [] [] p = refl
  list_eq_right xs [] (z ∷ zs) p = cc
  list_eq_right xs (y ∷ ys) [] p = cc
  list_eq_right [] (y ∷ ys) (z ∷ zs) p = refl
  list_eq_right (x ∷ xs) (y ∷ ys) (z ∷ zs) p =
      ground (arith, h.eq_right x y z, list_eq_right xs ys zs)

  pub compare_list-IsWeakOrder : IsWeakOrder (compare_list cmp)
  compare_list-IsWeakOrder = record {
    flips = list_flips;
    lt_trans = list_lt_trans;
    eq_left = list_eq_left;
    eq_right = list_eq_right;
  }

compare_power-IsWeakOrder : IsWeakOrder compare_power
compare_power-IsWeakOrder =
    then-IsWeakOrder
      (on-IsWeakOrder (λ (a : ConcretePathPower). a.root)
        (compare_list-IsWeakOrder compare-IsWeakOrder))
      (on-IsWeakOrder (λ (a : ConcretePathPower). a.exponent) compare-IsWeakOrder)

-- `CandidateOrder` is a strict weak order, which `std::sort` asks for: the comparison says equal of
-- a candidate and itself, swaps when its arguments do, and is transitive, also through equal ones.
pub compare_candidate-IsWeakOrder : IsWeakOrder compare_candidate
unfolding compare_candidate
compare_candidate-IsWeakOrder =
    then-IsWeakOrder (on-IsWeakOrder (λ (a : PathSchemaCandidate). a.score) compare-IsWeakOrder) (
      then-IsWeakOrder
        (on-IsWeakOrder (λ (a : PathSchemaCandidate). size_max - a.observed_star_exponent)
          compare-IsWeakOrder)
        (then-IsWeakOrder
          (on-IsWeakOrder (λ (a : PathSchemaCandidate). length a.star) compare-IsWeakOrder)
          (then-IsWeakOrder
            (on-IsWeakOrder (λ (a : PathSchemaCandidate). a.star)
              (compare_list-IsWeakOrder compare-IsWeakOrder))
            (on-IsWeakOrder (λ (a : PathSchemaCandidate). a.closed_prefix)
              (compare_list-IsWeakOrder compare_power-IsWeakOrder)))))

-- `CandidateOrder` is a strict weak order, as `std::sort` requires.
pub candidate_lt_trans :
    (a b c : PathSchemaCandidate)
    → candidate_lt b a ≡ false
    → candidate_lt c b ≡ false
    → candidate_lt c a ≡ false
unfolding candidate_lt
candidate_lt_trans a b c p q =
    let h = compare_candidate-IsWeakOrder in
    ground (
      arith,
      h.flips a b,
      h.flips b c,
      h.flips a c,
      h.lt_trans a b c,
      h.eq_left a b c,
      h.eq_right a b c,
    )

pub candidate_lt_asym :
    (a b : PathSchemaCandidate) → candidate_lt a b ≡ true → candidate_lt b a ≡ false
unfolding candidate_lt
candidate_lt_asym a b p = ground (arith, compare_candidate-IsWeakOrder.flips a b)
