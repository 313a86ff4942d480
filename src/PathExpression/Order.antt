-- ===== src/PathExpression/Order.antt =====
-- lib/PathExpression.{h,cpp}: the orders that break ties, `choice_key` and `CandidateOrder`. A tuple,
-- a vector and a struct with a defaulted `<=>` are compared lexicographically.
pub mod Laws
use Prim.Native.Nat.{compare, Ordering}
use arith_exe.Prelude.{ℕ, ◌-◌, Bool, true, false, List, [], ◌∷◌, length}
use arith_exe.PathExpression.Word.{PathWord, ConcretePathPower, size_max}

-- The second comparison decides where the first finds no difference.
abbrev pub then : Ordering → Ordering → Ordering
then Ordering.lt next = Ordering.lt
then Ordering.eq next = next
then Ordering.gt next = Ordering.gt

-- `std::vector`'s `<=>`, for a comparison of the elements
abbrev pub compare_list {ℓ} : {A : Type ℓ} → (A → A → Ordering) → List A → List A → Ordering
compare_list cmp [] [] = Ordering.eq
compare_list cmp [] (y ∷ ys) = Ordering.lt
compare_list cmp (x ∷ xs) [] = Ordering.gt
compare_list cmp (x ∷ xs) (y ∷ ys) = then (cmp x y) (compare_list cmp xs ys)

abbrev pub compare_power : ConcretePathPower → ConcretePathPower → Ordering
compare_power a b = then (compare_list compare a.root b.root) (compare a.exponent b.exponent)

abbrev pub is_lt : Ordering → Bool
is_lt Ordering.lt = true
is_lt Ordering.eq = false
is_lt Ordering.gt = false

-- `ChoiceKey`, a tuple
pub record ChoiceKey : Type 0 where
  pub cost : ℕ
  pub predecessor : ℕ
  pub root_size : ℕ
  pub root : PathWord
  pub exponent_rank : ℕ

unfoldable pub choice_key : ℕ → ℕ → PathWord → ℕ → ChoiceKey
choice_key cost predecessor root exponent = record {
  cost = cost;
  predecessor = predecessor;
  root_size = length root;
  root = root;
  exponent_rank = size_max - exponent;
}

unfoldable pub choice_lt : ChoiceKey → ChoiceKey → Bool
choice_lt a b = is_lt (
    then (compare a.cost b.cost) (
      then (compare a.predecessor b.predecessor) (
        then (compare a.root_size b.root_size)
          (then (compare_list compare a.root b.root) (compare a.exponent_rank b.exponent_rank)))))

pub record PathSchemaCandidate : Type 0 where
  pub closed_prefix : List ConcretePathPower
  pub star : PathWord
  pub observed_star_exponent : ℕ
  pub score : ℕ

-- `CandidateOrder`, as a comparison
unfoldable pub compare_candidate : PathSchemaCandidate → PathSchemaCandidate → Ordering
compare_candidate lhs rhs = then (compare lhs.score rhs.score) (
    then (compare (size_max - lhs.observed_star_exponent) (size_max - rhs.observed_star_exponent)) (
      then (compare (length lhs.star) (length rhs.star)) (
        then (compare_list compare lhs.star rhs.star)
          (compare_list compare_power lhs.closed_prefix rhs.closed_prefix))))

unfoldable pub candidate_lt : PathSchemaCandidate → PathSchemaCandidate → Bool
unfolding compare_candidate
candidate_lt lhs rhs = is_lt (compare_candidate lhs rhs)
