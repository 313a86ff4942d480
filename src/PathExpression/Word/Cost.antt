-- ===== src/PathExpression/Word/Cost.antt =====
-- The costs of lib/PathExpression.cpp, without the reduction of `std::size_t`, and their bounds.
use native.Mathlib.Nat.{mod-eq_of_lt}
use arith_exe.Prelude.{
  ℕ, zero, suc, ◌+◌, ◌*◌, ◌/◌, ◌^◌, ◌≤◌, ◌<◌, ◌≡◌, List, [], ◌∷◌, arith, length,
}
use arith_exe.PathExpression.Word.{
  PathWord, ConcretePathPower, wrap, bit_width_from, exponent_bits, block_cost,
}

bit_width_from-le : (fuel n : ℕ) → bit_width_from fuel n ≤ n
unfolding bit_width_from
bit_width_from-le zero n = omega arith
bit_width_from-le (suc fuel) n = ground (arith, bit_width_from-le fuel (n / 2))

pub exponent_bits-le : (n : ℕ) → exponent_bits n ≤ n
unfolding exponent_bits
exponent_bits-le n = bit_width_from-le 64 n

-- What a block costs as a number without bound.
unfoldable pub raw_cost : PathWord → ℕ → ℕ
raw_cost root exponent = 2 + length root + exponent_bits exponent

-- The cost of a factorisation.
unfoldable pub total_cost : List ConcretePathPower → ℕ
total_cost [] = 0
total_cost (power ∷ powers) = raw_cost power.root power.exponent + total_cost powers

pub wrap_of_lt : (n : ℕ) → n < 2 ^ 64 → wrap n ≡ n
unfolding wrap
wrap_of_lt n h = mod-eq_of_lt h

-- A block costs at most four for each symbol that it covers.
pub raw_cost-le :
    (root : PathWord) (exponent : ℕ)
    → 0 < length root
    → 0 < exponent
    → raw_cost root exponent ≤ 4 * (exponent * length root)
unfolding raw_cost
raw_cost-le root exponent h k =
    bounded (length root) exponent (exponent_bits exponent) h k (exponent_bits-le exponent)
  where
    bounded : (l e b : ℕ) → 0 < l → 0 < e → b ≤ e → 2 + l + b ≤ 4 * (e * l)
    bounded zero e b p q r = elim p [ ]
    bounded (suc l) zero b p q r = elim q [ ]
    bounded (suc l) (suc e) b p q r = grind arith

pub block_cost-eq :
    (root : PathWord) (exponent : ℕ)
    → raw_cost root exponent < 2 ^ 64
    → block_cost root exponent ≡ raw_cost root exponent
unfolding block_cost raw_cost wrap
block_cost-eq root exponent h = omega arith
