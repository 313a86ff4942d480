-- ===== src/PathExpression/Factor/Backtrack.antt =====
-- `backtrack` (lib/PathExpression.cpp) reads a factorisation of least cost off the table.
use mathlib.Core.List.{reverse, reverse-append}
use arith_exe.Prelude.{
  ℕ, zero, suc, ◌+◌, ◌≤◌, ◌<◌, ◌≡◌, refl, sym, ap, ◌∙◌, ◌≢◌, true, List, [], ◌∷◌, ◌++◌, arith,
  length, take, append-nil, append_assoc, ⊎_elim,
}
use arith_exe.PathExpression.Word.{PathWord, ConcretePathPower, repeat, expand_path_powers}
use arith_exe.PathExpression.Word.Cost.{raw_cost, total_cost}
use arith_exe.PathExpression.Word.Segment.{length-repeat}
use native.Mathlib.Nat.{mul-pos}
use native.Mathlib.Decide.{ℕ_discrete}
use arith_exe.PathExpression.Factor.{
  FactorTable, cost_at, choice_at, backtrack, backtrack_from, factor_table,
}
use arith_exe.PathExpression.Factor.Invariant.{IsReached, IsTable, IsShort}
use arith_exe.PathExpression.Factor.Optimal.{
  ArePowers, IsFactorization, Filled-factor_table, factor_table_reaches, factor_table_optimal,
}

pub expand_path_powers-concat :
    (ps : List ConcretePathPower) (p : ConcretePathPower)
    → expand_path_powers (ps ++ p ∷ []) ≡ expand_path_powers ps ++ repeat p.root p.exponent
unfolding expand_path_powers
expand_path_powers-concat [] p = append-nil (repeat p.root p.exponent)
expand_path_powers-concat (q ∷ ps) p =
    ap (λ r. repeat q.root q.exponent ++ r) (expand_path_powers-concat ps p)
    ∙ sym
        (append_assoc (repeat q.root q.exponent) (expand_path_powers ps) (repeat p.root p.exponent))

total_cost-concat :
    (ps : List ConcretePathPower) (p : ConcretePathPower)
    → total_cost (ps ++ p ∷ []) ≡ total_cost ps + raw_cost p.root p.exponent
unfolding total_cost
total_cost-concat [] p = omega arith
total_cost-concat (q ∷ ps) p = omega (arith, total_cost-concat ps p)

ArePowers-concat :
    (m : ℕ) (ps : List ConcretePathPower) (p : ConcretePathPower)
    → ArePowers m ps
    → ArePowers m (p ∷ [])
    → ArePowers m (ps ++ p ∷ [])
ArePowers-concat m [] p h k = k
ArePowers-concat m (q ∷ ps) p h k = (h.0, ArePowers-concat m ps p h.1 k)

module _ (prefix : PathWord) (max_root_length i : ℕ) (t : FactorTable)
    (table : IsTable prefix max_root_length i t) where
  record IsRead (end : ℕ) (powers : List ConcretePathPower) : Type 0 where
    factors : IsFactorization prefix max_root_length end powers
    cost : total_cost powers ≡ cost_at t end

  empty-IsRead : IsRead 0 []
  unfolding expand_path_powers total_cost
  empty-IsRead = record {
    factors = record { admissible = tt; expands = refl };
    cost = sym table.origin;
  }

  earlier : (end : ℕ) → (choice_at t end).present ≡ true → (choice_at t end).predecessor < end
  earlier end present =
      let b = (table.entries end present).block in
      omega (arith, b.span, mul-pos b.repeated b.nonempty)

  -- The test of the early return fails at a recorded choice.
  guards :
      (fuel end : ℕ) (reversed : List ConcretePathPower)
      → end ≢ 0
      → (choice_at t end).present ≡ true
      → (choice_at t end).predecessor < end
      → backtrack_from t (suc fuel) end reversed
        ≡ backtrack_from t fuel (choice_at t end).predecessor (
            reversed
            ++ record { root = (choice_at t end).root; exponent = (choice_at t end).exponent } ∷ [])
  unfolding backtrack_from
  guards fuel end reversed n present before =
      let positive = (table.entries end present).block.repeated in ground arith

  more-IsRead :
      (end : ℕ) (present : (choice_at t end).present ≡ true) (ps : List ConcretePathPower)
      → IsRead (choice_at t end).predecessor ps
      → IsRead end (
          ps
          ++ record { root = (choice_at t end).root; exponent = (choice_at t end).exponent } ∷ [])
  more-IsRead end present ps read =
      let entry = table.entries end present in
      let choice = choice_at t end in
      let p : ConcretePathPower = record { root = choice.root; exponent = choice.exponent } in
      let size = length-repeat choice.root choice.exponent in
      let stop : choice.predecessor + length (repeat choice.root choice.exponent) ≡ end =
        omega (arith, size, entry.block.span) in
      record {
        factors = record {
          admissible =
              ArePowers-concat max_root_length ps p read.factors.admissible
                ((entry.block.primitive, entry.block.bounded, entry.block.repeated), tt);
          expands =
              expand_path_powers-concat ps p
              ∙ ap (λ r. r ++ repeat choice.root choice.exponent) read.factors.expands
              ∙ sym entry.block.occurs.segment
              ∙ ap (λ k. take k prefix) stop;
        };
        cost =
            total_cost-concat ps p
            ∙ ap (λ c. c + raw_cost choice.root choice.exponent) read.cost
            ∙ sym entry.sum;
      }

  backtrack_from_lem :
      (fuel end : ℕ) (reversed : List ConcretePathPower)
      → end ≤ fuel
      → IsReached t end
      → (powers : List ConcretePathPower) × IsRead end powers
        × (backtrack_from t fuel end reversed ≡ powers ++ reverse reversed)
  unfolding backtrack_from
  backtrack_from_lem zero end reversed h r =
      let e : end ≡ 0 = omega arith in rw e ([], empty-IsRead, refl)
  backtrack_from_lem (suc fuel) end reversed h r = elim (ℕ_discrete end 0) [
    | yes e ↦ rw e ([], empty-IsRead, refl)
    | no n ↦
        let present : (choice_at t end).present ≡ true = ⊎_elim (λ e. absurd (n e)) (λ p. p) r in
        let entry = table.entries end present in
        let choice = choice_at t end in
        let p : ConcretePathPower = record { root = choice.root; exponent = choice.exponent } in
        let (ps, read, same) =
          backtrack_from_lem fuel choice.predecessor (reversed ++ p ∷ [])
            (omega (arith, earlier end present)) entry.reached in
        (
          ps ++ p ∷ [],
          more-IsRead end present ps read,
          guards fuel end reversed n present (earlier end present)
              ∙ same
              ∙ ap (λ l. ps ++ l) (reverse-append reversed (p ∷ []))
              ∙ sym (append_assoc ps (p ∷ []) (reverse reversed)),
        )
  ]

  pub IsFactorization-backtrack :
      (end : ℕ)
      → IsReached t end
      → IsFactorization prefix max_root_length end (backtrack t end)
        × (total_cost (backtrack t end) ≡ cost_at t end)
  unfolding backtrack
  IsFactorization-backtrack end r =
      let (powers, read, e) = backtrack_from_lem end end [] (omega arith) r in
      let same : backtrack_from t end end [] ≡ powers = e ∙ append-nil powers in
      rw same (read.factors, read.cost)

-- With roots of at least one symbol allowed, `backtrack` on the filled table gives at every position
-- of the prefix a factorisation of what stands before it into powers of primitive words within the
-- length bound, at the cost that the table holds. The prefix is so short that no cost leaves 64 bits.
pub backtrack-factor_table :
    (prefix : PathWord) (max_root_length end : ℕ)
    → IsShort prefix
    → 0 < max_root_length
    → end ≤ length prefix
    → IsFactorization prefix max_root_length end
        (backtrack (factor_table prefix max_root_length) end)
      × (total_cost (backtrack (factor_table prefix max_root_length) end)
          ≡ cost_at (factor_table prefix max_root_length) end)
backtrack-factor_table prefix max_root_length end short pos inside =
    IsFactorization-backtrack prefix max_root_length (length prefix)
      (factor_table prefix max_root_length) (Filled-factor_table prefix max_root_length short).table
      end (factor_table_reaches prefix max_root_length short end inside pos)

-- No factorisation of what stands before a position into powers of primitive words within the length
-- bound costs less than the one that `backtrack` gives on the filled table. The length bound is
-- positive, and the prefix so short that no cost leaves 64 bits.
pub factor_table_minimal :
    (prefix : PathWord) (max_root_length end : ℕ) (powers : List ConcretePathPower)
    → IsShort prefix
    → 0 < max_root_length
    → end ≤ length prefix
    → IsFactorization prefix max_root_length end powers
    → total_cost (backtrack (factor_table prefix max_root_length) end) ≤ total_cost powers
factor_table_minimal prefix max_root_length end powers short pos inside h = omega (
  arith,
  (backtrack-factor_table prefix max_root_length end short pos inside).1,
  (factor_table_optimal prefix max_root_length short end powers inside h).1,
)
