-- ===== src/PathExpression/Factor/Invariant.antt =====
-- The invariant of `factor_table` (lib/PathExpression.cpp), and what one offer to the table does.
use arith_exe.Prelude.{
  ℕ, suc, ◌+◌, ◌*◌, ◌^◌, ◌≤◌, ◌<◌, ◌≡◌, refl, ◌∙◌, ◌⊎◌, true, false, arith, length,
}
use arith_exe.PathExpression.Word.{PathWord, repeat, size_max, is_primitive_path_word}
use arith_exe.PathExpression.Word.Cost.{raw_cost}
use arith_exe.PathExpression.Word.Segment.{Occurs}
use arith_exe.PathExpression.Factor.{FactorChoice, FactorTable, cost_at, choice_at}

-- The empty start is reached, and so is any other with a choice.
abbrev pub IsReached : FactorTable → ℕ → Type 0
IsReached t j = (j ≡ 0) ⊎ ((choice_at t j).present ≡ true)

-- A prefix so short that no cost leaves `std::size_t`.
abbrev pub IsShort : PathWord → Type 0
IsShort prefix = 4 * length prefix + 2 < 2 ^ 64

-- A power of a primitive root in the prefix, from `i` to `end`.
pub record IsBlock (prefix : PathWord) (max_root_length i : ℕ) (root : PathWord) (exponent end : ℕ)
    : Type 0 where
  pub primitive : is_primitive_path_word root ≡ true
  pub nonempty : 0 < length root
  pub bounded : length root ≤ max_root_length
  pub repeated : 0 < exponent
  pub span : end ≡ i + exponent * length root
  pub occurs : Occurs prefix i (repeat root exponent)

-- What later offers from `i` leave alone and what they improve.
pub record Improves (i : ℕ) (t u : FactorTable) : Type 0 where
  pub cheaper : (j : ℕ) → IsReached t j → cost_at u j ≤ cost_at t j
  pub reached : (j : ℕ) → IsReached t j → IsReached u j
  pub same_cost : (j : ℕ) → j ≤ i → cost_at u j ≡ cost_at t j
  pub same_choice : (j : ℕ) → j ≤ i → choice_at u j ≡ choice_at t j

pub Improves-refl : (i : ℕ) (t : FactorTable) → Improves i t t
Improves-refl i t = record {
  cheaper = λ j h. omega arith;
  reached = λ j h. h;
  same_cost = λ j h. refl;
  same_choice = λ j h. refl;
}

pub Improves-trans :
    {i : ℕ} {t u v : FactorTable} → Improves i t u → Improves i u v → Improves i t v
Improves-trans p q = record {
  cheaper = λ j h. omega (arith, p.cheaper j h, q.cheaper j (p.reached j h));
  reached = λ j h. q.reached j (p.reached j h);
  same_cost = λ j h. q.same_cost j h ∙ p.same_cost j h;
  same_choice = λ j h. q.same_choice j h ∙ p.same_choice j h;
}

module _ (prefix : PathWord) (max_root_length : ℕ) where
  -- What a choice recorded at `j` with a cost promises.
  pub record IsEntry (t : FactorTable) (choice : FactorChoice) (j cost : ℕ) : Type 0 where
    pub block : IsBlock prefix max_root_length choice.predecessor choice.root choice.exponent j
    pub reached : IsReached t choice.predecessor
    pub sum : cost ≡ cost_at t choice.predecessor + raw_cost choice.root choice.exponent
    pub small : cost ≤ 4 * j

  -- The table while the offers come from position `i`.
  pub record IsTable (i : ℕ) (t : FactorTable) : Type 0 where
    pub costs_size : length t.costs ≡ suc (length prefix)
    pub choices_size : length t.choices ≡ suc (length prefix)
    pub origin : cost_at t 0 ≡ 0
    pub early : (j : ℕ) → (choice_at t j).present ≡ true → (choice_at t j).predecessor ≤ i
    pub entries :
        (j : ℕ) → (choice_at t j).present ≡ true → IsEntry t (choice_at t j) j (cost_at t j)
    pub absent : (j : ℕ) → (choice_at t j).present ≡ false → (j ≡ 0) ⊎ (cost_at t j ≡ size_max)

  -- An entry from a settled position stays one.
  pub IsEntry-Improves :
      {i : ℕ} {t u : FactorTable} {choice : FactorChoice} {j cost : ℕ}
      → Improves i t u
      → choice.predecessor ≤ i
      → IsEntry t choice j cost
      → IsEntry u choice j cost
  IsEntry-Improves {choice} p early e = record {
    block = e.block;
    reached = p.reached choice.predecessor e.reached;
    sum = rw (p.same_cost choice.predecessor early) e.sum;
    small = e.small;
  }

  -- A cheaper or equal way to `end` at `cost` is recorded, and nothing is lost.
  pub record Settles (i end cost : ℕ) (t u : FactorTable) : Type 0 where
    pub table : IsTable i u
    pub improves : Improves i t u
    pub reaches : IsReached u end
    pub bound : cost_at u end ≤ cost
