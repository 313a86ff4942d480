-- ===== src/PathExpression/Factor/Offer.antt =====
-- One offer to the table of lib/PathExpression.cpp (`factor_table`'s innermost body): it keeps the
-- invariant, only lowers costs, and leaves the positions up to `i` alone.
use native.Mathlib.Nat.{mul-pos}
use native.Mathlib.Decide.{ℕ_discrete}
use arith_exe.Prelude.{
  ℕ, ◌+◌, ◌*◌, ◌≤◌, ◌<◌, ◌≡◌, refl, subst, ◌∙◌, ◌≢◌, inl, inr, Bool, true, false, not, ◌||◌, arith,
  length, set, Bool-cases, if◌then◌else◌, length-set, get_or-set_self, get_or-set_ne, ⊎_elim,
}
use arith_exe.PathExpression.Word.{PathWord, size_max, wrap, block_cost}
use arith_exe.PathExpression.Word.Cost.{raw_cost, raw_cost-le, block_cost-eq, wrap_of_lt}
use arith_exe.PathExpression.Word.Segment.{length-repeat}
use arith_exe.PathExpression.Order.{choice_key, choice_lt}
use arith_exe.PathExpression.Factor.{FactorTable, no_choice, cost_at, choice_at, offer}
use arith_exe.PathExpression.Factor.Invariant.{
  IsReached, IsShort, IsBlock, IsTable, Improves, Settles, Improves-refl, IsEntry-Improves,
}

-- `candidate < old` fails only where the old cost is no higher.
choice_lt_cost :
    (c d p q e f : ℕ) (r s : PathWord)
    → choice_lt (choice_key c p r e) (choice_key d q s f) ≡ false
    → d ≤ c
unfolding choice_lt choice_key
choice_lt_cost c d p q e f r s h = ground arith

choice_lt_cost_true :
    (c d p q e f : ℕ) (r s : PathWord)
    → choice_lt (choice_key c p r e) (choice_key d q s f) ≡ true
    → c ≤ d
unfolding choice_lt choice_key
choice_lt_cost_true c d p q e f r s h = ground arith

-- The parts of the offer's test.
abbrev takes : ℕ → PathWord → ℕ → ℕ → ℕ → FactorTable → Bool
takes i root exponent end c t =
    not (choice_at t end).present
    || choice_lt (choice_key c i root exponent) (
        choice_key (cost_at t end) (choice_at t end).predecessor (choice_at t end).root
          (choice_at t end).exponent)

abbrev written : ℕ → PathWord → ℕ → ℕ → ℕ → FactorTable → FactorTable
written i root exponent end c t = record {
  costs = set t.costs end c;
  choices =
      set t.choices end
        (record { present = true; predecessor = i; root = root; exponent = exponent });
}

offer_of_cost :
    (i : ℕ) (root : PathWord) (exponent end c : ℕ) (t : FactorTable)
    → wrap (cost_at t i + block_cost root exponent) ≡ c
    → offer i root exponent end t
      ≡ (if takes i root exponent end c t then written i root exponent end c t else t)
unfolding offer
offer_of_cost i root exponent end c t e = rw e

module _ (prefix : PathWord) (max_root_length i : ℕ) (root : PathWord) (exponent end : ℕ) where
  module _ (t : FactorTable) (short : IsShort prefix) (table : IsTable prefix max_root_length i t)
      (start : IsReached t i) (block : IsBlock prefix max_root_length i root exponent end) where
    start_cost : cost_at t i ≤ 4 * i
    start_cost =
        ⊎_elim (λ e. rw e (omega (arith, table.origin))) (λ p. (table.entries i p).small) start

    end_inside : end ≤ length prefix
    end_inside = omega (arith, block.span, block.occurs.inside, length-repeat root exponent)

    pub new_cost : ℕ
    new_cost = cost_at t i + raw_cost root exponent

    new_cost_small : new_cost ≤ 4 * end
    unfolding new_cost
    new_cost_small =
        omega
          (arith, start_cost, block.span, raw_cost-le root exponent block.nonempty block.repeated)

    offered_cost : wrap (cost_at t i + block_cost root exponent) ≡ new_cost
    unfolding new_cost
    offered_cost =
        let bound = new_cost_small in
        rw (block_cost-eq root exponent (omega (arith, end_inside, short)))
          (wrap_of_lt _ (omega (arith, end_inside, short)))

    pub after : FactorTable
    after = written i root exponent end new_cost t

    module _ (better : IsReached t end → new_cost ≤ cost_at t end) where
      cost_self : cost_at after end ≡ new_cost
      unfolding after
      cost_self =
          get_or-set_self t.costs end new_cost size_max
            (omega (arith, end_inside, table.costs_size))

      cost_ne : (j : ℕ) → j ≢ end → cost_at after j ≡ cost_at t j
      unfolding after
      cost_ne j h = get_or-set_ne t.costs end j new_cost size_max h

      choice_self :
          choice_at after end
          ≡ record { present = true; predecessor = i; root = root; exponent = exponent }
      unfolding after
      choice_self =
          get_or-set_self t.choices end _ no_choice (omega (arith, end_inside, table.choices_size))

      choice_ne : (j : ℕ) → j ≢ end → choice_at after j ≡ choice_at t j
      unfolding after
      choice_ne j h = get_or-set_ne t.choices end j _ no_choice h

      beyond : i < end
      beyond = omega (arith, block.span, mul-pos block.repeated block.nonempty)

      Improves-after : Improves i t after
      Improves-after = record {
        cheaper = λ j h. elim (ℕ_discrete j end) [
          | yes e ↦ rw (e, cost_self) (better (subst (IsReached t) e h))
          | no n ↦ rw (cost_ne j n) (omega arith)
        ];
        reached = λ j h. elim (ℕ_discrete j end) [
          | yes e ↦ rw (e, choice_self) (inr refl)
          | no n ↦ rw (choice_ne j n) h
        ];
        same_cost = λ j h. cost_ne j (omega (arith, beyond));
        same_choice = λ j h. choice_ne j (omega (arith, beyond));
      }

      IsTable-after : IsTable prefix max_root_length i after
      unfolding after
      IsTable-after = record {
        costs_size = length-set t.costs end new_cost ∙ table.costs_size;
        choices_size = length-set t.choices end _ ∙ table.choices_size;
        origin = cost_ne 0 (omega (arith, beyond)) ∙ table.origin;
        early = λ j p. elim (ℕ_discrete j end) [
          | yes e ↦ rw (e, choice_self) (omega arith)
          | no n ↦ rw (choice_ne j n) (table.early j (rw (choice_ne j n) at p))
        ];
        entries = λ j p. elim (ℕ_discrete j end) [
          | yes e ↦
              rw (e, choice_self, cost_self)
                (record {
                  block = block;
                  reached = Improves-after.reached i start;
                  sum = rw (Improves-after.same_cost i (omega arith)) (unfold new_cost in refl);
                  small = new_cost_small;
                })
          | no n ↦
              let old = rw (choice_ne j n) at p in
              rw (choice_ne j n, cost_ne j n)
                (IsEntry-Improves prefix max_root_length Improves-after (table.early j old)
                  (table.entries j old))
        ];
        absent = λ j p. elim (ℕ_discrete j end) [
          | yes e ↦ absurd (cc (rw (e, choice_self) at p))
          | no n ↦ rw (cost_ne j n) (table.absent j (rw (choice_ne j n) at p))
        ];
      }

      Settles-after : Settles prefix max_root_length i end new_cost t after
      Settles-after = record {
        table = IsTable-after;
        improves = Improves-after;
        reaches = inr (rw choice_self);
        bound = rw cost_self (omega arith);
      }

    takes_cheaper :
        takes i root exponent end new_cost t ≡ true → IsReached t end → new_cost ≤ cost_at t end
    takes_cheaper h (inl zero_end) =
        absurd (omega (arith, block.span, mul-pos block.repeated block.nonempty))
    takes_cheaper h (inr old) =
        choice_lt_cost_true new_cost (cost_at t end) i (choice_at t end).predecessor exponent
          (choice_at t end).exponent root (choice_at t end).root (rw (old) at h)

    keeps_cheaper :
        takes i root exponent end new_cost t ≡ false → IsReached t end × (cost_at t end ≤ new_cost)
    keeps_cheaper h =
        let old : (choice_at t end).present ≡ true = ground arith in
        (
          inr old,
          choice_lt_cost new_cost (cost_at t end) i (choice_at t end).predecessor exponent
              (choice_at t end).exponent root (choice_at t end).root (rw old at h),
        )

    pub Settles-offer :
        Settles prefix max_root_length i end
          (cost_at t i + raw_cost root exponent)
          t
          (offer i root exponent end t)
    unfolding new_cost after
    Settles-offer =
        rw (offer_of_cost i root exponent end new_cost t offered_cost)
          (elim (Bool-cases (takes i root exponent end new_cost t)) [
            | inl take_it ↦ rw take_it (Settles-after (takes_cheaper take_it))
            | inr keep_it ↦
                let (old, cheap) = keeps_cheaper keep_it in
                rw keep_it (record {
                  table = table;
                  improves = Improves-refl i t;
                  reaches = old;
                  bound = cheap;
                })
          ])
