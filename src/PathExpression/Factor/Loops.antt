-- ===== src/PathExpression/Factor/Loops.antt =====
-- The loops of `factor_table` (lib/PathExpression.cpp): they keep the invariant, and leave no block
-- of the prefix untried.
use native.Mathlib.Nat.{mul-lt-mul_of_pos_right}
use native.Mathlib.Decide.{ℕ_discrete}
use arith_exe.Prelude.{
  ℕ, zero, suc, ◌+◌, ◌-◌, ◌*◌, ◌≤◌, ◌<◌, ◌≡◌, sym, ap, subst, ◌∙◌, inl, inr, true, false, arith,
  length, Bool-cases,
}
use arith_exe.PathExpression.Word.{PathWord, repeat, word_equal_at, is_primitive_path_word}
use arith_exe.PathExpression.Word.Cost.{raw_cost}
use arith_exe.PathExpression.Word.Segment.{
  Occurs, length-repeat, word_equal_at_iff, Occurs-repeat-suc, Occurs-repeat-within,
}
use arith_exe.PathExpression.Factor.{FactorTable, cost_at, offer, extend}
use arith_exe.PathExpression.Factor.Invariant.{
  IsReached, IsShort, IsBlock, IsTable, Improves, Settles, Improves-refl, Improves-trans,
}
use arith_exe.PathExpression.Factor.Offer.{Settles-offer}

module _ (prefix : PathWord) (max_root_length : ℕ) where
  -- Every way on from `i` by a block is recorded.
  abbrev pub IsSettled : ℕ → PathWord → ℕ → FactorTable → Type 0
  IsSettled i root exponent t =
      (end : ℕ)
      → IsBlock prefix max_root_length i root exponent end
      → IsReached t end × (cost_at t end ≤ cost_at t i + raw_cost root exponent)

  -- Settled blocks stay settled.
  pub IsSettled-Improves :
      {i k : ℕ} {t u : FactorTable} (root : PathWord) (exponent : ℕ)
      → Improves k t u
      → i ≤ k
      → IsSettled i root exponent t
      → IsSettled i root exponent u
  IsSettled-Improves {i} root exponent p low h end b =
      let (reached, bound) = h end b in
      (p.reached end reached, omega (arith, p.cheaper end reached, p.same_cost i low))

  module _ (short : IsShort prefix) (i : ℕ) where
    pub record Swept (t u : FactorTable) (root : PathWord) (from : ℕ) : Type 0 where
      pub table : IsTable prefix max_root_length i u
      pub improves : Improves i t u
      pub settled : (e : ℕ) → from < e → IsSettled i root e u

    module _ (root : PathWord) (primitive : is_primitive_path_word root ≡ true)
        (nonempty : 0 < length root) (bounded : length root ≤ max_root_length) where
      -- the blocks beyond the point where the loop stops
      nothing_more :
          (exponent e : ℕ)
          → word_equal_at prefix (i + exponent * length root) root ≡ false
          → exponent < e
          → (end : ℕ) → ¬ IsBlock prefix max_root_length i root e end
      nothing_more exponent e stop lt end b =
          let more : e ≡ exponent + suc (e - exponent - 1) = omega arith in
          let next =
            Occurs-repeat-within prefix i root exponent (e - exponent - 1)
              (subst (λ k. Occurs prefix i (repeat root k)) more b.occurs) in
          cc ((word_equal_at_iff prefix (i + exponent * length root) root).1 next)

      one_more :
          (exponent end : ℕ)
          → end ≡ i + exponent * length root
          → Occurs prefix i (repeat root exponent)
          → word_equal_at prefix end root ≡ true
          → IsBlock prefix max_root_length i root (exponent + 1) (end + length root)
      one_more exponent end at_end occurs more =
          let here = (word_equal_at_iff prefix end root).0 more in
          let again =
            Occurs-repeat-suc prefix i root exponent occurs
              (subst (λ k. Occurs prefix k root) at_end here) in
          record {
            primitive = primitive;
            nonempty = nonempty;
            bounded = bounded;
            repeated = omega arith;
            span = grind arith;
            occurs =
                subst (λ k. Occurs prefix i (repeat root k)) {x = suc exponent} (omega arith) again;
          }

      -- What one offer settles, and what the later ones do.
      Swept-offer :
          (exponent end : ℕ) (t u : FactorTable)
          → IsBlock prefix max_root_length i root (exponent + 1) end
          → Settles prefix max_root_length i end
              (cost_at t i + raw_cost root (exponent + 1))
              t
              (offer i root (exponent + 1) end t)
          → Swept (offer i root (exponent + 1) end t) u root (exponent + 1)
          → Swept t u root exponent
      Swept-offer exponent end t u block s rest = record {
        table = rest.table;
        improves = Improves-trans s.improves rest.improves;
        settled = λ e lt stop b. elim (ℕ_discrete e (exponent + 1)) [
          | yes here ↦
              let same : stop ≡ end =
                b.span ∙ ap (λ k. i + k * length root) here ∙ sym block.span in
              rw (same, here)
                (
                  rest.improves.reached end s.reaches,
                  omega (
                    arith,
                    rest.improves.cheaper end s.reaches,
                    s.bound,
                    rest.improves.same_cost i (omega arith),
                    s.improves.same_cost i (omega arith),
                  ),
                )
          | no later ↦ rest.settled e (omega arith) stop b
        ];
      }

      pub Swept-extend :
          (fuel exponent end : ℕ) (t : FactorTable)
          → IsTable prefix max_root_length i t
          → IsReached t i
          → end ≡ i + exponent * length root
          → Occurs prefix i (repeat root exponent)
          → length prefix ≤ fuel + end
          → Swept t (extend prefix fuel i root exponent end t) root exponent
      unfolding extend
      Swept-extend zero exponent end t table start at_end occurs enough = record {
        table = table;
        improves = Improves-refl i t;
        settled = λ e lt stop b. absurd (
            omega
              (arith, b.occurs.inside, length-repeat root e, mul-lt-mul_of_pos_right lt nonempty));
      }
      Swept-extend (suc fuel) exponent end t table start at_end occurs enough =
          elim (Bool-cases (word_equal_at prefix end root)) [
            | inl more ↦ rw more (
                let block = one_more exponent end at_end occurs more in
                let s =
                  Settles-offer prefix max_root_length i root (exponent + 1) (end + length root) t
                    short table start block in
                Swept-offer exponent (end + length root) t _ block s (
                  Swept-extend fuel (exponent + 1) (end + length root)
                    (offer i root (exponent + 1) (end + length root) t) s.table
                    (s.improves.reached i start) block.span block.occurs (omega arith)))
            | inr none_left ↦ rw none_left (record {
              table = table;
              improves = Improves-refl i t;
              settled = λ e lt stop b.
                  absurd (nothing_more exponent e (rw at_end at none_left) lt stop b);
            })
          ]
