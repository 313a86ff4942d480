-- ===== src/PathExpression/Compress/Candidate.antt =====
-- What one round of the loop over `length` in `compress_path_prefix` (lib/PathExpression.cpp) pushes.
use arith_exe.Prelude.{
  ℕ, zero, suc, ◌+◌, ◌*◌, ◌≤◌, ◌<◌, ◌≡◌, sym, ap, ◌∙◌, ◌≢◌, true, List, ◌++◌, arith, length, take,
  ⊎_elim,
}
use arith_exe.PathExpression.Word.{
  PathWord, ConcretePathPower, repeat, expand_path_powers, wrap, exponent_bits,
  is_primitive_path_word,
}
use arith_exe.PathExpression.Word.Cost.{total_cost, wrap_of_lt, exponent_bits-le}
use arith_exe.PathExpression.Word.Segment.{length-repeat}
use arith_exe.PathExpression.Order.{PathSchemaCandidate}
use arith_exe.PathExpression.Factor.{cost_at, factor_table, backtrack}
use arith_exe.PathExpression.Factor.Invariant.{IsReached, IsShort, IsTable}
use arith_exe.PathExpression.Factor.Optimal.{
  ArePowers, IsFactorization, Filled-factor_table, factor_table_reaches, factor_table_optimal,
}
use arith_exe.PathExpression.Factor.Backtrack.{IsFactorization-backtrack}
use arith_exe.PathExpression.Compress.{Run}
use arith_exe.PathExpression.Compress.CountBack.{
  last_root, run_of, length-last_root, whole, IsRun-run_of, run_of_pos, Occurs-at_end,
}

-- An open expression `Q star^*` with exact evidence for the prefix: `Q` followed by the observed
-- copies of `star` is the prefix, `star` is primitive and short, no further copy stands before
-- them, `Q` is a cheapest factorisation, and the score is the sum of the costs.
pub record IsSchema (prefix : PathWord) (max_root_length evidence : ℕ) (c : PathSchemaCandidate)
    : Type 0 where
  pub primitive : is_primitive_path_word c.star ≡ true
  pub bounded : length c.star ≤ max_root_length
  pub observed : evidence ≤ c.observed_star_exponent
  pub admissible : ArePowers max_root_length c.closed_prefix
  pub exact : expand_path_powers c.closed_prefix ++ repeat c.star c.observed_star_exponent ≡ prefix
  pub cheapest :
      (powers : List ConcretePathPower)
      → ArePowers max_root_length powers
      → expand_path_powers powers ≡ expand_path_powers c.closed_prefix
      → total_cost c.closed_prefix ≤ total_cost powers
  pub scored :
      c.score
      ≡ total_cost c.closed_prefix + 2 + length c.star + exponent_bits c.observed_star_exponent
  pub maximal : (rest : PathWord) → expand_path_powers c.closed_prefix ≢ rest ++ c.star

module _ (prefix : PathWord) (max_root_length : ℕ) (short : IsShort prefix) (len : ℕ)
    (pos : 0 < len) (inside : len ≤ length prefix) (bounded : len ≤ max_root_length) where
  abbrev pub run : Run
  run = run_of prefix len

  abbrev pub closed : List ConcretePathPower
  closed = backtrack (factor_table prefix max_root_length) run.start

  abbrev pub candidate : PathSchemaCandidate
  candidate = record {
    closed_prefix = closed;
    star = last_root prefix len;
    observed_star_exponent = run.exponent;
    score = wrap (
        cost_at (factor_table prefix max_root_length) run.start
        + 2
        + len
        + 1 * exponent_bits run.exponent);
  }

  filled : IsTable prefix max_root_length (length prefix) (factor_table prefix max_root_length)
  filled = (Filled-factor_table prefix max_root_length short).table

  pub start_inside : run.start ≤ length prefix
  start_inside = omega (arith, (IsRun-run_of prefix len pos inside).span)

  start-IsReached : IsReached (factor_table prefix max_root_length) run.start
  start-IsReached =
      factor_table_reaches prefix max_root_length short run.start start_inside (omega arith)

  pub IsFactorization-closed :
      IsFactorization prefix max_root_length run.start closed
      × (total_cost closed ≡ cost_at (factor_table prefix max_root_length) run.start)
  IsFactorization-closed =
      IsFactorization-backtrack prefix max_root_length (length prefix)
        (factor_table prefix max_root_length) filled run.start start-IsReached

  score_lem :
      wrap (
        cost_at (factor_table prefix max_root_length) run.start
        + 2
        + len
        + 1 * exponent_bits run.exponent)
      ≡ total_cost closed + 2 + length (last_root prefix len) + exponent_bits run.exponent
  score_lem =
      let run_ok = IsRun-run_of prefix len pos inside in
      let size = length-last_root prefix len pos inside in
      let small : cost_at (factor_table prefix max_root_length) run.start ≤ 4 * run.start =
        ⊎_elim (λ e. rw e (omega (arith, filled.origin))) (λ p. (filled.entries run.start p).small)
          start-IsReached in
      let covered : len + run.exponent ≤ 2 * (run.exponent * length (last_root prefix len)) =
        rw size (product len run.exponent pos (run_of_pos prefix len pos inside)) in
      wrap_of_lt _
        (omega (arith, short, small, run_ok.span, covered, exponent_bits-le run.exponent))
      ∙ omega (arith, size, IsFactorization-closed.1)
    where
      product : (l e : ℕ) → 0 < l → 0 < e → l + e ≤ 2 * (e * l)
      product zero e p q = elim p [ ]
      product (suc l) zero p q = elim q [ ]
      product (suc l) (suc e) p q = grind arith

  pub IsSchema-candidate :
      (evidence : ℕ)
      → is_primitive_path_word (last_root prefix len) ≡ true
      → evidence ≤ run.exponent
      → IsSchema prefix max_root_length evidence candidate
  IsSchema-candidate evidence primitive observed =
      let run_ok = IsRun-run_of prefix len pos inside in
      let (factors, cost) = IsFactorization-closed in
      record {
        primitive = primitive;
        bounded = omega (arith, length-last_root prefix len pos inside);
        observed = observed;
        admissible = factors.admissible;
        exact =
            ap (λ r. r ++ repeat (last_root prefix len) run.exponent) factors.expands
            ∙ sym run_ok.occurs.segment
            ∙ ap (λ k. take k prefix) {y = length prefix}
                (omega (arith, run_ok.span, length-repeat (last_root prefix len) run.exponent))
            ∙ whole prefix len pos inside;
        cheapest = λ powers ok same. omega (
          arith,
          cost,
          (factor_table_optimal prefix max_root_length short run.start powers start_inside
              (record { admissible = ok; expands = same ∙ factors.expands })).1,
        );
        scored = score_lem;
        maximal = λ rest same.
            let (size, occurs) =
              Occurs-at_end prefix run.start rest (last_root prefix len) start_inside
                (sym factors.expands ∙ same) in
            run_ok.stop (length rest) size occurs;
      }
