-- ===== src/PathExpression/Checks.antt =====
-- Runs of lib/PathExpression.cpp, and the theorems about it at concrete words.
use arith_exe.Prelude.{ℕ, ◌<◌, ◌≤◌, ◌≡◌, refl, ◌≢◌, ◌↔◌, true, List, [], ◌∷◌, All, length, arith}
use arith_exe.PathExpression.Word.{
  expand_path_powers, PathWord, ConcretePathPower, repeat, word_equal_at, periodic_from,
  primitive_from, is_primitive_path_word, wrap, block_cost, exponent_bits,
}
use arith_exe.PathExpression.Word.Segment.{Occurs, word_equal_at_iff}
use arith_exe.PathExpression.Word.Primitive.{is_primitive_path_word_iff}
use arith_exe.PathExpression.Word.Cost.{total_cost}
use arith_exe.PathExpression.Order.{candidate_lt}
use arith_exe.PathExpression.Factor.{
  factor_table, backtrack, cost_at, fill, try_lengths, extend, offer, blank_table,
}
use arith_exe.PathExpression.Factor.Optimal.{IsFactorization}
use arith_exe.PathExpression.Factor.Backtrack.{backtrack-factor_table, factor_table_minimal}
use arith_exe.PathExpression.Compress.{
  compress_path_prefix, compress_once, collect_candidates, select_candidates, candidates_from,
  candidate_of, count_back,
}
use arith_exe.PathExpression.Compress.Candidate.{IsSchema}
use arith_exe.PathExpression.Compress.Complete.{Any}
use arith_exe.PathExpression.Compress.Correct.{
  compress_path_prefix_sound, compress_path_prefix_ranked,
}
use arith_exe.PathExpression.Compress.Select.{IsSorted}
use arith_exe.PathExpression.Compress.Evidence.{
  compress_path_prefix_nonempty, compress_path_prefix_evidence, compress_path_prefix_complete,
}

-- Twice through 1 2, then three times through 3.
abbrev observed : PathWord
observed = 1 ∷ 2 ∷ 1 ∷ 2 ∷ 3 ∷ 3 ∷ 3 ∷ []

abbrev closed_part : PathWord
closed_part = 1 ∷ 2 ∷ 1 ∷ 2 ∷ []

abbrev looped : PathWord
looped = 3 ∷ []

abbrev block : PathWord
block = 1 ∷ 2 ∷ []

compress_path_prefix_sound_example :
    All (IsSchema observed 4 1) (compress_path_prefix observed 4 4 2)
compress_path_prefix_sound_example = compress_path_prefix_sound observed 4 4 2 (omega arith)

compress_path_prefix_ranked_example :
    (length (compress_path_prefix observed 4 4 2) ≤ 4)
    × IsSorted (compress_path_prefix observed 4 4 2)
compress_path_prefix_ranked_example = compress_path_prefix_ranked observed 4 4 2

looped-primitive : is_primitive_path_word looped ≡ true
unfolding is_primitive_path_word primitive_from periodic_from
looped-primitive = refl

compress_path_prefix_nonempty_example : 0 < length (compress_path_prefix observed 4 4 2)
compress_path_prefix_nonempty_example =
    compress_path_prefix_nonempty observed 4 4 (omega arith) (omega arith) (omega arith)
      (omega arith) 2

compress_path_prefix_evidence_example :
    All (IsSchema observed 4 2) (compress_path_prefix observed 4 4 2)
compress_path_prefix_evidence_example =
    compress_path_prefix_evidence observed 4 4 (omega arith) (omega arith) (omega arith)
      (omega arith) 2 closed_part looped 3 refl looped-primitive (omega arith) (omega arith)
      (omega arith)

compress_path_prefix_complete_example :
    Any
      (λ c. (c.star ≡ looped) × (3 ≤ c.observed_star_exponent))
      (compress_path_prefix observed 4 4 2)
compress_path_prefix_complete_example =
    compress_path_prefix_complete observed 4 4 (omega arith) (omega arith) (omega arith)
      (omega arith) 2 closed_part looped 3 refl looped-primitive (omega arith) (omega arith)
      (omega arith) (omega arith)

backtrack-factor_table_example :
    IsFactorization observed 4 6 (backtrack (factor_table observed 4) 6)
    × (total_cost (backtrack (factor_table observed 4) 6) ≡ cost_at (factor_table observed 4) 6)
backtrack-factor_table_example =
    backtrack-factor_table observed 4 6 (omega arith) (omega arith) (omega arith)

abbrev squared : List ConcretePathPower
squared = record { root = block; exponent = 2 } ∷ []

squared-IsFactorization : IsFactorization observed 4 4 squared
unfolding is_primitive_path_word primitive_from periodic_from expand_path_powers
squared-IsFactorization = record {
  admissible = ((refl, omega arith, omega arith), tt);
  expands = refl;
}

factor_table_minimal_example :
    total_cost (backtrack (factor_table observed 4) 4) ≤ total_cost squared
factor_table_minimal_example =
    factor_table_minimal observed 4 4 squared (omega arith) (omega arith) (omega arith)
      squared-IsFactorization

is_primitive_path_word_iff_example :
    (is_primitive_path_word observed ≡ true)
    ↔ ((observed ≢ []) × ((u : PathWord) (k : ℕ) → observed ≡ repeat u k → k ≡ 1))
is_primitive_path_word_iff_example = is_primitive_path_word_iff observed

word_equal_at_iff_example : (word_equal_at observed 2 block ≡ true) ↔ Occurs observed 2 block
word_equal_at_iff_example = word_equal_at_iff observed 2 block

-- The schema found for the observed word: (1 2)^2, then 3 starred, seen three times.
compress_observed :
    compress_path_prefix observed 4 4 2
    ≡ record {
      closed_prefix = record { root = block; exponent = 2 } ∷ [];
      star = looped;
      observed_star_exponent = 3;
      score = 11;
    }
      ∷ []
unfolding compress_path_prefix compress_once collect_candidates select_candidates candidates_from
    candidate_of count_back factor_table fill try_lengths extend offer blank_table backtrack
    word_equal_at is_primitive_path_word primitive_from periodic_from block_cost exponent_bits wrap
    candidate_lt
compress_observed = refl
