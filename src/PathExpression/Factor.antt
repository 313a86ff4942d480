-- ===== src/PathExpression/Factor.antt =====
-- lib/PathExpression.cpp: `factor_table`, the cheapest factorisation of each start of the prefix into
-- powers of primitive words, and `backtrack`, which reads one off.
pub mod Invariant
pub mod Offer
pub mod Loops
pub mod Fill
pub mod Optimal
pub mod Backtrack
use arith_exe.Prelude.{
  ℕ, zero, suc, ◌+◌, ◌-◌, Bool, true, false, not, ◌&&◌, ◌||◌, List, [], ◌∷◌, ◌++◌, min, ltb, leb,
  ◌==◌, if◌then◌else◌, length, get_or, set, take, drop, replicate,
}
use mathlib.Core.List.{reverse}
use arith_exe.PathExpression.Word.{
  PathWord, ConcretePathPower, size_max, wrap, word_equal_at, is_primitive_path_word, block_cost,
}
use arith_exe.PathExpression.Order.{choice_key, choice_lt}

pub record FactorChoice : Type 0 where
  pub present : Bool
  pub predecessor : ℕ
  pub root : PathWord
  pub exponent : ℕ

-- `FactorChoice{}`
abbrev pub no_choice : FactorChoice
no_choice = record { present = false; predecessor = 0; root = []; exponent = 0 }

pub record FactorTable : Type 0 where
  pub costs : List ℕ
  pub choices : List FactorChoice

abbrev pub cost_at : FactorTable → ℕ → ℕ
cost_at table i = get_or table.costs i size_max

abbrev pub choice_at : FactorTable → ℕ → FactorChoice
choice_at table i = get_or table.choices i no_choice

-- The body of the innermost loop: offer `root ^ exponent`, from `i` to `end`, to the table.
unfoldable pub offer : ℕ → PathWord → ℕ → ℕ → FactorTable → FactorTable
unfolding choice_key choice_lt
offer i root exponent end table =
    let cost = wrap (cost_at table i + block_cost root exponent) in
    let old = choice_at table end in
    let new : FactorChoice = record {
      present = true;
      predecessor = i;
      root = root;
      exponent = exponent;
    } in
    if not old.present
      || choice_lt (choice_key cost i root exponent)
          (choice_key (cost_at table end) old.predecessor old.root old.exponent)
    then record { costs = set table.costs end cost; choices = set table.choices end new }
    else table

module _ (prefix : PathWord) where
  -- `while (word_equal_at(prefix, end, root))`, at most `fuel` rounds
  unfoldable pub extend : ℕ → ℕ → PathWord → ℕ → ℕ → FactorTable → FactorTable
  extend zero i root exponent end table = table
  extend (suc fuel) i root exponent end table =
      let exponent' = exponent + 1 in
      let end' = end + length root in
      let rest = extend fuel i root exponent' end' (offer i root exponent' end' table) in
      if word_equal_at prefix end root then rest else table

  -- The loop over `length`, `rounds` rounds of it. A round of the `while` loop consumes a symbol, so
  -- the length of the prefix is enough fuel.
  unfoldable pub try_lengths : ℕ → ℕ → ℕ → FactorTable → FactorTable
  try_lengths zero i len table = table
  try_lengths (suc rounds) i len table =
      let root = take len (drop i prefix) in
      try_lengths rounds i (len + 1)
        (if is_primitive_path_word root then extend (length prefix) i root 0 i table else table)

  -- The loop over `i`, `rounds` rounds of it.
  unfoldable pub fill : ℕ → ℕ → ℕ → FactorTable → FactorTable
  fill max_root_length zero i table = table
  fill max_root_length (suc rounds) i table = fill max_root_length rounds (i + 1) (
      if cost_at table i == size_max
      then table
      else try_lengths (min max_root_length (length prefix - i)) i 1 table)

  -- every cost infinite, but that of the empty start
  unfoldable pub blank_table : FactorTable
  blank_table = record {
    costs = set (replicate (length prefix + 1) size_max) 0 0;
    choices = replicate (length prefix + 1) no_choice;
  }

  unfoldable pub factor_table : ℕ → FactorTable
  factor_table max_root_length = fill max_root_length (length prefix) 0 blank_table

-- `reversed`, or the early `return {}` as an empty list. Each round moves `end` down, so `end` rounds
-- are enough.
unfoldable pub backtrack_from :
    FactorTable → ℕ → ℕ → List ConcretePathPower → List ConcretePathPower
backtrack_from table zero end reversed = if end == 0 then reverse reversed else []
backtrack_from table (suc fuel) end reversed =
    let choice = choice_at table end in
    let rest =
      backtrack_from table fuel choice.predecessor
        (reversed ++ record { root = choice.root; exponent = choice.exponent } ∷ []) in
    if end == 0
    then reverse reversed
    else if not choice.present || choice.exponent == 0 || leb end choice.predecessor
    then []
    else rest

unfoldable pub backtrack : FactorTable → ℕ → List ConcretePathPower
unfolding backtrack_from
backtrack table end = backtrack_from table end end []
