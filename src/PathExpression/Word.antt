-- ===== src/PathExpression/Word.antt =====
-- lib/PathExpression.{h,cpp}: path words, their powers, the tests on them and the costs of a block.
-- A `PathSymbol` (32 bits) is a number, a `PathWord` a list of them. `std::size_t` has 64 bits, and
-- its sums are reduced.
pub mod Segment
pub mod Primitive
pub mod Cost
use arith_exe.Prelude.{
  ℕ, zero, suc, ◌+◌, ◌-◌, ◌*◌, ◌/◌, ◌%◌, ◌^◌, ◌≤◌, ◌<◌, ◌≡◌, Bool, true, false, not, ◌&&◌, List, [],
  ◌∷◌, ◌++◌, arith, ltb, leb, ◌==◌, if◌then◌else◌, length, get_or, take, drop,
}

abbrev pub PathSymbol : Type 0
PathSymbol = ℕ

abbrev pub PathWord : Type 0
PathWord = List PathSymbol

-- `std::numeric_limits<std::size_t>::max()`
abbrev pub size_max : ℕ
size_max = 2 ^ 64 - 1

-- the value of a sum of type `std::size_t`
unfoldable pub wrap : ℕ → ℕ
wrap n = n % 2 ^ 64

pub record ConcretePathPower : Type 0 where
  pub root : PathWord
  pub exponent : ℕ

-- `count` copies of a word
abbrev pub repeat : PathWord → ℕ → PathWord
repeat w zero = []
repeat w (suc count) = w ++ repeat w count

-- The loops of `expand_path_powers`, from the first power on.
unfoldable pub expand_path_powers : List ConcretePathPower → PathWord
expand_path_powers [] = []
expand_path_powers (power ∷ powers) = repeat power.root power.exponent ++ expand_path_powers powers

-- `std::equal` of a word with the start of another that is no shorter
abbrev pub starts_with : PathWord → PathWord → Bool
starts_with text [] = true
starts_with [] (y ∷ word) = false
starts_with (x ∷ text) (y ∷ word) = x == y && starts_with text word

unfoldable pub word_equal_at : PathWord → ℕ → PathWord → Bool
word_equal_at text position word =
    if ltb (length text) (position + length word)
    then false
    else starts_with (drop position text) word

-- The inner loop of `is_primitive_path_word`: `word[i] == word[i % period]` for the `rounds` indices
-- from `i` on.
unfoldable pub periodic_from : PathWord → ℕ → ℕ → ℕ → Bool
periodic_from word period i zero = true
periodic_from word period i (suc rounds) =
    let rest = periodic_from word period (i + 1) rounds in
    if get_or word i 0 == get_or word (i % period) 0 then rest else false

-- Its outer loop, for the `rounds` periods from `period` on.
unfoldable pub primitive_from : PathWord → ℕ → ℕ → Bool
primitive_from word period zero = true
primitive_from word period (suc rounds) =
    let rest = primitive_from word (period + 1) rounds in
    if not (length word % period == 0)
    then rest
    else if periodic_from word period 0 (length word)
    then false
    else rest

unfoldable pub is_primitive_path_word : PathWord → Bool
is_primitive_path_word [] = false
is_primitive_path_word (x ∷ word) = primitive_from (x ∷ word) 1 (length word)

abbrev pub block_weight : ℕ
block_weight = 2

abbrev pub exponent_weight : ℕ
exponent_weight = 1

abbrev pub star_weight : ℕ
star_weight = 2

-- The number of binary digits, by halving with fuel.
bit_width_from : ℕ → ℕ → ℕ
bit_width_from zero n = 0
bit_width_from (suc fuel) n =
    let rest = bit_width_from fuel (n / 2) in if n == 0 then 0 else suc rest

-- `std::bit_width` of a `std::size_t`: 64 rounds are enough.
unfoldable pub exponent_bits : ℕ → ℕ
unfolding bit_width_from
exponent_bits exponent = bit_width_from 64 exponent

unfoldable pub block_cost : PathWord → ℕ → ℕ
block_cost root exponent =
    wrap (block_weight + length root + exponent_weight * exponent_bits exponent)
