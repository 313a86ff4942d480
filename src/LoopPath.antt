-- ===== src/LoopPath.antt =====
-- lib/state.h: the path that a state has taken through a loop, as explicit words and certified symbolic
-- powers. The exponents are formulas of Z3, a parameter.
pub mod History
mod Checks
use arith_exe.Prelude.{Option, none, some, List, [], ◌∷◌, ◌++◌}
use arith_exe.PathExpression.Word.{PathSymbol, PathWord}

module _ (Exponent : Type 0) where
  pub record SymbolicPathPower : Type 0 where
    pub root : PathWord
    pub exponent : Exponent

  pub record ExactPathPrefixSegment : Type 0 where
    pub explicit_word : PathWord
    pub symbolic_power : Option SymbolicPathPower

  abbrev pub explicit_segment : PathWord → ExactPathPrefixSegment
  explicit_segment word = record { explicit_word = word; symbolic_power = none }

  abbrev pub symbolic_segment : PathWord → Exponent → ExactPathPrefixSegment
  symbolic_segment root exponent = record {
    explicit_word = [];
    symbolic_power = some (record { root = root; exponent = exponent });
  }

  -- `LoopPathExpressionState::append`, on the prefix
  unfoldable pub append : List ExactPathPrefixSegment → PathSymbol → List ExactPathPrefixSegment
  append [] symbol = explicit_segment (symbol ∷ []) ∷ []
  append (back ∷ []) symbol = elim back.symbolic_power [
    | some power ↦ back ∷ explicit_segment (symbol ∷ []) ∷ []
    | none ↦ record back { explicit_word = back.explicit_word ++ symbol ∷ [] } ∷ []
  ]
  append (first ∷ second ∷ prefix) symbol = first ∷ append (second ∷ prefix) symbol

  -- `LoopPathExpressionState::append_symbolic_power`, on the prefix
  unfoldable pub append_symbolic_power :
      List ExactPathPrefixSegment → PathWord → Exponent → List ExactPathPrefixSegment
  append_symbolic_power prefix root exponent = prefix ++ symbolic_segment root exponent ∷ []

  -- `LoopPathExpressionState::concrete_frontier`
  unfoldable pub concrete_frontier : List ExactPathPrefixSegment → PathWord
  concrete_frontier [] = []
  concrete_frontier (back ∷ []) = elim back.symbolic_power [
    | some power ↦ []
    | none ↦ back.explicit_word
  ]
  concrete_frontier (first ∷ second ∷ prefix) = concrete_frontier (second ∷ prefix)
