-- ===== src/Session/Symbols.antt =====
-- lib/SymbolTable.h: values of LLVM's symbols. Symbols and their equality are parameters.
use arith_exe.Prelude.{Bool, Option, none, some, List}
use arith_exe.Session.Maps.{find, insert_or_assign}

module _ {Symbol : Type 0} (Value : Type 0) (same_symbol : Symbol → Symbol → Bool) where
  pub record SymbolTable : Type 0 where
    pub variables : List (Symbol × Value)

  unfoldable pub get_value : SymbolTable → Symbol → Option Value
  get_value t symbol = find same_symbol t.variables symbol

  -- `SymbolTable::insert_or_assign`
  unfoldable pub assign : SymbolTable → Symbol → Value → SymbolTable
  assign t symbol value = record {
    variables = insert_or_assign same_symbol t.variables symbol value;
  }

  -- none at the failed assertion, for a symbol that is not there
  unfoldable pub update_variable : SymbolTable → Symbol → Value → Option SymbolTable
  unfolding assign
  update_variable t symbol value = elim (find same_symbol t.variables symbol) [
    | none ↦ none
    | some old ↦ some (assign t symbol value)
  ]
