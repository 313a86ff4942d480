-- ===== src/Memory.antt =====
-- lib/MemoryObject.{h,cpp}, lib/MStack.{h,cpp} and lib/Memory.{h,cpp}: the memory of a state.
pub mod Object
pub mod Stack
pub mod Heap
mod Checks
use arith_exe.Prelude.{ℕ, Bool, List, Option}
use arith_exe.Z3.{Z3}
use arith_exe.Expression.{Expression}

-- What the memory takes from LLVM and from the naming of Z3 symbols.
pub record Program (Z : Z3) : Type 1 where
  -- `llvm::Value*`
  pub Symbol : Type 0
  pub same_symbol : Symbol → Symbol → Bool
  -- `llvm::Function*` and `AInstruction*`
  pub Function : Type 0
  pub Instruction : Type 0
  -- the value of an empty vector of cases
  pub nothing : Z.Expr
  -- `AnalysisManager::get_ith_array_index(i)`, and the constant "i<i>"
  pub array_index : ℕ → Z.Expr
  pub heap_index : ℕ → Z.Expr
  -- the function of a stack object, by the number of the objects that its value had before, and of a
  -- heap object, applied to the indices
  pub undef_value : Symbol → ℕ → List Z.Expr → Z.Expr
  pub heap_value : Symbol → List Z.Expr → Z.Expr

pub data Location : Type 0 where
  stack heap global : Location

module _ (Z : Z3) where
  -- `MemoryAddress_ty`
  pub record Address : Type 0 where
    pub loc : Location
    pub base : Expression Z
    pub offset : List (Expression Z)
