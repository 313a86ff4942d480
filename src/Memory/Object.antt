-- ===== src/Memory/Object.antt =====
-- lib/MemoryObject.{h,cpp}. The name, the signedness and the constraints of an object are left out: they
-- are not changed by reads and writes.
pub mod ReadWrite
use arith_exe.Prelude.{
  ℕ, zero, suc, Bool, true, false, not, ◌&&◌, ◌||◌, Option, none, some, List, [], ◌∷◌, map,
  if◌then◌else◌, length, ◌>>=◌,
}
use arith_exe.Prelude.Int.{ℤ, pos}
use arith_exe.Z3.{Z3}
use arith_exe.Expression.{Expression, plain, as_expr, push_front, subs}
use arith_exe.Memory.{Program, Address}

abbrev pub has_value {ℓ} : {A : Type ℓ} → Option A → Bool
has_value none = false
has_value (some a) = true

abbrev pub is_empty {ℓ} : {A : Type ℓ} → List A → Bool
is_empty [] = true
is_empty (x ∷ xs) = false

module _ (Z : Z3) (P : Program Z) where
  open Z use {Expr}

  pub record MemoryObject : Type 0 where
    pub llvm_value : P.Symbol
    pub addr : Address Z
    pub value : Expression Z
    pub ptr_value : Option (Address Z)
    pub indices : List Expr
    pub sizes : List (Expression Z)

  unfoldable pub is_pointer : MemoryObject → Bool
  is_pointer o = has_value o.ptr_value

  unfoldable pub is_scalar : MemoryObject → Bool
  unfolding is_pointer
  is_scalar o = not (is_pointer o) && is_empty o.indices

  unfoldable pub is_array : MemoryObject → Bool
  unfolding is_scalar is_pointer
  is_array o = not (is_pointer o) && not (is_scalar o)

  abbrev pub zeros : List (Expression Z) → List (Expression Z)
  zeros [] = []
  zeros (s ∷ sizes) = plain Z (Z.int_val (pos 0)) ∷ zeros sizes

  -- The index that is meant: zero in each dimension if none is given.
  abbrev pub full_index : MemoryObject → List (Expression Z) → List (Expression Z)
  full_index o index = if is_empty index then zeros o.sizes else index

  -- `read(index)`; the assertion on the number of indices is left out.
  unfoldable pub read_at : MemoryObject → List (Expression Z) → Expression Z
  read_at o index = subs Z P.nothing o.value o.indices (full_index o index)

  -- `read()`
  unfoldable pub read : MemoryObject → Expression Z
  unfolding read_at
  read o = read_at o (zeros o.sizes)

  -- `write(v)`
  unfoldable pub write : MemoryObject → Expression Z → MemoryObject
  write o v = record o { value = v }

  -- `new_condition`, with what was there before
  abbrev pub index_condition : Expr → List Expr → List (Expression Z) → Expr
  index_condition condition [] index = condition
  index_condition condition (i ∷ indices) [] = condition
  index_condition condition (i ∷ indices) (e ∷ index) =
      index_condition (Z.conj condition (Z.equal i (as_expr Z P.nothing e))) indices index

  -- `write(index, v)`; `simplify` may throw.
  unfoldable pub write_at : MemoryObject → List (Expression Z) → Expression Z → Option MemoryObject
  write_at o index v = do
    value ←
        push_front Z P.nothing (index_condition (Z.bool_val true) o.indices (full_index o index)) v
          o.value
    some (record o { value = value })
