-- ===== src/Memory/Heap.antt =====
-- lib/Memory.{h,cpp}: the stack, and the objects and variables on the heap. The identifiers of
-- `next_id` are never used. `add_global`, which reads LLVM initializers, is left out.
pub mod Access
use arith_exe.Prelude.{
  ℕ, zero, suc, ◌+◌, Bool, true, false, Option, none, some, List, [], ◌∷◌, ◌++◌, map, if◌then◌else◌,
  length, get_elem?, set, ◌>>=◌,
}
use arith_exe.Prelude.Int.{ℤ, pos, negsuc}
use arith_exe.Z3.{Z3}
use arith_exe.Expression.{Expression, from_expr, plain, as_expr}
use arith_exe.Memory.{Program, Location, Address}
use arith_exe.Memory.Object.{
  MemoryObject, is_array, is_scalar, is_pointer, write, write_at, has_value,
}
use arith_exe.Memory.Stack.{
  MStack, index_of, numeral_of, get_top_objects, index_constants, object_of, stack_object_of,
  stack_object_at, stack_arrays, arrays_among,
}

module _ (Z : Z3) (P : Program Z) where
  open Z use {Expr}

  pub record Memory : Type 0 where
    pub m_stack : MStack Z P
    pub m_objects : List (MemoryObject Z P)
    pub m_variables : List (MemoryObject Z P)

  abbrev sizes_of : List Expr → List (Expression Z)
  sizes_of [] = []
  sizes_of (dim ∷ dims) = from_expr Z dim ∷ sizes_of dims

  abbrev pub heap_address : ℕ → Address Z
  heap_address id = record { loc = Location.heap; base = numeral_of Z P id; offset = [] }

  abbrev pub heap_object : P.Symbol → List Expr → Memory → MemoryObject Z P
  heap_object symbol dims m = record {
    llvm_value = symbol;
    addr = heap_address (length m.m_objects);
    value = plain Z (P.heap_value symbol (index_constants Z P P.heap_index 0 dims));
    ptr_value = none;
    indices = index_constants Z P P.heap_index 0 dims;
    sizes = sizes_of dims;
  }

  abbrev pub heap_variable : P.Symbol → List Expr → Memory → MemoryObject Z P
  heap_variable symbol dims m = record {
    llvm_value = symbol;
    addr = heap_address (length m.m_variables);
    value = [];
    ptr_value = some (heap_address (length m.m_objects));
    indices = index_constants Z P P.heap_index 0 dims;
    sizes = sizes_of dims;
  }

  unfoldable pub heap_alloca : P.Symbol → List Expr → Memory → Memory
  heap_alloca symbol dims m = record m {
    m_objects = m.m_objects ++ heap_object symbol dims m ∷ [];
    m_variables = m.m_variables ++ heap_variable symbol dims m ∷ [];
  }

  -- `get_object(value)`
  unfoldable pub get_object : P.Symbol → Memory → Option (MemoryObject Z P)
  get_object symbol m = elim (stack_object_of Z P symbol m.m_stack) [
    | some o ↦ some o
    | none ↦ object_of Z P symbol m.m_variables
  ]

  -- `get_object(addr)`
  unfoldable pub object_at : Address Z → Memory → Option (MemoryObject Z P)
  object_at addr m = elim addr.loc [
    | Location.stack ↦ stack_object_at Z P addr m.m_stack
    | Location.heap ↦ (index_of Z P addr.base >>= λ base. get_elem? m.m_objects base)
    | Location.global ↦ (index_of Z P addr.base >>= λ base. get_elem? m.m_objects base)
  ]

  unfoldable pub get_object_pointed_by : P.Symbol → Memory → Option (MemoryObject Z P)
  unfolding get_object object_at
  get_object_pointed_by symbol m = do
    o ← get_object symbol m
    elim o.ptr_value [ none ↦ none | some addr ↦ object_at addr m ]

  -- An assignment through the pointer that `get_object(addr)` gives.
  abbrev pub put_object_at : Address Z → MemoryObject Z P → Memory → Option Memory
  put_object_at addr o m = do
    base ← index_of Z P addr.base
    some (elim addr.loc [
      | Location.stack ↦ record m {
        m_stack = record m.m_stack { objects = set m.m_stack.objects base o };
      }
      | Location.heap ↦ record m { m_objects = set m.m_objects base o }
      | Location.global ↦ record m { m_objects = set m.m_objects base o }
    ])

  -- A scalar is overwritten, an array changed at the offset; a pointer is reported and left.
  unfoldable pub store : Address Z → Expression Z → Memory → Option Memory
  unfolding object_at
  store target val m = do
    o ← object_at target m
    if is_scalar Z P o
        then put_object_at target (write Z P o val) m
        else if is_array Z P o
        then (write_at Z P o target.offset val >>= λ o'. put_object_at target o' m)
        else some m

  unfoldable pub get_arrays : Memory → List (MemoryObject Z P)
  get_arrays m = stack_arrays Z P m.m_stack ++ arrays_among Z P m.m_objects

  unfoldable pub get_accessible_objects : Memory → Option (List (MemoryObject Z P))
  get_accessible_objects m = do
    objects ← get_top_objects Z P m.m_stack
    some (objects ++ m.m_objects)
