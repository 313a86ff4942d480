-- ===== src/Memory/Stack.antt =====
-- lib/MStack.{h,cpp}: frames with their temporaries, and the objects on the stack. `std::stack` is a list
-- with the top first. What is undefined in C++ (no frame, an object that is not there, an address that is
-- no numeral) is `none`.
pub mod Frames
use arith_exe.Prelude.{
  ℕ, zero, suc, ◌+◌, Bool, true, false, Option, none, some, List, [], ◌∷◌, ◌++◌, map, if◌then◌else◌,
  length, take, drop, get_elem?, set, ◌>>=◌,
}
use arith_exe.Prelude.Int.{ℤ, pos, negsuc}
use arith_exe.Z3.{Z3}
use arith_exe.Expression.{Expression, plain, as_expr}
use arith_exe.Session.Maps.{find, insert_or_assign}
use arith_exe.Memory.{Program, Location, Address}
use arith_exe.Memory.Object.{MemoryObject, is_array, read_at, write_at, has_value}

module _ (Z : Z3) (P : Program Z) where
  open Z use {Expr}

  pub record StackFrame : Type 0 where
    pub prev_pc : Option P.Instruction
    pub base : Expression Z
    pub temp_objects : List (P.Symbol × MemoryObject Z P)
    pub func : Option P.Function

  pub record MStack : Type 0 where
    pub frames : List StackFrame
    pub objects : List (MemoryObject Z P)
    pub value_counter : List (P.Symbol × ℕ)

  -- `as_expr().get_numeral_int()`, for an index into a vector
  abbrev pub index_of : Expression Z → Option ℕ
  index_of e = elim (Z.numeral (as_expr Z P.nothing e)) [
    | none ↦ none
    | some (pos n) ↦ some n
    | some (negsuc n) ↦ none
  ]

  abbrev pub numeral_of : ℕ → Expression Z
  numeral_of n = plain Z (Z.int_val (pos n))

  unfoldable pub push_frame : Option P.Function → MStack → MStack
  push_frame func s = record s {
    frames =
        record {
          prev_pc = none;
          base = numeral_of (length s.objects);
          temp_objects = [];
          func = func;
        }
        ∷ s.frames;
  }

  abbrev pub top_frame : MStack → Option StackFrame
  top_frame s = get_elem? s.frames 0

  -- The objects from the top frame's base on are dropped, then the frame.
  unfoldable pub pop_frame : MStack → Option MStack
  pop_frame s = elim s.frames [
    | [] ↦ none
    | frame ∷ frames ↦ elim (index_of frame.base) [
      | none ↦ none
      | some base ↦ some (record s { frames = frames; objects = take base s.objects })
    ]
  ]

  unfoldable pub get_top_objects : MStack → Option (List (MemoryObject Z P))
  get_top_objects s = do frame ← top_frame s; base ← index_of frame.base; some (drop base s.objects)

  abbrev pub temp_value : P.Symbol → Expression Z → MemoryObject Z P
  temp_value symbol value = record {
    llvm_value = symbol;
    addr = record { loc = Location.stack; base = value; offset = [] };
    value = value;
    ptr_value = none;
    indices = [];
    sizes = [];
  }

  abbrev pub temp_pointer : P.Symbol → Address Z → MemoryObject Z P
  temp_pointer symbol ptr_value = record {
    llvm_value = symbol;
    addr = record { loc = Location.stack; base = []; offset = [] };
    value = [];
    ptr_value = some ptr_value;
    indices = [];
    sizes = [];
  }

  -- `StackFrame::put_temp` on the top frame
  abbrev pub put_object : P.Symbol → MemoryObject Z P → MStack → Option MStack
  put_object symbol o s = elim s.frames [
    | [] ↦ none
    | frame ∷ frames ↦ some (record s {
      frames =
          record frame { temp_objects = insert_or_assign P.same_symbol frame.temp_objects symbol o }
          ∷ frames;
    })
  ]

  unfoldable pub put_temp : P.Symbol → Expression Z → MStack → Option MStack
  put_temp symbol value s = put_object symbol (temp_value symbol value) s

  unfoldable pub put_temp_pointer : P.Symbol → Address Z → MStack → Option MStack
  put_temp_pointer symbol ptr_value s = put_object symbol (temp_pointer symbol ptr_value) s

  -- the index constants from the `i`th on, one for each dimension
  abbrev pub index_constants : (ℕ → Expr) → ℕ → List Expr → List Expr
  index_constants constant i [] = []
  index_constants constant i (dim ∷ dims) = constant i ∷ index_constants constant (i + 1) dims

  -- the sizes that are numerals
  abbrev pub numeral_sizes : List Expr → List (Expression Z)
  numeral_sizes [] = []
  numeral_sizes (dim ∷ dims) =
      if has_value (Z.numeral dim) then plain Z dim ∷ numeral_sizes dims else numeral_sizes dims

  -- `value_counter[value]++`
  abbrev pub counted : P.Symbol → MStack → ℕ
  counted symbol s = elim (find P.same_symbol s.value_counter symbol) [ none ↦ 0 | some n ↦ n ]

  abbrev pub stack_address : ℕ → Address Z
  stack_address id = record { loc = Location.stack; base = numeral_of id; offset = [] }

  abbrev pub stack_object : P.Symbol → List Expr → MStack → MemoryObject Z P
  stack_object symbol dims s = record {
    llvm_value = symbol;
    addr = stack_address (length s.objects);
    value =
        plain Z (P.undef_value symbol (counted symbol s) (index_constants P.array_index 0 dims));
    ptr_value = none;
    indices = index_constants P.array_index 0 dims;
    sizes = numeral_sizes dims;
  }

  unfoldable pub allocate : P.Symbol → List Expr → MStack → Option MStack
  unfolding put_temp_pointer
  allocate symbol dims s = put_temp_pointer symbol (stack_address (length s.objects)) (record s {
    objects = s.objects ++ stack_object symbol dims s ∷ [];
    value_counter = insert_or_assign P.same_symbol s.value_counter symbol (counted symbol s + 1);
  })

  -- `std::find_if` on the LLVM value
  abbrev pub object_of : P.Symbol → List (MemoryObject Z P) → Option (MemoryObject Z P)
  object_of symbol [] = none
  object_of symbol (o ∷ objects) =
      if P.same_symbol o.llvm_value symbol then some o else object_of symbol objects

  -- `get_object(v)`, none for a null pointer: a temporary of the top frame first. Without a frame, where
  -- `frames.top()` is undefined, it is none too.
  unfoldable pub stack_object_of : P.Symbol → MStack → Option (MemoryObject Z P)
  stack_object_of symbol s = elim s.frames [
    | [] ↦ none
    | frame ∷ frames ↦ elim (find P.same_symbol frame.temp_objects symbol) [
      | some o ↦ some o
      | none ↦ object_of symbol s.objects
    ]
  ]

  -- `get_object(addr)`
  unfoldable pub stack_object_at : Address Z → MStack → Option (MemoryObject Z P)
  stack_object_at addr s = do base ← index_of addr.base; get_elem? s.objects base

  unfoldable pub load : Address Z → MStack → Option (Expression Z)
  unfolding stack_object_at
  load addr s = do o ← stack_object_at addr s; some (read_at Z P o addr.offset)

  unfoldable pub store : Address Z → Expression Z → MStack → Option MStack
  store addr value s = do
    base ← index_of addr.base
    o ← get_elem? s.objects base
    o' ← write_at Z P o addr.offset value
    some (record s { objects = set s.objects base o' })

  abbrev pub arrays_among : List (MemoryObject Z P) → List (MemoryObject Z P)
  arrays_among [] = []
  arrays_among (o ∷ objects) =
      if is_array Z P o then o ∷ arrays_among objects else arrays_among objects

  unfoldable pub stack_arrays : MStack → List (MemoryObject Z P)
  stack_arrays s = arrays_among s.objects
