-- ===== src/Memory/Checks.antt =====
-- Runs of lib/MemoryObject.cpp, lib/MStack.cpp and lib/Memory.cpp, and the theorems about them there.
use arith_exe.Prelude.{ℕ, ◌≡◌, refl, true, false, ◌==◌, none, some, [], ◌∷◌}
use arith_exe.Prelude.Int.{pos}
use arith_exe.Z3.{Value, integer}
use arith_exe.Z3.Samples.{number}
use arith_exe.Z3.Variable.{one_variable, one_variable_laws, x}
use arith_exe.Session.Maps.{find}
use arith_exe.Logic.Cases.{piecewise2ite}
use arith_exe.Logic.Cnf.{is_atom, simplify}
use arith_exe.Expression.{Expression, plain, as_expr}
use arith_exe.Expression.Meaning.{Means}
use arith_exe.Memory.{Program, Location, Address}
use arith_exe.Memory.Object.{MemoryObject, is_scalar, write, read_at, write_at}
use arith_exe.Memory.Object.ReadWrite.{read_at-write_at}
use arith_exe.Memory.Stack.{MStack, stack_object_of, push_frame}
use arith_exe.Memory.Stack.Frames.{
  finished, allocating, assigning, calling, Restores, Restores-call,
}
use arith_exe.Memory.Heap.{
  Memory, heap_alloca, heap_object, heap_variable, get_object, get_object_pointed_by, heap_address,
  object_at, store,
}
use arith_exe.Memory.Heap.Access.{
  Stored, object_at-store, get_object-heap_alloca, get_object_pointed_by-heap_alloca,
}

abbrev program : Program one_variable
program = record {
  Symbol = ℕ;
  same_symbol = λ a b. a == b;
  Function = ℕ;
  Instruction = ℕ;
  nothing = number (pos 0);
  array_index = λ i. x;
  heap_index = λ i. x;
  undef_value = λ symbol n indices. number (pos 0);
  heap_value = λ symbol indices. number (pos 0);
}

abbrev numeral : ℕ → Expression one_variable
numeral n = plain one_variable (number (pos n))

abbrev at : ℕ → Value
at n = integer (pos n)

-- An array of two elements, all 5.
abbrev array : MemoryObject one_variable program
array = record {
  llvm_value = 7;
  addr = record { loc = Location.stack; base = numeral 0; offset = [] };
  value = numeral 5;
  ptr_value = none;
  indices = x ∷ [];
  sizes = numeral 2 ∷ [];
}

-- 8 is written at index 1, and index 0 is read.
read_at-write_at_example :
    (o : MemoryObject one_variable program) × (write_at one_variable program array
        (numeral 1 ∷ [])
        (numeral 8)
      ≡ some o)
    × Means one_variable (at 0) (read_at one_variable program o (numeral 0 ∷ [])) (at 5) true
unfolding as_expr piecewise2ite simplify is_atom
read_at-write_at_example =
    read_at-write_at one_variable one_variable_laws program (at 0) array (numeral 1 ∷ [])
      (numeral 0 ∷ []) (numeral 8) (λ m. refl) refl (at 8) (at 5) true true ((_, refl, refl), tt)
      (refl, ((λ h. (refl, refl)), tt)) (refl, ((λ h. (refl, refl)), tt))

abbrev empty_stack : MStack one_variable program
empty_stack = record { frames = []; objects = []; value_counter = [] }

-- A call that allocates, and calls a function that allocates the same symbol and assigns another.
Restores-call_example :
    Restores one_variable program one_variable_laws
      (some 1)
      (allocating 3 []
        (calling (some 2) (allocating 3 [] (assigning 4 (numeral 6) finished)) finished))
      (push_frame one_variable program none empty_stack)
Restores-call_example =
    Restores-call one_variable program one_variable_laws (some 1)
      (allocating 3 []
        (calling (some 2) (allocating 3 [] (assigning 4 (numeral 6) finished)) finished))
      (push_frame one_variable program none empty_stack)

-- One frame, with the array on the stack, and nothing on the heap.
abbrev first_memory : Memory one_variable program
first_memory = record {
  m_stack = record empty_stack {
    frames = record { prev_pc = none; base = numeral 0; temp_objects = []; func = some 1 } ∷ [];
    objects = array ∷ [];
  };
  m_objects = [];
  m_variables = [];
}

abbrev one_cell : Memory one_variable program
one_cell = record first_memory {
  m_objects = heap_object one_variable program 9 [] first_memory ∷ [];
}

abbrev first_cell : Address one_variable
first_cell = heap_address one_variable program 0

-- A scalar on the heap is overwritten.
object_at-store_example :
    Stored one_variable program first_cell false 0
      (write one_variable program (heap_object one_variable program 9 [] first_memory) (numeral 4))
      one_cell
      (store one_variable program first_cell (numeral 4) one_cell)
unfolding object_at is_scalar as_expr piecewise2ite
object_at-store_example =
    object_at-store one_variable program first_cell (numeral 4) one_cell false 0
      (heap_object one_variable program 9 [] first_memory)
      (write one_variable program (heap_object one_variable program 9 [] first_memory) (numeral 4))
      (refl, refl) refl refl

get_object-heap_alloca_example :
    get_object one_variable program 9 (heap_alloca one_variable program 9 [] first_memory)
    ≡ some (heap_variable one_variable program 9 [] first_memory)
unfolding get_object stack_object_of find
get_object-heap_alloca_example = get_object-heap_alloca one_variable program 9 9 [] first_memory

get_object_pointed_by-heap_alloca_example :
    get_object_pointed_by one_variable program 9
      (heap_alloca one_variable program 9 [] first_memory)
    ≡ some (heap_object one_variable program 9 [] first_memory)
unfolding get_object stack_object_of find
get_object_pointed_by-heap_alloca_example =
    get_object_pointed_by-heap_alloca one_variable program one_variable_laws 9 [] first_memory refl
      refl
