-- ===== src/Memory/Heap/Access.antt =====
-- lib/Memory.cpp: what a store and an allocation on the heap change.
use arith_exe.Prelude.{
  ℕ, zero, suc, ◌<◌, ◌≡◌, refl, sym, subst, ap, ◌∙◌, ◌≢◌, ◌⊎◌, inl, inr, Bool, true, false, Option,
  none, some, List, [], ◌∷◌, ◌++◌, length, get_elem?, set, get_elem?-set_self, get_elem?-set_ne,
  if◌then◌else◌, ◌>>=◌, Bool-cases, Option-cases, arith,
}
use arith_exe.Z3.{Z3, Z3Laws}
use arith_exe.Expression.{Expression}
use arith_exe.Memory.{Program, Location, Address}
use arith_exe.Memory.Object.{MemoryObject, is_array, is_scalar, write, write_at}
use arith_exe.Memory.Stack.{index_of, object_of, stack_object_of, stack_object_at}
use arith_exe.Memory.Stack.Frames.{index_of-numeral_of}
use arith_exe.Memory.Heap.{
  Memory, heap_address, heap_object, heap_variable, heap_alloca, get_object, object_at,
  get_object_pointed_by, put_object_at, store,
}

module _ (Z : Z3) (P : Program Z) where
  -- The vector that an address is about: the global objects stand on the heap.
  abbrev pub is_stack : Location → Bool
  is_stack Location.stack = true
  is_stack Location.heap = false
  is_stack Location.global = false

  abbrev pub objects_of : Bool → Memory Z P → List (MemoryObject Z P)
  objects_of true m = m.m_stack.objects
  objects_of false m = m.m_objects

  -- An address is the place of an object: the vector, and the index there.
  abbrev pub IsPlace : Address Z → Bool → ℕ → Type 0
  IsPlace addr on_stack i = (is_stack addr.loc ≡ on_stack) × (index_of Z P addr.base ≡ some i)

  object_at_lem :
      (addr : Address Z) (on_stack : Bool) (i : ℕ) (m : Memory Z P)
      → IsPlace addr on_stack i
      → object_at Z P addr m ≡ get_elem? (objects_of on_stack m) i
  unfolding object_at stack_object_at
  object_at_lem addr on_stack i m (here, index) = by_location addr.loc here
    where
      by_location :
          (loc : Location)
          → is_stack loc ≡ on_stack
          → object_at Z P (record addr { loc = loc }) m ≡ get_elem? (objects_of on_stack m) i
      by_location Location.stack h = rw (sym h, index) refl
      by_location Location.heap h = rw (sym h, index) refl
      by_location Location.global h = rw (sym h, index) refl

  -- What a store makes of the object.
  abbrev pub updated :
      MemoryObject Z P → List (Expression Z) → Expression Z → Option (MemoryObject Z P)
  updated o offset val =
      if is_scalar Z P o
      then some (write Z P o val)
      else if is_array Z P o
      then write_at Z P o offset val
      else some o

  -- The memory with another object at a place.
  abbrev with_object : Bool → ℕ → MemoryObject Z P → Memory Z P → Memory Z P
  with_object true i o m = record m {
    m_stack = record m.m_stack { objects = set m.m_stack.objects i o };
  }
  with_object false i o m = record m { m_objects = set m.m_objects i o }

  put_object_at_lem :
      (target : Address Z) (b : Bool) (i : ℕ) (o : MemoryObject Z P) (m : Memory Z P)
      → IsPlace target b i
      → put_object_at Z P target o m ≡ some (with_object b i o m)
  put_object_at_lem target b i o m (here, index) = by_location target.loc here
    where
      by_location :
          (loc : Location)
          → is_stack loc ≡ b
          → put_object_at Z P (record target { loc = loc }) o m ≡ some (with_object b i o m)
      by_location Location.stack h = rw (sym h, index) refl
      by_location Location.heap h = rw (sym h, index) refl
      by_location Location.global h = rw (sym h, index) refl

  get_elem?-bound :
      {A : Type 0} (xs : List A) (i : ℕ) (x : A) → get_elem? xs i ≡ some x → i < length xs
  get_elem?-bound [] i x h = cc
  get_elem?-bound (y ∷ xs) zero x h = omega arith
  get_elem?-bound (y ∷ xs) (suc i) x h = omega (arith, get_elem?-bound xs i x h)

  objects_of-same :
      (b : Bool) (i : ℕ) (o : MemoryObject Z P) (m : Memory Z P)
      → objects_of b (with_object b i o m) ≡ set (objects_of b m) i o
  objects_of-same true i o m = refl
  objects_of-same false i o m = refl

  objects_of-other :
      (b c : Bool) (i : ℕ) (o : MemoryObject Z P) (m : Memory Z P)
      → c ≢ b
      → objects_of c (with_object b i o m) ≡ objects_of c m
  objects_of-other true true i o m h = absurd (h refl)
  objects_of-other true false i o m h = refl
  objects_of-other false true i o m h = refl
  objects_of-other false false i o m h = absurd (h refl)

  -- What a store leaves behind, given the object's new state.
  abbrev pub Stored :
      Address Z → Bool → ℕ → MemoryObject Z P → Memory Z P → Option (Memory Z P) → Type 0
  Stored target b i o' m result =
      (m' : Memory Z P) × (result ≡ some m')
      × (object_at Z P target m' ≡ some o')
      × ((other : Address Z) (c : Bool) (j : ℕ)
          → IsPlace other c j
          → ((c ≢ b) ⊎ (j ≢ i))
          → object_at Z P other m' ≡ object_at Z P other m)

  Stored-put_object_at :
      (target : Address Z) (b : Bool) (i : ℕ) (o o' : MemoryObject Z P) (m : Memory Z P)
      → IsPlace target b i
      → object_at Z P target m ≡ some o
      → Stored target b i o' m (put_object_at Z P target o' m)
  Stored-put_object_at target b i o o' m place found = (
    with_object b i o' m,
    put_object_at_lem target b i o' m place,
    object_at_lem target b i (with_object b i o' m) place
        ∙ ap (λ os. get_elem? os i) (objects_of-same b i o' m)
        ∙ get_elem?-set_self (objects_of b m) i o'
            (get_elem?-bound (objects_of b m) i o (sym (object_at_lem target b i m place) ∙ found)),
    kept,
  )
    where
      same_vector :
          (c : Bool) (j : ℕ)
          → ((c ≢ b) ⊎ (j ≢ i))
          → get_elem? (objects_of c (with_object b i o' m)) j ≡ get_elem? (objects_of c m) j
      same_vector c j (inl h) = ap (λ os. get_elem? os j) (objects_of-other b c i o' m h)
      same_vector true j (inr h) = elim (Bool-cases b) [
        | inl e ↦ rw e (get_elem?-set_ne m.m_stack.objects o' (λ k. h (sym k)))
        | inr e ↦ rw e refl
      ]
      same_vector false j (inr h) = elim (Bool-cases b) [
        | inl e ↦ rw e refl
        | inr e ↦ rw e (get_elem?-set_ne m.m_objects o' (λ k. h (sym k)))
      ]

      kept :
          (other : Address Z) (c : Bool) (j : ℕ)
          → IsPlace other c j
          → ((c ≢ b) ⊎ (j ≢ i))
          → object_at Z P other (with_object b i o' m) ≡ object_at Z P other m
      kept other c j at apart =
          object_at_lem other c j (with_object b i o' m) at
          ∙ same_vector c j apart
          ∙ sym (object_at_lem other c j m at)

  -- A store succeeds where the object can be updated: afterwards the updated object is at the
  -- address, and all other places of the stack and the heap have the objects they had.
  pub object_at-store :
      (target : Address Z) (val : Expression Z) (m : Memory Z P) (b : Bool) (i : ℕ)
      (o o' : MemoryObject Z P)
      → IsPlace target b i
      → object_at Z P target m ≡ some o
      → updated o target.offset val ≡ some o'
      → Stored target b i o' m (store Z P target val m)
  unfolding store
  object_at-store target val m b i o o' place found update = rw found (
      by_kind (is_scalar Z P o) (is_array Z P o) (write Z P o val)
        (write_at Z P o target.offset val) update)
    where
      put : (w : MemoryObject Z P) → w ≡ o' → Stored target b i o' m (put_object_at Z P target w m)
      put w e =
          subst (λ v. Stored target b i v m (put_object_at Z P target w m)) e
            (Stored-put_object_at target b i o w m place found)

      by_kind :
          (scalar array : Bool) (w : MemoryObject Z P) (written : Option (MemoryObject Z P))
          → (if scalar then some w else if array then written else some o) ≡ some o'
          → Stored target b i o' m (
              if scalar
              then put_object_at Z P target w m
              else if array
              then (written >>= λ w'. put_object_at Z P target w' m)
              else some m)
      by_kind true array w written h = put w cc
      by_kind false true w none h = cc
      by_kind false true w (some w') h = put w' cc
      by_kind false false w written h = (m, refl, found ∙ h, λ other c j at apart. refl)

  object_of-append :
      (symbol : P.Symbol) (o : MemoryObject Z P) (os : List (MemoryObject Z P))
      → object_of Z P symbol (os ++ o ∷ [])
        ≡ elim (object_of Z P symbol os) as (λ x. Option (MemoryObject Z P)) [
          | some found ↦ some found
          | none ↦ if P.same_symbol o.llvm_value symbol then some o else none
        ]
  object_of-append symbol o [] = refl
  object_of-append symbol o (x ∷ os) = elim (Bool-cases (P.same_symbol x.llvm_value symbol)) [
    | inl h ↦ rw h refl
    | inr h ↦ rw h (object_of-append symbol o os)
  ]

  get_elem?-append :
      {A : Type 0} (xs : List A) (x : A) → get_elem? (xs ++ x ∷ []) (length xs) ≡ some x
  get_elem?-append [] x = refl
  get_elem?-append (y ∷ xs) x = get_elem?-append xs x

  -- After an allocation on the heap, a symbol that had an object has it still, also the symbol of the
  -- allocation; one that had none has the new variable if it equals that symbol, and none else.
  pub get_object-heap_alloca :
      (symbol other : P.Symbol) (dims : List Z.Expr) (m : Memory Z P)
      → get_object Z P other (heap_alloca Z P symbol dims m) ≡ elim (get_object Z P other m) [
        | some o ↦ some o
        | none ↦ if P.same_symbol symbol other then some (heap_variable Z P symbol dims m) else none
      ]
  unfolding get_object heap_alloca
  get_object-heap_alloca symbol other dims m =
      elim (Option-cases (stack_object_of Z P other m.m_stack)) [
        | inl h ↦
            rw (get_object, heap_alloca, h)
              (object_of-append other (heap_variable Z P symbol dims m) m.m_variables)
        | inr (o, h) ↦ rw (get_object, heap_alloca, h) refl
      ]

  -- After an allocation on the heap for a symbol that had no object and equals itself, the symbol
  -- points to the new object, which is behind all others.
  pub get_object_pointed_by-heap_alloca :
      (laws : Z3Laws Z) (symbol : P.Symbol) (dims : List Z.Expr) (m : Memory Z P)
      → P.same_symbol symbol symbol ≡ true
      → get_object Z P symbol m ≡ none
      → get_object_pointed_by Z P symbol (heap_alloca Z P symbol dims m)
        ≡ some (heap_object Z P symbol dims m)
  unfolding get_object_pointed_by heap_alloca
  get_object_pointed_by-heap_alloca laws symbol dims m same fresh =
      rw (get_object-heap_alloca symbol symbol dims m, fresh, same)
        (object_at_lem (heap_address Z P (length m.m_objects)) false (length m.m_objects)
            (heap_alloca Z P symbol dims m)
            (refl, index_of-numeral_of Z P laws (length m.m_objects))
          ∙ get_elem?-append m.m_objects (heap_object Z P symbol dims m))
