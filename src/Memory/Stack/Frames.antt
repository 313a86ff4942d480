-- ===== src/Memory/Stack/Frames.antt =====
-- lib/MStack.cpp: what a call leaves behind on the stack.
use arith_exe.Prelude.{
  ℕ, ◌+◌, ◌≡◌, refl, sym, ap, ap₂, ◌∙◌, Option, some, List, [], ◌∷◌, ◌++◌, append-nil, append_assoc,
  length, take, ◌>>=◌,
}
use arith_exe.Prelude.Int.{pos}
use arith_exe.Z3.{Z3, Z3Laws}
use arith_exe.Logic.Cases.{piecewise2ite}
use arith_exe.Expression.{Expression, as_expr}
use arith_exe.Session.Maps.{insert_or_assign}
use arith_exe.Memory.{Program, Address}
use arith_exe.Memory.Object.{MemoryObject}
use arith_exe.Memory.Stack.{
  StackFrame, MStack, index_of, numeral_of, push_frame, pop_frame, put_object, put_temp,
  put_temp_pointer, temp_value, temp_pointer, stack_object, stack_address, allocate, counted,
}

module _ (Z : Z3) (P : Program Z) where
  -- What the instructions of a function do with the stack, calls of other functions included. Writes to
  -- objects, which keep the sizes of all lists, are left out.
  pub data Actions : Type 0 where
    finished : Actions
    allocating : P.Symbol → List Z.Expr → Actions → Actions
    assigning : P.Symbol → Expression Z → Actions → Actions
    pointing : P.Symbol → Address Z → Actions → Actions
    calling : Option P.Function → Actions → Actions → Actions

  abbrev pub perform : Actions → MStack Z P → Option (MStack Z P)
  perform finished s = some s
  perform (allocating symbol dims actions) s = allocate Z P symbol dims s >>= perform actions
  perform (assigning symbol value actions) s = put_temp Z P symbol value s >>= perform actions
  perform (pointing symbol addr actions) s = put_temp_pointer Z P symbol addr s >>= perform actions
  perform (calling func body actions) s =
      (perform body (push_frame Z P func s) >>= pop_frame Z P) >>= perform actions

  -- Only temporaries of the top frame and objects behind the others are new.
  abbrev pub Extends : MStack Z P → MStack Z P → Type 0
  Extends s t =
      (frame : StackFrame Z P) × (rest : List (StackFrame Z P)) × (temps : List
        (P.Symbol × MemoryObject Z P))
      × (more : List (MemoryObject Z P)) × (s.frames ≡ frame ∷ rest)
      × (t.frames ≡ record frame { temp_objects = temps } ∷ rest)
      × (t.objects ≡ s.objects ++ more)

  Extends-trans : (s t u : MStack Z P) → Extends s t → Extends t u → Extends s u
  Extends-trans s t u (frame, rest, temps, more, before, after, objects)
        (frame', rest', temps', more', before', after', objects') =
      (
        frame,
        rest,
        temps',
        more ++ more',
        before,
        after' ∙ ap (again temps') (sym before' ∙ after),
        objects' ∙ ap (λ o. o ++ more') objects ∙ append_assoc s.objects more more',
      )
    where
      again : List (P.Symbol × MemoryObject Z P) → List (StackFrame Z P) → List (StackFrame Z P)
      again temps [] = []
      again temps (f ∷ fs) = record f { temp_objects = temps } ∷ fs

  take-append : {A : Type 0} (xs ys : List A) → take (length xs) (xs ++ ys) ≡ xs
  take-append [] ys = refl
  take-append (x ∷ xs) ys = ap (λ l. x ∷ l) (take-append xs ys)

  -- A frame is there to put temporaries in.
  abbrev pub HasFrame : MStack Z P → Type 0
  HasFrame s = (frame : StackFrame Z P) × (rest : List (StackFrame Z P)) × (s.frames ≡ frame ∷ rest)

  put_object_lem :
      (symbol : P.Symbol) (o : MemoryObject Z P) (s : MStack Z P) (frame : StackFrame Z P)
      (rest : List (StackFrame Z P))
      → s.frames ≡ frame ∷ rest
      → put_object Z P symbol o s
        ≡ some (record s {
          frames =
              record frame {
                temp_objects = insert_or_assign P.same_symbol frame.temp_objects symbol o;
              }
              ∷ rest;
        })
  put_object_lem symbol o s frame rest h = rw h refl

  -- The stack after a temporary is put.
  abbrev Puts : (MStack Z P → Option (MStack Z P)) → MStack Z P → Type 0
  Puts put s = (t : MStack Z P) × (put s ≡ some t) × Extends s t × HasFrame t

  Puts-object :
      (symbol : P.Symbol) (o : MemoryObject Z P) (s : MStack Z P)
      → HasFrame s
      → Puts (put_object Z P symbol o) s
  Puts-object symbol o s (frame, rest, h) =
      let temps = insert_or_assign P.same_symbol frame.temp_objects symbol o in
      (
        record s { frames = record frame { temp_objects = temps } ∷ rest },
        put_object_lem symbol o s frame rest h,
        (frame, rest, temps, [], h, refl, sym (append-nil s.objects)),
        (record frame { temp_objects = temps }, rest, refl),
      )

  Puts-allocate :
      (symbol : P.Symbol) (dims : List Z.Expr) (s : MStack Z P)
      → HasFrame s
      → Puts (allocate Z P symbol dims) s
  unfolding allocate put_temp_pointer
  Puts-allocate symbol dims s (frame, rest, h) =
      let o = temp_pointer Z P symbol (stack_address Z P (length s.objects)) in
      let temps = insert_or_assign P.same_symbol frame.temp_objects symbol o in
      let grown : MStack Z P = record s {
        objects = s.objects ++ stack_object Z P symbol dims s ∷ [];
        value_counter =
            insert_or_assign P.same_symbol s.value_counter symbol (counted Z P symbol s + 1);
      } in
      (
        record grown { frames = record frame { temp_objects = temps } ∷ rest },
        put_object_lem symbol o grown frame rest h,
        (frame, rest, temps, stack_object Z P symbol dims s ∷ [], h, refl, refl),
        (record frame { temp_objects = temps }, rest, refl),
      )

  module _ (laws : Z3Laws Z) where
    pub index_of-numeral_of : (n : ℕ) → index_of Z P (numeral_of Z P n) ≡ some n
    unfolding as_expr piecewise2ite
    index_of-numeral_of n = rw (index_of, laws.numeral_law (pos n)) refl

    -- What a call leaves: the frames and objects that were there before.
    abbrev pub Restores : Option P.Function → Actions → MStack Z P → Type 0
    Restores func body s =
        (t : MStack Z P) × ((perform body (push_frame Z P func s) >>= pop_frame Z P) ≡ some t)
        × (t.frames ≡ s.frames)
        × (t.objects ≡ s.objects)

    abbrev Performs : Actions → MStack Z P → Type 0
    Performs actions s = (t : MStack Z P) × (perform actions s ≡ some t) × Extends s t × HasFrame t

    Performs-after :
        (put : MStack Z P → Option (MStack Z P)) (actions : Actions) (s : MStack Z P)
        → Puts put s
        → ((t : MStack Z P) → HasFrame t → Performs actions t)
        → (u : MStack Z P) × ((put s >>= perform actions) ≡ some u) × Extends s u × HasFrame u
    Performs-after put actions s (t, found, extends, frame) further =
        let (u, performed, extends', frame') = further t frame in
        (u, rw found performed, Extends-trans s t u extends extends', frame')

    pop_frame_lem :
        (t : MStack Z P) (frame : StackFrame Z P) (rest : List (StackFrame Z P)) (base : ℕ)
        → t.frames ≡ frame ∷ rest
        → index_of Z P frame.base ≡ some base
        → pop_frame Z P t ≡ some (record t { frames = rest; objects = take base t.objects })
    unfolding pop_frame
    pop_frame_lem t frame rest base h k = rw (h, pop_frame, k) refl

    Restores-of-Performs :
        (func : Option P.Function) (body : Actions) (s : MStack Z P)
        → Performs body (push_frame Z P func s)
        → Restores func body s
    unfolding push_frame
    Restores-of-Performs func body s
          (t, found, (frame, rest, temps, more, before, after, objects), h) =
        (
          record t { frames = s.frames; objects = s.objects },
          rw found (
              pop_frame_lem t (record frame { temp_objects = temps }) rest (length s.objects) after
                (ap (index_of Z P) (sym base) ∙ index_of-numeral_of (length s.objects))
              ∙ ap₂ (λ fs os. some (record t { frames = fs; objects = os })) rest_lem
                  (ap (take (length s.objects)) objects ∙ take-append s.objects more)),
          refl,
          refl,
        )
      where
        base : numeral_of Z P (length s.objects) ≡ frame.base
        base = cc

        rest_lem : rest ≡ s.frames
        rest_lem = cc

    Puts-value :
        (symbol : P.Symbol) (value : Expression Z) (s : MStack Z P)
        → HasFrame s
        → Puts (put_temp Z P symbol value) s
    unfolding put_temp
    Puts-value symbol value s h = Puts-object symbol (temp_value Z P symbol value) s h

    Puts-pointer :
        (symbol : P.Symbol) (addr : Address Z) (s : MStack Z P)
        → HasFrame s
        → Puts (put_temp_pointer Z P symbol addr) s
    unfolding put_temp_pointer
    Puts-pointer symbol addr s h = Puts-object symbol (temp_pointer Z P symbol addr) s h

    HasFrame-push_frame :
        (func : Option P.Function) (s : MStack Z P) → HasFrame (push_frame Z P func s)
    unfolding push_frame
    HasFrame-push_frame func s = (_, s.frames, refl)

    Puts-Restores :
        (func : Option P.Function) (body : Actions) (s : MStack Z P)
        → HasFrame s
        → Restores func body s
        → Puts (λ u. perform body (push_frame Z P func u) >>= pop_frame Z P) s
    Puts-Restores func body s (frame, rest, h) (t, found, frames, objects) = (
      t,
      found,
      (frame, rest, frame.temp_objects, [], h, frames ∙ h, objects ∙ sym (append-nil s.objects)),
      (frame, rest, frames ∙ h),
    )

    perform_lem : (actions : Actions) (s : MStack Z P) → HasFrame s → Performs actions s
    perform_lem finished s (frame, rest, h) = (
      s,
      refl,
      (frame, rest, frame.temp_objects, [], h, h, sym (append-nil s.objects)),
      (frame, rest, h),
    )
    perform_lem (allocating symbol dims actions) s h =
        Performs-after (allocate Z P symbol dims) actions s (Puts-allocate symbol dims s h)
          (perform_lem actions)
    perform_lem (assigning symbol value actions) s h =
        Performs-after (put_temp Z P symbol value) actions s (Puts-value symbol value s h)
          (perform_lem actions)
    perform_lem (pointing symbol addr actions) s h =
        Performs-after (put_temp_pointer Z P symbol addr) actions s (Puts-pointer symbol addr s h)
          (perform_lem actions)
    perform_lem (calling func body actions) s h =
        Performs-after (λ u. perform body (push_frame Z P func u) >>= pop_frame Z P) actions s
          (Puts-Restores func body s h (
            Restores-of-Performs func body s
              (perform_lem body (push_frame Z P func s) (HasFrame-push_frame func s))))
          (perform_lem actions)

    -- A call, with whatever allocations, temporaries and calls its body does, is through without an
    -- error, and leaves the frames and the objects of the stack as they were.
    pub Restores-call :
        (func : Option P.Function) (body : Actions) (s : MStack Z P) → Restores func body s
    Restores-call func body s =
        Restores-of-Performs func body s
          (perform_lem body (push_frame Z P func s) (HasFrame-push_frame func s))
