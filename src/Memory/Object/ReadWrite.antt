-- ===== src/Memory/Object/ReadWrite.antt =====
-- lib/MemoryObject.cpp: reading after writing.
use arith_exe.Prelude.{
  suc, ◌≡◌, refl, sym, subst, ap, ap₂, ◌∙◌, inl, inr, Bool, true, ◌&&◌, some, List, [], ◌∷◌, map,
  if◌then◌else◌, length, arith, Bool-cases,
}
use arith_exe.Z3.{Z3, Z3Laws, holds, truth, Value, same_value, same_value_sound, same_value_refl}
use arith_exe.Expression.{Expression, as_expr}
use arith_exe.Expression.Meaning.{Means}
use arith_exe.Expression.Updates.{AreSimplified, Means-push_front, Means-subs, moved}
use arith_exe.Memory.{Program}
use arith_exe.Memory.Object.{MemoryObject, full_index, read_at, index_condition, write_at}

-- The same values in each dimension that both have.
abbrev pub same_values : List Value → List Value → Bool
same_values [] ws = true
same_values (v ∷ vs) [] = true
same_values (v ∷ vs) (w ∷ ws) = same_value v w && same_values vs ws

module _ (Z : Z3) (laws : Z3Laws Z) (P : Program Z) where
  open Z use {Expr, Model, value}

  abbrev pub index_values : Model → List (Expression Z) → List Value
  index_values m index = map (value m) (map (as_expr Z P.nothing) index)

  holds-equal :
      (m : Model) (a b : Expr) → holds Z m (Z.equal a b) ≡ same_value (value m a) (value m b)
  holds-equal m a b = elim (Bool-cases (holds Z m (Z.equal a b))) [
    | inl h ↦
        h
        ∙ sym (same_value_refl (value m a))
        ∙ ap (same_value (value m a)) ((laws.equal_law m a b).0 h)
    | inr h ↦ elim (Bool-cases (same_value (value m a) (value m b))) [
      | inl k ↦ (laws.equal_law m a b).1 (same_value_sound (value m a) (value m b) k) ∙ sym k
      | inr k ↦ h ∙ sym k
    ]
  ]

  holds-index_condition :
      (m : Model) (condition : Expr) (indices : List Expr) (index : List (Expression Z))
      → holds Z m (index_condition Z P condition indices index)
        ≡ (holds Z m condition && same_values (map (value m) indices) (index_values m index))
  holds-index_condition m condition [] index = ground arith
  holds-index_condition m condition (i ∷ indices) [] = ground arith
  holds-index_condition m condition (i ∷ indices) (e ∷ index) =
      let both = ap truth (laws.conj_law m condition (Z.equal i (as_expr Z P.nothing e))) in
      let rest =
        holds-index_condition m (Z.conj condition (Z.equal i (as_expr Z P.nothing e))) indices
          index in
      ground (arith, both, rest, holds-equal m i (as_expr Z P.nothing e))

  module _ (m : Model) (o : MemoryObject Z P) (index j : List (Expression Z)) (v : Expression Z)
      (variables : Z.AreVariables o.indices)
      (sizes : length o.indices ≡ length (map (as_expr Z P.nothing) (full_index Z P o j))) where
    -- The interpretation under which the index variables are the indices that are read.
    abbrev pub there : Model
    there = moved Z laws m P.nothing o.indices (full_index Z P o j) variables sizes

    -- The written index is the one that is read. (A written index may mention the index variables: they
    -- are then those of the read.)
    abbrev pub is_written : Bool
    is_written =
        same_values (index_values m (full_index Z P o j))
          (index_values there (full_index Z P o index))

    -- The condition of a write with this index.
    abbrev pub written_condition : Expr
    written_condition = index_condition Z P (Z.bool_val true) o.indices (full_index Z P o index)

    holds-written_condition : holds Z there written_condition ≡ is_written
    holds-written_condition =
        holds-index_condition there (Z.bool_val true) o.indices (full_index Z P o index)
        ∙ ap₂ (λ a b. a && same_values b (index_values there (full_index Z P o index)))
            (ap truth (laws.bool_val_law there true))
            (laws.assign_law m o.indices (index_values m (full_index Z P o j)) variables lengths)
      where
        length-map : (es : List Expr) → length (map (value m) es) ≡ length es
        length-map [] = refl
        length-map (e ∷ es) = ap suc (length-map es)

        lengths : length o.indices ≡ length (index_values m (full_index Z P o j))
        lengths = sizes ∙ sym (length-map (map (as_expr Z P.nothing) (full_index Z P o j)))

    -- A read after a write gives the written expression where the index read is the one written, and
    -- what the object had before elsewhere, value and definedness alike. The index variables are
    -- variables, as many as indices are read, and `simplify` succeeds on the new conditions.
    pub read_at-write_at :
        (vx old : Value) (bx b : Bool)
        → AreSimplified Z laws there written_condition o.value
        → Means Z there v vx bx
        → Means Z there o.value old b
        → (o' : MemoryObject Z P) × (write_at Z P o index v ≡ some o')
          × Means Z m
              (read_at Z P o' j)
              (if is_written then vx else old)
              (if is_written then bx else b)
    unfolding write_at read_at
    read_at-write_at vx old bx b simple new before =
        let (pushed, found, means) =
          Means-push_front Z laws there P.nothing written_condition v o.value vx old bx b simple new
            before in
        (
          record o { value = pushed },
          rw (write_at, found) refl,
          Means-subs Z laws m P.nothing o.indices (full_index Z P o j) variables sizes pushed
              (if is_written then vx else old) (if is_written then bx else b)
              (subst (λ c. Means Z there pushed (if c then vx else old) (if c then bx else b))
                holds-written_condition means),
        )
