-- ===== src/PathExpression/Factor/Fill.antt =====
-- The loops over `length` and over `i` of `factor_table` (lib/PathExpression.cpp).
use native.Mathlib.Nat.{mul-le-mul_right}
use native.Mathlib.Decide.{ℕ_discrete}
use arith_exe.Prelude.{
  ℕ, zero, suc, ◌+◌, ◌-◌, ◌*◌, ◌≤◌, ◌<◌, ◌≡◌, sym, ap, subst, ◌∙◌, ◌⊎◌, inl, inr, true, false, [],
  ◌++◌, arith, length, take, drop, min, Bool-cases, ◌==◌, ⊎_elim, length-take, length-drop,
  append-nil, if◌then◌else◌,
}
use arith_exe.PathExpression.Word.{PathWord, repeat, size_max, is_primitive_path_word}
use arith_exe.PathExpression.Word.Segment.{Occurs, Occurs-word, length-repeat, Occurs-repeat-within}
use arith_exe.PathExpression.Factor.{FactorTable, cost_at, choice_at, extend, try_lengths, fill}
use arith_exe.PathExpression.Factor.Invariant.{
  IsReached, IsShort, IsBlock, IsTable, Improves, Improves-refl, Improves-trans,
}
use arith_exe.PathExpression.Factor.Loops.{IsSettled, IsSettled-Improves, Swept-extend}

Improves-le : {i k : ℕ} {t u : FactorTable} → Improves k t u → i ≤ k → Improves i t u
Improves-le p h = record {
  cheaper = p.cheaper;
  reached = p.reached;
  same_cost = λ j l. p.same_cost j (omega arith);
  same_choice = λ j l. p.same_choice j (omega arith);
}

module _ (prefix : PathWord) (max_root_length : ℕ) (short : IsShort prefix) where
  IsTable-suc :
      {i : ℕ} {t : FactorTable}
      → IsTable prefix max_root_length i t
      → IsTable prefix max_root_length (i + 1) t
  IsTable-suc h = record {
    costs_size = h.costs_size;
    choices_size = h.choices_size;
    origin = h.origin;
    early = λ j p. omega (arith, h.early j p);
    entries = h.entries;
    absent = h.absent;
  }

  -- The test of the loop over `i` is whether the position is reached.
  infinite_iff :
      (i : ℕ) (t : FactorTable)
      → i ≤ length prefix
      → IsTable prefix max_root_length i t
      → ((cost_at t i == size_max) ≡ true → ¬ IsReached t i)
        × ((cost_at t i == size_max) ≡ false → IsReached t i)
  infinite_iff i t inside h = (
    λ e.
        ⊎_elim (λ z. let zero_cost : cost_at t i ≡ 0 = rw z h.origin in ground arith)
          (λ p. let small = (h.entries i p).small in ground arith),
    λ e. elim (Bool-cases (choice_at t i).present) [
      | inl p ↦ inr p
      | inr a ↦ ⊎_elim inl (λ (c : cost_at t i ≡ size_max). absurd (ground arith)) (h.absent i a)
    ],
  )

  -- The root that a block at `i` has is the one of its length that the loop reads.
  block_root :
      (i : ℕ) (root : PathWord) (e end : ℕ)
      → IsBlock prefix max_root_length i root e end
      → take (length root) (drop i prefix) ≡ root
  block_root i root e end b =
      let more : e ≡ 0 + suc (e - 1) = omega (arith, b.repeated) in
      let first =
        Occurs-repeat-within prefix i root 0 (e - 1)
          (subst (λ k. Occurs prefix i (repeat root k)) more b.occurs) in
      Occurs-word prefix i root
        (subst (λ k. Occurs prefix k root) {x = i + 0 * length root} (omega arith) first)

  record Tried (i from to : ℕ) (t u : FactorTable) : Type 0 where
    table : IsTable prefix max_root_length i u
    improves : Improves i t u
    settled :
        (root : PathWord) (e : ℕ)
        → from ≤ length root
        → length root < to
        → IsSettled prefix max_root_length i root e u

  -- One length.
  Tried-one :
      (i len : ℕ) (t : FactorTable)
      → IsTable prefix max_root_length i t
      → IsReached t i
      → 0 < len
      → len ≤ max_root_length
      → i + len ≤ length prefix
      → Tried i len (len + 1) t (
          if is_primitive_path_word (take len (drop i prefix))
          then extend prefix (length prefix) i (take len (drop i prefix)) 0 i t
          else t)
  Tried-one i len t table start pos bounded inside =
      let root = take len (drop i prefix) in
      let size : length root ≡ len =
        omega (arith, length-take len (drop i prefix), length-drop i prefix) in
      let same =
        λ (r : PathWord) (e end : ℕ) (b : IsBlock prefix max_root_length i r e end)
            (eq : length r ≡ len).
          sym (block_root i r e end b) ∙ ap (λ k. take k (drop i prefix)) eq in
      elim (Bool-cases (is_primitive_path_word root)) [
        | inl primitive ↦ rw primitive (
            let swept =
              Swept-extend prefix max_root_length short i root primitive (omega arith) (omega arith)
                (length prefix) 0 i t table start (omega arith)
                (record { inside = omega arith; segment = here i }) (omega arith) in
            record {
              table = swept.table;
              improves = swept.improves;
              settled = λ r e lo hi end b.
                  subst
                    (λ w.
                      IsSettled prefix max_root_length i w e
                        (extend prefix (length prefix) i root 0 i t))
                    (sym (same r e end b (omega arith))) (swept.settled e b.repeated) end b;
            })
        | inr other ↦ rw other (record {
          table = table;
          improves = Improves-refl i t;
          settled = λ r e lo hi end b. absurd (
              cc (
                subst (λ w. is_primitive_path_word w ≡ true) (same r e end b (omega arith))
                  b.primitive));
        })
      ]
    where
      here : (k : ℕ) → take (k + 0) prefix ≡ take k prefix ++ []
      here k = ap (λ n. take n prefix) {y = k} (omega arith) ∙ sym (append-nil (take k prefix))

  Tried-lengths :
      (i rounds len : ℕ) (t : FactorTable)
      → IsTable prefix max_root_length i t
      → IsReached t i
      → 0 < len
      → len + rounds ≤ max_root_length + 1
      → i + len + rounds ≤ length prefix + 1
      → Tried i len (len + rounds) t (try_lengths prefix rounds i len t)
  unfolding try_lengths
  Tried-lengths i zero len t table start pos bounded inside = record {
    table = table;
    improves = Improves-refl i t;
    settled = λ r e lo hi. absurd (omega arith);
  }
  Tried-lengths i (suc rounds) len t table start pos bounded inside =
      let one = Tried-one i len t table start pos (omega arith) (omega arith) in
      let rest =
        Tried-lengths i rounds (len + 1) _ one.table (one.improves.reached i start) (omega arith)
          (omega arith) (omega arith) in
      record {
        table = rest.table;
        improves = Improves-trans one.improves rest.improves;
        settled = λ r e lo hi. elim (ℕ_discrete (length r) len) [
          | yes here ↦
              IsSettled-Improves prefix max_root_length r e rest.improves (omega arith)
                (one.settled r e lo (omega arith))
          | no later ↦ rest.settled r e (omega arith) (omega arith)
        ];
      }

  -- What the loop over `i` leaves: every block from `from` on, at a reached position, is settled.
  pub record Filled (from : ℕ) (t u : FactorTable) : Type 0 where
    pub table : IsTable prefix max_root_length (length prefix) u
    pub improves : Improves from t u
    pub settled :
        (j : ℕ)
        → from ≤ j
        → j < length prefix
        → IsReached u j
        → (root : PathWord) (e : ℕ) → IsSettled prefix max_root_length j root e u

  -- Every block at `i` has a root that the loop over `length` tries.
  IsSettled-all :
      (i : ℕ) (u : FactorTable)
      → ((root : PathWord) (e : ℕ)
          → 1 ≤ length root
          → length root < 1 + min max_root_length (length prefix - i)
          → IsSettled prefix max_root_length i root e u)
      → (root : PathWord) (e : ℕ) → IsSettled prefix max_root_length i root e u
  IsSettled-all i u h root e end b =
      let fits : i + length root ≤ length prefix =
        omega (
          arith,
          b.occurs.inside,
          length-repeat root e,
          mul-le-mul_right (length root) b.repeated,
        ) in
      h root e b.nonempty (omega (arith, b.bounded)) end b

  -- One round, then the others.
  Filled-step :
      (i : ℕ) (t u v : FactorTable)
      → Improves i t u
      → Filled (i + 1) u v
      → (IsReached u i → (root : PathWord) (e : ℕ) → IsSettled prefix max_root_length i root e u)
      → Filled i t v
  Filled-step i t u v first rest here = record {
    table = rest.table;
    improves = Improves-trans first (Improves-le rest.improves (omega arith));
    settled = λ j lo hi r root e. elim (ℕ_discrete j i) [
      | yes same ↦
          let back : IsReached u i =
            subst (λ c. (i ≡ 0) ⊎ (c.present ≡ true)) (rest.improves.same_choice i (omega arith))
              (subst (IsReached v) same r) in
          subst (λ k. IsSettled prefix max_root_length k root e v) (sym same)
            (IsSettled-Improves prefix max_root_length root e rest.improves (omega arith)
              (here back root e))
      | no later ↦ rest.settled j (omega arith) hi r root e
    ];
  }

  pub Filled-fill :
      (rounds i : ℕ) (t : FactorTable)
      → IsTable prefix max_root_length i t
      → i + rounds ≡ length prefix
      → Filled i t (fill prefix max_root_length rounds i t)
  unfolding fill
  Filled-fill zero i t table e =
      let at_end : i ≡ length prefix = omega arith in
      record {
        table = subst (λ k. IsTable prefix max_root_length k t) at_end table;
        improves = Improves-refl i t;
        settled = λ j lo hi. absurd (omega arith);
      }
  Filled-fill (suc rounds) i t table e = elim (Bool-cases (cost_at t i == size_max)) [
    | inl infinite ↦
        let rest = Filled-fill rounds (i + 1) t (IsTable-suc table) (omega arith) in
        rw infinite (
          Filled-step i t t _ (Improves-refl i t) rest
            λ r. absurd ((infinite_iff i t (omega arith) table).0 infinite r))
    | inr finite ↦
        let start = (infinite_iff i t (omega arith) table).1 finite in
        let tried =
          Tried-lengths i (min max_root_length (length prefix - i)) 1 t table start (omega arith)
            (omega arith) (omega arith) in
        let rest = Filled-fill rounds (i + 1) _ (IsTable-suc tried.table) (omega arith) in
        rw finite (Filled-step i t _ _ tried.improves rest λ r. IsSettled-all i _ tried.settled)
  ]
