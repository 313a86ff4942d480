-- ===== src/LinearAlgebra/Round.antt =====
-- lib/LinearAlgebra.h: one round of the elimination keeps the solutions.
use arith_exe.Prelude.{
  ℕ, zero, suc, ◌+◌, ◌<◌, ◌≡◌, refl, sym, subst, ap, ap₂, ◌∙◌, ◌↔◌, inl, inr, true, false, Option,
  none, some, List, [], ◌∷◌, ◌++◌, length, get_or, take, drop, All, All-append, arith, Bool-cases,
  Option-cases, length-append,
}
use arith_exe.LinearAlgebra.{Entries, Row, divided, reduced_all, pivoted}
use arith_exe.LinearAlgebra.Solutions.{
  Values, combination, Solves, HaveLength, times-null, divided_lem, divided_cancel,
  Solves-reduced_all, HaveLength-reduced_all, length-reduced_all, some_eq,
}

module _ (E : Entries) (V : Values E) where
  open V use {Number, null, times, value}

  All-split : (P : Row E → Type 0) (xs zs : List (Row E)) → All P (xs ++ zs) → All P xs × All P zs
  All-split P [] zs h = (tt, h)
  All-split P (x ∷ xs) zs h = let (front, back) = All-split P xs zs h.1 in ((h.0, front), back)

  parts_lem :
      (rows : List (Row E)) (i : ℕ)
      → i < length rows
      → take i rows ++ get_or rows i [] ∷ drop (suc i) rows ≡ rows
  parts_lem [] i h = absurd (omega (arith, h))
  parts_lem (row ∷ rows) zero h = refl
  parts_lem (row ∷ rows) (suc i) h = ap (λ r. row ∷ r) (parts_lem rows i (omega (arith, h)))

  -- What is kept of a system of equations.
  abbrev pub Keeps : ℕ → List (Row E) → List (Row E) → Type 0
  Keeps n rows rows' =
      ((ys : List Number) → Solves E V ys rows ↔ Solves E V ys rows')
      × HaveLength E V n rows'
      × (length rows' ≡ length rows)

  Keeps-parts :
      (n i : ℕ) (pivot : E.Entry) (front back : List (Row E)) (row pivot_row : Row E)
      → divided E row pivot ≡ some pivot_row
      → HaveLength E V n (front ++ row ∷ back)
      → Keeps n
          (front ++ row ∷ back)
          (reduced_all E i pivot_row front ++ pivot_row ∷ reduced_all E i pivot_row back)
  Keeps-parts n i pivot front back row pivot_row h sizes =
      let (combine, size) = divided_lem E V row pivot pivot_row h in
      let (front_sizes, back_sizes) = All-split (λ r. length r ≡ n) front (row ∷ back) sizes in
      let wide : length pivot_row ≡ n = size ∙ back_sizes.0 in
      let front_wide = subst (λ k. HaveLength E V k front) (sym wide) front_sizes in
      let back_wide = subst (λ k. HaveLength E V k back) (sym wide) back_sizes.1 in
      (
        (λ ys. (
          (λ solves.
              let (first, rest) =
                All-split (λ r. combination E V r ys ≡ null) front (row ∷ back) solves in
              let vanish = divided_cancel E V row pivot pivot_row ys h rest.0 in
              All-append (λ r. combination E V r ys ≡ null) (reduced_all E i pivot_row front)
                (pivot_row ∷ reduced_all E i pivot_row back)
                ((Solves-reduced_all E V ys i pivot_row front front_wide vanish).0 first)
                (vanish, (Solves-reduced_all E V ys i pivot_row back back_wide vanish).0 rest.1)),
          (λ solves.
              let (first, rest) =
                All-split (λ r. combination E V r ys ≡ null) (reduced_all E i pivot_row front)
                  (pivot_row ∷ reduced_all E i pivot_row back) solves in
              All-append (λ r. combination E V r ys ≡ null) front (row ∷ back)
                ((Solves-reduced_all E V ys i pivot_row front front_wide rest.0).1 first)
                (
                  combine ys ∙ ap (times (value pivot)) rest.0 ∙ times-null E V (value pivot),
                  (Solves-reduced_all E V ys i pivot_row back back_wide rest.0).1 rest.1,
                )),
        )),
        All-append (λ r. length r ≡ n) (reduced_all E i pivot_row front)
            (pivot_row ∷ reduced_all E i pivot_row back)
            (HaveLength-reduced_all E V n i pivot_row front front_sizes)
            (wide, HaveLength-reduced_all E V n i pivot_row back back_sizes.1),
        length-append (reduced_all E i pivot_row front) (pivot_row ∷ reduced_all E i pivot_row back)
            ∙ ap₂ (λ a b. a + suc b) (length-reduced_all E V i pivot_row front)
                (length-reduced_all E V i pivot_row back)
            ∙ sym (length-append front (row ∷ back)),
      )

  pub Keeps-pivoted :
      (n i : ℕ) (rows rows' : List (Row E))
      → i < length rows
      → HaveLength E V n rows
      → pivoted E i rows ≡ some rows'
      → Keeps n rows rows'
  unfolding pivoted
  Keeps-pivoted n i rows rows' inside sizes h =
      elim (Bool-cases (E.is_zero (get_or (get_or rows i []) i E.nought))) [
        | inl zero_pivot ↦
            let same : rows ≡ rows' = some_eq E V (sym (kept zero_pivot) ∙ h) in
            subst (Keeps n rows) same ((λ ys. ((λ k. k), (λ k. k))), sizes, refl)
        | inr pivot ↦
            elim (Option-cases
              (divided E (get_or rows i []) (get_or (get_or rows i []) i E.nought))) [
                | inl failed ↦
                    let nothing : ◌≡◌ {A = Option (List (Row E))} none (some rows') =
                      sym (undone pivot failed) ∙ h in
                    cc
                | inr (pivot_row, found) ↦
                    let shape = parts_lem rows i inside in
                    let same : next pivot_row ≡ rows' =
                      some_eq E V (sym (done pivot pivot_row found) ∙ h) in
                    subst (Keeps n rows) same (
                      subst (λ r. Keeps n r (next pivot_row)) shape
                        (Keeps-parts n i (get_or (get_or rows i []) i E.nought) (take i rows)
                          (drop (suc i) rows) (get_or rows i []) pivot_row found
                          (subst (HaveLength E V n) (sym shape) sizes)))
              ]
      ]
    where
      next : Row E → List (Row E)
      next pivot_row =
          reduced_all E i pivot_row (take i rows)
          ++ pivot_row ∷ reduced_all E i pivot_row (drop (suc i) rows)

      kept : E.is_zero (get_or (get_or rows i []) i E.nought) ≡ true → pivoted E i rows ≡ some rows
      kept e = rw e refl

      undone :
          E.is_zero (get_or (get_or rows i []) i E.nought) ≡ false
          → divided E (get_or rows i []) (get_or (get_or rows i []) i E.nought) ≡ none
          → pivoted E i rows ≡ none
      undone e f = rw (e, f) refl

      done :
          E.is_zero (get_or (get_or rows i []) i E.nought) ≡ false
          → (pivot_row : Row E)
          → divided E (get_or rows i []) (get_or (get_or rows i []) i E.nought) ≡ some pivot_row
          → pivoted E i rows ≡ some (next pivot_row)
      done e pivot_row f = rw (e, f) refl
