-- ===== src/LinearAlgebra/Elimination.antt =====
-- lib/LinearAlgebra.h: swapping rows, and all rounds of the elimination.
use arith_exe.Prelude.{
  ℕ, zero, suc, ◌+◌, ◌<◌, ◌≤◌, ◌≡◌, refl, sym, subst, ap, ◌∙◌, ◌≢◌, inl, inr, ◌==◌, ==_iff, Bool,
  true, false, Option, none, some, List, [], ◌∷◌, if◌then◌else◌, length, get_or, set, All, arith,
  Bool-cases, Option-cases, ◌>>=◌, length-set, get_or-set_self, get_or-set_ne,
}
use arith_exe.LinearAlgebra.{Entries, Row, largest, swapped, pivoted, eliminated}
use arith_exe.LinearAlgebra.Solutions.{Values, HaveLength, combination}
use arith_exe.LinearAlgebra.Round.{Keeps, Keeps-pivoted}

module _ (E : Entries) (V : Values E) where
  All-set :
      (P : Row E → Type 0) (rows : List (Row E)) (i : ℕ) (row : Row E)
      → All P rows
      → P row
      → All P (set rows i row)
  All-set P [] i row h p = tt
  All-set P (r ∷ rows) zero row h p = (p, h.1)
  All-set P (r ∷ rows) (suc i) row h p = (h.0, All-set P rows i row h.1 p)

  All-get_or :
      (P : Row E → Type 0) (rows : List (Row E)) (i : ℕ)
      → All P rows
      → i < length rows
      → P (get_or rows i [])
  All-get_or P [] i h l = absurd (omega (arith, l))
  All-get_or P (r ∷ rows) zero h l = h.0
  All-get_or P (r ∷ rows) (suc i) h l = All-get_or P rows i h.1 (omega (arith, l))

  everywhere :
      (P : Row E → Type 0) (rows : List (Row E))
      → ((i : ℕ) → i < length rows → P (get_or rows i []))
      → All P rows
  everywhere P [] h = tt
  everywhere P (r ∷ rows) h =
      (h 0 (omega arith), everywhere P rows (λ i l. h (suc i) (omega (arith, l))))

  module _ (rows : List (Row E)) (i k : ℕ) (inside : i < length rows)
      (within : k < length rows) where
    All-swapped : (P : Row E → Type 0) → All P rows → All P (swapped E rows i k)
    All-swapped P h = elim (Bool-cases (k == i)) [
      | inl e ↦ rw e h
      | inr e ↦ rw e (
          All-set P (set rows i (get_or rows k [])) k (get_or rows i [])
            (All-set P rows i (get_or rows k []) h (All-get_or P rows k h within))
            (All-get_or P rows i h inside))
    ]

    length-swapped : length (swapped E rows i k) ≡ length rows
    length-swapped = elim (Bool-cases (k == i)) [
      | inl e ↦ rw e refl
      | inr e ↦ rw e (
          length-set (set rows i (get_or rows k [])) k (get_or rows i [])
          ∙ length-set rows i (get_or rows k []))
    ]

    abbrev both_set : List (Row E)
    both_set = set (set rows i (get_or rows k [])) k (get_or rows i [])

    both_set-All : (P : Row E → Type 0) → k ≢ i → All P both_set → All P rows
    both_set-All P apart h = everywhere P rows here
      where
        size : length both_set ≡ length rows
        size =
            length-set (set rows i (get_or rows k [])) k (get_or rows i [])
            ∙ length-set rows i (get_or rows k [])

        at : (j : ℕ) → j < length rows → P (get_or both_set j [])
        at j l = All-get_or P both_set j h (omega (arith, l, size))

        here : (j : ℕ) → j < length rows → P (get_or rows j [])
        here j l = elim (Bool-cases (j == k)) [
          | inl e ↦
              subst P
                (get_or-set_ne (set rows i (get_or rows k [])) k i (get_or rows i []) []
                    (λ q. apart (sym q))
                  ∙ get_or-set_self rows i (get_or rows k []) [] inside
                  ∙ ap (λ n. get_or rows n []) (sym ((==_iff j k).0 e)))
                (at i inside)
          | inr e ↦ elim (Bool-cases (j == i)) [
            | inl f ↦
                subst P
                  (get_or-set_self (set rows i (get_or rows k [])) k (get_or rows i []) []
                      (omega (arith, within, length-set rows i (get_or rows k [])))
                    ∙ ap (λ n. get_or rows n []) (sym ((==_iff j i).0 f)))
                  (at k within)
            | inr f ↦
                subst P
                  (get_or-set_ne (set rows i (get_or rows k [])) k j (get_or rows i []) []
                      (differ j k e)
                    ∙ get_or-set_ne rows i j (get_or rows k []) [] (differ j i f))
                  (at j l)
          ]
        ]
          where
            differ : (a b : ℕ) → (a == b) ≡ false → a ≢ b
            differ a b e q = absurd (ground (arith, e, q))

    swapped-All : (P : Row E → Type 0) → All P (swapped E rows i k) → All P rows
    swapped-All P h = elim (Bool-cases (k == i)) [
      | inl e ↦ subst (λ b. All P (if b then rows else both_set)) e h
      | inr e ↦
          both_set-All P (λ q. clash e q) (subst (λ b. All P (if b then rows else both_set)) e h)
    ]
      where
        clash : (k == i) ≡ false → k ≡ i → ⊥
        clash e q = absurd (ground (arith, e, q))

    Keeps-swapped : (n : ℕ) → HaveLength E V n rows → Keeps E V n rows (swapped E rows i k)
    Keeps-swapped n sizes = (
      (λ ys. (
        All-swapped (λ row. combination E V row ys ≡ V.null),
        swapped-All (λ row. combination E V row ys ≡ V.null),
      )),
      All-swapped (λ row. length row ≡ n) sizes,
      length-swapped,
    )

  largest_lem :
      (rows : List (Row E)) (column n best k : ℕ)
      → best < length rows
      → k + n ≤ length rows
      → largest E rows column best k n < length rows
  largest_lem rows column zero best k b h = b
  largest_lem rows column (suc n) best k b h =
      largest_lem rows column n
        (if E.is_larger (get_or (get_or rows k []) column E.nought)
            (get_or (get_or rows best []) column E.nought)
          then k
          else best)
        (k + 1)
        (chosen (
          E.is_larger (get_or (get_or rows k []) column E.nought)
            (get_or (get_or rows best []) column E.nought)))
        (omega (arith, h))
    where
      chosen : (b : Bool) → (if b then k else best) < length rows
      chosen true = omega (arith, h)
      chosen false = b

  Keeps-trans :
      (n : ℕ) (rows next last : List (Row E))
      → Keeps E V n rows next
      → Keeps E V n next last
      → Keeps E V n rows last
  Keeps-trans n rows next last (same, sizes, size) (same', sizes', size') = (
    (λ ys. ((λ h. (same' ys).0 ((same ys).0 h)), (λ h. (same ys).1 ((same' ys).1 h)))),
    sizes',
    size' ∙ size,
  )

  -- Where the elimination of `solve` does not fail, numbers solve the system afterwards exactly if they
  -- did before; the rows stay as many and as long. The rows have one length, as many rounds are done as
  -- there are rows left, and the entries have values in a commutative ring without divisors of zero.
  pub Keeps-eliminated :
      (n count i : ℕ) (rows rows' : List (Row E))
      → HaveLength E V n rows
      → i + count ≡ length rows
      → eliminated E i count rows ≡ some rows'
      → Keeps E V n rows rows'
  unfolding eliminated
  Keeps-eliminated n zero i rows rows' sizes size h =
      subst (Keeps E V n rows) (same h) ((λ ys. ((λ k. k), (λ k. k))), sizes, refl)
    where
      same : some rows ≡ some rows' → rows ≡ rows'
      same h = cc
  Keeps-eliminated n (suc count) i rows rows' sizes size h =
      let k = largest E rows i i (i + 1) count in
      let within = largest_lem rows i count i (i + 1) (omega (arith, size)) (omega (arith, size)) in
      let swap = Keeps-swapped rows i k (omega (arith, size)) within n sizes in
      let (same, kept, as_many) = swap in
      elim (Option-cases (pivoted E i (swapped E rows i k))) [
        | inl e ↦
            let failed : ◌≡◌ {A = Option (List (Row E))} none (some rows') =
              sym (ap (λ o. o >>= eliminated E (i + 1) count) e) ∙ h in
            cc
        | inr (next, e) ↦
            let round =
              Keeps-pivoted E V n i (swapped E rows i k) next (omega (arith, size, as_many)) kept
                e in
            let (same', kept', as_many') = round in
            let rest : eliminated E (i + 1) count next ≡ some rows' =
              sym (ap (λ o. o >>= eliminated E (i + 1) count) e) ∙ h in
            Keeps-trans n rows (swapped E rows i k) rows' swap (
              Keeps-trans n (swapped E rows i k) next rows' round (
                Keeps-eliminated n count (i + 1) next rows' kept'
                  (omega (arith, size, as_many, as_many')) rest))
      ]
