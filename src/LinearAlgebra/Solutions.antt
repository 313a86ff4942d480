-- ===== src/LinearAlgebra/Solutions.antt =====
-- lib/LinearAlgebra.h: the elimination of `solve` keeps the solutions.
use arith_exe.Prelude.{
  ℕ, suc, ◌≡◌, refl, sym, subst, ap, ap₂, ◌∙◌, ◌≢◌, ◌↔◌, inl, inr, some, List, [], ◌∷◌, length,
  get_or, All, arith, Option-cases,
}
use arith_exe.LinearAlgebra.{Entries, Row, divided, reduced, reduced_all}

-- The values of the entries: a commutative ring without divisors of zero.
pub record Values (E : Entries) : Type 1 where
  pub Number : Type 0
  pub null : Number
  pub plus : Number → Number → Number
  pub times : Number → Number → Number
  pub value : E.Entry → Number
  pub plus_assoc : (a b c : Number) → plus (plus a b) c ≡ plus a (plus b c)
  pub plus_comm : (a b : Number) → plus a b ≡ plus b a
  pub null-plus : (a : Number) → plus null a ≡ a
  pub times_assoc : (a b c : Number) → times (times a b) c ≡ times a (times b c)
  pub times_comm : (a b : Number) → times a b ≡ times b a
  pub null-times : (a : Number) → times null a ≡ null
  pub plus-times : (a b c : Number) → times (plus a b) c ≡ plus (times a c) (times b c)
  pub cancel : (a b : Number) → times a b ≡ null → a ≢ null → b ≡ null
  pub null_law : value E.nought ≡ null
  pub simplified_law : (a : E.Entry) → value (E.simplified a) ≡ value a
  pub sub_law : (a b : E.Entry) → plus (value (E.sub a b)) (value b) ≡ value a
  pub mul_law : (a b : E.Entry) → value (E.mul a b) ≡ times (value a) (value b)
  pub div_law :
      (a b c : E.Entry)
      → E.div a b ≡ some c
      → (times (value b) (value c) ≡ value a) × (value b ≢ null)

module _ (E : Entries) (V : Values E) where
  open V use {Number, null, plus, times, value}

  pub times-null : (a : Number) → times a null ≡ null
  times-null a = V.times_comm a null ∙ V.null-times a

  times-plus : (a b c : Number) → times a (plus b c) ≡ plus (times a b) (times a c)
  times-plus a b c =
      V.times_comm a (plus b c)
      ∙ V.plus-times b c a
      ∙ ap₂ plus (V.times_comm b a) (V.times_comm c a)

  interchange : (a b c d : Number) → plus (plus a b) (plus c d) ≡ plus (plus a c) (plus b d)
  interchange a b c d =
      V.plus_assoc a b (plus c d)
      ∙ ap (plus a)
          (sym (V.plus_assoc b c d) ∙ ap (λ x. plus x d) (V.plus_comm b c) ∙ V.plus_assoc c b d)
      ∙ sym (V.plus_assoc a c (plus b d))

  -- The sum of the products of the entries with the numbers.
  abbrev pub combination : Row E → List Number → Number
  combination [] ys = null
  combination (a ∷ row) [] = null
  combination (a ∷ row) (y ∷ ys) = plus (times (value a) y) (combination row ys)

  -- The numbers solve the equation of each row: for an augmented matrix, the unknowns and then -1 for the
  -- right side.
  abbrev pub Solves : List Number → List (Row E) → Type 0
  Solves ys rows = All (λ row. combination row ys ≡ null) rows

  combination-nil : (row : Row E) → combination row [] ≡ null
  combination-nil [] = refl
  combination-nil (a ∷ row) = refl

  -- A row that is divided has its entries in the quotients.
  abbrev Divides : E.Entry → Row E → Row E → Type 0
  Divides pivot row row' =
      ((ys : List Number) → combination row ys ≡ times (value pivot) (combination row' ys))
      × (length row' ≡ length row)

  pub divided_lem :
      (row : Row E) (pivot : E.Entry) (row' : Row E)
      → divided E row pivot ≡ some row'
      → Divides pivot row row'
  divided_lem [] pivot row' h =
      subst (Divides pivot []) empty ((λ ys. sym (times-null (value pivot))), refl)
    where
      empty : ◌≡◌ {A = Row E} [] row'
      empty = cc
  divided_lem (a ∷ row) pivot row' h = elim (Option-cases (E.div a pivot)) [
    | inl e ↦ cc
    | inr (q, e) ↦ elim (Option-cases (divided E row pivot)) [
      | inl f ↦ cc
      | inr (rest, f) ↦
          let same : q ∷ rest ≡ row' = cc in
          let (combine, size) = divided_lem row pivot rest f in
          subst (Divides pivot (a ∷ row)) same (first q e rest combine, ap suc size)
    ]
  ]
    where
      first :
          (q : E.Entry)
          → E.div a pivot ≡ some q
          → (rest : Row E)
          → ((ys : List Number) → combination row ys ≡ times (value pivot) (combination rest ys))
          → (ys : List Number)
          → combination (a ∷ row) ys ≡ times (value pivot) (combination (q ∷ rest) ys)
      first q e rest combine [] = sym (times-null (value pivot))
      first q e rest combine (y ∷ ys) =
          ap₂ plus
            (ap (λ x. times x y) (sym (V.div_law a pivot q e).0)
              ∙ V.times_assoc (value pivot) (value q) y)
            (combine ys)
          ∙ sym (times-plus (value pivot) (times (value q) y) (combination rest ys))

  combination-reduced :
      (row pivot_row : Row E) (factor : E.Entry) (ys : List Number)
      → length row ≡ length pivot_row
      → combination row ys
        ≡ plus
            (combination (reduced E row factor pivot_row) ys)
            (times (value factor) (combination pivot_row ys))
  combination-reduced [] [] factor ys h = sym (V.null-plus _ ∙ times-null (value factor))
  combination-reduced [] (p ∷ pivot_row) factor ys h = absurd (omega (arith, h))
  combination-reduced (a ∷ row) [] factor ys h = absurd (omega (arith, h))
  combination-reduced (a ∷ row) (p ∷ pivot_row) factor [] h =
      sym (V.null-plus _ ∙ times-null (value factor))
  combination-reduced (a ∷ row) (p ∷ pivot_row) factor (y ∷ ys) h =
      let rest = combination-reduced row pivot_row factor ys (omega (arith, h)) in
      let s = value (E.simplified (E.sub a (E.mul factor p))) in
      let first : times (value a) y ≡ plus (times s y) (times (value factor) (times (value p) y)) =
        ap (λ x. times x y)
          (sym (V.sub_law a (E.mul factor p))
            ∙ ap₂ plus (sym (V.simplified_law (E.sub a (E.mul factor p)))) (V.mul_law factor p))
        ∙ V.plus-times s (times (value factor) (value p)) y
        ∙ ap (plus (times s y)) (V.times_assoc (value factor) (value p) y) in
      ap₂ plus first rest
      ∙ interchange (times s y) (times (value factor) (times (value p) y))
          (combination (reduced E row factor pivot_row) ys)
          (times (value factor) (combination pivot_row ys))
      ∙ ap (plus (plus (times s y) (combination (reduced E row factor pivot_row) ys)))
          (sym (times-plus (value factor) (times (value p) y) (combination pivot_row ys)))

  pub some_eq : {A : Type 0} {a b : A} → some a ≡ some b → a ≡ b
  some_eq h = cc

  -- The quotients vanish where the row does.
  pub divided_cancel :
      (row : Row E) (pivot : E.Entry) (row' : Row E) (ys : List Number)
      → divided E row pivot ≡ some row'
      → combination row ys ≡ null
      → combination row' ys ≡ null
  divided_cancel [] pivot row' ys h k = subst (λ r. combination r ys ≡ null) empty k
    where
      empty : ◌≡◌ {A = Row E} [] row'
      empty = cc
  divided_cancel (a ∷ row) pivot row' ys h k = elim (Option-cases (E.div a pivot)) [
    | inl e ↦ cc
    | inr (q, e) ↦
        V.cancel (value pivot) (combination row' ys)
          (sym ((divided_lem (a ∷ row) pivot row' h).0 ys) ∙ k) (V.div_law a pivot q e).1
  ]

  length-reduced :
      (row pivot_row : Row E) (factor : E.Entry)
      → length (reduced E row factor pivot_row) ≡ length row
  length-reduced [] pivot_row factor = refl
  length-reduced (a ∷ row) [] factor = refl
  length-reduced (a ∷ row) (p ∷ pivot_row) factor = ap suc (length-reduced row pivot_row factor)

  abbrev pub HaveLength : ℕ → List (Row E) → Type 0
  HaveLength n rows = All (λ row. length row ≡ n) rows

  module _ (ys : List Number) where
    -- Where the pivot's row vanishes, the other rows vanish before exactly if they do after.
    pub Solves-reduced_all :
        (column : ℕ) (pivot_row : Row E) (rows : List (Row E))
        → HaveLength (length pivot_row) rows
        → combination pivot_row ys ≡ null
        → Solves ys rows ↔ Solves ys (reduced_all E column pivot_row rows)
    Solves-reduced_all column pivot_row [] sizes vanish = ((λ h. tt), (λ h. tt))
    Solves-reduced_all column pivot_row (row ∷ rows) sizes vanish =
        let factor = get_or row column E.nought in
        let same =
          combination-reduced row pivot_row factor ys sizes.0
          ∙ ap (plus (combination (reduced E row factor pivot_row) ys))
              (ap (times (value factor)) vanish ∙ times-null (value factor))
          ∙ V.plus_comm _ null
          ∙ V.null-plus _ in
        let (there, back) = Solves-reduced_all column pivot_row rows sizes.1 vanish in
        ((λ h. (sym same ∙ h.0, there h.1)), (λ h. (same ∙ h.0, back h.1)))

  pub HaveLength-reduced_all :
      (n column : ℕ) (pivot_row : Row E) (rows : List (Row E))
      → HaveLength n rows
      → HaveLength n (reduced_all E column pivot_row rows)
  HaveLength-reduced_all n column pivot_row [] h = tt
  HaveLength-reduced_all n column pivot_row (row ∷ rows) h = (
    length-reduced row pivot_row (get_or row column E.nought) ∙ h.0,
    HaveLength-reduced_all n column pivot_row rows h.1,
  )

  pub length-reduced_all :
      (column : ℕ) (pivot_row : Row E) (rows : List (Row E))
      → length (reduced_all E column pivot_row rows) ≡ length rows
  length-reduced_all column pivot_row [] = refl
  length-reduced_all column pivot_row (row ∷ rows) =
      ap suc (length-reduced_all column pivot_row rows)
