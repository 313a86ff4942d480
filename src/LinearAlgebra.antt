-- ===== src/LinearAlgebra.antt =====
-- lib/LinearAlgebra.h: matrices over a type of entries, and Gaussian elimination. A failed assertion is
-- none; printing is left out. The copies that only simplify each entry are the identity.
pub mod Solutions
pub mod Round
pub mod Elimination
mod Checks
use arith_exe.Prelude.{
  ℕ, zero, suc, ◌+◌, ◌==◌, Bool, true, false, not, ◌&&◌, Option, none, some, List, [], ◌∷◌, ◌++◌,
  map, if◌then◌else◌, length, get_elem?, get_or, set, take, drop, ◌>>=◌,
}

-- What the template asks of `data_t`.
pub record Entries : Type 1 where
  pub Entry : Type 0
  -- `addictive_zero`, `multiplicative_one`
  pub nought : Entry
  pub unit : Entry
  pub add : Entry → Entry → Entry
  pub sub : Entry → Entry → Entry
  pub mul : Entry → Entry → Entry
  pub negative : Entry → Entry
  pub simplified : Entry → Entry
  -- `data_div`: its assertions are that the divisor is not zero, and for Z3 that it divides
  pub div : Entry → Entry → Option Entry
  pub same : Entry → Entry → Bool
  -- `(pivot == 0)` and the comparison of the magnitudes, after simplification
  pub is_zero : Entry → Bool
  pub is_larger : Entry → Entry → Bool

-- `for (int i = start; ...)`, with the number of rounds
abbrev pub tabulate {ℓ} : {A : Type ℓ} → ℕ → ℕ → (ℕ → A) → List A
tabulate start zero f = []
tabulate start (suc n) f = f start ∷ tabulate (start + 1) n f

module _ (E : Entries) where
  open E use {Entry, nought, simplified}

  abbrev pub Row : Type 0
  Row = List Entry

  pub record Matrix : Type 0 where
    pub rows : ℕ
    pub cols : ℕ
    pub values : List Row

  abbrev pub build : ℕ → ℕ → (ℕ → ℕ → Entry) → Matrix
  build rows cols f = record {
    rows = rows;
    cols = cols;
    values = tabulate 0 rows (λ i. tabulate 0 cols (f i));
  }

  -- `Matrix(rows, cols)`
  unfoldable pub blank : ℕ → ℕ → Matrix
  blank rows cols = build rows cols (λ i j. nought)

  -- `operator()`, whose assertion that the place is in the matrix is left out
  abbrev pub entry : Matrix → ℕ → ℕ → Entry
  entry a i j = get_or (get_or a.values i []) j nought

  abbrev pub same_size : Matrix → Matrix → Bool
  same_size a b = (a.rows == b.rows) && (a.cols == b.cols)

  unfoldable pub add_matrices : Matrix → Matrix → Option Matrix
  add_matrices a b =
      if same_size a b
      then some (build a.rows a.cols (λ i j. simplified (E.add (entry a i j) (entry b i j))))
      else none

  unfoldable pub negate_matrix : Matrix → Matrix
  negate_matrix a = build a.rows a.cols (λ i j. simplified (E.negative (entry a i j)))

  unfoldable pub subtract : Matrix → Matrix → Option Matrix
  unfolding add_matrices negate_matrix
  subtract a b = if same_size a b then add_matrices a (negate_matrix b) else none

  -- the innermost loop, from `k` on, with the sum so far
  abbrev pub dot_from : Matrix → Matrix → ℕ → ℕ → ℕ → ℕ → Entry → Entry
  dot_from a b i j k zero sum = sum
  dot_from a b i j k (suc n) sum =
      dot_from a b i j (k + 1) n (simplified (E.add sum (E.mul (entry a i k) (entry b k j))))

  unfoldable pub multiply : Matrix → Matrix → Option Matrix
  multiply a b =
      if a.cols == b.rows
      then some (build a.rows b.cols (λ i j. dot_from a b i j 0 a.cols nought))
      else none

  unfoldable pub scale : Matrix → Entry → Matrix
  scale a scalar = build a.rows a.cols (λ i j. simplified (E.mul (entry a i j) scalar))

  unfoldable pub transpose : Matrix → Matrix
  transpose a = build a.cols a.rows (λ j i. entry a i j)

  abbrev pub all_same : Row → Row → Bool
  all_same [] bs = true
  all_same (a ∷ rest_a) [] = true
  all_same (a ∷ rest_a) (b ∷ rest_b) = E.same a b && all_same rest_a rest_b

  abbrev pub rows_same : List Row → List Row → Bool
  rows_same [] bs = true
  rows_same (a ∷ rest_a) [] = true
  rows_same (a ∷ rest_a) (b ∷ rest_b) = all_same a b && rows_same rest_a rest_b

  -- `operator==`
  unfoldable pub same_matrix : Matrix → Matrix → Bool
  same_matrix a b = same_size a b && rows_same a.values b.values

  -- `data_div` on each entry of a row
  abbrev pub divided : Row → Entry → Option Row
  divided [] pivot = some []
  divided (a ∷ row) pivot = do
    quotient ← E.div a pivot
    rest ← divided row pivot
    some (quotient ∷ rest)

  -- `row - factor * pivot_row`
  abbrev pub reduced : Row → Entry → Row → Row
  reduced [] factor pivot_row = []
  reduced (a ∷ row) factor [] = a ∷ row
  reduced (a ∷ row) factor (p ∷ pivot_row) =
      simplified (E.sub a (E.mul factor p)) ∷ reduced row factor pivot_row

  -- The loop over the rows other than the pivot's, with the entry of each in the pivot's column.
  abbrev pub reduced_all : ℕ → Row → List Row → List Row
  reduced_all column pivot_row [] = []
  reduced_all column pivot_row (row ∷ rows) =
      reduced row (get_or row column nought) pivot_row ∷ reduced_all column pivot_row rows

  -- `max_row`, among the rows from the `k`th on
  abbrev pub largest : List Row → ℕ → ℕ → ℕ → ℕ → ℕ
  largest rows column best k zero = best
  largest rows column best k (suc n) =
      largest rows column
        (if E.is_larger (get_or (get_or rows k []) column nought)
            (get_or (get_or rows best []) column nought)
          then k
          else best)
        (k + 1) n

  abbrev pub swapped : List Row → ℕ → ℕ → List Row
  swapped rows i k =
      if k == i then rows else set (set rows i (get_or rows k [])) k (get_or rows i [])

  -- One round of the elimination, after the rows are swapped: none if `data_div` fails.
  unfoldable pub pivoted : ℕ → List Row → Option (List Row)
  pivoted i rows =
      let row = get_or rows i [] in
      if E.is_zero (get_or row i nought) then some rows else do
        pivot_row ← divided row (get_or row i nought)
        some (
            reduced_all i pivot_row (take i rows)
            ++ pivot_row ∷ reduced_all i pivot_row (drop (suc i) rows))

  -- The loop of `solve` over the columns from the `i`th on.
  unfoldable pub eliminated : ℕ → ℕ → List Row → Option (List Row)
  unfolding pivoted
  eliminated i zero rows = some rows
  eliminated i (suc n) rows = do
    next ← pivoted i (swapped rows i (largest rows i i (i + 1) n))
    eliminated (i + 1) n next

  abbrev pub joined : List Row → List Row → List Row
  joined [] bs = []
  joined (a ∷ rest_a) [] = a ∷ rest_a
  joined (a ∷ rest_a) (b ∷ rest_b) = (map simplified a ++ map simplified b) ∷ joined rest_a rest_b

  unfoldable pub solve : Matrix → Matrix → Option Matrix
  unfolding eliminated
  solve a b =
      if (a.rows == a.cols) && (a.rows == b.rows)
      then (eliminated 0 a.rows (joined a.values b.values) >>= λ rows. some (record {
        rows = a.rows;
        cols = b.cols;
        values = map (λ row. map simplified (drop a.cols row)) rows;
      }))
      else none

  unfoldable pub identity : ℕ → Matrix
  identity n = build n n (λ i j. if i == j then E.unit else nought)

  -- The other rows of `inverse`: the factor is the left matrix's entry, the subtraction is not simplified.
  abbrev pub lowered : Row → Entry → Row → Row
  lowered [] factor pivot_row = []
  lowered (a ∷ row) factor [] = a ∷ row
  lowered (a ∷ row) factor (p ∷ pivot_row) = E.sub a (E.mul factor p) ∷ lowered row factor pivot_row

  abbrev pub lowered_all : ℕ → Row → Row → List (Row × Row) → List (Row × Row)
  lowered_all column left right [] = []
  lowered_all column left right ((a, i) ∷ rows) =
      (lowered a (get_or a column nought) left, lowered i (get_or a column nought) right)
      ∷ lowered_all column left right rows

  abbrev pub inverted : ℕ → ℕ → List (Row × Row) → Option (List (Row × Row))
  inverted i zero rows = some rows
  inverted i (suc n) rows = do
    here ← get_elem? rows i
    left ← divided here.0 (get_or here.0 i nought)
    right ← divided here.1 (get_or here.0 i nought)
    inverted (i + 1) n (
        lowered_all i left right (take i rows)
        ++ (left, right) ∷ lowered_all i left right (drop (suc i) rows))

  abbrev pub zipped : List Row → List Row → List (Row × Row)
  zipped [] bs = []
  zipped (a ∷ rest_a) [] = []
  zipped (a ∷ rest_a) (b ∷ rest_b) = (a, b) ∷ zipped rest_a rest_b

  -- The assertion on the pivot is `data_div`'s: no entry is divided by zero.
  unfoldable pub inverse : Matrix → Option Matrix
  unfolding identity
  inverse a =
      if a.rows == a.cols
      then (inverted 0 a.rows (zipped a.values (identity a.rows).values) >>= λ rows.
          some (record { rows = a.rows; cols = a.rows; values = map (λ r. r.1) rows }))
      else none
