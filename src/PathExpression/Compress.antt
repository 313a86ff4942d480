-- ===== src/PathExpression/Compress.antt =====
-- lib/PathExpression.cpp: `compress_path_prefix`.
pub mod CountBack
pub mod Candidate
pub mod Select
pub mod Correct
pub mod Complete
pub mod Evidence
use arith_exe.Prelude.{
  ℕ, zero, suc, ◌+◌, ◌-◌, ◌*◌, Bool, true, false, not, ◌&&◌, ◌||◌, List, [], ◌∷◌, min, max, ltb,
  leb, ◌==◌, if◌then◌else◌, length, drop, take, ◌++◌,
}
use Prim.Native.Nat.{compare, Ordering}
use arith_exe.PathExpression.Word.{
  PathWord, wrap, star_weight, exponent_weight, exponent_bits, word_equal_at,
  is_primitive_path_word,
}
use arith_exe.PathExpression.Order.{PathSchemaCandidate, candidate_lt, compare_list, compare_power}
use arith_exe.PathExpression.Factor.{FactorTable, cost_at, factor_table, backtrack}

abbrev pub is_empty {ℓ} : {A : Type ℓ} → List A → Bool
is_empty [] = true
is_empty (x ∷ xs) = false

-- `exponent` and `start` after the backward `while` loop
pub record Run : Type 0 where
  pub exponent : ℕ
  pub start : ℕ

module _ (prefix : PathWord) where
  unfoldable pub count_back : ℕ → PathWord → ℕ → ℕ → Run
  count_back zero root exponent start = record { exponent = exponent; start = start }
  count_back (suc fuel) root exponent start =
      let rest = count_back fuel root (exponent + 1) (start - length root) in
      if leb (length root) start && word_equal_at prefix (start - length root) root
      then rest
      else record { exponent = exponent; start = start }

  -- One round of the loop over `length`: a candidate or a `continue`.
  unfoldable pub candidate_of : FactorTable → ℕ → ℕ → List PathSchemaCandidate
  candidate_of table evidence_threshold len =
      let root = drop (length prefix - len) prefix in
      let run = count_back (length prefix) root 0 (length prefix) in
      let closed = backtrack table run.start in
      let found : List PathSchemaCandidate =
        record {
          closed_prefix = closed;
          star = root;
          observed_star_exponent = run.exponent;
          score = wrap (
              cost_at table run.start
              + star_weight
              + len
              + exponent_weight * exponent_bits run.exponent);
        }
        ∷ [] in
      if not (is_primitive_path_word root)
      then []
      else if ltb run.exponent evidence_threshold
      then []
      else if not (run.start == 0) && is_empty closed
      then []
      else found

  -- The loop over `length`, `rounds` rounds of it, as the list of what it pushes.
  unfoldable pub candidates_from : FactorTable → ℕ → ℕ → ℕ → List PathSchemaCandidate
  candidates_from table evidence_threshold zero len = []
  candidates_from table evidence_threshold (suc rounds) len =
      candidate_of table evidence_threshold len
      ++ candidates_from table evidence_threshold rounds (len + 1)

-- `std::sort` by `CandidateOrder`
unfoldable pub insert_candidate :
    PathSchemaCandidate → List PathSchemaCandidate → List PathSchemaCandidate
insert_candidate c [] = c ∷ []
insert_candidate c (d ∷ ds) = if candidate_lt d c then d ∷ insert_candidate c ds else c ∷ d ∷ ds

unfoldable pub sort_candidates : List PathSchemaCandidate → List PathSchemaCandidate
unfolding insert_candidate
sort_candidates [] = []
sort_candidates (c ∷ cs) = insert_candidate c (sort_candidates cs)

abbrev pub is_eq : Ordering → Bool
is_eq Ordering.lt = false
is_eq Ordering.eq = true
is_eq Ordering.gt = false

-- The defaulted `==` of `PathSchemaCandidate`.
unfoldable pub same_candidate : PathSchemaCandidate → PathSchemaCandidate → Bool
same_candidate a b =
    is_eq (compare_list compare_power a.closed_prefix b.closed_prefix)
    && is_eq (compare_list compare a.star b.star)
    && a.observed_star_exponent == b.observed_star_exponent
    && a.score == b.score

-- `std::unique` and the `erase` of what it leaves behind, after the kept element `c`
unfoldable pub unique_after :
    PathSchemaCandidate → List PathSchemaCandidate → List PathSchemaCandidate
unfolding same_candidate
unique_after c [] = []
unique_after c (d ∷ ds) = elim (same_candidate c d) [
  | true ↦ unique_after c ds
  | false ↦ d ∷ unique_after d ds
]

unfoldable pub unique_candidates : List PathSchemaCandidate → List PathSchemaCandidate
unfolding unique_after
unique_candidates [] = []
unique_candidates (c ∷ cs) = c ∷ unique_after c cs

-- `resize` cuts only a list that is longer than the beam.
unfoldable pub select_candidates : ℕ → List PathSchemaCandidate → List PathSchemaCandidate
unfolding sort_candidates unique_candidates
select_candidates beam_width candidates =
    let kept = unique_candidates (sort_candidates candidates) in
    if ltb beam_width (length kept) then take beam_width kept else kept

-- `candidates` after the loop over `length`
unfoldable pub collect_candidates : PathWord → ℕ → ℕ → List PathSchemaCandidate
collect_candidates prefix max_root_length evidence_threshold =
    candidates_from prefix (factor_table prefix max_root_length) evidence_threshold
      (min max_root_length (length prefix)) 1

-- One activation of `compress_path_prefix`; `retry` is what the call of itself returns.
unfoldable pub compress_once :
    PathWord → ℕ → ℕ → ℕ → List PathSchemaCandidate → List PathSchemaCandidate
compress_once prefix max_root_length beam_width evidence_threshold retry =
    let threshold = max evidence_threshold 1 in
    let candidates = collect_candidates prefix max_root_length threshold in
    if is_empty prefix || max_root_length == 0 || beam_width == 0
    then []
    else if is_empty candidates && ltb 1 threshold
    then retry
    else select_candidates beam_width candidates

-- The call of itself has threshold one, where it makes no further call.
unfoldable pub compress_path_prefix : PathWord → ℕ → ℕ → ℕ → List PathSchemaCandidate
compress_path_prefix prefix max_root_length beam_width evidence_threshold =
    compress_once prefix max_root_length beam_width evidence_threshold
      (compress_once prefix max_root_length beam_width 1 [])
