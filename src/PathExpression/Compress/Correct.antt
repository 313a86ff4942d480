-- ===== src/PathExpression/Compress/Correct.antt =====
-- `compress_path_prefix` (lib/PathExpression.cpp): what it returns, and that it returns something.
use arith_exe.Prelude.{
  ℕ, zero, suc, ◌+◌, ◌≤◌, ◌<◌, ◌≡◌, refl, ap, ◌∙◌, ◌≢◌, ◌⊎◌, inl, inr, true, false, not, ◌&&◌, ◌||◌,
  List, [], ◌∷◌, arith, length, ltb, ◌==◌, max, min, Bool-cases, All, All-append, All-map,
  if◌then◌else◌,
}
use arith_exe.PathExpression.Word.{PathWord, is_primitive_path_word}
use arith_exe.PathExpression.Order.{PathSchemaCandidate}
use arith_exe.PathExpression.Factor.{factor_table, backtrack}
use arith_exe.PathExpression.Factor.Invariant.{IsShort}
use arith_exe.PathExpression.Compress.{
  is_empty, candidate_of, candidates_from, collect_candidates, select_candidates, compress_once,
  compress_path_prefix,
}
use arith_exe.PathExpression.Compress.CountBack.{last_root, run_of}
use arith_exe.PathExpression.Compress.Candidate.{IsSchema, IsSchema-candidate}
use arith_exe.PathExpression.Compress.Select.{All-select, length-select, IsSorted, IsSorted-select}

module _ (prefix : PathWord) (max_root_length : ℕ) where
  -- A schema for some evidence is one for less.
  IsSchema-le :
      (e f : ℕ)
      → e ≤ f
      → (c : PathSchemaCandidate) → IsSchema prefix max_root_length f c
      → IsSchema prefix max_root_length e c
  IsSchema-le e f h c s = record {
    primitive = s.primitive;
    bounded = s.bounded;
    observed = omega (arith, s.observed);
    admissible = s.admissible;
    exact = s.exact;
    cheapest = s.cheapest;
    scored = s.scored;
    maximal = s.maximal;
  }

  module _ (short : IsShort prefix) (evidence : ℕ) where
    IsSchema-candidate_of :
        (len : ℕ)
        → 0 < len
        → len ≤ length prefix
        → len ≤ max_root_length
        → All
            (IsSchema prefix max_root_length evidence)
            (candidate_of prefix (factor_table prefix max_root_length) evidence len)
    unfolding candidate_of
    IsSchema-candidate_of len pos inside bounded =
        elim (Bool-cases (is_primitive_path_word (last_root prefix len))) [
          | inr other ↦ rw other tt
          | inl primitive ↦
              rw primitive (elim (Bool-cases (ltb (run_of prefix len).exponent evidence)) [
                | inl few ↦ rw few tt
                | inr enough ↦
                    rw enough
                      (elim (Bool-cases (
                        not ((run_of prefix len).start == 0)
                        && is_empty (
                            backtrack (factor_table prefix max_root_length)
                              (run_of prefix len).start))) [
                                | inl broken ↦ rw broken tt
                                | inr whole ↦ rw whole (
                                  IsSchema-candidate prefix max_root_length short len pos inside
                                      bounded evidence primitive (ground arith),
                                  tt,
                                )
                              ])
              ])
        ]

    IsSchema-candidates_from :
        (rounds len : ℕ)
        → 0 < len
        → len + rounds ≤ length prefix + 1
        → len + rounds ≤ max_root_length + 1
        → All
            (IsSchema prefix max_root_length evidence)
            (candidates_from prefix (factor_table prefix max_root_length) evidence rounds len)
    unfolding candidates_from
    IsSchema-candidates_from zero len pos inside bounded = tt
    IsSchema-candidates_from (suc rounds) len pos inside bounded =
        All-append (IsSchema prefix max_root_length evidence) _ _
          (IsSchema-candidate_of len pos (omega arith) (omega arith))
          (IsSchema-candidates_from rounds (len + 1) (omega arith) (omega arith) (omega arith))

    pub IsSchema-collect :
        All
          (IsSchema prefix max_root_length evidence)
          (collect_candidates prefix max_root_length evidence)
    unfolding collect_candidates
    IsSchema-collect =
        IsSchema-candidates_from (min max_root_length (length prefix)) 1 (omega arith) (omega arith)
          (omega arith)

-- What holds of no candidates and of every selection holds of the result.
module _ {κ} (Q : List PathSchemaCandidate → Type κ) (prefix : PathWord)
    (max_root_length beam_width : ℕ) (nothing : Q [])
    (selected : (evidence : ℕ)
      → 1 ≤ evidence
      → Q (select_candidates beam_width (collect_candidates prefix max_root_length evidence))) where
  compress_once_rule :
      (threshold : ℕ) (retry : List PathSchemaCandidate)
      → Q retry
      → Q (compress_once prefix max_root_length beam_width threshold retry)
  unfolding compress_once
  compress_once_rule threshold retry again =
      elim (Bool-cases (is_empty prefix || max_root_length == 0 || beam_width == 0)) [
        | inl refused ↦ rw refused nothing
        | inr accepted ↦
            rw accepted
              (elim (Bool-cases (
                is_empty (collect_candidates prefix max_root_length (max threshold 1))
                && ltb 1 (max threshold 1))) [
                  | inl retries ↦ rw retries again
                  | inr done ↦ rw done (selected (max threshold 1) (omega arith))
                ])
      ]

  compress_rule :
      (threshold : ℕ) → Q (compress_path_prefix prefix max_root_length beam_width threshold)
  unfolding compress_path_prefix
  compress_rule threshold = compress_once_rule threshold _ (compress_once_rule 1 [] nothing)

module _ (prefix : PathWord) (max_root_length beam_width evidence_threshold : ℕ) where
  -- Whatever the parameters, every candidate is an exact schema for the prefix: its closed powers
  -- followed by the observed copies of its star, at least one, spell the prefix, every root and the
  -- star are primitive and no longer than the bound, the closed part costs no more than any other
  -- factorisation of the same symbols, no further copy of the star ends the closed part, and the
  -- score is the sum of the costs. The prefix is so short that no cost leaves 64 bits.
  pub compress_path_prefix_sound :
      IsShort prefix
      → All
          (IsSchema prefix max_root_length 1)
          (compress_path_prefix prefix max_root_length beam_width evidence_threshold)
  compress_path_prefix_sound short =
      compress_rule (All (IsSchema prefix max_root_length 1)) prefix max_root_length beam_width tt
        (λ evidence least. All-select (IsSchema prefix max_root_length 1) beam_width _ (
          All-map (IsSchema prefix max_root_length evidence)
            (IsSchema-le prefix max_root_length 1 evidence least) _
            (IsSchema-collect prefix max_root_length short evidence)))
        evidence_threshold

  -- There are at most as many candidates as the beam is wide, and none comes before an earlier one
  -- in `CandidateOrder`.
  pub compress_path_prefix_ranked :
      (length (compress_path_prefix prefix max_root_length beam_width evidence_threshold)
        ≤ beam_width)
      × IsSorted (compress_path_prefix prefix max_root_length beam_width evidence_threshold)
  compress_path_prefix_ranked =
      compress_rule (λ cs. (length cs ≤ beam_width) × IsSorted cs) prefix max_root_length beam_width
        (omega arith, tt)
        (λ evidence least.
          let cs = collect_candidates prefix max_root_length evidence in
          (length-select beam_width cs, IsSorted-select beam_width cs))
        evidence_threshold

is_empty_iff {ℓ} :
    {A : Type ℓ} (xs : List A) → (is_empty xs ≡ true → xs ≡ []) × (is_empty xs ≡ false → xs ≢ [])
is_empty_iff [] = (λ h. refl, λ h. cc)
is_empty_iff (x ∷ xs) = (λ h. cc, λ h. cc)

module _ (prefix : PathWord) (max_root_length beam_width : ℕ) (some_symbols : 0 < length prefix)
    (some_length : 0 < max_root_length) (some_beam : 0 < beam_width) where
  -- One activation on a request that passes the first test.
  compress_once_lem :
      (threshold : ℕ) (retry : List PathSchemaCandidate)
      → compress_once prefix max_root_length beam_width threshold retry ≡ (
          if is_empty (collect_candidates prefix max_root_length (max threshold 1))
            && ltb 1 (max threshold 1)
          then retry
          else select_candidates beam_width
              (collect_candidates prefix max_root_length (max threshold 1)))
  unfolding compress_once
  compress_once_lem threshold retry = rw (
    nonempty prefix some_symbols,
    positive max_root_length some_length,
    positive beam_width some_beam,
  )
    where
      nonempty : (w : PathWord) → 0 < length w → is_empty w ≡ false
      nonempty [] h = absurd (omega arith)
      nonempty (x ∷ w) h = refl

      positive : (n : ℕ) → 0 < n → (n == 0) ≡ false
      positive n h = ground arith

  -- The schemas with the evidence asked for, or with evidence one where there are none.
  pub compress_path_prefix_cases :
      (threshold : ℕ)
      → (compress_path_prefix prefix max_root_length beam_width threshold
            ≡ select_candidates beam_width
                (collect_candidates prefix max_root_length (max threshold 1)))
          × (collect_candidates prefix max_root_length (max threshold 1) ≢ [])
        ⊎ (compress_path_prefix prefix max_root_length beam_width threshold
            ≡ select_candidates beam_width (collect_candidates prefix max_root_length 1))
          × (collect_candidates prefix max_root_length (max threshold 1) ≡ [])
  unfolding compress_path_prefix
  compress_path_prefix_cases threshold =
      let found = is_empty_iff (collect_candidates prefix max_root_length (max threshold 1)) in
      let again : compress_once prefix max_root_length beam_width 1 []
          ≡ select_candidates beam_width (collect_candidates prefix max_root_length 1) =
        compress_once_lem 1 [] ∙ ground arith in
      rw (compress_once_lem threshold (compress_once prefix max_root_length beam_width 1 []), again)
        (elim (Bool-cases
          (is_empty (collect_candidates prefix max_root_length (max threshold 1)))) [
            | inr some_found ↦ inl (rw some_found, found.1 some_found)
            | inl none_found ↦ inr (
              elim (Bool-cases (ltb 1 (max threshold 1))) [
                | inl more ↦ rw (none_found, more)
                | inr one ↦
                    let e : max threshold 1 ≡ 1 = ground arith in
                    rw (none_found, one)
                      (ap
                        (λ k.
                          select_candidates beam_width
                            (collect_candidates prefix max_root_length k))
                        e)
              ],
              found.0 none_found,
            )
          ])
