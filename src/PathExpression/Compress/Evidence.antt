-- ===== src/PathExpression/Compress/Evidence.antt =====
-- `compress_path_prefix` (lib/PathExpression.cpp): the evidence threshold, the retry, and what a wide
-- beam keeps.
use Prim.Native.Nat.{compare, Ordering}
use arith_exe.Prelude.{
  ℕ, zero, suc, ◌+◌, ◌≤◌, ◌<◌, ◌≡◌, refl, ap, subst, ◌≢◌, ◌⊎◌, inl, inr, true, false, List, [], ◌∷◌,
  ◌++◌, arith, length, ltb, max, min, ⊎_elim, Bool-cases, All, length-append, length-take,
}
use arith_exe.PathExpression.Word.{PathWord, is_primitive_path_word, repeat, primitive_from}
use arith_exe.PathExpression.Order.{PathSchemaCandidate, candidate_lt, compare_list}
use arith_exe.PathExpression.Factor.{factor_table}
use arith_exe.PathExpression.Factor.Invariant.{IsShort}
use arith_exe.PathExpression.Compress.{
  candidate_of, candidates_from, collect_candidates, insert_candidate, sort_candidates,
  same_candidate, unique_after, unique_candidates, select_candidates, compress_path_prefix,
}
use arith_exe.PathExpression.Compress.Candidate.{IsSchema}
use arith_exe.PathExpression.Compress.Select.{All-select}
use arith_exe.PathExpression.Compress.Complete.{Any, IsEnding, collect-IsEnding}
use arith_exe.PathExpression.Compress.Correct.{IsSchema-collect, compress_path_prefix_cases}

compare_list_eq : (xs ys : PathWord) → compare_list compare xs ys ≡ Ordering.eq → xs ≡ ys
compare_list_eq [] [] h = refl
compare_list_eq [] (y ∷ ys) h = cc
compare_list_eq (x ∷ xs) [] h = cc
compare_list_eq (x ∷ xs) (y ∷ ys) h = ground (arith, compare_list_eq xs ys)

same_candidate_lem :
    (c d : PathSchemaCandidate)
    → same_candidate c d ≡ true
    → (c.star ≡ d.star) × (c.observed_star_exponent ≡ d.observed_star_exponent)
unfolding same_candidate
same_candidate_lem c d h = ground (arith, compare_list_eq c.star d.star)

-- A property of the star and its exponent.
module _ (P : PathWord → ℕ → Type 0) where
  abbrev Has : PathSchemaCandidate → Type 0
  Has c = P c.star c.observed_star_exponent

  Any-insert :
      (c : PathSchemaCandidate) (cs : List PathSchemaCandidate)
      → Has c ⊎ Any Has cs
      → Any Has (insert_candidate c cs)
  unfolding insert_candidate
  Any-insert c [] h = h
  Any-insert c (d ∷ ds) h = elim (Bool-cases (candidate_lt d c)) [
    | inl lt ↦ rw lt (
        ⊎_elim (λ p. inr (Any-insert c ds (inl p)))
          (λ q. ⊎_elim inl (λ r. inr (Any-insert c ds (inr r))) q) h)
    | inr ge ↦ rw ge h
  ]

  Any-sort : (cs : List PathSchemaCandidate) → Any Has cs → Any Has (sort_candidates cs)
  unfolding sort_candidates
  Any-sort [] h = h
  Any-sort (c ∷ cs) (inl h) = Any-insert c (sort_candidates cs) (inl h)
  Any-sort (c ∷ cs) (inr h) = Any-insert c (sort_candidates cs) (inr (Any-sort cs h))

  Any-unique_after :
      (c : PathSchemaCandidate) (cs : List PathSchemaCandidate)
      → Has c ⊎ Any Has cs
      → Has c ⊎ Any Has (unique_after c cs)
  unfolding unique_after
  Any-unique_after c [] h = h
  Any-unique_after c (d ∷ ds) h = elim (Bool-cases (same_candidate c d)) [
    | inl same ↦
        let (stars, exponents) = same_candidate_lem c d same in
        rw (same, unique_after)
          (Any-unique_after c ds
            (⊎_elim inl (λ q. ⊎_elim (λ p. inl (rw (stars, exponents) p)) inr q) h))
    | inr other ↦ rw (other, unique_after) (⊎_elim inl (λ q. inr (Any-unique_after d ds q)) h)
  ]

  Any-unique : (cs : List PathSchemaCandidate) → Any Has cs → Any Has (unique_candidates cs)
  unfolding unique_candidates
  Any-unique [] h = h
  Any-unique (c ∷ cs) h = Any-unique_after c cs h

length-insert :
    (c : PathSchemaCandidate) (cs : List PathSchemaCandidate)
    → length (insert_candidate c cs) ≡ suc (length cs)
unfolding insert_candidate
length-insert c [] = refl
length-insert c (d ∷ ds) = ground (arith, length-insert c ds)

length-sort : (cs : List PathSchemaCandidate) → length (sort_candidates cs) ≡ length cs
unfolding sort_candidates
length-sort [] = refl
length-sort (c ∷ cs) = omega (arith, length-insert c (sort_candidates cs), length-sort cs)

length-unique_after :
    (c : PathSchemaCandidate) (cs : List PathSchemaCandidate)
    → length (unique_after c cs) ≤ length cs
unfolding unique_after
length-unique_after c [] = omega arith
length-unique_after c (d ∷ ds) = ground (arith, length-unique_after c ds, length-unique_after d ds)

length_unique : (cs : List PathSchemaCandidate) → length (unique_candidates cs) ≤ length cs
unfolding unique_candidates
length_unique [] = omega arith
length_unique (c ∷ cs) = omega (arith, length-unique_after c cs)

-- A beam no narrower than the candidates keeps them.
Any-select_wide :
    (P : PathWord → ℕ → Type 0) (beam_width : ℕ) (cs : List PathSchemaCandidate)
    → length cs ≤ beam_width
    → Any (Has P) cs
    → Any (Has P) (select_candidates beam_width cs)
unfolding select_candidates
Any-select_wide P beam_width cs wide h =
    let all : ltb beam_width (length (unique_candidates (sort_candidates cs))) ≡ false =
      ground (arith, length_unique (sort_candidates cs), length-sort cs) in
    rw all (Any-unique P (sort_candidates cs) (Any-sort P cs h))

unique_pos : (cs : List PathSchemaCandidate) → 0 < length cs → 0 < length (unique_candidates cs)
unfolding unique_candidates
unique_pos [] h = h
unique_pos (c ∷ cs) h = omega arith

select_pos :
    (beam_width : ℕ) (cs : List PathSchemaCandidate)
    → 0 < beam_width
    → 0 < length cs
    → 0 < length (select_candidates beam_width cs)
unfolding select_candidates
select_pos beam_width cs pos h =
    let kept = unique_candidates (sort_candidates cs) in
    ground (
      arith,
      unique_pos (sort_candidates cs),
      length-sort cs,
      length-take beam_width (unique_candidates (sort_candidates cs)),
    )

length-candidate_of :
    (prefix : PathWord) (max_root_length evidence len : ℕ)
    → length (candidate_of prefix (factor_table prefix max_root_length) evidence len) ≤ 1
unfolding candidate_of
length-candidate_of prefix m evidence len = ground arith

length-candidates_from :
    (prefix : PathWord) (max_root_length evidence rounds len : ℕ)
    → length (candidates_from prefix (factor_table prefix max_root_length) evidence rounds len)
      ≤ rounds
unfolding candidates_from
length-candidates_from prefix m evidence zero len = omega arith
length-candidates_from prefix m evidence (suc rounds) len = omega (
  arith,
  length-append (candidate_of prefix (factor_table prefix m) evidence len)
      (candidates_from prefix (factor_table prefix m) evidence rounds (len + 1)),
  length-candidates_from prefix m evidence rounds (len + 1),
  length-candidate_of prefix m evidence len,
)

length-collect :
    (prefix : PathWord) (max_root_length evidence : ℕ)
    → length (collect_candidates prefix max_root_length evidence) ≤ max_root_length
unfolding collect_candidates
length-collect prefix m evidence =
    omega (arith, length-candidates_from prefix m evidence (min m (length prefix)) 1)

Any-pos :
    (P : PathSchemaCandidate → Type 0) (cs : List PathSchemaCandidate) → Any P cs → 0 < length cs
Any-pos P [] h = absurd h
Any-pos P (c ∷ cs) h = omega arith

-- The last symbol of a prefix, as a word.
last_symbol : (w : PathWord) → 0 < length w → (front : PathWord) × (x : ℕ) × (w ≡ front ++ x ∷ [])
last_symbol [] h = absurd (omega arith)
last_symbol (x ∷ []) h = ([], x, refl)
last_symbol (x ∷ y ∷ w) h =
    let (front, z, e) = last_symbol (y ∷ w) (omega arith) in (x ∷ front, z, ap (λ r. x ∷ r) e)

primitive_single : (x : ℕ) → is_primitive_path_word (x ∷ []) ≡ true
unfolding is_primitive_path_word primitive_from
primitive_single x = refl

module _ (prefix : PathWord) (max_root_length beam_width : ℕ) (short : IsShort prefix)
    (some_symbols : 0 < length prefix) (some_length : 0 < max_root_length)
    (some_beam : 0 < beam_width) where
  collect_pos : 0 < length (collect_candidates prefix max_root_length 1)
  collect_pos =
      let (front, x, e) = last_symbol prefix some_symbols in
      Any-pos _ _ (
        collect-IsEnding prefix front (x ∷ []) 1 e max_root_length 1 short (primitive_single x)
          (omega arith) some_length (omega arith) (omega arith))

  -- For a prefix that is not empty and so short that no cost leaves 64 bits, a positive length and a
  -- positive beam there is a candidate, whatever the evidence asked for.
  pub compress_path_prefix_nonempty :
      (evidence_threshold : ℕ)
      → 0 < length (compress_path_prefix prefix max_root_length beam_width evidence_threshold)
  compress_path_prefix_nonempty threshold =
      ⊎_elim (λ (h, found). rw h (select_pos beam_width _ some_beam (pos_of_nonempty _ found)))
        (λ (h, _). rw h (select_pos beam_width _ some_beam collect_pos))
        (compress_path_prefix_cases prefix max_root_length beam_width some_symbols some_length
          some_beam threshold)
    where
      pos_of_nonempty : (cs : List PathSchemaCandidate) → cs ≢ [] → 0 < length cs
      pos_of_nonempty [] h = absurd (h refl)
      pos_of_nonempty (c ∷ cs) h = omega arith

  module _ (evidence_threshold : ℕ) (front word : PathWord) (exponent : ℕ)
      (ends : prefix ≡ front ++ repeat word exponent)
      (primitive : is_primitive_path_word word ≡ true) (nonempty : 0 < length word)
      (bounded : length word ≤ max_root_length) (enough : max evidence_threshold 1 ≤ exponent) where
    found :
        Any
          (IsEnding prefix front word exponent ends)
          (collect_candidates prefix max_root_length (max evidence_threshold 1))
    found =
        collect-IsEnding prefix front word exponent ends max_root_length (max evidence_threshold 1)
          short primitive nonempty bounded (omega arith) enough

    selected :
        compress_path_prefix prefix max_root_length beam_width evidence_threshold
        ≡ select_candidates beam_width
            (collect_candidates prefix max_root_length (max evidence_threshold 1))
    selected =
        ⊎_elim (λ (h, _). h)
          (λ (_, none_found).
            absurd (subst (Any (IsEnding prefix front word exponent ends)) none_found found))
          (compress_path_prefix_cases prefix max_root_length beam_width some_symbols some_length
            some_beam evidence_threshold)

    -- If a primitive word that is not empty and within the length bound ends the prefix at least as
    -- often as the evidence asked for (once at least), then every candidate is a schema with that
    -- evidence: the retry with evidence one is not taken. The prefix is not empty and so short that
    -- no cost leaves 64 bits; the length bound and the beam are positive.
    pub compress_path_prefix_evidence :
        All
          (IsSchema prefix max_root_length (max evidence_threshold 1))
          (compress_path_prefix prefix max_root_length beam_width evidence_threshold)
    compress_path_prefix_evidence = rw selected (
        All-select (IsSchema prefix max_root_length (max evidence_threshold 1)) beam_width _
          (IsSchema-collect prefix max_root_length short (max evidence_threshold 1)))

    -- If a primitive word that is not empty and within the length bound ends the prefix at least as
    -- often as the evidence asked for (once at least), and the beam is no narrower than the length
    -- bound, then a candidate has that word as its star, with at least as many copies. The prefix
    -- is not empty and so short that no cost leaves 64 bits; the length bound and the beam are
    -- positive.
    pub compress_path_prefix_complete :
        max_root_length ≤ beam_width
        → Any
            (λ c. (c.star ≡ word) × (exponent ≤ c.observed_star_exponent))
            (compress_path_prefix prefix max_root_length beam_width evidence_threshold)
    compress_path_prefix_complete wide = rw selected (
        Any-select_wide (λ star count. (star ≡ word) × (exponent ≤ count)) beam_width _
          (omega (arith, length-collect prefix max_root_length (max evidence_threshold 1))) found)
