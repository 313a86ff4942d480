-- ===== src/PathExpression/Compress/Select.antt =====
-- Sorting, `unique` and `resize` at the end of `compress_path_prefix` (lib/PathExpression.cpp).
use arith_exe.Prelude.{
  ℕ, zero, suc, ◌≤◌, ◌≡◌, inl, inr, false, List, [], ◌∷◌, arith, length, take, ltb, All, All-take,
  All-map, Bool-cases, length-take,
}
use arith_exe.PathExpression.Order.{PathSchemaCandidate, candidate_lt}
use arith_exe.PathExpression.Order.Laws.{candidate_lt_trans, candidate_lt_asym}
use arith_exe.PathExpression.Compress.{
  insert_candidate, sort_candidates, same_candidate, unique_after, unique_candidates,
  select_candidates,
}

module _ {κ} (P : PathSchemaCandidate → Type κ) where
  All-insert :
      (c : PathSchemaCandidate) (cs : List PathSchemaCandidate)
      → P c
      → All P cs
      → All P (insert_candidate c cs)
  unfolding insert_candidate
  All-insert c [] h k = (h, tt)
  All-insert c (d ∷ ds) h k = elim (Bool-cases (candidate_lt d c)) [
    | inl lt ↦ rw lt (k.0, All-insert c ds h k.1)
    | inr ge ↦ rw ge (h, k)
  ]

  All-sort : (cs : List PathSchemaCandidate) → All P cs → All P (sort_candidates cs)
  unfolding sort_candidates
  All-sort [] h = tt
  All-sort (c ∷ cs) h = All-insert c (sort_candidates cs) h.0 (All-sort cs h.1)

  All-unique_after :
      (c : PathSchemaCandidate) (cs : List PathSchemaCandidate)
      → All P cs
      → All P (unique_after c cs)
  unfolding unique_after
  All-unique_after c [] h = tt
  All-unique_after c (d ∷ ds) h = elim (Bool-cases (same_candidate c d)) [
    | inl same ↦ rw (same, unique_after) (All-unique_after c ds h.1)
    | inr other ↦ rw (other, unique_after) (h.0, All-unique_after d ds h.1)
  ]

  All-unique : (cs : List PathSchemaCandidate) → All P cs → All P (unique_candidates cs)
  unfolding unique_candidates
  All-unique [] h = tt
  All-unique (c ∷ cs) h = (h.0, All-unique_after c cs h.1)

  pub All-select :
      (beam_width : ℕ) (cs : List PathSchemaCandidate)
      → All P cs
      → All P (select_candidates beam_width cs)
  unfolding select_candidates
  All-select beam_width cs h =
      let kept = All-unique (sort_candidates cs) (All-sort cs h) in
      elim (Bool-cases (ltb beam_width (length (unique_candidates (sort_candidates cs))))) [
        | inl cut ↦ rw cut (All-take P beam_width _ kept)
        | inr all ↦ rw all kept
      ]

pub length-select :
    (beam_width : ℕ) (cs : List PathSchemaCandidate)
    → length (select_candidates beam_width cs) ≤ beam_width
unfolding select_candidates
length-select beam_width cs =
    ground (arith, length-take beam_width (unique_candidates (sort_candidates cs)))

-- No later candidate comes before an earlier one in the order.
abbrev pub IsSorted : List PathSchemaCandidate → Type 0
IsSorted [] = Unit {0}
IsSorted (c ∷ cs) = All (λ d. candidate_lt d c ≡ false) cs × IsSorted cs

IsSorted-insert :
    (c : PathSchemaCandidate) (cs : List PathSchemaCandidate)
    → IsSorted cs
    → IsSorted (insert_candidate c cs)
unfolding insert_candidate
IsSorted-insert c [] h = (tt, tt)
IsSorted-insert c (d ∷ ds) h = elim (Bool-cases (candidate_lt d c)) [
  | inl lt ↦ rw lt (
    All-insert (λ e. candidate_lt e d ≡ false) c ds (candidate_lt_asym d c lt) h.0,
    IsSorted-insert c ds h.1,
  )
  | inr ge ↦
      rw ge
        ((ge, All-map (λ e. candidate_lt e d ≡ false) (λ e. candidate_lt_trans c d e ge) ds h.0), h)
]

IsSorted-sort : (cs : List PathSchemaCandidate) → IsSorted (sort_candidates cs)
unfolding sort_candidates
IsSorted-sort [] = tt
IsSorted-sort (c ∷ cs) = IsSorted-insert c (sort_candidates cs) (IsSorted-sort cs)

IsSorted-unique_after :
    (c : PathSchemaCandidate) (cs : List PathSchemaCandidate)
    → IsSorted cs
    → IsSorted (unique_after c cs)
unfolding unique_after
IsSorted-unique_after c [] h = tt
IsSorted-unique_after c (d ∷ ds) h = elim (Bool-cases (same_candidate c d)) [
  | inl same ↦ rw (same, unique_after) (IsSorted-unique_after c ds h.1)
  | inr other ↦
      rw (other, unique_after)
        (All-unique_after (λ e. candidate_lt e d ≡ false) d ds h.0, IsSorted-unique_after d ds h.1)
]

IsSorted-unique : (cs : List PathSchemaCandidate) → IsSorted cs → IsSorted (unique_candidates cs)
unfolding unique_candidates
IsSorted-unique [] h = tt
IsSorted-unique (c ∷ cs) h =
    (All-unique_after (λ e. candidate_lt e c ≡ false) c cs h.0, IsSorted-unique_after c cs h.1)

IsSorted-take : (n : ℕ) (cs : List PathSchemaCandidate) → IsSorted cs → IsSorted (take n cs)
IsSorted-take zero cs h = tt
IsSorted-take (suc n) [] h = tt
IsSorted-take (suc n) (c ∷ cs) h =
    (All-take (λ d. candidate_lt d c ≡ false) n cs h.0, IsSorted-take n cs h.1)

pub IsSorted-select :
    (beam_width : ℕ) (cs : List PathSchemaCandidate) → IsSorted (select_candidates beam_width cs)
unfolding select_candidates
IsSorted-select beam_width cs =
    let kept = IsSorted-unique (sort_candidates cs) (IsSorted-sort cs) in
    elim (Bool-cases (ltb beam_width (length (unique_candidates (sort_candidates cs))))) [
      | inl cut ↦ rw cut (IsSorted-take beam_width _ kept)
      | inr all ↦ rw all kept
    ]
