-- ===== src/PathExpression/Compress/Complete.antt =====
-- `compress_path_prefix` (lib/PathExpression.cpp) misses no repeated ending, and always finds one.
use native.Mathlib.Nat.{mul-le-mul_right}
use native.Mathlib.Decide.{ℕ_discrete}
use arith_exe.Prelude.{
  ℕ, zero, suc, ◌+◌, ◌-◌, ◌*◌, ◌≤◌, ◌<◌, ◌≡◌, refl, sym, ap, subst, ◌∙◌, ◌⊎◌, inl, inr, true, false,
  not, ◌&&◌, List, [], ◌∷◌, ◌++◌, arith, length, take, drop, ltb, ◌==◌, min, Bool-cases,
  append_assoc, length-append, length-take,
}
use arith_exe.PathExpression.Word.{
  PathWord, ConcretePathPower, is_primitive_path_word, repeat, expand_path_powers,
}
use arith_exe.PathExpression.Word.Segment.{
  Occurs, Occurs-repeat-within, length-repeat, repeat-concat, take_all,
}
use arith_exe.PathExpression.Order.{PathSchemaCandidate}
use arith_exe.PathExpression.Factor.{factor_table, backtrack}
use arith_exe.PathExpression.Factor.Invariant.{IsShort}
use arith_exe.PathExpression.Compress.{is_empty, candidate_of, candidates_from, collect_candidates}
use arith_exe.PathExpression.Compress.CountBack.{last_root, run_of, IsRun-run_of}
use arith_exe.PathExpression.Compress.Candidate.{IsFactorization-closed, start_inside}

abbrev pub Any : (PathSchemaCandidate → Type 0) → List PathSchemaCandidate → Type 0
Any P [] = ⊥
Any P (c ∷ cs) = P c ⊎ Any P cs

Any-append :
    (P : PathSchemaCandidate → Type 0) (xs ys : List PathSchemaCandidate)
    → Any P xs ⊎ Any P ys
    → Any P (xs ++ ys)
Any-append P [] ys (inl h) = absurd h
Any-append P [] ys (inr h) = h
Any-append P (x ∷ xs) ys (inl (inl h)) = inl h
Any-append P (x ∷ xs) ys (inl (inr h)) = inr (Any-append P xs ys (inl h))
Any-append P (x ∷ xs) ys (inr h) = inr (Any-append P xs ys (inr h))

drop-append : (xs ys : PathWord) → drop (length xs) (xs ++ ys) ≡ ys
drop-append [] ys = refl
drop-append (x ∷ xs) ys = drop-append xs ys

take-append : (xs ys : PathWord) → take (length xs) (xs ++ ys) ≡ xs
take-append [] ys = refl
take-append (x ∷ xs) ys = ap (λ r. x ∷ r) (take-append xs ys)

is_empty_expand :
    (powers : List ConcretePathPower) → is_empty powers ≡ true → expand_path_powers powers ≡ []
unfolding expand_path_powers
is_empty_expand [] h = refl
is_empty_expand (p ∷ ps) h = cc

-- The table always has a way to the start of the run.
closed_nonempty :
    (prefix : PathWord) (max_root_length : ℕ)
    → IsShort prefix
    → (len : ℕ) → 0 < len
    → len ≤ length prefix
    → len ≤ max_root_length
    → (not ((run_of prefix len).start == 0)
        && is_empty (backtrack (factor_table prefix max_root_length) (run_of prefix len).start))
      ≡ false
closed_nonempty prefix max_root_length short len pos inside bounded =
    let factors = (IsFactorization-closed prefix max_root_length short len pos inside bounded).0 in
    let start = (run_of prefix len).start in
    let low = start_inside prefix max_root_length short len pos inside bounded in
    let powers = backtrack (factor_table prefix max_root_length) start in
    elim (Bool-cases (is_empty powers)) [
      | inr some_powers ↦ ground arith
      | inl no_powers ↦
          let none_left : start ≡ 0 = omega (
            arith,
            length-take start prefix,
            ap length (sym factors.expands ∙ is_empty_expand powers no_powers),
          ) in
          ground arith
    ]

-- The prefix ends in `exponent` copies of `word`.
module _ (prefix front word : PathWord) (exponent : ℕ)
    (ends : prefix ≡ front ++ repeat word exponent) where
  size : length prefix ≡ length front + exponent * length word
  size =
      ap length ends
      ∙ omega (arith, length-append front (repeat word exponent), length-repeat word exponent)

  Occurs-ending : Occurs prefix (length front) (repeat word exponent)
  Occurs-ending =
      let whole : length front + length (repeat word exponent) ≡ length prefix =
        omega (arith, size, length-repeat word exponent) in
      record {
        inside = omega arith;
        segment =
            ap (λ k. take k prefix) whole
            ∙ take_all (length prefix) prefix (omega arith)
            ∙ ends
            ∙ ap (λ r. r ++ repeat word exponent)
                (sym (take-append front (repeat word exponent))
                  ∙ ap (take (length front)) (sym ends));
      }

  last_root-ending : 0 < exponent → last_root prefix (length word) ≡ word
  last_root-ending pos =
      let split : prefix ≡ (front ++ repeat word (exponent - 1)) ++ word =
        ends
        ∙ ap (λ k. front ++ repeat word k) {y = suc (exponent - 1)} (omega arith)
        ∙ ap (λ r. front ++ r) (repeat-concat word (exponent - 1))
        ∙ sym (append_assoc front (repeat word (exponent - 1)) word) in
      let at_end : length prefix - length word ≡ length (front ++ repeat word (exponent - 1)) =
        omega (arith, ap length split, length-append (front ++ repeat word (exponent - 1)) word) in
      ap (λ k. drop k prefix) at_end
      ∙ ap (drop (length (front ++ repeat word (exponent - 1)))) split
      ∙ drop-append (front ++ repeat word (exponent - 1)) word

  -- Counting back finds every copy.
  run_of-ending : 0 < exponent → 0 < length word → exponent ≤ (run_of prefix (length word)).exponent
  run_of-ending pos nonempty =
      let run = run_of prefix (length word) in
      let fits : length word ≤ length prefix =
        omega (arith, size, mul-le-mul_right (length word) pos) in
      let found = IsRun-run_of prefix (length word) nonempty fits in
      let same = last_root-ending pos in
      elim (Bool-cases (ltb run.exponent exponent)) [
        | inr enough ↦ ground arith
        | inl fewer ↦
            let k = exponent - run.exponent - 1 in
            let parts : exponent ≡ k + suc run.exponent = ground arith in
            let before =
              Occurs-repeat-within prefix (length front) word k run.exponent
                (subst (λ n. Occurs prefix (length front) (repeat word n)) parts Occurs-ending) in
            let span : run.start + run.exponent * length word ≡ length prefix =
              subst (λ w. run.start + run.exponent * length w ≡ length prefix) same found.span in
            let at_start : length front + k * length word + length word ≡ run.start =
              omega (arith, span, size, ap (λ n. n * length word) parts) in
            absurd (
              found.stop (length front + k * length word)
                (ap (λ w. length front + k * length word + length w) same ∙ at_start)
                (subst (Occurs prefix (length front + k * length word)) (sym same) before))
      ]

  abbrev pub IsEnding : PathSchemaCandidate → Type 0
  IsEnding c = (c.star ≡ word) × (exponent ≤ c.observed_star_exponent)

  module _ (max_root_length evidence : ℕ) (short : IsShort prefix)
      (primitive : is_primitive_path_word word ≡ true) (nonempty : 0 < length word)
      (bounded : length word ≤ max_root_length) (pos : 0 < exponent)
      (enough : evidence ≤ exponent) where
    fits : length word ≤ length prefix
    fits = omega (arith, size, mul-le-mul_right (length word) pos)

    candidate_of-IsEnding :
        Any IsEnding
          (candidate_of prefix (factor_table prefix max_root_length) evidence (length word))
    unfolding candidate_of
    candidate_of-IsEnding =
        let same = last_root-ending pos in
        let run = run_of prefix (length word) in
        let counted = run_of-ending pos nonempty in
        let root_ok : is_primitive_path_word (last_root prefix (length word)) ≡ true =
          subst (λ w. is_primitive_path_word w ≡ true) (sym same) primitive in
        let many : ltb run.exponent evidence ≡ false = ground arith in
        let closed_ok : not (run.start == 0)
              && is_empty (backtrack (factor_table prefix max_root_length) run.start)
            ≡ false =
          closed_nonempty prefix max_root_length short (length word) nonempty fits bounded in
        rw (root_ok, many, closed_ok) (inl (same, counted))

    candidates_from-IsEnding :
        (rounds len : ℕ)
        → len ≤ length word
        → length word < len + rounds
        → Any IsEnding
            (candidates_from prefix (factor_table prefix max_root_length) evidence rounds len)
    unfolding candidates_from
    candidates_from-IsEnding zero len lo hi = absurd (omega arith)
    candidates_from-IsEnding (suc rounds) len lo hi =
        Any-append IsEnding _ _ (elim (ℕ_discrete (length word) len) [
          | yes here ↦ inl (
              subst
                (λ k.
                  Any IsEnding
                    (candidate_of prefix (factor_table prefix max_root_length) evidence k))
                here candidate_of-IsEnding)
          | no later ↦ inr (candidates_from-IsEnding rounds (len + 1) (omega arith) (omega arith))
        ])

    pub collect-IsEnding : Any IsEnding (collect_candidates prefix max_root_length evidence)
    unfolding collect_candidates
    collect-IsEnding =
        candidates_from-IsEnding (min max_root_length (length prefix)) 1 (omega arith)
          (omega (arith, fits))
