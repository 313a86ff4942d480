-- ===== src/PathExpression/Compress/CountBack.antt =====
-- The copies of the last symbols that `compress_path_prefix` (lib/PathExpression.cpp) counts back.
use native.Mathlib.Decide.{ℕ_discrete}
use arith_exe.Prelude.{
  ℕ, zero, suc, ◌+◌, ◌-◌, ◌*◌, ◌≤◌, ◌<◌, ◌≡◌, sym, ap, subst, ◌∙◌, inl, inr, ◌&&◌, ◌++◌, arith,
  length, take, drop, leb, append-nil, Bool-cases, length-drop, length-take, take-append-drop,
  length-append,
}
use arith_exe.PathExpression.Word.{PathWord, repeat, word_equal_at}
use arith_exe.PathExpression.Word.Segment.{
  Occurs, Occurs-append, word_equal_at_iff, take-add, take_all, append_split,
}
use arith_exe.PathExpression.Compress.{Run, count_back}

module _ (prefix : PathWord) where
  -- The copies counted back from the end, and no more of them before.
  pub record IsRun (root : PathWord) (run : Run) : Type 0 where
    pub occurs : Occurs prefix run.start (repeat root run.exponent)
    pub span : run.start + run.exponent * length root ≡ length prefix
    pub stop : (q : ℕ) → q + length root ≡ run.start → ¬ Occurs prefix q root

  IsRun-count_back :
      (fuel : ℕ) (root : PathWord) (exponent start : ℕ)
      → 0 < length root
      → start ≤ fuel
      → Occurs prefix start (repeat root exponent)
      → start + exponent * length root ≡ length prefix
      → IsRun root (count_back prefix fuel root exponent start)
        × (exponent ≤ (count_back prefix fuel root exponent start).exponent)
  unfolding count_back
  IsRun-count_back zero root exponent start pos enough occurs span =
      (record { occurs = occurs; span = span; stop = λ q e. absurd (omega arith) }, omega arith)
  IsRun-count_back (suc fuel) root exponent start pos enough occurs span =
      elim (Bool-cases
        (leb (length root) start && word_equal_at prefix (start - length root) root)) [
          | inl more ↦
              let fits : length root ≤ start = ground arith in
              let found = (word_equal_at_iff prefix (start - length root) root).0 (ground arith) in
              let back : start - length root + length root ≡ start = omega arith in
              let joined =
                (Occurs-append prefix (start - length root) root (repeat root exponent)).1
                  (found, subst (λ k. Occurs prefix k (repeat root exponent)) (sym back) occurs) in
              let (run, least) =
                IsRun-count_back fuel root (exponent + 1) (start - length root) pos (omega arith)
                  (subst (λ k. Occurs prefix (start - length root) (repeat root k))
                    {x = suc exponent} (omega arith) joined)
                  (grind arith) in
              rw more (run, omega arith)
          | inr stop ↦ rw stop (
            record {
              occurs = occurs;
              span = span;
              stop = λ q e o.
                  let found = (word_equal_at_iff prefix q root).1 o in
                  let at : start - length root ≡ q = omega arith in ground arith;
            },
            omega arith,
          )
        ]

  -- The last `len` symbols, and what is counted back from them.
  abbrev pub last_root : ℕ → PathWord
  last_root len = drop (length prefix - len) prefix

  abbrev pub run_of : ℕ → Run
  run_of len = count_back prefix (length prefix) (last_root len) 0 (length prefix)

  module _ (len : ℕ) (pos : 0 < len) (inside : len ≤ length prefix) where
    pub length-last_root : length (last_root len) ≡ len
    length-last_root = omega (arith, length-drop (length prefix - len) prefix)

    pub whole : take (length prefix) prefix ≡ prefix
    whole = take_all (length prefix) prefix (omega arith)

    pub IsRun-run_of : IsRun (last_root len) (run_of len)
    IsRun-run_of =
        (IsRun-count_back (length prefix) (last_root len) 0 (length prefix)
          (omega (arith, length-last_root)) (omega arith)
          (record {
            inside = omega arith;
            segment =
                ap (λ k. take k prefix) {y = length prefix} (omega arith)
                ∙ sym (append-nil (take (length prefix) prefix));
          })
          (omega arith)).0

    pub run_of_pos : 0 < (run_of len).exponent
    run_of_pos = elim (ℕ_discrete (run_of len).exponent 0) [
      | yes none_found ↦
          let at_end : (run_of len).start ≡ length prefix =
            omega (arith, IsRun-run_of.span, ap (λ k. k * length (last_root len)) none_found) in
          absurd (
            IsRun-run_of.stop (length prefix - len) (omega (arith, length-last_root)) (record {
              inside = omega (arith, length-last_root);
              segment =
                  ap (λ k. take k prefix) {y = length prefix} (omega (arith, length-last_root))
                  ∙ whole
                  ∙ sym (take-append-drop (length prefix - len) prefix);
            }))
      | no some_found ↦ omega arith
    ]

  -- What occurs at the end of a start of the prefix.
  pub Occurs-at_end :
      (end : ℕ) (rest word : PathWord)
      → end ≤ length prefix
      → take end prefix ≡ rest ++ word
      → (length rest + length word ≡ end) × Occurs prefix (length rest) word
  Occurs-at_end end rest word inside e =
      let size : length rest + length word ≡ end =
        omega (arith, ap length e, length-append rest word, length-take end prefix) in
      let joined : take (length rest) prefix ++ take (length word) (drop (length rest) prefix)
          ≡ rest ++ word =
        sym (take-add (length rest) (length word) prefix) ∙ ap (λ k. take k prefix) size ∙ e in
      let first =
        (append_split (take (length rest) prefix) rest
          (omega (arith, length-take (length rest) prefix)) joined).0 in
      (
        size,
        record {
          inside = omega arith;
          segment = ap (λ k. take k prefix) size ∙ e ∙ ap (λ r. r ++ word) (sym first);
        },
      )
