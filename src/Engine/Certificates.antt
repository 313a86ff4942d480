-- ===== src/Engine/Certificates.antt =====
-- lib/engine.cpp: the certificates that the terminated paths leave with the engine.
use arith_exe.Prelude.{
  ◌≡◌, refl, sym, ◌∙◌, inl, inr, true, false, List, [], ◌∷◌, ◌++◌, All, All-append, arith,
  append-nil, append_assoc, Bool-cases,
}
use arith_exe.Engine.Defs.{Backend}
use arith_exe.Engine.Run.{already_recorded, add_certificates}

module _ (B : Backend) where
  open B use {Certificate, same_subject}

  -- No certificate has the subject of an earlier one.
  abbrev pub IsDistinct : List Certificate → Type 0
  IsDistinct [] = Unit {0}
  IsDistinct (c ∷ cs) = All (λ d. same_subject c d ≡ false) cs × IsDistinct cs

  All-differ :
      (c : Certificate) (ds : List Certificate)
      → already_recorded B c ds ≡ false
      → All (λ d. same_subject d c ≡ false) ds
  unfolding already_recorded
  All-differ c [] h = tt
  All-differ c (d ∷ ds) h = (ground (arith, h), All-differ c ds (ground (arith, h)))

  IsDistinct-snoc :
      (cs : List Certificate) (c : Certificate)
      → IsDistinct cs
      → All (λ d. same_subject d c ≡ false) cs
      → IsDistinct (cs ++ c ∷ [])
  IsDistinct-snoc [] c h differ = (tt, tt)
  IsDistinct-snoc (d ∷ cs) c h differ = (
    All-append (λ x. same_subject d x ≡ false) cs (c ∷ []) h.0 (differ.0, tt),
    IsDistinct-snoc cs c h.1 differ.1,
  )

  recorded-append :
      (c : Certificate) (xs ys : List Certificate)
      → already_recorded B c xs ≡ true
      → already_recorded B c (xs ++ ys) ≡ true
  unfolding already_recorded
  recorded-append c [] ys h = cc
  recorded-append c (x ∷ xs) ys h = elim (Bool-cases (same_subject x c)) [
    | inl same ↦ rw same refl
    | inr other ↦ rw other (recorded-append c xs ys (rw other at h))
  ]

  recorded_last :
      (c : Certificate) (xs : List Certificate)
      → same_subject c c ≡ true
      → already_recorded B c (xs ++ c ∷ []) ≡ true
  unfolding already_recorded
  recorded_last c [] h = rw h refl
  recorded_last c (x ∷ xs) h = ground (arith, recorded_last c xs h)

  -- What `recorded` grows to when the certificates are added.
  pub record Grown (recorded added result : List Certificate) : Type 0 where
    pub distinct : IsDistinct result
    pub new : List Certificate
    pub kept : result ≡ recorded ++ new
    pub covered : All (λ c. already_recorded B c result ≡ true) added

  -- Adding certificates to a list without two of one subject gives such a list again; it starts with
  -- the recorded ones in their order, and every added certificate has one of its subject in it. The
  -- comparison of subjects is reflexive.
  pub add_certificates-Grown :
      ((c : Certificate) → same_subject c c ≡ true)
      → (recorded added : List Certificate) → IsDistinct recorded
      → Grown recorded added (add_certificates B recorded added)
  unfolding add_certificates
  add_certificates-Grown same recorded [] h = record {
    distinct = h;
    new = [];
    kept = sym (append-nil recorded);
    covered = tt;
  }
  add_certificates-Grown same recorded (c ∷ cs) h =
      elim (Bool-cases (already_recorded B c recorded)) [
        | inl known ↦
            let rest = add_certificates-Grown same recorded cs h in
            rw known record {
              distinct = rest.distinct;
              new = rest.new;
              kept = rest.kept;
              covered = (rw rest.kept (recorded-append c recorded rest.new known), rest.covered);
            }
        | inr unseen ↦
            let more = recorded ++ c ∷ [] in
            let rest =
              add_certificates-Grown same more cs
                (IsDistinct-snoc recorded c h (All-differ c recorded unseen)) in
            rw unseen record {
              distinct = rest.distinct;
              new = c ∷ rest.new;
              kept = rest.kept ∙ append_assoc recorded (c ∷ []) rest.new;
              covered = (
                rw rest.kept (recorded-append c more rest.new (recorded_last c recorded (same c))),
                rest.covered,
              );
            }
      ]
