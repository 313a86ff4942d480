-- ===== src/Session/Maps.antt =====
-- `std::map`, as the sessions and caches of lib/ use it: an association list with its keys' equality.
use arith_exe.Prelude.{
  ◌≡◌, refl, sym, ap, ◌∙◌, Bool, true, false, Option, none, some, List, [], ◌∷◌, if◌then◌else◌,
  Bool-cases, inl, inr,
}

-- A Boolean test that decides equality.
pub record IsEquality {K : Type 0} (same : K → K → Bool) : Type 0 where
  pub sound : (a b : K) → same a b ≡ true → a ≡ b
  pub complete : (a b : K) → a ≡ b → same a b ≡ true

module _ {K V : Type 0} (same : K → K → Bool) where
  -- `find`
  unfoldable pub find : List (K × V) → K → Option V
  find [] k = none
  find ((a, v) ∷ entries) k = if same a k then some v else find entries k

  -- `insert_or_assign`
  unfoldable pub insert_or_assign : List (K × V) → K → V → List (K × V)
  insert_or_assign [] k v = (k, v) ∷ []
  insert_or_assign ((a, w) ∷ entries) k v =
      let rest = insert_or_assign entries k v in
      if same a k then (a, v) ∷ entries else (a, w) ∷ rest

  module _ (equality : IsEquality same) where
    -- What is found after an assignment: the new value under the key, what was there elsewhere.
    pub find-insert_or_assign :
        (entries : List (K × V)) (k q : K) (v : V)
        → find (insert_or_assign entries k v) q ≡ (if same k q then some v else find entries q)
    unfolding find insert_or_assign
    find-insert_or_assign [] k q v = refl
    find-insert_or_assign ((a, w) ∷ entries) k q v = elim (Bool-cases (same a k)) [
      | inl e ↦
          let key = equality.sound a k e in
          elim (Bool-cases (same a q)) [
            | inl f ↦ rw (e, f, sym (ap (λ x. same x q) key) ∙ f) refl
            | inr f ↦ rw (e, f, sym (ap (λ x. same x q) key) ∙ f) refl
          ]
      | inr e ↦ elim (Bool-cases (same a q)) [
        | inl f ↦
            let other : same k q ≡ false = differ (same k q) (λ g. clash (
              sym e ∙ equality.complete a k (equality.sound a q f ∙ sym (equality.sound k q g)))) in
            rw (e, f, other) refl
        | inr f ↦ rw (e, f, find-insert_or_assign entries k q v) refl
      ]
    ]
      where
        clash : ◌≡◌ {A = Bool} false true → ⊥
        clash h = cc

        differ : (b : Bool) → ¬ (b ≡ true) → b ≡ false
        differ true n = absurd (n refl)
        differ false n = refl
