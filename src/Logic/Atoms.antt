-- ===== src/Logic/Atoms.antt =====
-- lib/logics.cpp: `atoms` and the truth of a formula.
use arith_exe.Prelude.{
  ℕ, zero, suc, ◌≤◌, ◌≡◌, refl, sym, subst, ap, ap₂, ◌∙◌, inl, inr, ◌⊎◌, Bool, true, false, List,
  [], ◌∷◌, ◌++◌, map, Option, none, some, some-injective, arith, Bool-cases,
}
use arith_exe.Z3.{Z3, Z3Laws, holds, total, In, is_connective, Occurs, itself, inside}
use arith_exe.Logic.Cnf.{is_atom, seen, atoms_rec, atoms}
use arith_exe.Logic.Pieces.Marks.{total-append}

module _ {A : Type 0} where
  In-left : (a : A) (xs ys : List A) → In a xs → In a (xs ++ ys)
  In-left a [] ys i = absurd i
  In-left a (x ∷ xs) ys (inl e) = inl e
  In-left a (x ∷ xs) ys (inr i) = inr (In-left a xs ys i)

  In-right : (a : A) (xs ys : List A) → In a ys → In a (xs ++ ys)
  In-right a [] ys i = i
  In-right a (x ∷ xs) ys i = inr (In-right a xs ys i)

  In-split : (a : A) (xs ys : List A) → In a (xs ++ ys) → In a xs ⊎ In a ys
  In-split a [] ys i = inr i
  In-split a (x ∷ xs) ys (inl e) = inl (inl e)
  In-split a (x ∷ xs) ys (inr i) = elim (In-split a xs ys i) [ inl l ↦ inl (inr l) | inr r ↦ inr r ]

  equal-In : (f g : A → Bool) (a : A) (xs : List A) → map f xs ≡ map g xs → In a xs → f a ≡ g a
  equal-In f g a [] h i = absurd i
  equal-In f g a (x ∷ xs) h (inl e) = let first : f x ≡ g x = cc in ap f e ∙ first ∙ ap g (sym e)
  equal-In f g a (x ∷ xs) h (inr i) =
      let rest : map f xs ≡ map g xs = cc in equal-In f g a xs rest i

  equal-map : (f g : A → Bool) (xs : List A) → ((a : A) → In a xs → f a ≡ g a) → map f xs ≡ map g xs
  equal-map f g [] h = refl
  equal-map f g (x ∷ xs) h =
      ap₂ (λ b bs. b ∷ bs) (h x (inl refl)) (equal-map f g xs (λ a i. h a (inr i)))

atom_cases : (o : Option Bool) → (o ≡ none) ⊎ ((o ≡ some true) ⊎ (o ≡ some false))
atom_cases none = inl refl
atom_cases (some true) = inr (inl refl)
atom_cases (some false) = inr (inr refl)

module _ (Z : Z3) (laws : Z3Laws Z) where
  open Z use {Expr, Model, args}

  -- Connectives down to atoms.
  pub data IsFormula : Expr → Type 0 where
    atomic : (e : Expr) → is_atom Z e ≡ some true → IsFormula e
    compound :
        (e : Expr)
        → is_connective (Z.kind e) ≡ true
        → ((a : Expr) → In a (args e) → IsFormula a)
        → IsFormula e

  Occurs-argument : (x a e : Expr) → Occurs Z x e → In a (args x) → Occurs Z a e
  Occurs-argument x a e (itself _) i = inside a a e i (itself a)
  Occurs-argument x a e (inside _ b _ j o) i = inside a b e j (Occurs-argument x a b o i)

  -- The expression is among those, or one with its text is.
  abbrev Covered : Expr → List Expr → Type 0
  Covered a vs = (v : Expr) × (In v vs) × ((a ≡ v) ⊎ (Z.same_text v a ≡ true))

  abbrev Open : List Expr → List Expr → Expr → Type 0
  Open visited work a = In a work ⊎ Covered a visited

  Covered-seen : (t : Expr) (visited : List Expr) → seen Z t visited ≡ true → Covered t visited
  Covered-seen t [] h = cc
  Covered-seen t (v ∷ visited) h = elim (Bool-cases (Z.same_text v t)) [
    | inl s ↦ (v, inl refl, inr s)
    | inr s ↦ let (w, i, c) = Covered-seen t visited (ground (arith, h, s)) in (w, inr i, c)
  ]

  -- The atoms among the visited are listed, and their arguments are visited or still to visit.
  record IsWalk (work visited atms : List Expr) (fml : Expr) : Type 0 where
    listed : (v : Expr) → In v visited → is_atom Z v ≡ some true → In v atms
    closed : (v : Expr) → In v visited → (a : Expr) → In a (args v) → Open visited work a
    occurring : (v : Expr) → In v (work ++ visited) → Occurs Z v fml

  module _ (fml t : Expr) (work visited atms : List Expr)
      (walk : IsWalk (t ∷ work) visited atms fml) where
    skip : seen Z t visited ≡ true → (a : Expr) → Open visited (t ∷ work) a → Open visited work a
    skip s a (inl (inl e)) = inr (subst (λ x. Covered x visited) (sym e) (Covered-seen t visited s))
    skip s a (inl (inr i)) = inl i
    skip s a (inr c) = inr c

    skipped : seen Z t visited ≡ true → IsWalk work visited atms fml
    skipped s = record {
      listed = walk.listed;
      closed = λ v i a j. skip s a (walk.closed v i a j);
      occurring = λ v i. walk.occurring v (inr i);
    }

    visit : (a : Expr) → Open visited (t ∷ work) a → Open (t ∷ visited) (args t ++ work) a
    visit a (inl (inl e)) = inr (t, inl refl, inl e)
    visit a (inl (inr i)) = inl (In-right a (args t) work i)
    visit a (inr (v, i, c)) = inr (v, inr i, c)

    visited_next :
        (atms' : List Expr)
        → ((v : Expr) → In v atms → In v atms')
        → (is_atom Z t ≡ some true → In t atms')
        → IsWalk (args t ++ work) (t ∷ visited) atms' fml
    visited_next atms' more here = record {
      listed = now_listed;
      closed = now_closed;
      occurring = now_occurring;
    }
      where
        now_listed : (v : Expr) → In v (t ∷ visited) → is_atom Z v ≡ some true → In v atms'
        now_listed v (inl e) h = subst (λ x. In x atms') (sym e) (here (ap (is_atom Z) (sym e) ∙ h))
        now_listed v (inr i) h = more v (walk.listed v i h)

        now_closed :
            (v : Expr)
            → In v (t ∷ visited)
            → (a : Expr) → In a (args v)
            → Open (t ∷ visited) (args t ++ work) a
        now_closed v (inl e) a j = inl (In-left a (args t) work (subst (λ x. In a (args x)) e j))
        now_closed v (inr i) a j = visit a (walk.closed v i a j)

        now_occurring : (v : Expr) → In v ((args t ++ work) ++ (t ∷ visited)) → Occurs Z v fml
        now_occurring v i = elim (In-split v (args t ++ work) (t ∷ visited) i) [
          | inl l ↦ elim (In-split v (args t) work l) [
            | inl j ↦ Occurs-argument t v fml (walk.occurring t (inl refl)) j
            | inr j ↦ walk.occurring v (inr (In-left v work visited j))
          ]
          | inr (inl e) ↦ subst (λ x. Occurs Z x fml) (sym e) (walk.occurring t (inl refl))
          | inr (inr j) ↦ walk.occurring v (inr (In-right v work visited j))
        ]

  -- At the end, nothing is left to visit.
  abbrev Walked : List Expr → List Expr → List Expr → Expr → Type 0
  Walked work visited found fml =
      (all : List Expr) × IsWalk [] all found fml
      × ((a : Expr) → Open visited work a → Covered a all)

  atoms_rec_lem :
      (fuel : ℕ) (work visited atms found : List Expr) (fml : Expr)
      → total Z.size work ≤ fuel
      → IsWalk work visited atms fml
      → atoms_rec Z fuel work visited atms ≡ some found
      → Walked work visited found fml
  unfolding atoms_rec
  atoms_rec_lem fuel [] visited atms found fml small walk h =
      (visited, subst (λ xs. IsWalk [] visited xs fml) (some-injective atms found h) walk, ended)
    where
      ended : (a : Expr) → Open visited [] a → Covered a visited
      ended a (inl i) = absurd i
      ended a (inr c) = c
  atoms_rec_lem zero (t ∷ work) visited atms found fml small walk h =
      absurd (omega (arith, small, laws.size_law t))
  atoms_rec_lem (suc fuel) (t ∷ work) visited atms found fml small walk h =
      elim (Bool-cases (seen Z t visited)) [
        | inl s ↦
            let (all, done, covers) =
              atoms_rec_lem fuel work visited atms found fml (omega (arith, small, laws.size_law t))
                (skipped fml t work visited atms walk s) (sym (rw s refl) ∙ h) in
            (all, done, λ a o. covers a (skip fml t work visited atms walk s a o))
        | inr s ↦ elim (atom_cases (is_atom Z t)) [
          | inl e ↦ absurd (clash (sym (rw (s, e) refl) ∙ h))
          | inr (inl e) ↦
              let (all, done, covers) =
                atoms_rec_lem fuel (args t ++ work) (t ∷ visited) (atms ++ t ∷ []) found fml
                  (omega (arith, small, laws.size_law t, total-append Z.size (args t) work))
                  (visited_next fml t work visited atms walk (atms ++ t ∷ [])
                    (λ v i. In-left v atms (t ∷ []) i) (λ k. In-right t atms (t ∷ []) (inl refl)))
                  (sym (rw (s, e) refl) ∙ h) in
              (all, done, λ a o. covers a (visit fml t work visited atms walk a o))
          | inr (inr e) ↦
              let (all, done, covers) =
                atoms_rec_lem fuel (args t ++ work) (t ∷ visited) atms found fml
                  (omega (arith, small, laws.size_law t, total-append Z.size (args t) work))
                  (visited_next fml t work visited atms walk atms (λ v i. i)
                    (λ k. absurd (other (sym e ∙ k))))
                  (sym (rw (s, e) refl) ∙ h) in
              (all, done, λ a o. covers a (visit fml t work visited atms walk a o))
        ]
      ]
    where
      clash : ◌≡◌ {A = Option (List Expr)} none (some found) → ⊥
      clash x = cc

      other : ◌≡◌ {A = Option Bool} (some false) (some true) → ⊥
      other x = cc

  module _ (m n : Model) (fml : Expr) (atms : List Expr)
      (agree : map (holds Z m) atms ≡ map (holds Z n) atms)
      (texts : (a b : Expr)
        → Occurs Z a fml
        → Occurs Z b fml
        → Z.same_text a b ≡ true
        → a ≡ b) where
    -- By induction on the formula: what stands in it and has been visited.
    determined :
        (all : List Expr)
        → IsWalk [] all atms fml
        → (v : Expr) → IsFormula v
        → In v all
        → holds Z m v ≡ holds Z n v
    determined all walk v (atomic _ h) i =
        equal-In (holds Z m) (holds Z n) v atms agree (walk.listed v i h)
    determined all walk v (compound _ c formulas) i = laws.connective_law m n v c (
        equal-map (holds Z m) (holds Z n) (args v)
          (λ a j. determined all walk a (formulas a j) (reached a j (walk.closed v i a j))))
      where
        reached : (a : Expr) → In a (args v) → Open all [] a → In a all
        reached a j (inl k) = absurd k
        reached a j (inr (w, k, inl e)) = subst (λ x. In x all) (sym e) k
        reached a j (inr (w, k, inr s)) =
            subst (λ x. In x all)
              (texts w a (walk.occurring w k) (Occurs-argument v a fml (walk.occurring v i) j) s) k

    -- The atoms that `atoms` finds determine the truth of a formula that is made of atoms by connectives:
    -- two interpretations that agree on them agree on it. Expressions that stand in the formula and have
    -- one text are one expression.
    pub atoms_lem : IsFormula fml → atoms Z fml ≡ some atms → holds Z m fml ≡ holds Z n fml
    unfolding atoms
    atoms_lem formula found =
        let (all, done, covers) =
          atoms_rec_lem (Z.size fml) (fml ∷ []) [] [] atms fml (omega arith) start found in
        let (w, i, same) = covers fml (inl (inl refl)) in
        determined all done fml formula (itself_in all w i (done.occurring w i) same)
      where
        start : IsWalk (fml ∷ []) [] [] fml
        start = record {
          listed = λ v i h. absurd i;
          closed = λ v i a j. absurd i;
          occurring = only;
        }
          where
            only : (v : Expr) → In v (fml ∷ []) → Occurs Z v fml
            only v (inl e) = subst (λ x. Occurs Z x fml) (sym e) (itself fml)
            only v (inr i) = absurd i

        itself_in :
            (all : List Expr) (w : Expr)
            → In w all
            → Occurs Z w fml
            → (fml ≡ w) ⊎ (Z.same_text w fml ≡ true)
            → In fml all
        itself_in all w i o (inl e) = subst (λ x. In x all) (sym e) i
        itself_in all w i o (inr s) = subst (λ x. In x all) (texts w fml o (itself fml) s) i
