-- ===== src/Logic/Pieces/Choices.antt =====
-- lib/logics.cpp: the choices of a case for each argument of an application.
use arith_exe.Prelude.{
  ◌≡◌, refl, ap, ap₂, ◌∙◌, Bool, true, false, ◌&&◌, ◌||◌, List, [], ◌∷◌, ◌++◌, map, All, All-append,
  arith,
}
use arith_exe.Z3.{Z3, Z3Laws, truth, holds}
use arith_exe.Logic.Cases.{Case}
use arith_exe.Logic.Denotes.{covers, Agrees, Denotes}
use arith_exe.Logic.Pieces.{prepend, pair_all, choices, accumulated, application}

module _ (Z : Z3) (laws : Z3Laws Z) (m : Z.Model) where
  open Z use {Expr, value, conj, neg, bool_val}

  abbrev all_apply : List (Case Z) → Bool
  all_apply [] = true
  all_apply (c ∷ tuple) = holds Z m c.condition && all_apply tuple

  abbrev some_applies : List (List (Case Z)) → Bool
  some_applies [] = false
  some_applies (t ∷ tuples) = all_apply t || some_applies tuples

  abbrev Fits : List Expr → List (Case Z) → Type 0
  Fits es tuple =
      all_apply tuple ≡ true
      → map (value m) (map {A = Case Z} (λ c. c.expression) tuple) ≡ map (value m) es

  abbrev pub AllDenote : List (List (Case Z)) → List Expr → Type 0
  AllDenote [] [] = Unit {0}
  AllDenote [] (e ∷ es) = ⊥
  AllDenote (cs ∷ rest) [] = ⊥
  AllDenote (cs ∷ rest) (e ∷ es) = Denotes Z m cs (value m e) × AllDenote rest es

  some_applies-append :
      (xs ys : List (List (Case Z)))
      → some_applies (xs ++ ys) ≡ (some_applies xs || some_applies ys)
  some_applies-append [] ys = refl
  some_applies-append (x ∷ xs) ys = ground (arith, some_applies-append xs ys)

  some_applies-prepend :
      (c : Case Z) (tuples : List (List (Case Z)))
      → some_applies (prepend c tuples) ≡ (holds Z m c.condition && some_applies tuples)
  some_applies-prepend c [] = ground arith
  some_applies-prepend c (t ∷ tuples) = ground (arith, some_applies-prepend c tuples)

  some_applies-pair_all :
      (cs : List (Case Z)) (tuples : List (List (Case Z)))
      → some_applies (pair_all cs tuples) ≡ (covers Z m cs && some_applies tuples)
  some_applies-pair_all [] tuples = refl
  some_applies-pair_all (c ∷ cs) tuples = ground (
    arith,
    some_applies-append (prepend c tuples) (pair_all cs tuples),
    some_applies-prepend c tuples,
    some_applies-pair_all cs tuples,
  )

  Fits-prepend :
      (e : Expr) (es : List Expr) (c : Case Z) (tuples : List (List (Case Z)))
      → Agrees Z m (value m e) c
      → All (Fits es) tuples
      → All (Fits (e ∷ es)) (prepend c tuples)
  Fits-prepend e es c [] a h = tt
  Fits-prepend e es c (t ∷ tuples) a h = (
    (λ k. ap₂ (λ v vs. v ∷ vs) (a (ground (arith, k))) (h.0 (ground (arith, k)))),
    Fits-prepend e es c tuples a h.1,
  )

  Fits-pair_all :
      (e : Expr) (es : List Expr) (cs : List (Case Z)) (tuples : List (List (Case Z)))
      → All (Agrees Z m (value m e)) cs
      → All (Fits es) tuples
      → All (Fits (e ∷ es)) (pair_all cs tuples)
  Fits-pair_all e es [] tuples a h = tt
  Fits-pair_all e es (c ∷ cs) tuples a h =
      All-append (Fits (e ∷ es)) (prepend c tuples) (pair_all cs tuples)
        (Fits-prepend e es c tuples a.0 h) (Fits-pair_all e es cs tuples a.1 h)

  -- Some choice applies in all its conditions, and each that does has the values of the arguments.
  pub choices_lem :
      (css : List (List (Case Z))) (es : List Expr)
      → AllDenote css es
      → (some_applies (choices css) ≡ true) × All (Fits es) (choices css)
  unfolding choices
  choices_lem [] [] h = (refl, ((λ k. refl), tt))
  choices_lem [] (e ∷ es) h = absurd h
  choices_lem (cs ∷ css) [] h = absurd h
  choices_lem (cs ∷ css) (e ∷ es) ((cover, agree), rest) =
      let (applies, fit) = choices_lem css es rest in
      (
        some_applies-pair_all cs (choices css) ∙ ground (arith, cover, applies),
        Fits-pair_all e es cs (choices css) agree fit,
      )

  holds-accumulated :
      (k : Expr) (tuple : List (Case Z))
      → holds Z m (accumulated Z k tuple) ≡ (holds Z m k && all_apply tuple)
  holds-accumulated k [] = ground arith
  holds-accumulated k (c ∷ tuple) =
      let both = ap truth (laws.conj_law m k c.condition) in
      ground (arith, both, holds-accumulated (conj k c.condition) tuple)

  holds-application :
      (e c : Expr) (tuple : List (Case Z))
      → holds Z m (application Z e c tuple).condition ≡ (all_apply tuple && holds Z m c)
  holds-application e c tuple =
      let both = ap truth (laws.conj_law m (accumulated Z (bool_val true) tuple) c) in
      let start = ap truth (laws.bool_val_law m true) in
      ground (arith, both, start, holds-accumulated (bool_val true) tuple)

  pub covers-application :
      (e c : Expr) (tuples : List (List (Case Z)))
      → covers Z m (map (application Z e c) tuples) ≡ (some_applies tuples && holds Z m c)
  covers-application e c [] = refl
  covers-application e c (t ∷ tuples) =
      ground (arith, holds-application e c t, covers-application e c tuples)

  pub Agrees-application :
      (e c : Expr) (tuples : List (List (Case Z)))
      → All (Fits (Z.args e)) tuples
      → All (Agrees Z m (value m e)) (map (application Z e c) tuples)
  Agrees-application e c [] h = tt
  Agrees-application e c (t ∷ tuples) h = (
    (λ k.
        laws.rebuild_law m e (map {A = Case Z} (λ x. x.expression) t)
          (h.0 (ground (arith, k, holds-application e c t)))),
    Agrees-application e c tuples h.1,
  )
