-- ===== src/Expression/Updates.antt =====
-- lib/Expr.cpp: what the unary operators, `push_front` and `subs` mean.
use arith_exe.Prelude.{
  ◌≡◌, refl, sym, ap, ap₂, ◌∙◌, Bool, false, not, ◌&&◌, ◌||◌, List, [], ◌∷◌, map, if◌then◌else◌,
  All, arith, length, some,
}
use arith_exe.Z3.{Z3, Z3Laws, holds, Value, boolean, truth}
use arith_exe.Logic.Cnf.{simplify}
use arith_exe.Expression.{
  Expression, as_expr, defined, opposite, behind, push_front, substituted, subs,
}
use arith_exe.Expression.Meaning.{has_case, Gives, Means, as_expr-Means}

module _ (Z : Z3) (laws : Z3Laws Z) where
  open Z use {Expr, Model, value, conj, disj, neg}

  module _ (m : Model) where
    Means-opposite :
        (e : Expression Z) (v : Value) (b : Bool)
        → Means Z m e v b
        → Means Z m (opposite Z e) (Z.negative v) b
    unfolding opposite
    Means-opposite e v b (cover, give) = (same e ∙ cover, gives e give)
      where
        same : (x : Expression Z) → has_case Z m (opposite Z x) ≡ has_case Z m x
        same [] = refl
        same (p ∷ x) = ap (λ r. holds Z m p.condition || r) (same x)

        gives :
            (x : Expression Z)
            → All (Gives Z m v b) x
            → All (Gives Z m (Z.negative v) b) (opposite Z x)
        gives [] h = tt
        gives (p ∷ x) h = (
          (λ c. (laws.minus_law m p.expression ∙ ap Z.negative (h.0 c).0, (h.0 c).1)),
          gives x h.1,
        )

    -- `simplify` succeeds, and keeps whether the condition holds.
    abbrev pub IsSimplified : Expr → Type 0
    IsSimplified e = (e' : Expr) × (simplify Z e [] ≡ some e') × (holds Z m e' ≡ holds Z m e)

    -- The same for each condition that `push_front` writes.
    abbrev pub AreSimplified : Expr → Expression Z → Type 0
    AreSimplified acc [] = Unit {0}
    AreSimplified acc (p ∷ e) =
        IsSimplified (conj (neg acc) p.condition) × AreSimplified (disj acc p.condition) e

    module _ (v w : Value) (b d : Bool) where
      -- Behind the pushed cases those of the expression apply, where none of the pushed ones does.
      behind_lem :
          (acc : Expr) (e : Expression Z)
          → AreSimplified acc e
          → (holds Z m acc ≡ false → (w ≡ v) × (d ≡ b))
          → All (Gives Z m v b) e
          → (rest : Expression Z) × (behind Z acc e ≡ some rest)
            × (has_case Z m rest ≡ (not (holds Z m acc) && has_case Z m e))
            × All (Gives Z m w d) rest
      behind_lem acc [] simple same h = ([], refl, ground arith, tt)
      behind_lem acc (p ∷ e) ((c, found, kept), simple) same h =
          let both = ap truth (laws.conj_law m (neg acc) p.condition) in
          let negated = ap truth (laws.neg_law m acc) in
          let joined = ap truth (laws.disj_law m acc p.condition) in
          let (rest, pushed, cover, give) =
            behind_lem (disj acc p.condition) e simple (λ k. same (ground (arith, k, joined)))
              h.1 in
          (
            record p { condition = c } ∷ rest,
            rw (found, pushed) refl,
            ground (arith, kept, both, negated, joined, cover),
            (
              (λ k.
                  let here = h.0 (ground (arith, k, kept, both)) in
                  let (value_is, defined_is) = same (ground (arith, k, kept, both, negated)) in
                  (here.0 ∙ sym value_is, here.1 ∙ ap boolean (sym defined_is))),
              give,
            ),
          )

    -- `push_front` puts an expression where the condition holds and leaves the old one elsewhere, value
    -- and definedness alike, provided that `simplify` succeeds on each new condition and keeps
    -- whether it holds.
    pub Means-push_front :
        (nothing condition : Expr) (expr e : Expression Z) (vx v : Value) (bx b : Bool)
        → AreSimplified condition e
        → Means Z m expr vx bx
        → Means Z m e v b
        → (pushed : Expression Z) × (push_front Z nothing condition expr e ≡ some pushed)
          × Means Z m pushed
              (if holds Z m condition then vx else v)
              (if holds Z m condition then bx else b)
    unfolding push_front
    Means-push_front nothing condition expr e vx v bx b simple mx (cover, give) =
        let (rest, found, covers, gives) =
          behind_lem v (if holds Z m condition then vx else v) b
            (if holds Z m condition then bx else b) condition e simple (λ c. rw c (refl, refl))
            give in
        (
          record {
            condition = condition;
            expression = as_expr Z nothing expr;
            definition = defined Z nothing expr;
          }
              ∷ rest,
          rw (push_front, found) refl,
          (
            ground (arith, cover, covers),
            (
              (λ c.
                  let (value_is, defined_is) = as_expr-Means Z m vx bx laws nothing expr mx in
                  rw c (value_is, defined_is)),
              gives,
            ),
          ),
        )

    module _ (nothing : Expr) (src : List Expr) (dst : List (Expression Z))
        (variables : Z.AreVariables src)
        (sizes : length src ≡ length (map (as_expr Z nothing) dst)) where
      -- The interpretation under which the sources have the destinations' values.
      abbrev pub moved : Model
      moved = Z.assign m src (map (value m) (map (as_expr Z nothing) dst))

      substitute_lem :
          (e : Expr) → value m (Z.substitute e src (map (as_expr Z nothing) dst)) ≡ value moved e
      substitute_lem e = laws.substitute_law m e src (map (as_expr Z nothing) dst) variables sizes

      -- `subs` means here what the expression means where the sources have the destinations' values. The
      -- sources are variables, and there are as many destinations.
      pub Means-subs :
          (e : Expression Z) (v : Value) (b : Bool)
          → Means Z moved e v b
          → Means Z m (subs Z nothing e src dst) v b
      unfolding subs
      Means-subs e v b (cover, give) = (same e ∙ cover, gives e give)
        where
          destinations : List Expr
          destinations = map (as_expr Z nothing) dst

          same :
              (x : Expression Z)
              → has_case Z m (substituted Z src destinations x) ≡ has_case Z moved x
          same [] = refl
          same (p ∷ x) = ap₂ (λ h r. h || r) (ap truth (substitute_lem p.condition)) (same x)

          gives :
              (x : Expression Z)
              → All (Gives Z moved v b) x
              → All (Gives Z m v b) (substituted Z src destinations x)
          gives [] h = tt
          gives (p ∷ x) h = (
            (λ c.
                let there = h.0 (sym (ap truth (substitute_lem p.condition)) ∙ c) in
                (
                  laws.simplified_law m (Z.substitute p.expression src destinations)
                      ∙ substitute_lem p.expression
                      ∙ there.0,
                  laws.simplified_law m (Z.substitute p.definition src destinations)
                      ∙ substitute_lem p.definition
                      ∙ there.1,
                )),
            gives x h.1,
          )
