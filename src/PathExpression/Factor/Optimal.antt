-- ===== src/PathExpression/Factor/Optimal.antt =====
-- `factor_table` (lib/PathExpression.cpp) holds the least cost of a factorisation at every position.
use native.Mathlib.Nat.{mul-pos}
use native.Mathlib.Decide.{ℕ_discrete}
use arith_exe.Prelude.{
  ℕ, ◌+◌, ◌*◌, ◌≤◌, ◌<◌, ◌≡◌, refl, sym, ap, subst, ◌∙◌, inl, inr, true, List, [], ◌∷◌, ◌++◌, arith,
  length, replicate, take, length-set, length-replicate, get_or-set_self, get_or-set_ne,
  get_or-replicate, length-take, length-append,
}
use arith_exe.PathExpression.Word.{
  PathWord, ConcretePathPower, repeat, expand_path_powers, size_max, is_primitive_path_word,
  primitive_from,
}
use arith_exe.PathExpression.Word.Cost.{total_cost}
use arith_exe.PathExpression.Word.Segment.{Occurs, Occurs-append, length-repeat}
use arith_exe.PathExpression.Factor.{FactorTable, no_choice, cost_at, blank_table, factor_table}
use arith_exe.PathExpression.Factor.Invariant.{IsReached, IsShort, IsBlock, IsTable}
use arith_exe.PathExpression.Factor.Fill.{Filled, Filled-fill}

-- The powers of a factorisation: primitive roots of bounded length, each at least once.
abbrev pub IsPower : ℕ → ConcretePathPower → Type 0
IsPower max_root_length p =
    (is_primitive_path_word p.root ≡ true) × (length p.root ≤ max_root_length) × (0 < p.exponent)

abbrev pub ArePowers : ℕ → List ConcretePathPower → Type 0
ArePowers max_root_length [] = Unit {0}
ArePowers max_root_length (p ∷ ps) = IsPower max_root_length p × ArePowers max_root_length ps

-- Powers that expand to the first `end` symbols of the prefix.
pub record IsFactorization (prefix : PathWord) (max_root_length end : ℕ)
    (powers : List ConcretePathPower) : Type 0 where
  pub admissible : ArePowers max_root_length powers
  pub expands : expand_path_powers powers ≡ take end prefix

primitive_nonempty : (w : PathWord) → is_primitive_path_word w ≡ true → 0 < length w
unfolding is_primitive_path_word
primitive_nonempty [] h = cc
primitive_nonempty (x ∷ w) h = omega arith

-- one symbol after the other
singles : PathWord → List ConcretePathPower
singles [] = []
singles (x ∷ w) = record { root = x ∷ []; exponent = 1 } ∷ singles w

singles_lem :
    (max_root_length : ℕ) (w : PathWord)
    → 0 < max_root_length
    → ArePowers max_root_length (singles w) × (expand_path_powers (singles w) ≡ w)
unfolding singles expand_path_powers is_primitive_path_word primitive_from
singles_lem m [] pos = (tt, refl)
singles_lem m (x ∷ w) pos =
    let (ok, same) = singles_lem m w pos in (((refl, pos, omega arith), ok), ap (λ r. x ∷ r) same)

module _ (prefix : PathWord) (max_root_length : ℕ) where
  IsTable-blank : IsTable prefix max_root_length 0 (blank_table prefix)
  unfolding blank_table
  IsTable-blank = record {
    costs_size =
        length-set (replicate (length prefix + 1) size_max) 0 0
        ∙ length-replicate (length prefix + 1) size_max
        ∙ omega arith;
    choices_size = length-replicate (length prefix + 1) no_choice ∙ omega arith;
    origin =
        get_or-set_self (replicate (length prefix + 1) size_max) 0 0 size_max
          (omega (arith, length-replicate (length prefix + 1) size_max));
    early = λ j p. absurd (cc (rw (get_or-replicate (length prefix + 1) j no_choice) at p));
    entries = λ j p. absurd (cc (rw (get_or-replicate (length prefix + 1) j no_choice) at p));
    absent = λ j p. elim (ℕ_discrete j 0) [
      | yes e ↦ inl e
      | no n ↦ inr (
          get_or-set_ne (replicate (length prefix + 1) size_max) 0 j 0 size_max n
          ∙ get_or-replicate (length prefix + 1) j size_max)
    ];
  }

  module _ (short : IsShort prefix) where
    pub Filled-factor_table :
        Filled prefix max_root_length short 0
          (blank_table prefix)
          (factor_table prefix max_root_length)
    unfolding factor_table
    Filled-factor_table =
        Filled-fill prefix max_root_length short (length prefix) 0 (blank_table prefix)
          IsTable-blank (omega arith)

    abbrev table : FactorTable
    table = factor_table prefix max_root_length

    -- Powers that occur from a reached position on.
    follow :
        (i : ℕ) (powers : List ConcretePathPower)
        → ArePowers max_root_length powers
        → Occurs prefix i (expand_path_powers powers)
        → IsReached table i
        → IsReached table (i + length (expand_path_powers powers))
          × (cost_at table (i + length (expand_path_powers powers))
              ≤ cost_at table i + total_cost powers)
    unfolding expand_path_powers total_cost
    follow i [] ok occurs start = let e : i + 0 ≡ i = omega arith in rw e (start, omega arith)
    follow i (p ∷ ps) ok occurs start =
        let (first, others) =
          (Occurs-append prefix i (repeat p.root p.exponent) (expand_path_powers ps)).0 occurs in
        let nonempty = primitive_nonempty p.root ok.0.0 in
        let block : IsBlock prefix max_root_length i p.root p.exponent
            (i + p.exponent * length p.root) =
          record {
            primitive = ok.0.0;
            nonempty = nonempty;
            bounded = ok.0.1;
            repeated = ok.0.2;
            span = refl;
            occurs = first;
          } in
        let size = length-repeat p.root p.exponent in
        let inside : i < length prefix = omega (arith, first.inside, mul-pos ok.0.2 nonempty) in
        let (reached, bound) =
          Filled-factor_table.settled i (omega arith) inside start p.root p.exponent _ block in
        let (ends, total) =
          follow (i + p.exponent * length p.root) ps ok.1
            (subst (λ k. Occurs prefix (i + k) (expand_path_powers ps)) size others) reached in
        let far : i + length (repeat p.root p.exponent ++ expand_path_powers ps)
            ≡ i + p.exponent * length p.root + length (expand_path_powers ps) =
          omega (arith, size, length-append (repeat p.root p.exponent) (expand_path_powers ps)) in
        rw far (ends, omega arith)

    -- Every factorisation of a start of the prefix costs at least what the table holds.
    pub factor_table_optimal :
        (end : ℕ) (powers : List ConcretePathPower)
        → end ≤ length prefix
        → IsFactorization prefix max_root_length end powers
        → IsReached table end × (cost_at table end ≤ total_cost powers)
    factor_table_optimal end powers inside h =
        let size : length (expand_path_powers powers) ≡ end =
          ap length h.expands ∙ omega (arith, length-take end prefix) in
        let occurs : Occurs prefix 0 (expand_path_powers powers) = record {
          inside = omega arith;
          segment = ap (λ k. take k prefix) {y = end} (omega arith) ∙ sym h.expands;
        } in
        let (reached, bound) = follow 0 powers h.admissible occurs (inl refl) in
        let e : 0 + length (expand_path_powers powers) ≡ end = omega arith in
        (
          subst (IsReached table) e reached,
          omega (arith, Filled-factor_table.table.origin, ap (λ k. cost_at table k) e),
        )

    -- With roots of at least one symbol allowed, every position is reached.
    pub factor_table_reaches :
        (end : ℕ) → end ≤ length prefix → 0 < max_root_length → IsReached table end
    factor_table_reaches end inside pos =
        let (ok, same) = singles_lem max_root_length (take end prefix) pos in
        (factor_table_optimal end (singles (take end prefix)) inside
          (record { admissible = ok; expands = same })).0
