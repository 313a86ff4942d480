-- ===== src/Logic/Pieces.antt =====
-- lib/logics.cpp: `expr2piecewise`, which takes an expression with conditionals apart, and
-- `cartesian_product` of lib/common.cpp. A set of variables is a list in the order of the visits.
-- An assertion that fails does not stop the model: whether all of a run hold is a function of its own.
pub mod Choices
pub mod Denote
pub mod Marks
use arith_exe.Prelude.{
  ℕ, zero, suc, Bool, true, false, not, ◌&&◌, ◌||◌, List, [], ◌∷◌, ◌++◌, map, if◌then◌else◌,
}
use arith_exe.Z3.{Z3, is_ite, is_nil, is_constant}
use arith_exe.Logic.Cases.{Case, merge_cases, is_equivalent}

abbrev pub prepend {ℓ} : {A : Type ℓ} → A → List (List A) → List (List A)
prepend x [] = []
prepend x (t ∷ tuples) = (x ∷ t) ∷ prepend x tuples

abbrev pub pair_all {ℓ} : {A : Type ℓ} → List A → List (List A) → List (List A)
pair_all [] tuples = []
pair_all (x ∷ xs) tuples = prepend x tuples ++ pair_all xs tuples

-- One element of each list, in the order of `cartesian_product`: the first varies slowest.
unfoldable pub choices {ℓ} : {A : Type ℓ} → List (List A) → List (List A)
choices [] = [] ∷ []
choices (xs ∷ rest) = pair_all xs (choices rest)

module _ (Z : Z3) where
  open Z use {Expr, conj, neg, bool_val, args, kind, mk_or, simplified}

  abbrev pub listed : Expr → List Expr → Bool
  listed e [] = false
  listed e (v ∷ vars) = Z.same_text v e || listed e vars

  -- `collect_vars_rec`, with the expressions that it has still to visit. Each visit takes one, so the size
  -- of all of them is enough fuel.
  unfoldable pub collect_vars_rec : ℕ → List Expr → List Expr → List Expr
  collect_vars_rec fuel [] vars = vars
  collect_vars_rec zero (e ∷ work) vars = vars
  collect_vars_rec (suc fuel) (e ∷ work) vars =
      if is_constant Z e
      then collect_vars_rec fuel work (if listed e vars then vars else vars ++ e ∷ [])
      else collect_vars_rec fuel (args e ++ work) vars

  unfoldable pub collect_vars : Expr → List Expr
  unfolding collect_vars_rec
  collect_vars e = collect_vars_rec (Z.size e) (e ∷ []) []

  abbrev pub marked : List Expr → List Expr
  marked [] = []
  marked (v ∷ vars) = if Z.has_mark v then v ∷ marked vars else marked vars

  unfoldable pub collect_aux_vars : Expr → List Expr
  unfolding collect_vars
  collect_aux_vars e = marked (collect_vars e)

  unfoldable pub eliminate_ite : Expr → Expr
  unfolding collect_aux_vars
  eliminate_ite expr =
      let eliminated = mk_or (Z.elim_term_ite expr) in
      let aux_vars = collect_aux_vars eliminated in
      simplified (
        if is_nil aux_vars
        then eliminated
        else simplified (mk_or (Z.qe (Z.exists aux_vars eliminated))))

  -- The assertion in `eliminate_ite`: what has been eliminated is equivalent to the expression.
  unfoldable pub passes : Expr → Bool
  unfolding collect_aux_vars
  passes expr =
      let eliminated = mk_or (Z.elim_term_ite expr) in
      let aux_vars = collect_aux_vars eliminated in
      if is_nil aux_vars
      then true
      else is_equivalent Z (simplified (mk_or (Z.qe (Z.exists aux_vars eliminated)))) expr

  -- the conditions with conditionals eliminated, then the cases merged
  abbrev pub eliminated_all : List (Case Z) → List (Case Z)
  eliminated_all cases =
      map {A = Case Z} (λ c. record c { condition = eliminate_ite c.condition }) cases

  unfoldable pub settle : List (Case Z) → List (Case Z)
  unfolding eliminate_ite
  settle cases = merge_cases Z (eliminated_all cases)

  abbrev pub accumulated : Expr → List (Case Z) → Expr
  accumulated condition [] = condition
  accumulated condition (c ∷ tuple) = accumulated (conj condition c.condition) tuple

  -- the assertions that `settle` makes
  abbrev pub settle_passes : List (Case Z) → Bool
  settle_passes [] = true
  settle_passes (c ∷ cases) = passes c.condition && settle_passes cases

  -- one choice of a case for each argument
  abbrev pub application : Expr → Expr → List (Case Z) → Case Z
  application e cur_cond tuple = record {
    condition = conj (accumulated (bool_val true) tuple) cur_cond;
    expression = Z.rebuild e (map {A = Case Z} (λ c. c.expression) tuple);
  }

  -- The three arguments of a conditional.
  abbrev pub branches : (Expr → Expr → List (Case Z)) → Expr → List Expr → List (Case Z)
  branches visit cur_cond [] = []
  branches visit cur_cond (c ∷ []) = []
  branches visit cur_cond (c ∷ a ∷ []) = []
  branches visit cur_cond (c ∷ a ∷ b ∷ rest) =
      visit a (conj c cur_cond) ++ visit b (conj (neg c) cur_cond)

  -- An argument is smaller, so the size is enough fuel.
  unfoldable pub aux_expr2piecewise : ℕ → Expr → Expr → List (Case Z)
  unfolding settle choices
  aux_expr2piecewise zero e cur_cond = []
  aux_expr2piecewise (suc fuel) e cur_cond =
      let visit = aux_expr2piecewise fuel in
      if Z.is_const e || Z.is_var e || Z.is_quantifier e
      then record { condition = cur_cond; expression = e } ∷ []
      else if Z.is_app e && is_ite (kind e)
      then branches visit cur_cond (args e)
      else if Z.is_app e
      then map (application e cur_cond)
          (choices (map (λ a. settle (visit a (bool_val true))) (args e)))
      else []

  unfoldable pub expr2piecewise : Expr → List (Case Z)
  unfolding aux_expr2piecewise settle
  expr2piecewise e = settle (aux_expr2piecewise (Z.size e) e (bool_val true))

  -- The assertions that the visits of the branches of a conditional make.
  abbrev pub branches_pass : (Expr → Expr → Bool) → Expr → List Expr → Bool
  branches_pass visit cur_cond [] = true
  branches_pass visit cur_cond (c ∷ []) = true
  branches_pass visit cur_cond (c ∷ a ∷ []) = true
  branches_pass visit cur_cond (c ∷ a ∷ b ∷ rest) =
      visit a (conj c cur_cond) && visit b (conj (neg c) cur_cond)

  abbrev pub arguments_pass : (Expr → Bool) → List Expr → Bool
  arguments_pass test [] = true
  arguments_pass test (a ∷ rest) = test a && arguments_pass test rest

  -- Whether the assertions hold that a visit makes: at each argument of an application.
  unfoldable pub aux_passes : ℕ → Expr → Expr → Bool
  unfolding aux_expr2piecewise passes
  aux_passes zero e cur_cond = true
  aux_passes (suc fuel) e cur_cond =
      let visit = aux_passes fuel in
      let at_argument : Expr → Bool =
        λ a. visit a (bool_val true) && settle_passes (aux_expr2piecewise fuel a (bool_val true)) in
      if Z.is_const e || Z.is_var e || Z.is_quantifier e
      then true
      else if Z.is_app e && is_ite (kind e)
      then branches_pass visit cur_cond (args e)
      else if Z.is_app e
      then arguments_pass at_argument (args e)
      else true

  -- All the assertions of `expr2piecewise` hold.
  unfoldable pub expr2piecewise_passes : Expr → Bool
  unfolding aux_expr2piecewise aux_passes passes
  expr2piecewise_passes e =
      aux_passes (Z.size e) e (bool_val true)
      && settle_passes (aux_expr2piecewise (Z.size e) e (bool_val true))
