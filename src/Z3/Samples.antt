-- ===== src/Z3/Samples.antt =====
-- An instance of the parameters: an expression is a function of the interpretation, and the solver
-- tries the interpretations of a list. It answers unknown if none fits and the list is not
-- complete. All names of constants have a mark, or none has.
use arith_exe.Z3.Arithmetic.{Z3Arithmetic}
use arith_exe.Prelude.{
  ◌<◌, ◌≡◌, refl, sym, ap, ◌∙◌, Bool, true, false, not, ◌&&◌, ◌||◌, List, [], ◌∷◌, ◌++◌, map,
  if◌then◌else◌, some, inl, inr, All, length, arith, Bool-cases,
}
use arith_exe.Prelude.Int.{ℤ}
use arith_exe.Z3.{
  CheckResult, Value, boolean, integer, truth, Operator, plus, times, difference, quotient,
  remainder, equals, not_equals, less, less_equal, greater, greater_equal, both, either, exclusive,
  Kind, In, Z3, Z3Laws, holds, all_hold, any_holds, same_value, same_value_sound, same_value_refl,
  is_or, is_ite, is_connective,
}
pub use arith_exe.Z3.Terms.{
  Term, formula, leaf, number, choice, opposite, negation, term_value, term_holds, fits, answer,
}
use arith_exe.Z3.Terms.{
  all_terms, any_term, fitting, is_formula, is_leaf, rebuilt, term_args, term_kind, term_numeral,
  term_size, sample_meaning, sample_negative,
}

module _ (Model : Type 0) where
  module _ (default : Model) (tried : List Model) (complete marks : Bool)
      (AreVariables : List (Term Model) → Type 0)
      (assign : Model → List (Term Model) → List Value → Model) where
    abbrev pub samples : Z3
    samples = record {
      Expr = Term Model;
      Model = Model;
      value = term_value Model;
      bool_val = λ b. formula (λ m. boolean b);
      conj = λ a b. formula (λ m. boolean (term_holds Model m a && term_holds Model m b));
      disj = λ a b. formula (λ m. boolean (term_holds Model m a || term_holds Model m b));
      neg = λ a. formula (λ m. boolean (not (term_holds Model m a)));
      ite = λ c a b.
          formula
            (λ m. if term_holds Model m c then term_value Model m a else term_value Model m b);
      equal =
          λ a b. formula (λ m. boolean (same_value (term_value Model m a) (term_value Model m b)));
      int_val = number;
      minus = λ a. formula (λ m. sample_negative (term_value Model m a));
      apply =
          λ o a b. formula (λ m. sample_meaning o (term_value Model m a) (term_value Model m b));
      is_bool = is_formula Model;
      is_app = λ t. true;
      kind = term_kind Model;
      args = term_args Model;
      numeral = term_numeral Model;
      same_text = λ a b. false;
      same = λ a b. false;
      is_const = is_leaf Model;
      is_var = λ t. false;
      is_quantifier = λ t. false;
      rebuild = rebuilt Model;
      elim_term_ite = λ t. t ∷ [];
      qe = λ t. t ∷ [];
      exists = λ ts t. t;
      has_mark = λ t. marks && is_leaf Model t;
      size = term_size Model;
      mk_and = λ ts. formula (λ m. boolean (all_terms Model m ts));
      mk_or = λ ts. formula (λ m. boolean (any_term Model m ts));
      simplified = λ t. t;
      substitute = λ t src dst.
          formula (λ m. term_value Model (assign m src (map (term_value Model m) dst)) t);
      AreVariables = AreVariables;
      meaning = sample_meaning;
      negative = sample_negative;
      assign = assign;
      check = λ ts. answer Model (fits Model tried ts) complete;
      get_model = fitting Model default tried;
      eval_true = λ ts t. term_holds Model (fitting Model default tried ts) t;
      unsat_core = λ ts literals. literals;
    }

    all_terms_lem :
        (m : Model) (ts : List (Term Model)) → all_terms Model m ts ≡ all_hold samples m ts
    all_terms_lem m [] = refl
    all_terms_lem m (t ∷ ts) = ap (λ r. term_holds Model m t && r) (all_terms_lem m ts)

    any_term_lem :
        (m : Model) (ts : List (Term Model)) → any_term Model m ts ≡ any_holds samples m ts
    any_term_lem m [] = refl
    any_term_lem m (t ∷ ts) = ap (λ r. term_holds Model m t || r) (any_term_lem m ts)

    fits_none :
        (ms : List Model) (ts : List (Term Model)) (m : Model)
        → In m ms
        → fits Model ms ts ≡ false
        → all_terms Model m ts ≡ false
    fits_none (n ∷ ms) ts m (inl e) h = rw e (ground (arith, h))
    fits_none (n ∷ ms) ts m (inr i) h = fits_none ms ts m i (ground (arith, h))
    fits_none [] ts m i h = absurd i

    fitting_lem :
        (ms : List Model) (ts : List (Term Model))
        → fits Model ms ts ≡ true
        → all_terms Model (fitting Model default ms ts) ts ≡ true
    fitting_lem [] ts h = cc
    fitting_lem (m ∷ ms) ts h = elim (Bool-cases (all_terms Model m ts)) [
      | inl e ↦ rw e e
      | inr e ↦ rw e (fitting_lem ms ts (ground (arith, h, e)))
    ]

    answer_unsat :
        (found c : Bool) → answer Model found c ≡ CheckResult.unsat → (found ≡ false) × (c ≡ true)
    answer_unsat true c h = cc
    answer_unsat false true h = (refl, refl)
    answer_unsat false false h = cc

    answer_sat : (found c : Bool) → answer Model found c ≡ CheckResult.sat → found ≡ true
    answer_sat true c h = refl
    answer_sat false true h = cc
    answer_sat false false h = cc

    In-map : {A : Type 0} (P : A → Type 0) (xs : List A) → ((a : A) → In a xs → P a) → All P xs
    In-map P [] f = tt
    In-map P (x ∷ xs) f = (f x (inl refl), In-map P xs (λ a i. f a (inr i)))

    module _ (is_complete : complete ≡ true → (m : Model) → In m tried)
        (assign_law : (m : Model) (src : List (Term Model)) (vs : List Value)
          → AreVariables src
          → length src ≡ length vs
          → map (term_value Model (assign m src vs)) src ≡ vs) where
      unsat_law :
          (ts : List (Term Model)) (m : Model)
          → samples.check ts ≡ CheckResult.unsat
          → all_hold samples m ts ≡ false
      unsat_law ts m h =
          let (missed, whole) = answer_unsat (fits Model tried ts) complete h in
          sym (all_terms_lem m ts) ∙ fits_none tried ts m (is_complete whole m) missed

      pub samples_laws : Z3Laws samples
      samples_laws = record {
        bool_val_law = λ m b. refl;
        conj_law = λ m a b. refl;
        disj_law = λ m a b. refl;
        neg_law = λ m a. refl;
        int_val_law = λ m n. refl;
        numeral_law = λ n. refl;
        numeral_value_law = numeral_lem;
        minus_law = λ m a. refl;
        apply_law = λ m o a b. refl;
        ite_law = λ m c a b. refl;
        equal_law = λ m a b. (
          same_value_sound (term_value Model m a) (term_value Model m b),
          λ e.
              ap (λ v. same_value v (term_value Model m b)) e
              ∙ same_value_refl (term_value Model m b),
        );
        mk_and_law = λ m ts. ap boolean (all_terms_lem m ts);
        mk_or_law = λ m ts. ap boolean (any_term_lem m ts);
        substitute_law = λ m e src dst variables sizes. refl;
        assign_law = assign_law;
        same_law = λ a b h. cc;
        or_law = no_disjunction;
        connective_law = by_connective;
        size_law = smaller;
        app_law = λ e h. refl;
        rebuild_law = rebuilt_law;
        ite_args_law = parts;
        same_text_law = λ a b h. cc;
        elim_term_ite_law = λ m e h. by_test (term_holds Model m e);
        simplified_law = λ m e. refl;
        unsat_law = unsat_law;
        sat_law = λ ts h.
            sym (all_terms_lem (fitting Model default tried ts) ts)
            ∙ fitting_lem tried ts (answer_sat (fits Model tried ts) complete h);
        core_law = λ ts literals m h. unsat_law (literals ++ ts) m h;
        core_subset = λ ts literals. In-map (λ l. In l literals) literals (λ a i. i);
      }
        where
          smaller :
              (e : Term Model)
              → arith_exe.Z3.total (term_size Model) (term_args Model e) < term_size Model e
          smaller (formula f) = omega arith
          smaller (leaf f) = omega arith
          smaller (number n) = omega arith
          smaller (choice c a b) = omega arith
          smaller (opposite t) = omega arith
          smaller (negation t) = omega arith

          by_test : (b : Bool) → (b || false) ≡ b
          by_test b = ground arith

          by_connective :
              (m n : Model) (e : Term Model)
              → is_connective (term_kind Model e) ≡ true
              → map (λ t. term_holds Model m t) (term_args Model e)
                ≡ map (λ t. term_holds Model n t) (term_args Model e)
              → term_holds Model m e ≡ term_holds Model n e
          by_connective m n (formula f) h k = cc
          by_connective m n (leaf f) h k = cc
          by_connective m n (number i) h k = cc
          by_connective m n (choice c a b) h k = cc
          by_connective m n (opposite t) h k = cc
          by_connective m n (negation t) h k =
              let same : term_holds Model m t ≡ term_holds Model n t = cc in ap not same

          no_disjunction :
              (m : Model) (e : Term Model)
              → is_or (term_kind Model e) ≡ true
              → term_holds Model m e ≡ any_holds samples m (term_args Model e)
          no_disjunction m (formula f) h = cc
          no_disjunction m (leaf f) h = cc
          no_disjunction m (number n) h = cc
          no_disjunction m (choice c a b) h = cc
          no_disjunction m (opposite t) h = cc
          no_disjunction m (negation t) h = cc

          parts :
              (m : Model) (e : Term Model)
              → is_ite (term_kind Model e) ≡ true
              → (c a b : Term Model) × (term_args Model e ≡ c ∷ a ∷ b ∷ [])
                × (term_value Model m e
                    ≡ (if term_holds Model m c then term_value Model m a else term_value Model m b))
          parts m (formula f) h = cc
          parts m (leaf f) h = cc
          parts m (number n) h = cc
          parts m (choice c a b) h = (c, a, b, refl, refl)
          parts m (opposite t) h = cc
          parts m (negation t) h = cc

          numeral_lem :
              (m : Model) (e : Term Model) (n : ℤ)
              → term_numeral Model e ≡ some n
              → term_value Model m e ≡ integer n
          numeral_lem m (formula f) n h = cc
          numeral_lem m (leaf f) n h = cc
          numeral_lem m (number k) n h = ap integer cc
          numeral_lem m (choice c a b) n h = cc
          numeral_lem m (opposite t) n h = cc
          numeral_lem m (negation t) n h = cc

          rebuilt_law :
              (m : Model) (e : Term Model) (es : List (Term Model))
              → map (term_value Model m) es ≡ map (term_value Model m) (term_args Model e)
              → term_value Model m (rebuilt Model e es) ≡ term_value Model m e
          rebuilt_law m (formula f) [] h = refl
          rebuilt_law m (formula f) (t ∷ ts) h = cc
          rebuilt_law m (leaf f) es h = refl
          rebuilt_law m (number n) es h = refl
          rebuilt_law m (choice c a b) [] h = refl
          rebuilt_law m (choice c a b) (x ∷ []) h = refl
          rebuilt_law m (choice c a b) (x ∷ y ∷ []) h = refl
          rebuilt_law m (choice c a b) (x ∷ y ∷ z ∷ ts) h =
              let at_x : term_value Model m x ≡ term_value Model m c = cc in
              let at_y : term_value Model m y ≡ term_value Model m a = cc in
              let at_z : term_value Model m z ≡ term_value Model m b = cc in
              rw (at_x, at_y, at_z) refl
          rebuilt_law m (opposite t) [] h = refl
          rebuilt_law m (opposite t) (x ∷ ts) h =
              let at_x : term_value Model m x ≡ term_value Model m t = cc in ap sample_negative at_x
          rebuilt_law m (negation t) [] h = refl
          rebuilt_law m (negation t) (x ∷ ts) h =
              let at_x : term_value Model m x ≡ term_value Model m t = cc in
              ap (λ v. boolean (not (truth v))) at_x

    pub samples_arithmetic : Z3Arithmetic samples
    samples_arithmetic = record {
      plus_law = λ a b. refl;
      times_law = λ a b. refl;
      difference_law = λ a b. refl;
      negative_law = λ a. refl;
      quotient_law = λ a n. refl;
      remainder_law = λ a n. refl;
      less_law = λ a b. refl;
      less_equal_law = λ a b. refl;
      greater_equal_law = λ a b. refl;
      not_equals_law = λ a b. refl;
    }
