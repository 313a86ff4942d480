-- ===== src/Session/Cache.antt =====
-- lib/cache.{h,cpp}: known values of functions, and which functions a summary was tried for. Functions
-- are LLVM's, so that they and their equality are parameters; an argument or a value is an `int`.
use arith_exe.Prelude.{
  ◌≡◌, refl, sym, ap, ap₂, ◌∙◌, inl, inr, Bool, true, false, ◌&&◌, ◌||◌, Option, none, some, List,
  [], ◌∷◌, ◌==◌, arith, if◌then◌else◌, Bool-cases,
}
use arith_exe.Prelude.Int.{ℤ, pos, negsuc}
use arith_exe.Session.Maps.{IsEquality, find, insert_or_assign, find-insert_or_assign}

-- `param_list_ty`
abbrev pub ParamList : Type 0
ParamList = List ℤ

abbrev same_int : ℤ → ℤ → Bool
same_int (pos a) (pos b) = a == b
same_int (pos a) (negsuc b) = false
same_int (negsuc a) (pos b) = false
same_int (negsuc a) (negsuc b) = a == b

abbrev pub same_params : ParamList → ParamList → Bool
same_params [] [] = true
same_params [] (y ∷ ys) = false
same_params (x ∷ xs) [] = false
same_params (x ∷ xs) (y ∷ ys) = same_int x y && same_params xs ys

same_int_sound : (a b : ℤ) → same_int a b ≡ true → a ≡ b
same_int_sound (pos a) (pos b) h = ap pos (ground (arith, h))
same_int_sound (pos a) (negsuc b) h = cc
same_int_sound (negsuc a) (pos b) h = cc
same_int_sound (negsuc a) (negsuc b) h = ap negsuc (ground (arith, h))

same_params_sound : (a b : ParamList) → same_params a b ≡ true → a ≡ b
same_params_sound [] [] h = refl
same_params_sound [] (y ∷ ys) h = cc
same_params_sound (x ∷ xs) [] h = cc
same_params_sound (x ∷ xs) (y ∷ ys) h =
    ap₂ (λ e es. e ∷ es) (same_int_sound x y (ground (arith, h)))
      (same_params_sound xs ys (ground (arith, h)))

same_int_refl : (a : ℤ) → same_int a a ≡ true
same_int_refl (pos a) = ground arith
same_int_refl (negsuc a) = ground arith

same_params_refl : (a : ParamList) → same_params a a ≡ true
same_params_refl [] = refl
same_params_refl (x ∷ xs) = ground (arith, same_int_refl x, same_params_refl xs)

same_params-IsEquality : IsEquality same_params
same_params-IsEquality = record {
  sound = same_params_sound;
  complete = λ a b e. ap (same_params a) (sym e) ∙ same_params_refl a;
}

module _ {Function : Type 0} (same_function : Function → Function → Bool) where
  pub record Cache : Type 0 where
    pub cache : List (Function × List (ParamList × ℤ))
    pub visited_funcs : List Function

  -- `cache[func]`: an empty map at first
  abbrev values_of : Cache → Function → List (ParamList × ℤ)
  values_of c func = elim (find same_function c.cache func) [ none ↦ [] | some values ↦ values ]

  unfoldable pub get_func_value : Cache → Function → ParamList → Option ℤ
  get_func_value c func args = elim (find same_function c.cache func) [
    | none ↦ none
    | some values ↦ find same_params values args
  ]

  unfoldable pub cache_func_value : Cache → Function → ParamList → ℤ → Cache
  cache_func_value c func args value = record c {
    cache =
        insert_or_assign same_function c.cache func
          (insert_or_assign same_params (values_of c func) args value);
  }

  abbrev contains : List Function → Function → Bool
  contains [] func = false
  contains (f ∷ fs) func = same_function f func || contains fs func

  unfoldable pub is_visited : Cache → Function → Bool
  is_visited c func = contains c.visited_funcs func

  -- A set: an element that is there is not inserted again.
  unfoldable pub mark_visited : Cache → Function → Cache
  mark_visited c func = record c {
    visited_funcs =
        if contains c.visited_funcs func then c.visited_funcs else func ∷ c.visited_funcs;
  }

  module _ (equality : IsEquality same_function) (c : Cache) (func : Function) where
    get-cache_func_value :
        (args : ParamList) (value : ℤ) (other : Function) (params : ParamList)
        → get_func_value (cache_func_value c func args value) other params ≡ (
            if same_function func other && same_params args params
            then some value
            else get_func_value c other params)
    unfolding get_func_value cache_func_value find
    get-cache_func_value args value other params = elim (Bool-cases (same_function func other)) [
      | inl h ↦
          rw
            (
              get_func_value,
              cache_func_value,
              find-insert_or_assign same_function equality c.cache func other
                  (insert_or_assign same_params (values_of c func) args value),
              h,
              find-insert_or_assign same_params same_params-IsEquality (values_of c func) args
                  params value,
            )
            (at_func (equality.sound func other h))
      | inr h ↦
          rw
            (
              get_func_value,
              cache_func_value,
              find-insert_or_assign same_function equality c.cache func other
                  (insert_or_assign same_params (values_of c func) args value),
              h,
            )
            refl
    ]
      where
        found_in :
            (o : Option (List (ParamList × ℤ)))
            → find same_function c.cache func ≡ o
            → find same_params (values_of c func) params ≡ get_func_value c func params
        found_in none h = rw (values_of, get_func_value, h) refl
        found_in (some values) h = rw (values_of, get_func_value, h) refl

        at_func :
            func ≡ other
            → (if same_params args params
                then some value
                else find same_params (values_of c func) params)
              ≡ (if same_params args params then some value else get_func_value c other params)
        at_func e =
            ap (λ v. if same_params args params then some value else v)
              (found_in (find same_function c.cache func) refl
                ∙ ap (λ f. get_func_value c f params) e)

    contains-mark :
        (other : Function)
        → is_visited (mark_visited c func) other ≡ (same_function func other || is_visited c other)
    unfolding is_visited mark_visited
    contains-mark other = elim (Bool-cases (contains c.visited_funcs func)) [
      | inl h ↦ elim (Bool-cases (same_function func other)) [
        | inl e ↦ rw (h, e) (ap (contains c.visited_funcs) (sym (equality.sound func other e)) ∙ h)
        | inr e ↦ rw (h, e) refl
      ]
      | inr h ↦ rw h refl
    ]

    -- After `cache_func_value` the cached value is found under the function and the arguments, and
    -- elsewhere what was found before; `mark_visited` marks the function and no other. Neither
    -- touches what the other keeps. The equality of functions is decided.
    pub cache_func_value_lem :
        (args : ParamList) (value : ℤ) (other : Function) (params : ParamList)
        → (get_func_value (cache_func_value c func args value) other params ≡ (
            if same_function func other && same_params args params
            then some value
            else get_func_value c other params))
          × (is_visited (cache_func_value c func args value) other ≡ is_visited c other)
          × (is_visited (mark_visited c func) other
              ≡ (same_function func other || is_visited c other))
          × (get_func_value (mark_visited c func) other params ≡ get_func_value c other params)
    unfolding get_func_value cache_func_value is_visited mark_visited
    cache_func_value_lem args value other params =
        (get-cache_func_value args value other params, refl, contains-mark other, refl)
