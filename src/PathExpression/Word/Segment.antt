-- ===== src/PathExpression/Word/Segment.antt =====
-- What `word_equal_at` (lib/PathExpression.cpp) decides: a word occurs in a text at a position.
use arith_exe.Prelude.{
  ℕ, zero, suc, ◌+◌, ◌*◌, ◌≤◌, ◌≡◌, refl, sym, ap, ap₂, subst, ◌∙◌, ◌↔◌, true, List, [], ◌∷◌, ◌++◌,
  append-nil, append_assoc, arith, length, take, drop, length-append, length-drop, length-take,
}
use arith_exe.PathExpression.Word.{PathWord, repeat, starts_with, word_equal_at}

module _ {ℓ} {A : Type ℓ} where
  pub take-add : (m n : ℕ) (xs : List A) → take (m + n) xs ≡ take m xs ++ take n (drop m xs)
  take-add zero n xs = ap (λ k. take k xs) (omega arith)
  take-add (suc m) n [] = let e : suc m + n ≡ suc (m + n) = omega arith in rw e (nil n)
    where
      nil : (k : ℕ) → [] ≡ take {A = A} k []
      nil zero = refl
      nil (suc k) = refl
  take-add (suc m) n (x ∷ xs) =
      let e : suc m + n ≡ suc (m + n) = omega arith in rw e (ap (λ r. x ∷ r) (take-add m n xs))

  pub take_all : (n : ℕ) (xs : List A) → length xs ≤ n → take n xs ≡ xs
  take_all zero [] h = refl
  take_all zero (x ∷ xs) h = absurd (omega arith)
  take_all (suc n) [] h = refl
  take_all (suc n) (x ∷ xs) h = ap (λ r. x ∷ r) (take_all n xs (omega arith))

  -- A common start of lists can be dropped.
  pub append_cancel_left : (xs : List A) {ys zs : List A} → xs ++ ys ≡ xs ++ zs → ys ≡ zs
  append_cancel_left [] h = h
  append_cancel_left (x ∷ xs) h = append_cancel_left xs (ap tail_of h)
    where
      tail_of : List A → List A
      tail_of [] = []
      tail_of (y ∷ ys) = ys

  pub append_split :
      (xs ys : List A) {zs ws : List A}
      → length xs ≡ length ys
      → xs ++ zs ≡ ys ++ ws
      → (xs ≡ ys) × (zs ≡ ws)
  append_split [] [] e h = (refl, h)
  append_split [] (y ∷ ys) e h = absurd (omega arith)
  append_split (x ∷ xs) [] e h = absurd (omega arith)
  append_split (x ∷ xs) (y ∷ ys) e h =
      let (same, rest) = append_split xs ys (omega arith) (ap tail_of h) in
      (ap₂ (λ a r. a ∷ r) (ap (head_of x) h) same, rest)
    where
      tail_of : List A → List A
      tail_of [] = []
      tail_of (a ∷ rest) = rest

      head_of : A → List A → A
      head_of d [] = d
      head_of d (a ∷ rest) = a

  pub length-zero : (xs : List A) → length xs ≡ 0 → xs ≡ []
  length-zero [] h = refl
  length-zero (x ∷ xs) h = absurd (omega arith)

pub starts_with_iff :
    (text word : PathWord)
    → (starts_with text word ≡ true)
      ↔ ((length word ≤ length text) × (take (length word) text ≡ word))
starts_with_iff text [] = (λ _. (omega arith, refl), λ _. refl)
starts_with_iff [] (y ∷ word) = (λ h. cc, λ h. absurd (omega (arith, h.0)))
starts_with_iff (x ∷ text) (y ∷ word) = ground (arith, starts_with_iff text word)

-- `word` stands in `text` from `position` on.
pub record Occurs (text : PathWord) (position : ℕ) (word : PathWord) : Type 0 where
  pub inside : position + length word ≤ length text
  pub segment : take (position + length word) text ≡ take position text ++ word

-- The test succeeds exactly where the word stands in the text from the position on, within its end.
pub word_equal_at_iff :
    (text : PathWord) (position : ℕ) (word : PathWord)
    → (word_equal_at text position word ≡ true) ↔ Occurs text position word
unfolding word_equal_at
word_equal_at_iff text position word = (sound, complete)
  where
    same : PathWord
    same = drop position text

    sound : word_equal_at text position word ≡ true → Occurs text position word
    sound h =
        let fits : position + length word ≤ length text = ground arith in
        let starts : starts_with (drop position text) word ≡ true = ground arith in
        record {
          inside = fits;
          segment =
              take-add position (length word) text
              ∙ ap (λ r. take position text ++ r) ((starts_with_iff _ word).0 starts).1;
        }

    complete : Occurs text position word → word_equal_at text position word ≡ true
    complete o =
        let found : take (length word) (drop position text) ≡ word =
          append_cancel_left (take position text)
            (sym (take-add position (length word) text) ∙ o.segment) in
        let long : length word ≤ length (drop position text) =
          omega (arith, o.inside, length-drop position text) in
        let starts = (starts_with_iff (drop position text) word).1 (long, found) in
        ground (arith, o.inside)

-- A word that occurs is read off at its position.
pub Occurs-word :
    (text : PathWord) (position : ℕ) (word : PathWord)
    → Occurs text position word
    → take (length word) (drop position text) ≡ word
Occurs-word text position word o =
    append_cancel_left (take position text) (sym (take-add position (length word) text) ∙ o.segment)

pub length-repeat : (w : PathWord) (k : ℕ) → length (repeat w k) ≡ k * length w
length-repeat w zero = omega arith
length-repeat w (suc k) = grind (arith, length-append w (repeat w k), length-repeat w k)

pub repeat-concat : (w : PathWord) (k : ℕ) → repeat w (suc k) ≡ repeat w k ++ w
repeat-concat w zero = append-nil w
repeat-concat w (suc k) = ap (λ r. w ++ r) (repeat-concat w k) ∙ sym (append_assoc w (repeat w k) w)

pub repeat-add : (w : PathWord) (j k : ℕ) → repeat w (j + k) ≡ repeat w j ++ repeat w k
repeat-add w zero k = ap (repeat w) (omega arith)
repeat-add w (suc j) k =
    let e : suc j + k ≡ suc (j + k) = omega arith in
    rw e (ap (λ r. w ++ r) (repeat-add w j k) ∙ sym (append_assoc w (repeat w j) (repeat w k)))

module _ (text : PathWord) (position : ℕ) (a b : PathWord) where
  -- Two words one after the other occur exactly where both occur.
  pub Occurs-append :
      Occurs text position (a ++ b) ↔ (Occurs text position a × Occurs text (position + length a) b)
  Occurs-append = (split, join)
    where
      far : position + length (a ++ b) ≡ position + length a + length b
      far = omega (arith, length-append a b)

      split :
          Occurs text position (a ++ b)
          → Occurs text position a × Occurs text (position + length a) b
      split o =
          let room : position + length a + length b ≤ length text = omega (arith, far, o.inside) in
          let whole : take (position + length a) text
                ++ take (length b) (drop (position + length a) text)
              ≡ (take position text ++ a) ++ b =
            sym (take-add (position + length a) (length b) text)
            ∙ ap (λ k. take k text) (sym far)
            ∙ o.segment
            ∙ sym (append_assoc (take position text) a b) in
          let even : length (take (position + length a) text) ≡ length (take position text ++ a) =
            omega (
              arith,
              length-take (position + length a) text,
              length-append (take position text) a,
              length-take position text,
            ) in
          let (first, second) =
            append_split (take (position + length a) text) (take position text ++ a) even whole in
          (
            record { inside = omega arith; segment = first },
            record {
              inside = room;
              segment =
                  take-add (position + length a) (length b) text
                  ∙ ap (λ r. take (position + length a) text ++ r) second;
            },
          )

      join :
          Occurs text position a × Occurs text (position + length a) b
          → Occurs text position (a ++ b)
      join (o, p) = record {
        inside = omega (arith, far, p.inside);
        segment =
            ap (λ k. take k text) far
            ∙ p.segment
            ∙ ap (λ r. r ++ b) o.segment
            ∙ append_assoc (take position text) a b;
      }

-- A power with one more copy, and the copy that a longer power has at the end of a shorter one.
pub Occurs-repeat-suc :
    (text : PathWord) (i : ℕ) (w : PathWord) (k : ℕ)
    → Occurs text i (repeat w k)
    → Occurs text (i + k * length w) w
    → Occurs text i (repeat w (suc k))
Occurs-repeat-suc text i w k o p = subst (Occurs text i) (sym (repeat-concat w k)) (
    (Occurs-append text i (repeat w k) w).1
      (o, subst (λ n. Occurs text (i + n) w) (sym (length-repeat w k)) p))

pub Occurs-repeat-within :
    (text : PathWord) (i : ℕ) (w : PathWord) (k j : ℕ)
    → Occurs text i (repeat w (k + suc j))
    → Occurs text (i + k * length w) w
Occurs-repeat-within text i w k j o =
    let parts =
      (Occurs-append text i (repeat w k) (repeat w (suc j))).0
        (subst (Occurs text i) (repeat-add w k (suc j)) o) in
    subst (λ n. Occurs text (i + n) w) (length-repeat w k)
      ((Occurs-append text (i + length (repeat w k)) w (repeat w j)).0 parts.1).0
