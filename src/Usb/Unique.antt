-- ===== src/Usb/Unique.antt =====
-- A choice that must be unambiguous: the match over the list of all items that pass a test. Both
-- selection.rs and native.rs of crates/reink-usb make it.
use mathlib.Core.List.{cons-eq-cons, cons-ne-nil}
use reink_rust.Base.{
  Bool-cases, ap, inl, inr, subst, sym, ◌↔◌, ◌∙◌, All, Bool, List, [], false, if◌then◌else◌, length,
  refl, true, ◌++◌, ◌∷◌, ◌≡◌, ℕ,
}

pub data Choice (A : Type 0) : Type 0 where
  not_found : Choice A
  chosen : A → Choice A
  ambiguous : (matches : ℕ) → Choice A

module _ {A : Type 0} where
  -- `iter.filter(..).collect::<Vec<_>>()`
  unfoldable pub matching : (A → Bool) → List A → List A
  matching test [] = []
  matching test (x ∷ xs) = let rest = matching test xs in if test x then x ∷ rest else rest

  -- `match matches.as_slice()`
  abbrev pub unambiguous : List A → Choice A
  unambiguous [] = not_found
  unambiguous (x ∷ []) = chosen x
  unambiguous (x ∷ y ∷ rest) = ambiguous (length (x ∷ y ∷ rest))

  unfoldable pub select_unique : (A → Bool) → List A → Choice A
  unfolding matching
  select_unique test items = unambiguous (matching test items)

  -- The item stands in the list, passes the test, and no other position of the list passes it.
  pub record IsOnly (test : A → Bool) (items : List A) (item : A) : Type 0 where
    pub before : List A
    pub after : List A
    pub split_at : items ≡ before ++ item ∷ after
    pub passes : test item ≡ true
    pub none_before : All (λ x. test x ≡ false) before
    pub none_after : All (λ x. test x ≡ false) after

  matching-none :
      (test : A → Bool) (items : List A)
      → All (λ x. test x ≡ false) items
      → matching test items ≡ []
  unfolding matching
  matching-none test [] h = refl
  matching-none test (x ∷ xs) h = rw (h.0, matching-none test xs h.1) refl

  none-matching :
      (test : A → Bool) (items : List A)
      → matching test items ≡ []
      → All (λ x. test x ≡ false) items
  unfolding matching
  none-matching test [] h = tt
  none-matching test (x ∷ xs) h = elim (Bool-cases (test x)) [
    | inl yes_x ↦ absurd (cons-ne-nil x (matching test xs) (sym (rw yes_x refl) ∙ h))
    | inr no_x ↦ (no_x, none-matching test xs (sym (rw no_x refl) ∙ h))
  ]

  IsOnly-matching :
      (test : A → Bool) (before after : List A) (item : A)
      → test item ≡ true
      → All (λ x. test x ≡ false) before
      → All (λ x. test x ≡ false) after
      → matching test (before ++ item ∷ after) ≡ item ∷ []
  unfolding matching
  IsOnly-matching test [] after item p b a = rw (p, matching-none test after a) refl
  IsOnly-matching test (x ∷ before) after item p b a =
      rw (b.0, IsOnly-matching test before after item p b.1 a) refl

  IsOnly-here :
      (test : A → Bool) (x : A) (xs : List A) (item : A)
      → test x ≡ true
      → x ∷ matching test xs ≡ item ∷ []
      → IsOnly test (x ∷ xs) item
  IsOnly-here test x xs item yes_x h =
      let (same_item, rest) = (cons-eq-cons).0 h in
      record {
        before = [];
        after = xs;
        split_at = ap (λ y. y ∷ xs) same_item;
        passes = subst (λ y. test y ≡ true) same_item yes_x;
        none_before = tt;
        none_after = none-matching test xs rest;
      }

  IsOnly-later :
      (test : A → Bool) (x : A) (xs : List A) (item : A)
      → test x ≡ false
      → IsOnly test xs item
      → IsOnly test (x ∷ xs) item
  IsOnly-later test x xs item no_x only = record {
    before = x ∷ only.before;
    after = only.after;
    split_at = ap (λ ys. x ∷ ys) only.split_at;
    passes = only.passes;
    none_before = (no_x, only.none_before);
    none_after = only.none_after;
  }

  unambiguous-chosen : (xs : List A) (item : A) → unambiguous xs ≡ chosen item → xs ≡ item ∷ []
  unambiguous-chosen [] item h = cc h
  unambiguous-chosen (x ∷ []) item h = cc h
  unambiguous-chosen (x ∷ y ∷ rest) item h = cc h

  matching-IsOnly :
      (test : A → Bool) (items : List A) (item : A)
      → matching test items ≡ item ∷ []
      → IsOnly test items item
  unfolding matching
  matching-IsOnly test [] item h = absurd (cons-ne-nil item [] (sym h))
  matching-IsOnly test (x ∷ xs) item h = elim (Bool-cases (test x)) [
    | inl yes_x ↦ IsOnly-here test x xs item yes_x (sym (rw yes_x refl) ∙ h)
    | inr no_x ↦
        IsOnly-later test x xs item no_x (matching-IsOnly test xs item (sym (rw no_x refl) ∙ h))
  ]

  -- A choice is made if and only if exactly one position of the list passes the test, and it is the item
  -- there.
  pub select_unique-IsOnly :
      (test : A → Bool) (items : List A) (item : A)
      → (select_unique test items ≡ chosen item) ↔ IsOnly test items item
  unfolding select_unique
  select_unique-IsOnly test items item = (
    λ h. matching-IsOnly test items item (unambiguous-chosen (matching test items) item h),
    λ only.
        rw
          (
            only.split_at,
            IsOnly-matching test only.before only.after item only.passes only.none_before
                only.none_after,
          )
          refl,
  )

  -- What a choice says of the list, whichever it is.
  abbrev pub Describes : (A → Bool) → List A → Choice A → Type 0
  Describes test items not_found = All (λ x. test x ≡ false) items
  Describes test items (chosen item) = IsOnly test items item
  Describes test items (ambiguous n) =
      (x : A) × (y : A) × (rest : List A) × (matching test items ≡ x ∷ y ∷ rest)
      × (n ≡ length (matching test items))

  unambiguous-Describes :
      (test : A → Bool) (items found : List A)
      → matching test items ≡ found
      → Describes test items (unambiguous found)
  unambiguous-Describes test items [] h = none-matching test items h
  unambiguous-Describes test items (x ∷ []) h = matching-IsOnly test items x h
  unambiguous-Describes test items (x ∷ y ∷ rest) h = (x, y, rest, h, sym (ap length h))

  pub select_unique-Describes :
      (test : A → Bool) (items : List A) → Describes test items (select_unique test items)
  unfolding select_unique
  select_unique-Describes test items = unambiguous-Describes test items (matching test items) refl
