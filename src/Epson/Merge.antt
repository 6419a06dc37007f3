-- ===== src/Epson/Merge.antt =====
-- crates/reink-core/src/epson.rs: one step of `merged_operation`, as writes to addresses.
use reink_rust.Base.{
  ap, false, length-append, suc, sym, zero, ◌+◌, ◌∙◌, ==_iff, Bool-cases, List, Option-cases, [],
  arith, if◌then◌else◌, inl, inr, length, none, refl, some, ◌++◌, ◌==◌, ◌∷◌, ◌≡◌, ℕ,
}
use reink_rust.Epson.Spec.{merge_value, MemoryOperation, position_of, replace_at, Merged, selected}

-- The value at the address `b` after the values have been written to the addresses in order, where
-- it was `before`.
unfoldable pub after_writes : List ℕ → List ℕ → (b before : ℕ) → ℕ
after_writes [] values b before = before
after_writes (a ∷ as') [] b before = before
after_writes (a ∷ as') (v ∷ vs) b before = after_writes as' vs b (if a == b then v else before)

-- The same after all the operations that were selected.
unfoldable pub after_operations : List ℕ → List MemoryOperation → (b before : ℕ) → ℕ
after_operations fragment [] b before = before
after_operations fragment (operation ∷ operations) b before =
    after_operations fragment operations b (
      if selected fragment operation
      then after_writes operation.addresses operation.reset_values b before
      else before)

-- Each address has one entry.
abbrev pub AreDistinct : List ℕ → Type 0
AreDistinct [] = Unit
AreDistinct (a ∷ as') = (position_of a as' ≡ none) × AreDistinct as'

pub record IsMerged (m : Merged) : Type 0 where
  pub distinct : AreDistinct m.addresses
  pub paired : length m.addresses ≡ length m.reset_values

-- An address that has no entry keeps its value.
after_writes-none :
    (as' vs : List ℕ) (b before : ℕ)
    → position_of b as' ≡ none
    → after_writes as' vs b before ≡ before
unfolding after_writes position_of
after_writes-none [] vs b before h = refl
after_writes-none (a ∷ as') [] b before h = refl
after_writes-none (a ∷ as') (v ∷ vs) b before h = elim (Bool-cases (a == b)) [
  | inl e ↦ cc (rw e at h)
  | inr e ↦ elim (Option-cases (position_of b as')) [
    | inl n ↦ rw e (after_writes-none as' vs b before n)
    | inr (i, n) ↦ cc (rw (e, n) at h)
  ]
]

-- A new entry at the end is written last.
after_writes-append :
    (as' vs : List ℕ) (a v b before : ℕ)
    → length as' ≡ length vs
    → after_writes (as' ++ a ∷ []) (vs ++ v ∷ []) b before
      ≡ (if a == b then v else after_writes as' vs b before)
unfolding after_writes
after_writes-append [] [] a v b before h = refl
after_writes-append [] (w ∷ vs) a v b before h = absurd (omega arith)
after_writes-append (c ∷ as') [] a v b before h = absurd (omega arith)
after_writes-append (c ∷ as') (w ∷ vs) a v b before h =
    after_writes-append as' vs a v b _ (omega arith)

position_eq : {i j : ℕ} → some i ≡ some j → i ≡ j
position_eq h = cc

replaced_first :
    (as' vs : List ℕ) (c a v w b before : ℕ)
    → position_of c as' ≡ none
    → c ≡ a
    → after_writes as' vs b (if c == b then v else before)
      ≡ (if a == b then v else after_writes as' vs b (if c == b then w else before))
replaced_first as' vs c a v w b before n same = rw (← same) (elim (Bool-cases (c == b)) [
  | inl e ↦ rw e (after_writes-none as' vs b v (rw (← (==_iff c b).0 e) n))
  | inr e ↦ rw e refl
])

-- The entry of an address takes a new value.
after_writes-replace_at :
    (as' vs : List ℕ) (a v i b before : ℕ)
    → AreDistinct as'
    → length as' ≡ length vs
    → position_of a as' ≡ some i
    → after_writes as' (replace_at vs i v) b before
      ≡ (if a == b then v else after_writes as' vs b before)
unfolding after_writes position_of replace_at
after_writes-replace_at [] vs a v i b before d h p = cc
after_writes-replace_at (c ∷ as') [] a v i b before d h p = absurd (omega arith)
after_writes-replace_at (c ∷ as') (w ∷ vs) a v i b before d h p = elim (Bool-cases (c == a)) [
  | inl e ↦
      rw (← position_eq (rw e at p)) (replaced_first as' vs c a v w b before d.0 ((==_iff c a).0 e))
  | inr e ↦ elim (Option-cases (position_of a as')) [
    | inl n ↦ cc (rw (e, n) at p)
    | inr (j, n) ↦
        rw (← position_eq (rw (e, n) at p)) (
          after_writes-replace_at as' vs a v j b (if c == b then w else before) d.1 (omega arith) n)
  ]
]

position_of-append :
    (k a : ℕ) (as' : List ℕ)
    → (a == k) ≡ false
    → position_of k as' ≡ none
    → position_of k (as' ++ a ∷ []) ≡ none
unfolding position_of
position_of-append k a [] e n = rw e refl
position_of-append k a (c ∷ as') e n = elim (Bool-cases (c == k)) [
  | inl f ↦ cc (rw f at n)
  | inr f ↦ elim (Option-cases (position_of k as')) [
    | inl o ↦ rw (f, position_of-append k a as' e o) refl
    | inr (i, o) ↦ cc (rw (f, o) at n)
  ]
]

swapped : (c a : ℕ) → (c == a) ≡ false → (a == c) ≡ false
swapped c a h = ground arith

AreDistinct-append :
    (as' : List ℕ) (a : ℕ)
    → AreDistinct as'
    → position_of a as' ≡ none
    → AreDistinct (as' ++ a ∷ [])
unfolding position_of
AreDistinct-append [] a d n = (refl, tt)
AreDistinct-append (c ∷ as') a d n = elim (Bool-cases (c == a)) [
  | inl f ↦ cc (rw f at n)
  | inr f ↦ elim (Option-cases (position_of a as')) [
    | inl o ↦ (position_of-append c a as' (swapped c a f) d.0, AreDistinct-append as' a d.1 o)
    | inr (i, o) ↦ cc (rw (f, o) at n)
  ]
]

length-replace_at : (vs : List ℕ) (i v : ℕ) → length (replace_at vs i v) ≡ length vs
unfolding replace_at
length-replace_at [] i v = refl
length-replace_at (w ∷ vs) zero v = refl
length-replace_at (w ∷ vs) (suc i) v = ap suc (length-replace_at vs i v)

abbrev pub merged_writes : Merged → (b before : ℕ) → ℕ
merged_writes m b before = after_writes m.addresses m.reset_values b before

pub merge_value-IsMerged : (m : Merged) (a v : ℕ) → IsMerged m → IsMerged (merge_value m a v)
unfolding merge_value
merge_value-IsMerged m a v w = elim (Option-cases (position_of a m.addresses)) [
  | inl n ↦
      rw (n, merge_value)
        (record {
          distinct = AreDistinct-append m.addresses a w.distinct n;
          paired =
              length-append m.addresses (a ∷ [])
              ∙ ap (λ n. n + 1) w.paired
              ∙ sym (length-append m.reset_values (v ∷ []));
        })
  | inr (i, n) ↦
      rw (n, merge_value)
        (record {
          distinct = w.distinct;
          paired = w.paired ∙ sym (length-replace_at m.reset_values i v);
        })
]

pub merge_value-writes :
    (m : Merged) (a v b before : ℕ)
    → IsMerged m
    → merged_writes (merge_value m a v) b before ≡ (if a == b then v else merged_writes m b before)
unfolding merge_value
merge_value-writes m a v b before w = elim (Option-cases (position_of a m.addresses)) [
  | inl n ↦
      rw (n, merge_value) (after_writes-append m.addresses m.reset_values a v b before w.paired)
  | inr (i, n) ↦
      rw (n, merge_value)
        (after_writes-replace_at m.addresses m.reset_values a v i b before w.distinct w.paired n)
]
