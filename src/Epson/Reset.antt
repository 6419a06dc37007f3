-- ===== src/Epson/Reset.antt =====
-- crates/reink-core/src/epson.rs: `merged_operation`, and the operations that it merges.
use reink_rust.Base.{
  sym, Bool, List, Option, [], ap, false, if◌then◌else◌, length, none, refl, some, true, ◌∙◌, ◌∷◌,
  ◌≡◌, ℕ,
}
use reink_rust.Base.Text.{to_ascii_lowercase}
use reink_rust.Epson.Spec.{
  EpsonSpec, MemoryOperation, Merged, merge_value, merge_pairs, merge_operations, merged_result,
  merged_operation, selected, no_merge,
}
use reink_rust.Epson.Merge.{
  after_writes, after_operations, AreDistinct, IsMerged, merged_writes, merge_value-IsMerged,
  merge_value-writes,
}

merge_pairs-IsMerged : (m : Merged) (as' vs : List ℕ) → IsMerged m → IsMerged (merge_pairs m as' vs)
unfolding merge_pairs
merge_pairs-IsMerged m [] vs w = w
merge_pairs-IsMerged m (a ∷ as') [] w = w
merge_pairs-IsMerged m (a ∷ as') (v ∷ vs) w =
    merge_pairs-IsMerged (merge_value m a v) as' vs (merge_value-IsMerged m a v w)

merge_pairs-writes :
    (m : Merged) (as' vs : List ℕ) (b before : ℕ)
    → IsMerged m
    → merged_writes (merge_pairs m as' vs) b before
      ≡ after_writes as' vs b (merged_writes m b before)
unfolding merge_pairs after_writes
merge_pairs-writes m [] vs b before w = refl
merge_pairs-writes m (a ∷ as') [] b before w = refl
merge_pairs-writes m (a ∷ as') (v ∷ vs) b before w =
    merge_pairs-writes (merge_value m a v) as' vs b before (merge_value-IsMerged m a v w)
    ∙ ap (after_writes as' vs b) (merge_value-writes m a v b before w)

merge_operations-IsMerged :
    (operations : List MemoryOperation) (m : Merged) (fragment : List ℕ)
    → IsMerged m
    → IsMerged (merge_operations m fragment operations)
unfolding merge_operations
merge_operations-IsMerged [] m fragment w = w
merge_operations-IsMerged (o ∷ os) m fragment w =
    merge_operations-IsMerged os
      (if selected fragment o then merge_pairs m o.addresses o.reset_values else m) fragment
      (either (selected fragment o))
  where
    either : (b : Bool) → IsMerged (if b then merge_pairs m o.addresses o.reset_values else m)
    either true = merge_pairs-IsMerged m o.addresses o.reset_values w
    either false = w

merge_operations-writes :
    (operations : List MemoryOperation) (m : Merged) (fragment : List ℕ) (b before : ℕ)
    → IsMerged m
    → merged_writes (merge_operations m fragment operations) b before
      ≡ after_operations fragment operations b (merged_writes m b before)
unfolding merge_operations after_operations
merge_operations-writes [] m fragment b before w = refl
merge_operations-writes (o ∷ os) m fragment b before w =
    split (λ m' w'. merge_operations-writes os m' fragment b before w') (selected fragment o)
  where
    split :
        ((m' : Merged)
          → IsMerged m'
          → merged_writes (merge_operations m' fragment os) b before
            ≡ after_operations fragment os b (merged_writes m' b before))
        → (c : Bool)
        → merged_writes
            (merge_operations
              (if c then merge_pairs m o.addresses o.reset_values else m)
              fragment
              os)
            b
            before
          ≡ after_operations fragment os b (
              if c
              then after_writes o.addresses o.reset_values b (merged_writes m b before)
              else merged_writes m b before)
    split ih true =
        ih (merge_pairs m o.addresses o.reset_values)
          (merge_pairs-IsMerged m o.addresses o.reset_values w)
        ∙ ap (after_operations fragment os b)
            (merge_pairs-writes m o.addresses o.reset_values b before w)
    split ih false = ih m w

no_merge-IsMerged : IsMerged no_merge
no_merge-IsMerged = record { distinct = tt; paired = refl }

-- What a merged operation promises: each address once, with a declared value, and the effect of the
-- selected operations one after the other; without one, those write nothing.
unfoldable pub Refines : List ℕ → List MemoryOperation → Option MemoryOperation → Type 0
Refines fragment operations none =
    (b before : ℕ) → after_operations fragment operations b before ≡ before
Refines fragment operations (some merged) =
    AreDistinct merged.addresses
    × (merged.reset_values_declared ≡ true)
    × (length merged.addresses ≡ length merged.reset_values)
    × ((b before : ℕ)
        → after_writes merged.addresses merged.reset_values b before
          ≡ after_operations fragment operations b before)

-- A merged operation names each address once and has a declared value for each, and writing its values comes
-- to the same, at every address, as writing the operations with declared resets whose description
-- contains the fragment, case aside, one after the other; if there is none, those operations write
-- nothing.
pub merged_operation-Refines :
    (spec : EpsonSpec) (fragment : List ℕ)
    → Refines (to_ascii_lowercase fragment) spec.memory_operations (merged_operation spec fragment)
unfolding merged_operation after_writes Refines
merged_operation-Refines spec fragment =
    let fragment' = to_ascii_lowercase fragment in
    let m = merge_operations no_merge fragment' spec.memory_operations in
    result m.addresses m.reset_values
      (merge_operations-IsMerged spec.memory_operations no_merge fragment' no_merge-IsMerged)
      (λ b before.
        merge_operations-writes spec.memory_operations no_merge fragment' b before
          no_merge-IsMerged)
  where
    result :
        (as' vs : List ℕ)
        → IsMerged (record { addresses = as'; reset_values = vs })
        → ((b before : ℕ)
            → after_writes as' vs b before
              ≡ after_operations (to_ascii_lowercase fragment) spec.memory_operations b before)
        → Refines
            (to_ascii_lowercase fragment)
            spec.memory_operations
            (merged_result fragment (record { addresses = as'; reset_values = vs }))
    result [] vs w h = λ b before. sym (h b before)
    result (a ∷ as') vs w h = (w.distinct, refl, w.paired, h)
