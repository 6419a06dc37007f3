-- ===== src/Base/Dict.antt =====
-- `BTreeMap<String, V>` as an association list of texts, in the order of the first insertions.
use reink_rust.Base.{List, Option, [], arith, if◌then◌else◌, none, refl, some, ◌∷◌, ◌≡◌, ℕ}
use reink_rust.Base.Text.{eq→same, same_refl, same→eq, same}

abbrev pub Dict {ℓ} : Type ℓ → Type ℓ
Dict V = List (List ℕ × V)

module _ {ℓ} {V : Type ℓ} where
  -- `map.get(key)`
  unfoldable pub get : Dict V → List ℕ → Option V
  unfolding same
  get [] key = none
  get ((k, v) ∷ d) key = if same k key then some v else get d key

  -- `map.insert(key, value)`
  unfoldable pub insert : Dict V → List ℕ → V → Dict V
  unfolding same
  insert [] key value = (key, value) ∷ []
  insert ((k, v) ∷ d) key value = if same k key then (k, value) ∷ d else (k, v) ∷ insert d key value

  pub get-insert :
      (d : Dict V) (key : List ℕ) (value : V) (name : List ℕ)
      → get (insert d key value) name ≡ (if same key name then some value else get d name)
  unfolding get insert
  get-insert [] key value name = refl
  get-insert ((k, v) ∷ d) key value name = ground (
    arith,
    get-insert d key value name,
    same→eq k key,
    same→eq k name,
    same→eq key name,
    same_refl k,
    same_refl name,
    eq→same k key,
    eq→same key name,
    eq→same k name,
  )
