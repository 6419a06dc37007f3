-- ===== src/Epson/Database.antt =====
-- crates/reink-core/src/epson.rs: the database that `ModelDatabase::from_toml` builds, as a map from
-- model names.
use reink_rust.Epson.Loaded.{load_group-IsSpec}
use reink_rust.Epson.WellFormed.{IsSpec}
use reink_rust.Epson.Raw.{toml, RawSpec}
use reink_rust.Base.Text.{same, same→eq}
use reink_rust.Base.Dict.{get, get-insert, insert}
use mathlib.Core.Option.{some-injective, none-ne-some}
use reink_rust.Base.{
  Bool, Bool-cases, List, Option, Result, [], ap, arith, bind-ok, err, false, if◌then◌else◌, inl,
  inr, map_err, none, ok, ok-injective, prefer, refl, some, subst, sym, ◌||◌, ◌∙◌, ◌∷◌, ◌≡◌, ℕ,
}
use reink_rust.Epson.Spec.{EpsonSpec}
use reink_rust.Epson.Load.{load_groups, insert_models, load_group, ModelDatabase, from_toml}

-- Every model of the database has a well-formed specification under its own name.
abbrev pub AllSpecs : ModelDatabase → Type 0
AllSpecs database =
    (name : List ℕ) (spec : EpsonSpec)
    → get database name ≡ some spec
    → IsSpec spec × (spec.model ≡ name)

abbrev pub lists : List (List ℕ) → List ℕ → Bool
lists [] name = false
lists (n ∷ names) name = same n name || lists names name

get-insert_models :
    (models : ModelDatabase) (spec : List ℕ → EpsonSpec) (names : List (List ℕ)) (name : List ℕ)
    → get (insert_models models spec names) name
      ≡ (if lists names name then some (spec name) else get models name)
unfolding insert_models
get-insert_models models spec [] name = refl
get-insert_models models spec (n ∷ names) name = elim (Bool-cases (same n name)) [
  | inl eq ↦ ground (
    arith,
    get-insert_models (insert models n (spec n)) spec names name,
    get-insert models n (spec n) name,
    eq,
    ap spec (same→eq n name eq),
  )
  | inr eq ↦ ground (
    arith,
    get-insert_models (insert models n (spec n)) spec names name,
    get-insert models n (spec n) name,
    eq,
  )
]

-- What a group says of a model.
unfoldable pub group_spec : RawSpec → List ℕ → Option EpsonSpec
unfolding load_group
group_spec raw name =
    if lists raw.models name
    then elim (load_group raw) [ ok make ↦ some (make name) | err _ ↦ none ]
    else none

-- The specification of a model: what the last group that lists it says.
unfoldable pub last_spec : List RawSpec → List ℕ → Option EpsonSpec
unfolding group_spec
last_spec [] name = none
last_spec (raw ∷ groups) name = prefer (last_spec groups name) (group_spec raw name)

load_groups-last :
    (groups : List RawSpec) (models database : ModelDatabase) (name : List ℕ)
    → load_groups models groups ≡ ok database
    → get database name ≡ prefer (last_spec groups name) (get models name)
unfolding load_groups last_spec group_spec
load_groups-last [] models database name eq = ap (λ d. get d name) (sym (ok-injective eq))
load_groups-last (raw ∷ groups) models database name eq =
    let (make, loaded, rest) = bind-ok (load_group raw) _ database eq in
    ground (
      arith,
      loaded,
      load_groups-last groups (insert_models models make raw.models) database name rest,
      get-insert_models models make raw.models name,
    )

insert_models-AllSpecs :
    (models : ModelDatabase) (raw : RawSpec) (make : List ℕ → EpsonSpec)
    → load_group raw ≡ ok make
    → AllSpecs models
    → AllSpecs (insert_models models make raw.models)
insert_models-AllSpecs models raw make loaded h name spec found =
    elim (Bool-cases (lists raw.models name)) [
      | inl eq ↦
          subst (λ s. IsSpec s × (s.model ≡ name))
            (some-injective (make name) spec
              (sym (rw (get-insert_models models make raw.models name, eq) refl) ∙ found))
            (load_group-IsSpec raw make name loaded)
      | inr eq ↦
          h name spec (sym (rw (get-insert_models models make raw.models name, eq) refl) ∙ found)
    ]

load_groups-AllSpecs :
    (groups : List RawSpec) (models database : ModelDatabase)
    → AllSpecs models
    → load_groups models groups ≡ ok database
    → AllSpecs database
unfolding load_groups
load_groups-AllSpecs [] models database h eq = subst AllSpecs (ok-injective eq) h
load_groups-AllSpecs (raw ∷ groups) models database h eq =
    let (make, loaded, rest) = bind-ok (load_group raw) _ database eq in
    load_groups-AllSpecs groups (insert_models models make raw.models) database
      (insert_models-AllSpecs models raw make loaded h) rest

nil-AllSpecs : AllSpecs []
unfolding get
nil-AllSpecs name spec h = absurd (none-ne-some spec h)

get-nil : (name : List ℕ) → ◌≡◌ {A = Option EpsonSpec} (get [] name) none
unfolding get
get-nil name = refl

-- Whatever the TOML parser returns, a database that loads has only well-formed specifications: each
-- stands under its own model name, its memory range is ordered, its key has eight bytes, every operation
-- has addresses and, where it declares reset values, one for each of them, and the read-only fields lie
-- in the memory range, are as long as their encoding and do not overlap.
pub from_toml-AllSpecs :
    (from_str : List ℕ → Result (List ℕ) (List RawSpec)) (input : List ℕ) (database : ModelDatabase)
    → from_toml from_str input ≡ ok database
    → AllSpecs database
unfolding from_toml
from_toml-AllSpecs from_str input database eq =
    let (groups, _, loaded) = bind-ok (map_err toml (from_str input)) _ database eq in
    load_groups-AllSpecs groups [] database nil-AllSpecs loaded

-- A database that loads says of each model what the last group that lists the model says.
pub from_toml-last_spec :
    (from_str : List ℕ → Result (List ℕ) (List RawSpec)) (input : List ℕ) (groups : List RawSpec)
    (database : ModelDatabase) (name : List ℕ)
    → from_str input ≡ ok groups
    → from_toml from_str input ≡ ok database
    → get database name ≡ last_spec groups name
unfolding from_toml
from_toml-last_spec from_str input groups database name parsed eq =
    let (found, read, loaded) = bind-ok (map_err toml (from_str input)) _ database eq in
    ground
      (arith, parsed, read, loaded, load_groups-last found [] database name loaded, get-nil name)
