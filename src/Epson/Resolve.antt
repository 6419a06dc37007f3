-- ===== src/Epson/Resolve.antt =====
-- crates/reink-core/src: from the identifier that a printer sends to the specification of its model.
use reink_rust.Identity.Parse.{parse-print}
use reink_rust.Identity.Print.{print, described, IsEntry, Entry}
use reink_rust.Identity.{field, parse, PrinterIdentity, base_model, detected_model}
use reink_rust.Base.Dict.{get}
use reink_rust.Base.Text.{same, same-length, same_refl, same→eq, strip_suffix, text}
use reink_rust.Base.{
  ap, inl, inr, ◌∙◌, All, List, [], arith, length, none, ok, refl, some, ◌++◌, ◌<◌, ◌∷◌, ◌≡◌, ◌⊎◌,
  ℕ,
}
use reink_rust.Epson.Load.{ModelDatabase, resolve_identity}

strip_suffix-short : (s suffix : List ℕ) → length s < length suffix → strip_suffix s suffix ≡ none
unfolding strip_suffix same
strip_suffix-short [] [] h = absurd (omega arith)
strip_suffix-short [] (p ∷ ps) h = refl
strip_suffix-short (b ∷ bs) suffix h = ground (
  arith,
  strip_suffix-short bs suffix (omega arith),
  same→eq (b ∷ bs) suffix,
  same-length (b ∷ bs) suffix,
)

strip_suffix-append : (s suffix : List ℕ) → strip_suffix (s ++ suffix) suffix ≡ some s
unfolding strip_suffix
strip_suffix-append [] [] = refl
strip_suffix-append [] (p ∷ ps) =
    rw (strip_suffix-short ps (p ∷ ps) (omega arith), same_refl (p ∷ ps)) refl
strip_suffix-append (b ∷ bs) suffix = rw (strip_suffix-append bs suffix) refl

-- A model name as printers advertise it.
abbrev pub Advertises : List ℕ → List ℕ → Type 0
Advertises advertised name =
    (advertised ≡ name ++ text " Series")
    ⊎ ((advertised ≡ name) × (strip_suffix name (text " Series") ≡ none))

base_model-Advertises :
    (advertised name : List ℕ) → Advertises advertised name → base_model advertised ≡ name
unfolding base_model
base_model-Advertises advertised name (inl eq) =
    rw (eq, base_model, strip_suffix-append name (text " Series")) refl
base_model-Advertises advertised name (inr (eq, plain)) =
    ap base_model eq ∙ rw (base_model, plain) refl

resolve_identity-field :
    (database : ModelDatabase) (identity : PrinterIdentity) (advertised : List ℕ)
    → field identity (text "MDL") ≡ some advertised
    → resolve_identity database identity ≡ get database (base_model advertised)
unfolding resolve_identity detected_model
resolve_identity-field database identity advertised h =
    rw (resolve_identity, detected_model, h) refl

-- A printer whose identifier names its model, with or without the word Series after it, resolves to the
-- specification that the database has under the name of the model.
pub resolve_identity-print :
    (database : ModelDatabase) (entries : List Entry) (name advertised : List ℕ)
    → All IsEntry entries
    → described entries (text "MDL") ≡ some advertised
    → Advertises advertised name
    → (identity : PrinterIdentity) × (parse (print entries) ≡ ok identity)
      × (resolve_identity database identity ≡ get database name)
resolve_identity-print database entries name advertised h model_is advertises =
    let (identity, parsed, fields, _) = parse-print entries h in
    (
      identity,
      parsed,
      resolve_identity-field database identity advertised (fields (text "MDL") ∙ model_is)
          ∙ ap (get database) (base_model-Advertises advertised name advertises),
    )
