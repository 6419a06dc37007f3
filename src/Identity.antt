-- ===== src/Identity.antt =====
-- crates/reink-core/src/identity.rs: `PrinterIdentity` and the IEEE 1284 device identifier. Text is the
-- list of its UTF-8 bytes; the map of fields is an association list.
pub mod Print
pub mod Parse
pub mod Tests
use reink_rust.Base.Split.{split, split_once}
use reink_rust.Base.Dict.{Dict, get, insert}
use reink_rust.Base.Text.{is_ascii, is_empty, strip_suffix, text}
use reink_rust.Base.{List, Option, Result, [], err, if◌then◌else◌, none, ok, some, ◌>>=◌, ◌∷◌, ℕ}

pub data IdentityParseError : Type 0 where
  non_ascii : IdentityParseError
  malformed_field : (field : List ℕ) → IdentityParseError

pub record PrinterIdentity : Type 0 where
  pub fields : Dict (List ℕ)
  pub command_set : List (List ℕ)

-- The body of the loop over the entries: a split entry, and an entry.
unfoldable pub insert_entry :
    Dict (List ℕ) → List ℕ → Option (List ℕ × List ℕ) → Result IdentityParseError (Dict (List ℕ))
unfolding insert
insert_entry fields entry none = err (malformed_field entry)
insert_entry fields entry (some (key, value)) =
    if is_empty key then err (malformed_field entry) else ok (insert fields key value)

unfoldable pub parse_entry : Dict (List ℕ) → List ℕ → Result IdentityParseError (Dict (List ℕ))
unfolding insert_entry split_once
parse_entry fields entry =
    if is_empty entry then ok fields else insert_entry fields entry (split_once b':' entry)

unfoldable pub parse_entries :
    Dict (List ℕ) → List (List ℕ) → Result IdentityParseError (Dict (List ℕ))
unfolding parse_entry
parse_entries fields [] = ok fields
parse_entries fields (entry ∷ entries) =
    parse_entry fields entry >>= λ next. parse_entries next entries

-- The long and the short names of the three fields that have two.
abbrev pub aliases : List (List ℕ × List ℕ)
aliases =
    (text "MANUFACTURER", text "MFG")
    ∷ (text "MODEL", text "MDL")
    ∷ (text "COMMAND SET", text "CMD")
    ∷ []

unfoldable pub add_alias : Dict (List ℕ) → List ℕ → List ℕ → Dict (List ℕ)
unfolding get insert
add_alias fields long short = elim (get fields long) [
  | none ↦ fields
  | some value ↦ insert fields short value
]

unfoldable pub add_aliases : Dict (List ℕ) → List (List ℕ × List ℕ) → Dict (List ℕ)
unfolding add_alias
add_aliases fields [] = fields
add_aliases fields ((long, short) ∷ rest) = add_aliases (add_alias fields long short) rest

abbrev pub commands : Option (List ℕ) → List (List ℕ)
commands none = []
commands (some s) = split b',' s

unfoldable pub command_set_of : Dict (List ℕ) → List (List ℕ)
unfolding get split
command_set_of fields = commands (get fields (text "CMD"))

unfoldable pub identity_of : Dict (List ℕ) → PrinterIdentity
unfolding add_aliases command_set_of
identity_of parsed =
    let fields = add_aliases parsed aliases in
    record { fields = fields; command_set = command_set_of fields }

unfoldable pub parse : List ℕ → Result IdentityParseError PrinterIdentity
unfolding is_ascii parse_entries split identity_of
parse identifier =
    if is_ascii identifier
    then (parse_entries [] (split b';' identifier) >>= λ fields. ok (identity_of fields))
    else err non_ascii

unfoldable pub field : PrinterIdentity → List ℕ → Option (List ℕ)
unfolding get
field identity name = get identity.fields name

abbrev pub manufacturer : PrinterIdentity → Option (List ℕ)
manufacturer identity = field identity (text "MFG")

abbrev pub model : PrinterIdentity → Option (List ℕ)
model identity = field identity (text "MDL")

-- `model.strip_suffix(" Series").unwrap_or(model)`
unfoldable pub base_model : List ℕ → List ℕ
unfolding strip_suffix
base_model name = elim (strip_suffix name (text " Series")) [ some base ↦ base | none ↦ name ]

unfoldable pub detected_model : PrinterIdentity → Option (List ℕ)
unfolding field base_model
detected_model identity = elim (model identity) [ none ↦ none | some name ↦ some (base_model name) ]

abbrev pub serial_number : PrinterIdentity → Option (List ℕ)
serial_number identity = field identity (text "SN")
