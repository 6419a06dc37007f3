-- ===== src/Identity/Print.antt =====
-- crates/reink-core/src/identity.rs: an independent account of an identifier: the text that a printer
-- sends for a list of keys and values, and what each name stands for in it.
use reink_rust.Base.Split.{Without}
use reink_rust.Base.{
  prefer, ◌⊎◌, List, Option, [], false, if◌then◌else◌, none, some, true, ◌++◌, ◌∷◌, ◌≡◌, ℕ,
}
use reink_rust.Base.Text.{is_ascii, is_empty, same, text}

abbrev pub Entry : Type 0
Entry = List ℕ × List ℕ

-- `KEY:VALUE;` for each entry, before a tail.
abbrev pub print_before : List Entry → List ℕ → List ℕ
print_before [] tail = tail
print_before ((key, value) ∷ entries) tail =
    key ++ b':' ∷ (value ++ b';' ∷ print_before entries tail)

abbrev pub print : List Entry → List ℕ
print entries = print_before entries []

-- A key that can stand in an identifier, and a value.
abbrev pub IsKey : List ℕ → Type 0
IsKey key = (is_empty key ≡ false) × Without b':' key × Without b';' key × (is_ascii key ≡ true)

abbrev pub IsValue : List ℕ → Type 0
IsValue value = Without b';' value × (is_ascii value ≡ true)

abbrev pub IsEntry : Entry → Type 0
IsEntry (key, value) = IsKey key × IsValue value

-- The value of the last entry with this key.
abbrev pub last_value : List Entry → List ℕ → Option (List ℕ)
last_value [] name = none
last_value ((key, value) ∷ entries) name =
    prefer (last_value entries name) (if same key name then some value else none)

-- The long name of a field goes before its short name.
unfoldable pub aliased : (List ℕ → Option (List ℕ)) → List ℕ → Option (List ℕ)
unfolding same
aliased look name =
    if same (text "MFG") name
    then prefer (look (text "MANUFACTURER")) (look name)
    else if same (text "MDL") name
    then prefer (look (text "MODEL")) (look name)
    else if same (text "CMD") name
    then prefer (look (text "COMMAND SET")) (look name)
    else look name

abbrev pub described : List Entry → List ℕ → Option (List ℕ)
described entries = aliased (last_value entries)

-- An entry that has no key: no colon at all, or nothing before it.
abbrev pub IsMalformed : List ℕ → Type 0
IsMalformed [] = ⊥
IsMalformed (b ∷ bs) = Without b';' (b ∷ bs) × (Without b':' (b ∷ bs) ⊎ (b ≡ b':'))
