-- ===== src/Identity/Parse.antt =====
-- crates/reink-core/src/identity.rs: parsing, against the printed form.
use reink_rust.Identity.Print.{
  IsMalformed, described, print_before, print, last_value, IsEntry, aliased, Entry, IsKey,
}
use reink_rust.Base.Split.{
  split_once-none, split_once, Without, split, split-Without, split_once-Without,
}
use reink_rust.Base.Text.{same→eq, text, is_ascii, same}
use reink_rust.Base.Dict.{Dict, get, get-insert, insert}
use reink_rust.Base.{
  prefer, Option, err, All-append, ap, append_assoc, sym, ◌∙◌, ◌≢◌, false, All, arith, true, List,
  Option-cases, [], if◌then◌else◌, inl, inr, ok, refl, ◌&&◌, ◌++◌, ◌∷◌, ◌≡◌, ℕ,
}
use reink_rust.Identity.{
  malformed_field, command_set_of, commands, PrinterIdentity, parse_entries, parse, insert_entry,
  add_aliases, add_alias, field, parse_entry, identity_of,
}

abbrev insert_all : Dict (List ℕ) → List Entry → Dict (List ℕ)
insert_all fields [] = fields
insert_all fields ((key, value) ∷ entries) = insert_all (insert fields key value) entries

get-insert_all :
    (fields : Dict (List ℕ)) (entries : List Entry) (name : List ℕ)
    → get (insert_all fields entries) name ≡ prefer (last_value entries name) (get fields name)
get-insert_all fields [] name = refl
get-insert_all fields ((key, value) ∷ entries) name =
    ground (
      arith,
      get-insert_all (insert fields key value) entries name,
      get-insert fields key value name,
    )

get-add_alias :
    (fields : Dict (List ℕ)) (long short name : List ℕ)
    → get (add_alias fields long short) name
      ≡ (if same short name then prefer (get fields long) (get fields name) else get fields name)
unfolding add_alias
get-add_alias fields long short name = elim (Option-cases (get fields long)) [
  | inl eq ↦ ground (arith, eq)
  | inr (value, eq) ↦ ground (arith, eq, get-insert fields short value name)
]

-- Three aliases in a row, whose names are apart.
get-add_alias_thrice :
    (fields : Dict (List ℕ)) (l1 s1 l2 s2 l3 s3 name : List ℕ)
    → same s1 l2 ≡ false
    → same s1 l3 ≡ false
    → same s2 l3 ≡ false
    → same s2 s1 ≡ false
    → same s3 s1 ≡ false
    → same s3 s2 ≡ false
    → get (add_alias (add_alias (add_alias fields l1 s1) l2 s2) l3 s3) name ≡ (
        if same s1 name
        then prefer (get fields l1) (get fields name)
        else if same s2 name
        then prefer (get fields l2) (get fields name)
        else if same s3 name
        then prefer (get fields l3) (get fields name)
        else get fields name)
get-add_alias_thrice fields l1 s1 l2 s2 l3 s3 name a b c d e f =
    let d1 = add_alias fields l1 s1 in
    let d2 = add_alias d1 l2 s2 in
    ground (
      arith,
      get-add_alias d2 l3 s3 name,
      get-add_alias d1 l2 s2 name,
      get-add_alias d1 l2 s2 l3,
      get-add_alias fields l1 s1 name,
      get-add_alias fields l1 s1 l2,
      get-add_alias fields l1 s1 l3,
      same→eq s1 name,
      same→eq s2 name,
    )

parse_entry-print :
    (fields : Dict (List ℕ)) (key value : List ℕ)
    → IsKey key
    → parse_entry fields (key ++ b':' ∷ value) ≡ ok (insert fields key value)
unfolding parse_entry insert_entry
parse_entry-print fields [] value h = cc h.0
parse_entry-print fields (c ∷ key) value h = rw (split_once-Without b':' (c ∷ key) value h.1) refl

pub is_ascii-append : (s t : List ℕ) → is_ascii (s ++ t) ≡ (is_ascii s && is_ascii t)
unfolding is_ascii
is_ascii-append [] t = refl
is_ascii-append (b ∷ bs) t = ground (arith, is_ascii-append bs t)

is_ascii-print_before :
    (entries : List Entry) (tail : List ℕ)
    → All IsEntry entries
    → is_ascii tail ≡ true
    → is_ascii (print_before entries tail) ≡ true
unfolding is_ascii
is_ascii-print_before [] tail h a = a
is_ascii-print_before ((key, value) ∷ entries) tail h a =
    let rest = print_before entries tail in
    ground (
      arith,
      is_ascii-append key (b':' ∷ (value ++ b';' ∷ rest)),
      is_ascii-append value (b';' ∷ rest),
      is_ascii-print_before entries tail h.1 a,
    )

split-entry :
    (key value rest : List ℕ)
    → Without b';' key
    → Without b';' value
    → split b';' (key ++ b':' ∷ (value ++ b';' ∷ rest)) ≡ (key ++ b':' ∷ value) ∷ split b';' rest
split-entry key value rest h k =
    ap (split b';') (sym (append_assoc key (b':' ∷ value) (b';' ∷ rest)))
    ∙ split-Without b';' (key ++ b':' ∷ value) rest
        (All-append (λ b. b ≢ b';') key (b':' ∷ value) h ((λ eq. omega (arith, eq)), k))

parse_entries-print :
    (fields : Dict (List ℕ)) (entries : List Entry) (tail : List ℕ)
    → All IsEntry entries
    → parse_entries fields (split b';' (print_before entries tail))
      ≡ parse_entries (insert_all fields entries) (split b';' tail)
unfolding parse_entries
parse_entries-print fields [] tail h = refl
parse_entries-print fields ((key, value) ∷ entries) tail ((k, v), h) =
    rw
      (
        split-entry key value (print_before entries tail) k.2 v.0,
        parse_entry-print fields key value k,
      )
      (parse_entries-print (insert fields key value) entries tail h)

-- A field of the parsed identity.
field-identity_of :
    (fields : Dict (List ℕ)) (name : List ℕ)
    → field (identity_of fields) name ≡ aliased (get fields) name
unfolding field identity_of aliased add_aliases same
field-identity_of fields name =
    get-add_alias_thrice fields (text "MANUFACTURER") (text "MFG") (text "MODEL") (text "MDL")
      (text "COMMAND SET") (text "CMD") name refl refl refl refl refl refl

parse_entries-end : (fields : Dict (List ℕ)) → parse_entries fields (split b';' []) ≡ ok fields
unfolding parse_entries parse_entry split
parse_entries-end fields = refl

parse_entries-malformed :
    (fields : Dict (List ℕ)) (bad rest : List ℕ)
    → IsMalformed bad
    → parse_entries fields (split b';' (bad ++ b';' ∷ rest)) ≡ err (malformed_field bad)
unfolding parse_entries parse_entry insert_entry split_once
parse_entries-malformed fields [] rest h = absurd h
parse_entries-malformed fields (b ∷ bs) rest (h, inl no_colon) =
    rw (split-Without b';' (b ∷ bs) rest h, split_once-none b':' (b ∷ bs) no_colon) refl
parse_entries-malformed fields (b ∷ bs) rest (h, inr colon) =
    rw (split-Without b';' (b ∷ bs) rest h, colon) refl

parse-ok :
    (s : List ℕ) (fields : Dict (List ℕ))
    → is_ascii s ≡ true
    → parse_entries [] (split b';' s) ≡ ok fields
    → parse s ≡ ok (identity_of fields)
unfolding parse
parse-ok s fields h k = rw (h, k) refl

command_set-identity_of :
    (fields : Dict (List ℕ))
    → (identity_of fields).command_set ≡ commands (field (identity_of fields) (text "CMD"))
unfolding identity_of command_set_of field
command_set-identity_of fields = refl

aliased-ext :
    (f g : List ℕ → Option (List ℕ)) (name : List ℕ)
    → ((n : List ℕ) → f n ≡ g n)
    → aliased f name ≡ aliased g name
unfolding aliased
aliased-ext f g name h =
    rw (h name, h (text "MANUFACTURER"), h (text "MODEL"), h (text "COMMAND SET")) refl

get-insert_all_new :
    (entries : List Entry) (name : List ℕ)
    → get (insert_all [] entries) name ≡ last_value entries name
unfolding get
get-insert_all_new entries name = ground (arith, get-insert_all [] entries name)

field-insert_all :
    (entries : List Entry) (name : List ℕ)
    → field (identity_of (insert_all [] entries)) name ≡ described entries name
field-insert_all entries name =
    field-identity_of (insert_all [] entries) name
    ∙ aliased-ext (get (insert_all [] entries)) (last_value entries) name
        (get-insert_all_new entries)

-- The entries of an identifier, none of them malformed, are all in the identity, each name with the
-- value of its last entry, except that the long name of a field goes before its short name; the
-- commands are the parts of the field CMD.
pub parse-print :
    (entries : List Entry)
    → All IsEntry entries
    → (identity : PrinterIdentity) × (parse (print entries) ≡ ok identity)
      × ((name : List ℕ) → field identity name ≡ described entries name)
      × (identity.command_set ≡ commands (described entries (text "CMD")))
unfolding is_ascii
parse-print entries h =
    let fields = insert_all [] entries in
    (
      identity_of fields,
      parse-ok (print entries) fields (is_ascii-print_before entries [] h refl)
          (parse_entries-print [] entries [] h ∙ parse_entries-end fields),
      field-insert_all entries,
      command_set-identity_of fields ∙ ap commands (field-insert_all entries (text "CMD")),
    )

-- The first malformed entry of an ASCII identifier is the one that the error names, whatever follows.
pub parse-malformed :
    (entries : List Entry) (bad rest : List ℕ)
    → All IsEntry entries
    → IsMalformed bad
    → is_ascii (bad ++ b';' ∷ rest) ≡ true
    → parse (print_before entries (bad ++ b';' ∷ rest)) ≡ err (malformed_field bad)
unfolding parse
parse-malformed entries bad rest h k a =
    rw
      (
        is_ascii-print_before entries (bad ++ b';' ∷ rest) h a,
        parse_entries-print [] entries (bad ++ b';' ∷ rest) h,
        parse_entries-malformed (insert_all [] entries) bad rest k,
      )
      refl

pub is_ascii-print : (entries : List Entry) → All IsEntry entries → is_ascii (print entries) ≡ true
unfolding is_ascii
is_ascii-print entries h = is_ascii-print_before entries [] h refl
