-- ===== src/Identity/Tests.antt =====
-- The identifiers of the tests in identity.rs.
use reink_rust.Identity.Parse.{parse-print, parse-malformed}
use reink_rust.Identity.Print.{described, print, IsEntry, Entry, print_before}
use reink_rust.Base.Text.{is_ascii, text}
use reink_rust.Base.{
  All, arith, ◌++◌, List, Option, Result, [], err, ok, refl, some, ◌>>=◌, ◌∷◌, ◌≡◌, ℕ,
}
use reink_rust.Identity.{
  commands, field, PrinterIdentity, parse, detected_model, manufacturer, IdentityParseError,
  malformed_field,
}

abbrev of_model : List ℕ → Result IdentityParseError (List (Option (List ℕ)) × List (List ℕ))
of_model s = parse s >>= λ i. ok (manufacturer i ∷ detected_model i ∷ [], i.command_set)

standard_fields_and_aliases :
    of_model (text "MANUFACTURER:EPSON;MODEL:XP-352 Series;COMMAND SET:ESCPL2,BDC;SN:123;")
    ≡ ok (some (text "EPSON") ∷ some (text "XP-352") ∷ [], text "ESCPL2" ∷ text "BDC" ∷ [])
unfolding parse detected_model
standard_fields_and_aliases = refl

malformed_entry : parse (text "MFG:EPSON;MODEL") ≡ err (malformed_field (text "MODEL"))
unfolding parse
malformed_entry = refl

abbrev xp_352 : List Entry
xp_352 =
    (text "MFG", text "EPSON")
    ∷ (text "CMD", text "ESCPL2,BDC")
    ∷ (text "MODEL", text "XP-352 Series")
    ∷ []

xp_352-AllEntries : All IsEntry xp_352
unfolding is_ascii
xp_352-AllEntries = ground arith

parse-print_example :
    (identity : PrinterIdentity) × (parse (print xp_352) ≡ ok identity)
    × ((name : List ℕ) → field identity name ≡ described xp_352 name)
    × (identity.command_set ≡ commands (described xp_352 (text "CMD")))
parse-print_example = parse-print xp_352 xp_352-AllEntries

parse-malformed_example :
    parse (print_before xp_352 (text "SN" ++ b';' ∷ text "X:1;"))
    ≡ err (malformed_field (text "SN"))
unfolding is_ascii
parse-malformed_example =
    parse-malformed xp_352 (text "SN") (text "X:1;") xp_352-AllEntries (ground arith) refl
