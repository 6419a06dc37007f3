-- ===== src/Controller/Identity.antt =====
-- crates/reink-core/src/controller.rs: `read_identity`.
use reink_rust.Identity.Print.{described, print, IsEntry, Entry}
use reink_rust.Identity.Parse.{is_ascii-print, parse-print, is_ascii-append}
use reink_rust.Base.Split.{trim_start-spaces, is_ascii_space, trim_start}
use reink_rust.Base.Text.{is_ascii, is_ascii-is_utf8, is_utf8, strip_prefix, text}
use reink_rust.Base.{
  ap, ◌∙◌, All, List, Option, Result, [], arith, false, if◌then◌else◌, none, refl, some, true, ◌++◌,
  ◌<◌, ◌∷◌, ◌≡◌, ℕ,
}
use reink_rust.Platform.Control.{ControlChannel}
use reink_rust.Command.{encode_command}
use reink_rust.Identity.{field, IdentityParseError, PrinterIdentity, parse}
use reink_rust.Controller.Defs.{
  AccessError, invalid_identity_response, send_request, identity, fail, lift_command, ok, err,
  ◌>>=◌, M, EpsonError,
}
use reink_rust.Controller.Ops.{with_access}

abbrev lift_identity : {S A : Type 0} → Result IdentityParseError A → M S EpsonError A
lift_identity (Result.ok a) s = (ok a, s)
lift_identity (Result.err e) s = (err (identity e), s)

-- The text after the tag, without the white space before it.
unfoldable pub identity_text : List ℕ → Option (List ℕ)
unfolding is_utf8 strip_prefix trim_start
identity_text response =
    if is_utf8 response
    then elim (strip_prefix response (text "@EJL ID")) [
      | none ↦ none
      | some rest ↦ some (trim_start rest)
    ]
    else none

abbrev pub parse_identity : {S : Type 0} → Option (List ℕ) → M S EpsonError PrinterIdentity
parse_identity none = fail invalid_identity_response
parse_identity (some identifier) = lift_identity (parse identifier)

module _ (C : ControlChannel) where
  unfoldable pub read_identity : M C.Channel EpsonError PrinterIdentity
  unfolding encode_command identity_text parse
  read_identity = do
    request ← with_access (lift_command (encode_command b'd' b'i' (1 ∷ [])))
    response ← with_access (send_request C request)
    parse_identity (identity_text response)

-- White space of ASCII.
abbrev pub AllSpaces : List ℕ → Type 0
AllSpaces = All (λ b. is_ascii_space b ≡ true)

-- There is a text, and its first character is of ASCII and no white space.
abbrev pub StartsInk : List ℕ → Type 0
StartsInk [] = ⊥
StartsInk (b ∷ bs) = (is_ascii_space b ≡ false) × (b < 0x80)

strip_prefix-append : (p s : List ℕ) → strip_prefix (p ++ s) p ≡ some s
unfolding strip_prefix
strip_prefix-append [] s = refl
strip_prefix-append (b ∷ bs) s = ground (arith, strip_prefix-append bs s)

AllSpaces-is_ascii : (spaces : List ℕ) → AllSpaces spaces → is_ascii spaces ≡ true
unfolding is_ascii
AllSpaces-is_ascii [] h = refl
AllSpaces-is_ascii (b ∷ bs) h = ground (arith, AllSpaces-is_ascii bs h.1)

-- `@EJL ID`, white space, the identifier.
abbrev pub tagged : List ℕ → List ℕ → List ℕ
tagged spaces identifier = text "@EJL ID" ++ (spaces ++ identifier)

tagged-is_ascii :
    (spaces identifier : List ℕ)
    → AllSpaces spaces
    → is_ascii identifier ≡ true
    → is_ascii (tagged spaces identifier) ≡ true
unfolding is_ascii
tagged-is_ascii spaces identifier h a =
    rw (is_ascii-append spaces identifier, AllSpaces-is_ascii spaces h, a) refl

trim_start-StartsInk :
    (spaces identifier : List ℕ)
    → AllSpaces spaces
    → StartsInk identifier
    → trim_start (spaces ++ identifier) ≡ identifier
trim_start-StartsInk spaces [] h ink = absurd ink
trim_start-StartsInk spaces (b ∷ bs) h ink = trim_start-spaces spaces b bs h ink.0 ink.1

identity_text-tagged :
    (spaces identifier : List ℕ)
    → AllSpaces spaces
    → StartsInk identifier
    → is_ascii identifier ≡ true
    → identity_text (tagged spaces identifier) ≡ some identifier
unfolding identity_text
identity_text-tagged spaces identifier h ink a = ground (
  arith,
  is_ascii-is_utf8 (tagged spaces identifier) (tagged-is_ascii spaces identifier h a),
  strip_prefix-append (text "@EJL ID") (spaces ++ identifier),
  trim_start-StartsInk spaces identifier h ink,
)

-- `di`, one parameter byte.
abbrev pub identity_request : List ℕ
identity_request = b'd' ∷ b'i' ∷ 1 ∷ 0 ∷ 1 ∷ []

module _ {S A : Type 0} where
  bind-answer :
      {B : Type 0} (m : M S EpsonError A) (f : A → M S EpsonError B) (s after : S) (a : A)
      → m s ≡ (ok a, after)
      → (m >>= f) s ≡ f a after
  bind-answer m f s after a h = rw h refl

  with_access-answer :
      (m : M S AccessError A) (s after : S) (a : A)
      → m s ≡ (ok a, after)
      → with_access m s ≡ (ok a, after)
  with_access-answer m s after a h = rw (with_access, h) (ap (λ p. (ok a, p.1)) h)

send_request-answer :
    (C : ControlChannel) (s after : C.Channel) (bytes response : List ℕ)
    → C.request s bytes ≡ (Result.ok response, after)
    → send_request C bytes s ≡ (ok response, after)
send_request-answer C s after bytes response h =
    rw (send_request, h) (ap (λ p. (ok response, p.1)) h)

read_identity-answer :
    (C : ControlChannel) (s after : C.Channel) (response : List ℕ)
    → C.request s identity_request ≡ (Result.ok response, after)
    → read_identity C s ≡ parse_identity (identity_text response) after
unfolding read_identity encode_command
read_identity-answer C s after response h =
    bind-answer (with_access (send_request C identity_request))
      (λ r. parse_identity (identity_text r)) s after response
      (with_access-answer (send_request C identity_request) s after response
        (send_request-answer C s after identity_request response h))

-- A printer that answers the identity request with its tag, white space and the printed form of entries,
-- none of them malformed, of which there is one at least and the first begins with no white space, is
-- identified by them: each name has its last value, a long name before its short one. The channel is
-- asked once.
pub read_identity-print :
    (C : ControlChannel) (s after : C.Channel) (spaces : List ℕ) (entries : List Entry)
    → AllSpaces spaces
    → All IsEntry entries
    → StartsInk (print entries)
    → C.request s identity_request ≡ (Result.ok (tagged spaces (print entries)), after)
    → (found : PrinterIdentity) × (read_identity C s ≡ (ok found, after))
      × ((name : List ℕ) → field found name ≡ described entries name)
read_identity-print C s after spaces entries h good ink answered =
    let (found, parsed, fields, _) = parse-print entries good in
    (
      found,
      read_identity-answer C s after (tagged spaces (print entries)) answered
          ∙ rw
              (
                identity_text-tagged spaces (print entries) h ink (is_ascii-print entries good),
                parsed,
              )
              refl,
      fields,
    )
