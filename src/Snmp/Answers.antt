-- ===== src/Snmp/Answers.antt =====
-- crates/reink-snmp/src/lib.rs: what a GET, a connection and a read of the identity come to.
use reink_rust.Identity.Parse.{is_ascii-print, parse-print}
use reink_rust.Identity.{field, PrinterIdentity}
use reink_rust.Snmp.Defs.{
  socket_address, v3, v2c, v1, usm, community, compatible, SnmpAuth, SnmpVersion, SnmpConfig,
}
use reink_rust.Identity.Print.{described, print, IsEntry, Entry}
use reink_rust.Base.Text.{is_ascii-is_utf8}
use reink_rust.Base.{
  Bool-cases, bind-ok, false, Result, Result-cases, String, [], ap, err-ne-ok, inl, inr, map_err,
  not, ok-injective, refuse-ok, sym, true, ◌==◌, ◌>>=◌, ◌∙◌, All, List, arith, err, ok, refl, ◌↔◌,
  ◌∷◌, ◌≡◌, ◌≢◌, ℕ,
}
use reink_rust.Snmp.Session.{
  invalid_requested_oid, open_session, other_error, retry, transport, other_value, finish_get,
  binding_octets, ResponseError, GetError, version_mismatch, response, ieee_1284_device_id_oid,
  octet_string, Value, auth_updated, response_octets, read_printer_identity, connect,
  get_with_retry, Response, SyncSession, SnmpGetBackend, get_response_octets,
}

-- A response without an error status whose first binding is this octet string.
abbrev pub Carries : Response → List ℕ → Type 0
Carries r octets =
    (r.error_status ≡ 0)
    × (oid : List ℕ) × (rest : List (List ℕ × Value)) × (r.varbinds
        ≡ (oid, octet_string octets) ∷ rest)

-- One GET is answered, or a second after the library has updated its authentication.
pub data Answered (L : SyncSession) (session : L.Session) (oid octets : List ℕ)
    : L.Session → Type 0 where
  at_once :
      {after : L.Session} (checked : List ℕ) (r : Response)
      → L.oid_from oid ≡ ok checked
      → L.get session checked ≡ (ok r, after)
      → Carries r octets
      → Answered L session oid octets after
  retried :
      {after : L.Session} (checked : List ℕ) (between : L.Session) (r : Response)
      → L.oid_from oid ≡ ok checked
      → L.get session checked ≡ (err auth_updated, between)
      → L.get between checked ≡ (ok r, after)
      → Carries r octets
      → Answered L session oid octets after

binding_octets-ok :
    (binds : List (List ℕ × Value)) (octets : List ℕ)
    → binding_octets binds ≡ ok octets
    → (oid : List ℕ) × (rest : List (List ℕ × Value)) × (binds ≡ (oid, octet_string octets) ∷ rest)
binding_octets-ok [] octets eq = absurd (err-ne-ok eq)
binding_octets-ok ((oid, octet_string found) ∷ rest) octets eq =
    (oid, rest, ap (λ o. (oid, octet_string o) ∷ rest) (ok-injective eq))
binding_octets-ok ((oid, other_value) ∷ rest) octets eq = absurd (err-ne-ok eq)

response_octets-Carries :
    (r : Response) (octets : List ℕ) → response_octets r ≡ ok octets → Carries r octets
unfolding response_octets
response_octets-Carries r octets eq =
    let (status, found) = refuse-ok (not (r.error_status == 0)) _ _ octets eq in
    let (oid, rest, binds) = binding_octets-ok r.varbinds octets found in
    (ground arith, oid, rest, binds)

Carries-response_octets :
    (r : Response) (octets : List ℕ) → Carries r octets → response_octets r ≡ ok octets
unfolding response_octets
Carries-response_octets r octets (zero_status, oid, rest, binds) =
    ground (arith, zero_status, binds)

module _ (L : SyncSession) (session : L.Session) (oid checked octets : List ℕ) where
  finish_get-ok :
      (r : Result GetError Response)
      → finish_get L r ≡ ok octets
      → (found : Response) × (r ≡ ok found) × Carries found octets
  finish_get-ok (ok found) eq = (found, refl, response_octets-Carries found octets eq)
  finish_get-ok (err e) eq = absurd (err-ne-ok eq)

  retry-Answered :
      (r : Result GetError Response) (between after : L.Session)
      → L.oid_from oid ≡ ok checked
      → L.get session checked ≡ (r, between)
      → finish_get L (retry L checked r between).0 ≡ ok octets
      → (retry L checked r between).1 ≡ after
      → Answered L session oid octets after
  retry-Answered (ok found) between after checks got eq same_session =
      at_once checked found checks (got ∙ ap (λ s. (ok found, s)) same_session)
        (response_octets-Carries found octets eq)
  retry-Answered (err auth_updated) between after checks got eq same_session =
      let (found, is_found, carries) = finish_get-ok (L.get between checked).0 eq in
      retried checked between found checks got (λ i. (is_found i, same_session i)) carries
  retry-Answered (err (other_error message)) between after checks got eq same_session =
      absurd (err-ne-ok eq)

get_response_octets-checked :
    (L : SyncSession) (session : L.Session) (oid checked : List ℕ) (r : Result GetError Response)
    (between : L.Session)
    → L.oid_from oid ≡ ok checked
    → L.get session checked ≡ (r, between)
    → get_response_octets L session oid
      ≡ (finish_get L (retry L checked r between).0, (retry L checked r between).1)
unfolding get_response_octets
get_response_octets-checked L session oid checked r between h got =
    rw (get_response_octets, h, get_with_retry, got) refl

get_response_octets-unchecked :
    (L : SyncSession) (session : L.Session) (oid : List ℕ) (message : String)
    → L.oid_from oid ≡ err message
    → get_response_octets L session oid ≡ (err (response (invalid_requested_oid message)), session)
unfolding get_response_octets
get_response_octets-unchecked L session oid message h = rw (get_response_octets, h) refl

Answered-get_response_octets :
    (L : SyncSession) (session after : L.Session) (oid octets : List ℕ)
    → Answered L session oid octets after
    → get_response_octets L session oid ≡ (ok octets, after)
Answered-get_response_octets L session after oid octets (at_once checked r checks got carries) =
    get_response_octets-checked L session oid checked (ok r) after checks got
    ∙ rw (Carries-response_octets r octets carries) refl
Answered-get_response_octets L session after oid octets
      (retried checked between r checks got again carries) =
    get_response_octets-checked L session oid checked (err auth_updated) between checks got
    ∙ rw (again, Carries-response_octets r octets carries) refl

-- The backend gives these octets if and only if a GET of the OID is answered with them, at once or at
-- the one retry.
pub get_response_octets-Answered :
    (L : SyncSession) (session after : L.Session) (oid octets : List ℕ)
    → (get_response_octets L session oid ≡ (ok octets, after)) ↔ Answered L session oid octets after
get_response_octets-Answered L session after oid octets = (
  λ eq. elim (Result-cases (L.oid_from oid)) [
    | inl (checked, checks) ↦
        let (r, between) = L.get session checked in
        let found =
          sym (get_response_octets-checked L session oid checked r between checks refl) ∙ eq in
        retry-Answered L session oid checked octets r between after checks refl
          (ap (λ p. p.0) found) (ap (λ p. p.1) found)
    | inr (e, fails) ↦
        absurd (
          err-ne-ok
            (ap (λ p. p.0) (sym (get_response_octets-unchecked L session oid e fails) ∙ eq)))
  ],
  Answered-get_response_octets L session after oid octets,
)

-- The constructor of the version, with the credentials of its kind, makes this session; there is none for
-- credentials of the other kind.
abbrev pub Creates : (L : SyncSession) → SnmpConfig → SnmpVersion → SnmpAuth → L.Session → Type 0
Creates L config v1 (community name) s =
    L.new_v1 (socket_address config.endpoint) name config.timeout config.starting_request_id ≡ ok s
Creates L config v2c (community name) s =
    L.new_v2c (socket_address config.endpoint) name config.timeout config.starting_request_id ≡ ok s
Creates L config v3 (usm credentials) s =
    L.new_v3 (socket_address config.endpoint) config.timeout config.starting_request_id credentials
    ≡ ok s
Creates L config _ _ s = ⊥

-- The session that the configuration asks for is created, and `init` then gives this one.
abbrev pub Opens : (L : SyncSession) → SnmpConfig → L.Session → Type 0
Opens L config session =
    (created : L.Session) × Creates L config config.version config.authentication created
    × (L.init created ≡ ok session)

map_err-ok : {E F A : Type 0} (f : E → F) (r : Result E A) (a : A) → map_err f r ≡ ok a → r ≡ ok a
map_err-ok f (ok b) a eq = cc eq
map_err-ok f (err e) a eq = absurd (err-ne-ok eq)

module _ (L : SyncSession) (config : SnmpConfig) where
  open_session-Creates :
      (version : SnmpVersion) (auth : SnmpAuth) (opened : Result String L.Session) (s : L.Session)
      → open_session L config version auth ≡ ok opened
      → opened ≡ ok s
      → Creates L config version auth s
  unfolding socket_address
  open_session-Creates v1 (community name) opened s eq h = ok-injective eq ∙ h
  open_session-Creates v2c (community name) opened s eq h = ok-injective eq ∙ h
  open_session-Creates v3 (usm credentials) opened s eq h = ok-injective eq ∙ h
  open_session-Creates v1 (usm credentials) opened s eq h = absurd (err-ne-ok eq)
  open_session-Creates v2c (usm credentials) opened s eq h = absurd (err-ne-ok eq)
  open_session-Creates v3 (community name) opened s eq h = absurd (err-ne-ok eq)

  Creates-open_session :
      (version : SnmpVersion) (auth : SnmpAuth) (s : L.Session)
      → Creates L config version auth s
      → open_session L config version auth ≡ ok (ok s)
  unfolding socket_address
  Creates-open_session v1 (community name) s h = ap ok h
  Creates-open_session v2c (community name) s h = ap ok h
  Creates-open_session v3 (usm credentials) s h = ap ok h
  Creates-open_session v1 (usm credentials) s h = absurd h
  Creates-open_session v2c (usm credentials) s h = absurd h
  Creates-open_session v3 (community name) s h = absurd h

  open_session-refused :
      (version : SnmpVersion) (auth : SnmpAuth)
      → compatible version auth ≡ false
      → open_session L config version auth ≡ err (response version_mismatch)
  unfolding socket_address
  open_session-refused v1 (community name) h = cc h
  open_session-refused v2c (community name) h = cc h
  open_session-refused v3 (usm credentials) h = cc h
  open_session-refused v1 (usm credentials) h = refl
  open_session-refused v2c (usm credentials) h = refl
  open_session-refused v3 (community name) h = refl

  open_session-compatible :
      (version : SnmpVersion) (auth : SnmpAuth)
      → compatible version auth ≡ true
      → (opened : Result String L.Session) × (open_session L config version auth ≡ ok opened)
  open_session-compatible v1 (community name) h = (_, refl)
  open_session-compatible v2c (community name) h = (_, refl)
  open_session-compatible v3 (usm credentials) h = (_, refl)
  open_session-compatible v1 (usm credentials) h = cc h
  open_session-compatible v2c (usm credentials) h = cc h
  open_session-compatible v3 (community name) h = cc h

  initialize_error :
      (opened : Result String L.Session) (e : ResponseError)
      → (map_err (transport "open SNMP session") opened >>= λ session.
          map_err (transport "initialize SNMP session") (L.init session))
        ≢ err (response e)
  initialize_error (err m) e eq = cc eq
  initialize_error (ok session) e eq = elim (Result-cases (L.init session)) [
    | inl (s, good) ↦ ground (arith, good)
    | inr (m, bad) ↦ ground (arith, bad)
  ]

  connect-Opens : (session : L.Session) → connect L config ≡ ok session → Opens L config session
  unfolding connect
  connect-Opens session eq =
      let (opened, opens, eq1) =
        bind-ok (open_session L config config.version config.authentication) _ session eq in
      let (created, creates, eq2) =
        bind-ok (map_err (transport "open SNMP session") opened) _ session eq1 in
      (
        created,
        open_session-Creates config.version config.authentication opened created opens
            (map_err-ok _ opened created creates),
        map_err-ok _ (L.init created) session eq2,
      )

  Opens-connect : (session : L.Session) → Opens L config session → connect L config ≡ ok session
  unfolding connect
  Opens-connect session (created, creates, initialized) =
      rw (Creates-open_session config.version config.authentication created creates)
        (rw initialized refl)

  connect-mismatch :
      connect L config ≡ err (response version_mismatch)
      → compatible config.version config.authentication ≡ false
  unfolding connect
  connect-mismatch eq = elim (Bool-cases (compatible config.version config.authentication)) [
    | inl fits ↦
        let (opened, opens) = open_session-compatible config.version config.authentication fits in
        absurd (initialize_error opened version_mismatch (sym (rw opens refl) ∙ eq))
    | inr wrong ↦ wrong
  ]

  mismatch-connect :
      compatible config.version config.authentication ≡ false
      → connect L config ≡ err (response version_mismatch)
  unfolding connect
  mismatch-connect wrong = rw (open_session-refused config.version config.authentication wrong) refl

  -- A connection gives this session if and only if the library creates one of the configured version with
  -- the configured credentials and initializes it to this one; and it reports the mismatch of version
  -- and credentials if and only if the credentials are not of the version's kind.
  pub connect_iff :
      (session : L.Session)
      → ((connect L config ≡ ok session) ↔ Opens L config session)
        × ((connect L config ≡ err (response version_mismatch))
            ↔ (compatible config.version config.authentication ≡ false))
  connect_iff session =
      ((connect-Opens session, Opens-connect session), (connect-mismatch, mismatch-connect))

-- A printer whose device ID is the printed form of entries, none of them malformed, is identified by
-- them: each name has its last value, a long name before its short one.
pub read_printer_identity-print :
    (B : SnmpGetBackend) (backend after : B.Backend) (entries : List Entry)
    → All IsEntry entries
    → B.get_octets backend ieee_1284_device_id_oid ≡ (ok (print entries), after)
    → (identity : PrinterIdentity) × (read_printer_identity B backend ≡ (ok identity, after))
      × ((name : List ℕ) → field identity name ≡ described entries name)
unfolding read_printer_identity
read_printer_identity-print B backend after entries h answered =
    let (identity, parsed, fields, _) = parse-print entries h in
    (
      identity,
      rw (answered, is_ascii-is_utf8 (print entries) (is_ascii-print entries h), parsed) refl,
      fields,
    )
