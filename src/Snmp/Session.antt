-- ===== src/Snmp/Session.antt =====
-- crates/reink-snmp/src/lib.rs: the backend over `snmp2` and the control channel. The library is a
-- parameter: its security settings are the credentials that they are built from, and its error is the text that the code prints of it. A message that the code composes itself
-- is a value of `ResponseError`, whose text is the parameter `display`.
use reink_rust.Snmp.Defs.{
  v2c, v3, v1, usm, community, SnmpAuth, SnmpVersion, SnmpConfig, socket_address, UsmCredentials,
}
use reink_rust.Platform.Transport.{io}
use reink_rust.Base.Text.{is_utf8}
use reink_rust.Base.{
  List, Result, String, [], err, if◌then◌else◌, map_err, not, ok, ◌++◌, ◌==◌, ◌>>=◌, ◌∷◌, ℕ,
}
use reink_rust.Platform.Control.{ControlChannel, ControlError}
use reink_rust.Identity.{PrinterIdentity, IdentityParseError, parse}

-- `EPSON_CONTROL_OID_PREFIX`
abbrev pub epson_control_oid_prefix : List ℕ
epson_control_oid_prefix = 1 ∷ 3 ∷ 6 ∷ 1 ∷ 4 ∷ 1 ∷ 1248 ∷ 1 ∷ 2 ∷ 2 ∷ 44 ∷ 1 ∷ 1 ∷ 2 ∷ 1 ∷ []

-- `IEEE_1284_DEVICE_ID_OID`
abbrev pub ieee_1284_device_id_oid : List ℕ
ieee_1284_device_id_oid = 1 ∷ 3 ∷ 6 ∷ 1 ∷ 4 ∷ 1 ∷ 2699 ∷ 1 ∷ 2 ∷ 1 ∷ 2 ∷ 1 ∷ 1 ∷ 3 ∷ 1 ∷ []

unfoldable pub epson_control_oid : List ℕ → List ℕ
epson_control_oid request = epson_control_oid_prefix ++ request

pub data ResponseError : Type 0 where
  version_mismatch : ResponseError
  invalid_requested_oid : (message : String) → ResponseError
  agent_returned_status : (status index : ℕ) → ResponseError
  not_an_octet_string : ResponseError
  no_variable_bindings : ResponseError

pub data SnmpError : Type 0 where
  transport : (operation message : String) → SnmpError
  response : ResponseError → SnmpError

-- `SnmpError::into_control_error`
unfoldable pub into_control_error : (ResponseError → String) → SnmpError → ControlError
into_control_error display (transport operation message) =
    ControlError.transport (record { kind = io; operation = operation; message = message })
into_control_error display (response e) = ControlError.protocol (display e)

pub data Value : Type 0 where
  octet_string : List ℕ → Value
  other_value : Value

pub record Response : Type 0 where
  pub error_status : ℕ
  pub error_index : ℕ
  pub varbinds : List (List ℕ × Value)

-- The errors of a GET: the one that the code tells apart, and the rest.
pub data GetError : Type 0 where
  auth_updated : GetError
  other_error : (message : String) → GetError

-- What the code uses of `snmp2`.
pub record SyncSession : Type 1 where
  pub Session : Type 0
  pub auth_updated_text : String
  pub oid_from : List ℕ → Result String (List ℕ)
  pub new_v1 : (destination community : List ℕ) (timeout id : ℕ) → Result String Session
  pub new_v2c : (destination community : List ℕ) (timeout id : ℕ) → Result String Session
  pub new_v3 : (destination : List ℕ) (timeout id : ℕ) → UsmCredentials → Result String Session
  pub init : Session → Result String Session
  pub get : Session → List ℕ → Result GetError Response × Session

-- `SnmpGetBackend`
pub record SnmpGetBackend : Type 1 where
  pub Backend : Type 0
  pub get_octets : Backend → List ℕ → Result SnmpError (List ℕ) × Backend

-- The value of the first binding of a response.
abbrev pub binding_octets : List (List ℕ × Value) → Result SnmpError (List ℕ)
binding_octets [] = err (response no_variable_bindings)
binding_octets ((_, octet_string octets) ∷ _) = ok octets
binding_octets ((_, other_value) ∷ _) = err (response not_an_octet_string)

unfoldable pub response_octets : Response → Result SnmpError (List ℕ)
response_octets r =
    if not (r.error_status == 0)
    then err (response (agent_returned_status r.error_status r.error_index))
    else binding_octets r.varbinds

module _ (L : SyncSession) where
  abbrev pub get_error_text : GetError → String
  get_error_text auth_updated = L.auth_updated_text
  get_error_text (other_error message) = message

  abbrev pub open_session :
      SnmpConfig → SnmpVersion → SnmpAuth → Result SnmpError (Result String L.Session)
  open_session config v1 (community name) =
      ok (L.new_v1 (socket_address config.endpoint) name config.timeout config.starting_request_id)
  open_session config v2c (community name) =
      ok (L.new_v2c (socket_address config.endpoint) name config.timeout config.starting_request_id)
  open_session config v3 (usm credentials) = ok (
      L.new_v3 (socket_address config.endpoint) config.timeout config.starting_request_id
        credentials)
  open_session config _ _ = err (response version_mismatch)

  -- `Snmp2Backend::connect`
  unfoldable pub connect : SnmpConfig → Result SnmpError L.Session
  unfolding socket_address
  connect config = do
    opened ← open_session config config.version config.authentication
    session ← map_err (transport "open SNMP session") opened
    map_err (transport "initialize SNMP session") (L.init session)

  -- A second GET after `AuthUpdated`.
  abbrev pub retry :
      List ℕ → Result GetError Response → L.Session → Result GetError Response × L.Session
  retry oid (err auth_updated) session = L.get session oid
  retry oid r session = (r, session)

  unfoldable pub get_with_retry : L.Session → List ℕ → Result GetError Response × L.Session
  get_with_retry session oid = let (r, session') = L.get session oid in retry oid r session'

  abbrev pub finish_get : Result GetError Response → Result SnmpError (List ℕ)
  finish_get (ok r) = response_octets r
  finish_get (err e) = err (transport "SNMP GET" (get_error_text e))

  unfoldable pub get_response_octets : L.Session → List ℕ → Result SnmpError (List ℕ) × L.Session
  unfolding get_with_retry response_octets
  get_response_octets session oid = elim (L.oid_from oid) [
    | err message ↦ (err (response (invalid_requested_oid message)), session)
    | ok checked ↦
        (finish_get (get_with_retry session checked).0, (get_with_retry session checked).1)
  ]

  -- `Snmp2Backend`
  abbrev pub snmp2_backend : SnmpGetBackend
  snmp2_backend = record { Backend = L.Session; get_octets = get_response_octets }

module _ (B : SnmpGetBackend) (display : ResponseError → String) where
  unfoldable pub channel_request : B.Backend → List ℕ → Result ControlError (List ℕ) × B.Backend
  unfolding epson_control_oid into_control_error
  channel_request backend request =
      let (r, backend') = B.get_octets backend (epson_control_oid request) in
      (map_err (into_control_error display) r, backend')

  -- `SnmpControlChannel`
  abbrev pub snmp_control_channel : ControlChannel
  snmp_control_channel = record { Channel = B.Backend; request = channel_request }

pub data DeviceIdentityError : Type 0 where
  get_failed : SnmpError → DeviceIdentityError
  non_utf8 : DeviceIdentityError
  parse_error : IdentityParseError → DeviceIdentityError

abbrev pub identity_of_octets :
    Result SnmpError (List ℕ) → Result DeviceIdentityError PrinterIdentity
identity_of_octets (err e) = err (get_failed e)
identity_of_octets (ok bytes) =
    if is_utf8 bytes then map_err parse_error (parse bytes) else err non_utf8

unfoldable pub read_printer_identity :
    (B : SnmpGetBackend) → B.Backend → Result DeviceIdentityError PrinterIdentity × B.Backend
unfolding is_utf8 parse
read_printer_identity B backend =
    let (r, backend') = B.get_octets backend ieee_1284_device_id_oid in
    (identity_of_octets r, backend')
