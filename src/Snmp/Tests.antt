-- ===== src/Snmp/Tests.antt =====
-- A scripted `snmp2` library, and environments of the tests in lib.rs.
use reink_rust.Snmp.Answers.{
  read_printer_identity-print, connect_iff, Opens, get_response_octets-Answered, Answered,
}
use reink_rust.Snmp.Configured.{from_environment-IsConfig, IsConfig, Loads}
use reink_rust.Snmp.Defs.{
  compatible, aes128, sha256, authentication_and_privacy, incomplete_v3_security_configuration, usm,
  v3, socket_address, SnmpConfig,
}
use reink_rust.Snmp.Environment.{Loaded, from_environment}
use reink_rust.Identity.{field, PrinterIdentity}
use reink_rust.Identity.Print.{described, print, Entry}
use reink_rust.Base.Text.{is_ascii, text}
use reink_rust.Base.Dict.{Dict, get}
use reink_rust.Base.{false, List, Option, Result, [], arith, err, ok, refl, ◌↔◌, ◌∷◌, ◌≡◌, ℕ}
use reink_rust.Base.Dict
use reink_rust.Snmp.Session.{
  snmp2_backend, version_mismatch, response, read_printer_identity, octet_string, other_error,
  ieee_1284_device_id_oid, get_response_octets, auth_updated, connect, SyncSession, Response,
  GetError,
}

abbrev Script : Type 0
Script = List (Result GetError Response)

abbrev scripted_get : Script → List ℕ → Result GetError Response × Script
scripted_get [] oid = (err (other_error "no reply"), [])
scripted_get (r ∷ rest) oid = (r, rest)

abbrev scripted : SyncSession
scripted = record {
  Session = Script;
  auth_updated_text = "authentication updated";
  oid_from = λ oid. ok oid;
  new_v1 = λ destination name timeout id. ok [];
  new_v2c = λ destination name timeout id. ok [];
  new_v3 = λ destination timeout id credentials. ok [];
  init = λ session. ok session;
  get = scripted_get;
}

abbrev reply : List ℕ → Response
reply octets = record {
  error_status = 0;
  error_index = 0;
  varbinds = (ieee_1284_device_id_oid, octet_string octets) ∷ [];
}

abbrev c90 : List Entry
c90 = (text "MFG", text "EPSON") ∷ (text "MDL", text "C90 Series") ∷ []

abbrev after_update : Script
after_update = err auth_updated ∷ ok (reply (print c90)) ∷ []

get_response_octets-Answered_example :
    (get_response_octets scripted after_update ieee_1284_device_id_oid ≡ (ok (print c90), []))
    ↔ Answered scripted after_update ieee_1284_device_id_oid (print c90) []
get_response_octets-Answered_example =
    get_response_octets-Answered scripted after_update [] ieee_1284_device_id_oid (print c90)

answered : get_response_octets scripted after_update ieee_1284_device_id_oid ≡ (ok (print c90), [])
unfolding get_response_octets
answered = refl

identifies_printer :
    (identity : PrinterIdentity) × (read_printer_identity (snmp2_backend scripted) after_update
      ≡ (ok identity, []))
    × ((name : List ℕ) → field identity name ≡ described c90 name)
unfolding is_ascii
identifies_printer =
    read_printer_identity-print (snmp2_backend scripted) after_update [] c90 (ground arith) answered

abbrev private_v3 : Dict (List ℕ)
private_v3 =
    (text "REINK_SNMP_HOST", text "printer.example")
    ∷ (text "REINK_SNMP_VERSION", text "v3")
    ∷ (text "REINK_SNMP_USERNAME", text "operator")
    ∷ (text "REINK_SNMP_AUTH_PROTOCOL", text "SHA256")
    ∷ (text "REINK_SNMP_AUTH_PASSWORD", text "auth")
    ∷ (text "REINK_SNMP_PRIVACY_PROTOCOL", text "aes128")
    ∷ (text "REINK_SNMP_PRIVACY_PASSWORD", text "priv")
    ∷ []

abbrev environment : List ℕ → Option (List ℕ)
environment = Dict.get private_v3

from_environment-IsConfig_example : Loads IsConfig (from_environment environment)
from_environment-IsConfig_example = from_environment-IsConfig environment

abbrev private_config : SnmpConfig
private_config = record {
  endpoint = record { host = text "printer.example"; port = 161 };
  version = v3;
  authentication = usm (record {
    username = text "operator";
    security = authentication_and_privacy sha256 (text "auth") aes128 (text "priv");
  });
  timeout = 2;
  starting_request_id = 0;
}

loads_private : from_environment environment ≡ Loaded.ok private_config
unfolding from_environment get
loads_private = refl

connect_iff_example :
    ((connect scripted private_config ≡ ok []) ↔ Opens scripted private_config [])
    × ((connect scripted private_config ≡ err (response version_mismatch))
        ↔ (compatible private_config.version private_config.authentication ≡ false))
connect_iff_example = connect_iff scripted private_config []

half_private :
    from_environment (
      Dict.get (
        (text "REINK_SNMP_HOST", text "p")
        ∷ (text "REINK_SNMP_VERSION", text "3")
        ∷ (text "REINK_SNMP_USERNAME", text "u")
        ∷ (text "REINK_SNMP_AUTH_PASSWORD", text "a")
        ∷ []))
    ≡ Loaded.err incomplete_v3_security_configuration
unfolding from_environment get
half_private = refl

bracketed : socket_address (record { host = text "fe80::1"; port = 161 }) ≡ text "[fe80::1]:161"
unfolding socket_address
bracketed = refl
