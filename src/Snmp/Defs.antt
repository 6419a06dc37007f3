-- ===== src/Snmp/Defs.antt =====
-- crates/reink-snmp/src/lib.rs: endpoints, versions, credentials and the configuration of a session.
-- Text is the list of its UTF-8 bytes; a timeout is its seconds.
use reink_rust.Base.Split.{trim}
use reink_rust.Base.Text.{is_empty, starts_with}
use reink_rust.Base.{
  Bool, List, Result, [], err, false, if◌then◌else◌, ltb, not, ok, suc, true, zero, ◌%◌, ◌&&◌, ◌++◌,
  ◌+◌, ◌/◌, ◌==◌, ◌||◌, ◌∷◌, ℕ,
}

pub record SnmpEndpoint : Type 0 where
  pub host : List ℕ
  pub port : ℕ

pub data SnmpVersion : Type 0 where
  v1 v2c v3 : SnmpVersion

pub data SnmpV3AuthProtocol : Type 0 where
  md5 sha1 sha224 sha256 sha384 sha512 : SnmpV3AuthProtocol

pub data SnmpV3PrivacyProtocol : Type 0 where
  des aes128 aes192 aes256 : SnmpV3PrivacyProtocol

pub data UsmSecurity : Type 0 where
  no_authentication : UsmSecurity
  authentication : (protocol : SnmpV3AuthProtocol) (password : List ℕ) → UsmSecurity
  authentication_and_privacy :
      (protocol : SnmpV3AuthProtocol) (password : List ℕ) (privacy_protocol : SnmpV3PrivacyProtocol)
      (privacy_password : List ℕ)
      → UsmSecurity

pub record UsmCredentials : Type 0 where
  pub username : List ℕ
  pub security : UsmSecurity

pub data SnmpAuth : Type 0 where
  community : List ℕ → SnmpAuth
  usm : UsmCredentials → SnmpAuth

pub record SnmpConfig : Type 0 where
  pub endpoint : SnmpEndpoint
  pub version : SnmpVersion
  pub authentication : SnmpAuth
  pub timeout : ℕ
  pub starting_request_id : ℕ

-- The `expected` of a value is named by its variable.
pub data ConfigError : Type 0 where
  empty_host : ConfigError
  zero_port : ConfigError
  authentication_version_mismatch : ConfigError
  missing_environment_variable : (variable : List ℕ) → ConfigError
  invalid_environment_value : (variable : List ℕ) → ConfigError
  incomplete_v3_security_configuration : ConfigError

-- `host.trim().is_empty()`
unfoldable pub new_endpoint : List ℕ → ℕ → Result ConfigError SnmpEndpoint
unfolding trim
new_endpoint host port =
    if is_empty (trim host)
    then err empty_host
    else if port == 0
    then err zero_port
    else ok (record { host = host; port = port })

-- `{}` of a port.
decimal_from : ℕ → ℕ → List ℕ
decimal_from zero n = []
decimal_from (suc fuel) n =
    (if ltb n 10 then [] else decimal_from fuel (n / 10)) ++ (n % 10 + b'0') ∷ []

-- A port has at most five digits.
unfoldable pub decimal_u16 : ℕ → List ℕ
unfolding decimal_from
decimal_u16 = decimal_from 5

abbrev has : ℕ → List ℕ → Bool
has c [] = false
has c (b ∷ bs) = b == c || has c bs

abbrev ends_with_byte : ℕ → List ℕ → Bool
ends_with_byte c [] = false
ends_with_byte c (b ∷ []) = b == c
ends_with_byte c (b ∷ d ∷ bs) = ends_with_byte c (d ∷ bs)

unfoldable pub socket_address : SnmpEndpoint → List ℕ
unfolding decimal_u16 starts_with
socket_address endpoint =
    let port = b':' ∷ decimal_u16 endpoint.port in
    if starts_with endpoint.host (b'[' ∷ []) && ends_with_byte b']' endpoint.host
    then endpoint.host ++ port
    else if has b':' endpoint.host
    then (b'[' ∷ endpoint.host) ++ b']' ∷ port
    else endpoint.host ++ port

-- The pairs of a version and its credentials that `SnmpConfig::new` accepts.
abbrev pub compatible : SnmpVersion → SnmpAuth → Bool
compatible v1 (community _) = true
compatible v2c (community _) = true
compatible v3 (usm _) = true
compatible _ _ = false

unfoldable pub new_config : SnmpEndpoint → SnmpVersion → SnmpAuth → Result ConfigError SnmpConfig
new_config endpoint version auth =
    if not (compatible version auth)
    then err authentication_version_mismatch
    else ok (record {
      endpoint = endpoint;
      version = version;
      authentication = auth;
      timeout = 2;
      starting_request_id = 0;
    })

abbrev pub with_timeout : SnmpConfig → ℕ → SnmpConfig
with_timeout config seconds = record config { timeout = seconds }

abbrev pub with_starting_request_id : SnmpConfig → ℕ → SnmpConfig
with_starting_request_id config id = record config { starting_request_id = id }
