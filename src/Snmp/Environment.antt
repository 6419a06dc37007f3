-- ===== src/Snmp/Environment.antt =====
-- crates/reink-snmp/src/lib.rs: `SnmpConfig::from_environment`. The environment is the function `get`;
-- a failed `expect` is `panicked`.
use reink_rust.Snmp.Defs.{
  sha512, sha384, aes256, sha256, aes192, incomplete_v3_security_configuration, sha224, sha1,
  aes128, authentication_and_privacy, usm, community, authentication, v3, with_timeout, v2c, des,
  md5, v1, SnmpV3PrivacyProtocol, SnmpConfig, SnmpV3AuthProtocol, no_authentication, SnmpVersion,
  SnmpEndpoint, missing_environment_variable, UsmCredentials, new_config, ConfigError,
  invalid_environment_value, new_endpoint,
}
use reink_rust.Base.Text.{same, text, to_ascii_lowercase}
use reink_rust.Base.Dict.{get}
use reink_rust.Base.{List, Option, Result, [], if◌then◌else◌, none, some, ◌||◌, ◌∷◌, ℕ}
use reink_rust.Base.Digits.{parse_u16, parse_u64}

pub data Loaded (A : Type 0) : Type 0 where
  ok : A → Loaded A
  err : ConfigError → Loaded A
  panicked : Loaded A

infixl 10 ◌>>=◌
abbrev pub ◌>>=◌ : {A B : Type 0} → Loaded A → (A → Loaded B) → Loaded B
ok a >>= f = f a
err e >>= f = err e
panicked >>= f = panicked

abbrev pub from_result : {A : Type 0} → Result ConfigError A → Loaded A
from_result (Result.ok a) = ok a
from_result (Result.err e) = err e

-- `Result::expect`
abbrev pub expect : {A : Type 0} → Result ConfigError A → Loaded A
expect (Result.ok a) = ok a
expect (Result.err e) = panicked

-- `parse::<SnmpVersion>()`
unfoldable pub parse_version : List ℕ → Result ConfigError SnmpVersion
unfolding same
parse_version value =
    if same value (text "1") || same value (text "v1")
    then Result.ok v1
    else if same value (text "2c") || same value (text "v2c")
    then Result.ok v2c
    else if same value (text "3") || same value (text "v3")
    then Result.ok v3
    else Result.err (invalid_environment_value (text "REINK_SNMP_VERSION"))

abbrev keyed : {A : Type 0} → List (List ℕ × A) → List ℕ → ConfigError → Result ConfigError A
keyed [] value e = Result.err e
keyed ((name, a) ∷ rest) value e = if same value name then Result.ok a else keyed rest value e

-- `parse::<SnmpV3AuthProtocol>()`
unfoldable pub parse_auth_protocol : List ℕ → Result ConfigError SnmpV3AuthProtocol
unfolding same to_ascii_lowercase
parse_auth_protocol value =
    keyed
      ((text "md5", md5)
        ∷ (text "sha1", sha1)
        ∷ (text "sha224", sha224)
        ∷ (text "sha256", sha256)
        ∷ (text "sha384", sha384)
        ∷ (text "sha512", sha512)
        ∷ [])
      (to_ascii_lowercase value) (invalid_environment_value (text "REINK_SNMP_AUTH_PROTOCOL"))

-- `parse::<SnmpV3PrivacyProtocol>()`
unfoldable pub parse_privacy_protocol : List ℕ → Result ConfigError SnmpV3PrivacyProtocol
unfolding same to_ascii_lowercase
parse_privacy_protocol value =
    keyed
      ((text "des", des)
        ∷ (text "aes128", aes128)
        ∷ (text "aes192", aes192)
        ∷ (text "aes256", aes256)
        ∷ [])
      (to_ascii_lowercase value) (invalid_environment_value (text "REINK_SNMP_PRIVACY_PROTOCOL"))

abbrev pub config_v1 : SnmpEndpoint → List ℕ → Loaded SnmpConfig
config_v1 endpoint name = expect (new_config endpoint v1 (community name))

abbrev pub config_v2c : SnmpEndpoint → List ℕ → Loaded SnmpConfig
config_v2c endpoint name = expect (new_config endpoint v2c (community name))

abbrev pub config_v3 : SnmpEndpoint → UsmCredentials → Loaded SnmpConfig
config_v3 endpoint credentials = expect (new_config endpoint v3 (usm credentials))

-- A value that is set and not empty.
abbrev pub filled : List ℕ → Option (List ℕ) → Loaded (List ℕ)
filled variable (some (b ∷ bs)) = ok (b ∷ bs)
filled variable _ = err (missing_environment_variable variable)

unfoldable pub required_environment : (List ℕ → Option (List ℕ)) → List ℕ → Loaded (List ℕ)
required_environment get variable = filled variable (get variable)

abbrev pub parsed_or_invalid : List ℕ → Option ℕ → Loaded ℕ
parsed_or_invalid variable none = err (invalid_environment_value variable)
parsed_or_invalid variable (some n) = ok n

abbrev pub u16_or : List ℕ → ℕ → Option (List ℕ) → Loaded ℕ
u16_or variable default none = ok default
u16_or variable default (some value) = parsed_or_invalid variable (parse_u16 value)

unfoldable pub optional_environment_u16 : (List ℕ → Option (List ℕ)) → List ℕ → ℕ → Loaded ℕ
unfolding parse_u16
optional_environment_u16 get variable default = u16_or variable default (get variable)

abbrev pub u64_or : List ℕ → ℕ → Option (List ℕ) → Loaded ℕ
u64_or variable default none = ok default
u64_or variable default (some value) = parsed_or_invalid variable (parse_u64 value)

unfoldable pub optional_environment_u64 : (List ℕ → Option (List ℕ)) → List ℕ → ℕ → Loaded ℕ
unfolding parse_u64
optional_environment_u64 get variable default = u64_or variable default (get variable)

-- The credentials of version 3, from the four optional variables.
unfoldable pub v3_credentials :
    List ℕ
    → (protocol password privacy_protocol privacy_password : Option (List ℕ))
    → Loaded UsmCredentials
unfolding parse_auth_protocol parse_privacy_protocol
v3_credentials username none none none none =
    ok (record { username = username; security = no_authentication })
v3_credentials username (some protocol) (some password) none none = do
  parsed ← from_result (parse_auth_protocol protocol)
  ok (record { username = username; security = authentication parsed password })
v3_credentials username (some protocol) (some password) (some privacy) (some secret) = do
  parsed ← from_result (parse_auth_protocol protocol)
  parsed_privacy ← from_result (parse_privacy_protocol privacy)
  ok (record {
    username = username;
    security = authentication_and_privacy parsed password parsed_privacy secret;
  })
v3_credentials username _ _ _ _ = err incomplete_v3_security_configuration

abbrev pub environment_credentials : (List ℕ → Option (List ℕ)) → List ℕ → Loaded UsmCredentials
environment_credentials get username =
    v3_credentials username (get (text "REINK_SNMP_AUTH_PROTOCOL"))
      (get (text "REINK_SNMP_AUTH_PASSWORD")) (get (text "REINK_SNMP_PRIVACY_PROTOCOL"))
      (get (text "REINK_SNMP_PRIVACY_PASSWORD"))

unfoldable pub config_of_version :
    (List ℕ → Option (List ℕ)) → SnmpEndpoint → SnmpVersion → Loaded SnmpConfig
unfolding required_environment new_config v3_credentials
config_of_version get endpoint v1 =
    required_environment get (text "REINK_SNMP_COMMUNITY") >>= λ name. config_v1 endpoint name
config_of_version get endpoint v2c =
    required_environment get (text "REINK_SNMP_COMMUNITY") >>= λ name. config_v2c endpoint name
config_of_version get endpoint v3 = do
  username ← required_environment get (text "REINK_SNMP_USERNAME")
  credentials ← environment_credentials get username
  config_v3 endpoint credentials

unfoldable pub from_environment : (List ℕ → Option (List ℕ)) → Loaded SnmpConfig
unfolding required_environment optional_environment_u16 optional_environment_u64 parse_version
    new_endpoint config_of_version
from_environment get = do
  host ← required_environment get (text "REINK_SNMP_HOST")
  port ← optional_environment_u16 get (text "REINK_SNMP_PORT") 161
  version_text ← required_environment get (text "REINK_SNMP_VERSION")
  version ← from_result (parse_version version_text)
  endpoint ← from_result (new_endpoint host port)
  timeout_seconds ← optional_environment_u64 get (text "REINK_SNMP_TIMEOUT_SECONDS") 2
  config ← config_of_version get endpoint version
  ok (with_timeout config timeout_seconds)
