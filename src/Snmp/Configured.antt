-- ===== src/Snmp/Configured.antt =====
-- crates/reink-snmp/src/lib.rs: the configurations that the environment can give.
use reink_rust.Snmp.Defs.{
  v3, v2c, v1, SnmpVersion, compatible, new_config, SnmpConfig, ConfigError, new_endpoint,
  SnmpEndpoint,
}
use reink_rust.Base.Text.{text, is_empty}
use reink_rust.Base.Dict.{get}
use reink_rust.Base.Split.{trim}
use reink_rust.Base.{
  [], none, some, sym, ◌∷◌, List, Option, Result, arith, false, ok-injective, refl, refuse-ok,
  subst, true, ◌<◌, ◌==◌, ◌≡◌, ◌≢◌, ℕ,
}
use reink_rust.Base.Digits.{parse_u64, parse_u16, parse_u16-lt}
use reink_rust.Snmp.Environment.{
  environment_credentials, config_v3, ◌>>=◌, parse_privacy_protocol, optional_environment_u64,
  parse_version, parse_auth_protocol, optional_environment_u16, from_result, from_environment,
  config_of_version, filled, u64_or, v3_credentials, parsed_or_invalid, u16_or,
  required_environment, Loaded, ok, err, panicked,
}

-- No panic, and what is loaded has the property.
abbrev pub Loads : {A : Type 0} → (A → Type 0) → Loaded A → Type 0
Loads P (ok a) = P a
Loads P (err e) = Unit
Loads P panicked = ⊥

abbrev pub IsEndpoint : SnmpEndpoint → Type 0
IsEndpoint endpoint =
    (is_empty (trim endpoint.host) ≡ false) × (endpoint.port ≢ 0) × (endpoint.port < 0x10000)

abbrev pub IsConfig : SnmpConfig → Type 0
IsConfig config =
    IsEndpoint config.endpoint × (compatible config.version config.authentication ≡ true)

Loads-bind :
    {A B : Type 0} (P : A → Type 0) (Q : B → Type 0) (m : Loaded A) (f : A → Loaded B)
    → Loads P m
    → ((a : A) → P a → Loads Q (f a))
    → Loads Q (m >>= f)
Loads-bind P Q (ok a) f h k = k a h
Loads-bind P Q (err e) f h k = tt
Loads-bind P Q panicked f h k = absurd h

Loads-from_result :
    {A : Type 0} (P : A → Type 0) (r : Result ConfigError A)
    → ((a : A) → r ≡ Result.ok a → P a)
    → Loads P (from_result r)
Loads-from_result P (Result.ok a) h = h a refl
Loads-from_result P (Result.err e) h = tt

abbrev Any : {A : Type 0} → A → Type 0
Any a = Unit

filled-Loads : (variable : List ℕ) (value : Option (List ℕ)) → Loads Any (filled variable value)
filled-Loads variable none = tt
filled-Loads variable (some []) = tt
filled-Loads variable (some (b ∷ bs)) = tt

required_environment-Loads :
    (get : List ℕ → Option (List ℕ)) (variable : List ℕ)
    → Loads Any (required_environment get variable)
unfolding required_environment
required_environment-Loads get variable = filled-Loads variable (get variable)

parsed_or_invalid-Loads :
    (P : ℕ → Type 0) (variable : List ℕ) (value : Option ℕ)
    → ((n : ℕ) → value ≡ some n → P n)
    → Loads P (parsed_or_invalid variable value)
parsed_or_invalid-Loads P variable none h = tt
parsed_or_invalid-Loads P variable (some n) h = h n refl

u16_or-Loads :
    (variable : List ℕ) (default : ℕ) (value : Option (List ℕ))
    → default < 0x10000
    → Loads (λ n. n < 0x10000) (u16_or variable default value)
u16_or-Loads variable default none h = h
u16_or-Loads variable default (some value) h =
    parsed_or_invalid-Loads (λ n. n < 0x10000) variable (parse_u16 value) (parse_u16-lt value)

u64_or-Loads :
    (variable : List ℕ) (default : ℕ) (value : Option (List ℕ))
    → Loads Any (u64_or variable default value)
u64_or-Loads variable default none = tt
u64_or-Loads variable default (some value) =
    parsed_or_invalid-Loads Any variable (parse_u64 value) (λ n eq. tt)

v3_credentials-Loads :
    (username : List ℕ) (protocol password privacy secret : Option (List ℕ))
    → Loads Any (v3_credentials username protocol password privacy secret)
unfolding v3_credentials
v3_credentials-Loads username none none none none = tt
v3_credentials-Loads username (some a) (some b) none none =
    Loads-bind Any Any (from_result (parse_auth_protocol a)) _ (Loads-from_result Any _ (λ _ _. tt))
      (λ _ _. tt)
v3_credentials-Loads username (some a) (some b) (some c) (some d) =
    Loads-bind Any Any (from_result (parse_auth_protocol a)) _ (Loads-from_result Any _ (λ _ _. tt))
      (λ _ _.
        Loads-bind Any Any (from_result (parse_privacy_protocol c)) _
          (Loads-from_result Any _ (λ _ _. tt)) (λ _ _. tt))
v3_credentials-Loads username _ _ _ _ = tt

new_endpoint-IsEndpoint :
    (host : List ℕ) (port : ℕ) (endpoint : SnmpEndpoint)
    → port < 0x10000
    → new_endpoint host port ≡ Result.ok endpoint
    → IsEndpoint endpoint
unfolding new_endpoint
new_endpoint-IsEndpoint host port endpoint small eq =
    let (filled, eq1) = refuse-ok (is_empty (trim host)) _ _ endpoint eq in
    let (nonzero, eq2) = refuse-ok (port == 0) _ _ endpoint eq1 in
    subst IsEndpoint (ok-injective eq2) (filled, ground arith, small)

abbrev Matches : SnmpEndpoint → SnmpConfig → Type 0
Matches endpoint config =
    (config.endpoint ≡ endpoint) × (compatible config.version config.authentication ≡ true)

config_of_version-Loads :
    (get : List ℕ → Option (List ℕ)) (endpoint : SnmpEndpoint) (version : SnmpVersion)
    → Loads (Matches endpoint) (config_of_version get endpoint version)
unfolding config_of_version new_config
config_of_version-Loads get endpoint v1 =
    Loads-bind Any (Matches endpoint) (required_environment get (text "REINK_SNMP_COMMUNITY")) _
      (required_environment-Loads get (text "REINK_SNMP_COMMUNITY")) (λ _ _. (refl, refl))
config_of_version-Loads get endpoint v2c =
    Loads-bind Any (Matches endpoint) (required_environment get (text "REINK_SNMP_COMMUNITY")) _
      (required_environment-Loads get (text "REINK_SNMP_COMMUNITY")) (λ _ _. (refl, refl))
config_of_version-Loads get endpoint v3 =
    Loads-bind Any (Matches endpoint) (required_environment get (text "REINK_SNMP_USERNAME")) _
      (required_environment-Loads get (text "REINK_SNMP_USERNAME"))
      (λ username _.
        Loads-bind Any (Matches endpoint) (environment_credentials get username)
          (λ c. config_v3 endpoint c)
          (v3_credentials-Loads username (get (text "REINK_SNMP_AUTH_PROTOCOL"))
            (get (text "REINK_SNMP_AUTH_PASSWORD")) (get (text "REINK_SNMP_PRIVACY_PROTOCOL"))
            (get (text "REINK_SNMP_PRIVACY_PASSWORD")))
          (λ _ _. (refl, refl)))

-- Whatever the environment holds, loading the configuration never panics at its expectations, and a
-- configuration that is loaded has a host that is not blank, a port from 1 to 65535, and credentials of
-- the kind that its version takes.
pub from_environment-IsConfig :
    (get : List ℕ → Option (List ℕ)) → Loads IsConfig (from_environment get)
unfolding from_environment
from_environment-IsConfig get =
    Loads-bind Any IsConfig (required_environment get (text "REINK_SNMP_HOST")) _
      (required_environment-Loads get (text "REINK_SNMP_HOST"))
      (λ host _.
        Loads-bind (λ n. n < 0x10000) IsConfig
          (optional_environment_u16 get (text "REINK_SNMP_PORT") 161) _
          (u16_or-Loads (text "REINK_SNMP_PORT") 161 (get (text "REINK_SNMP_PORT")) (omega arith))
          (λ port small.
            Loads-bind Any IsConfig (required_environment get (text "REINK_SNMP_VERSION")) _
              (required_environment-Loads get (text "REINK_SNMP_VERSION"))
              (λ version_text _.
                Loads-bind Any IsConfig (from_result (parse_version version_text)) _
                  (Loads-from_result Any (parse_version version_text) (λ _ _. tt))
                  (λ version _.
                    Loads-bind IsEndpoint IsConfig (from_result (new_endpoint host port)) _
                      (Loads-from_result IsEndpoint (new_endpoint host port)
                        (λ e eq. new_endpoint-IsEndpoint host port e small eq))
                      (λ endpoint good.
                        Loads-bind Any IsConfig
                          (optional_environment_u64 get (text "REINK_SNMP_TIMEOUT_SECONDS") 2) _
                          (u64_or-Loads (text "REINK_SNMP_TIMEOUT_SECONDS") 2
                            (get (text "REINK_SNMP_TIMEOUT_SECONDS")))
                          (λ seconds _.
                            Loads-bind (Matches endpoint) IsConfig
                              (config_of_version get endpoint version) _
                              (config_of_version-Loads get endpoint version)
                              (λ config m. (subst IsEndpoint (sym m.0) good, m.1))))))))
