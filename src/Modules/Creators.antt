-- ===== src/Modules/Creators.antt =====
-- The creators of the module instances: pkg/config/config.go, modules/modules.go and the function
-- named `Module...` of each module.
pub mod Clients
pub mod Complete
pub mod Made
use s_ingress.Common.Int.{ℤ}
use s_ingress.Common.Texts.{Text, codes, text_eq, text_keys}
use s_ingress.Common.{
  Bool, List, Map, Option, [], false, if◌then◌else◌, insert, lookup, none, not, some, ◌++◌, ◌∷◌,
}
use s_ingress.Controller.Certificates.{entry_or_nil}
use s_ingress.Kubernetes.{NamespacedName, Secret, name_keys}
use s_ingress.Modules.Auth.{ForwardAuthConfig}
use s_ingress.Modules.Instances.{
  ModuleInstance, basic_auth_module, custom_header_module, deny_route_module, enforce_https_module,
  ip_auth_module, oidc_module, subrequest_auth_module, upstream_header_module, websocket_module,
}
use s_ingress.Proxy.Closures.{ClientConfig}

-- modules/oidc/module.go, `ClientConfig`
pub record OidcClient : Type 0 where
  pub issuer_url : Text
  pub callback_domain : Text
  pub cookie_domain : Text
  pub client_secret_name : Text
  pub auth_expiration : Text

-- The YAML decoder on each kind of module configuration, and the libraries that a client of the
-- OIDC module needs. A provider is found by its URL, or the process ends.
pub record ModuleLibrary : Type 0 where
  pub decode_security : Text → Option Bool
  pub decode_auth : Text → Option (Map Text ForwardAuthConfig)
  pub decode_oidc : Text → Option (Map Text OidcClient)
  pub provider_is_found : Text → Bool
  pub encrypter_is_valid : Text → Bool
  pub parse_duration : Text → Option ℤ
  pub sha256 : Text → Text

-- The interface `ModuleReconciler`.
pub record ModuleReconciler : Type 0 where
  pub read_secret : NamespacedName → Option Secret
  pub namespace : Text

-- What a creator comes to: its result with the secrets that the reconciler remembers, an error, or
-- the end of the process by `log.Fatal`.
pub data Creation {ℓ} (A : Type ℓ) : Type ℓ where
  created : A → List NamespacedName → Creation A
  not_created : Text → Creation A
  process_ended : Creation A

-- A part of a creator, on the secrets that are remembered so far.
abbrev pub Creator {ℓ} : Type ℓ → Type ℓ
Creator A = List NamespacedName → Creation A

abbrev pub returning {ℓ} : {A : Type ℓ} → A → Creator A
returning a used_secrets = created a used_secrets

abbrev pub failing {ℓ} : {A : Type ℓ} → Text → Creator A
failing e used_secrets = not_created e

abbrev pub continue {ℓ κ} : {A : Type ℓ} {B : Type κ} → (A → Creator B) → Creation A → Creation B
continue f (created a used_secrets) = f a used_secrets
continue f (not_created e) = not_created e
continue f process_ended = process_ended

abbrev pub and_then {ℓ κ} : {A : Type ℓ} {B : Type κ} → Creator A → (A → Creator B) → Creator B
and_then m f used_secrets = continue f (m used_secrets)

-- `GetModuleConf`: a missing part of the configuration leaves the default.
unfoldable pub get_module_conf {ℓ} :
    {A : Type ℓ} → Map Text Text → Text → (Text → Option A) → A → Option A
get_module_conf module_configs name decode_f default_value = elim (lookup name module_configs) [
  | none ↦ some default_value
  | some conf ↦ decode_f conf
]

abbrev pub decoding {ℓ} : {A : Type ℓ} → Option A → Creator A
decoding none = failing (codes "error decoding module config")
decoding (some a) = returning a

-- `defaultStr`
abbrev pub default_str : Text → Text → Text
default_str val default = if text_eq val [] then default else val

module _ (library : ModuleLibrary) (reconciler : ModuleReconciler) where
  open library use {
    decode_security, decode_auth, decode_oidc, provider_is_found, encrypter_is_valid,
    parse_duration, sha256,
  }

  -- `GetSecret` of the module reconciler: only a secret that was read is remembered.
  unfoldable pub get_secret_remembered : NamespacedName → Creator Secret
  get_secret_remembered name used_secrets = elim (reconciler.read_secret name) [
    | none ↦ not_created (codes "error getting secret")
    | some secret ↦ created secret (used_secrets ++ name ∷ [])
  ]

  abbrev pub client_of : Text → OidcClient → Text → Option ℤ → Creator ClientConfig
  client_of name conf key none = failing (codes "error parsing auth expiration")
  client_of name conf key (some expiration) = returning (record {
    name = name;
    callback_domain = conf.callback_domain;
    cookie_domain = conf.cookie_domain;
    expiration = expiration;
    encryption_key = key;
  })

  abbrev pub client_with_key : Text → OidcClient → Text → Creator ClientConfig
  client_with_key name conf key =
      if not (provider_is_found conf.issuer_url)
      then (λ used_secrets. process_ended)
      else if not (encrypter_is_valid key)
      then failing (codes "error creating encrypter")
      else client_of name conf key (parse_duration (default_str conf.auth_expiration (codes "0")))

  -- `getClientConfig`
  unfoldable pub get_client_config : Text → OidcClient → Creator ClientConfig
  unfolding get_secret_remembered
  get_client_config name conf =
      and_then
        (get_secret_remembered
          (record { namespace = reconciler.namespace; name = conf.client_secret_name }))
        (λ secret.
          let jwt_secret = entry_or_nil (codes "JWT_SECRET") secret in
          if text_eq jwt_secret []
          then failing (codes "missing JWT_SECRET")
          else client_with_key name conf (sha256 jwt_secret))

  abbrev pub ClientMaps : Type 0
  ClientMaps = Map Text ClientConfig × Map Text ClientConfig

  -- The loop of `ModuleOidc` over the clients.
  unfoldable pub create_clients : Map Text OidcClient → ClientMaps → Creator ClientMaps
  unfolding get_client_config
  create_clients [] maps = returning maps
  create_clients ((name, conf) ∷ more) (clients, domains) =
      and_then (get_client_config name conf)
        (λ c. create_clients more (insert name c clients, insert c.callback_domain c domains))

  -- `ModuleOidc`
  unfoldable pub create_oidc : Map Text Text → Creator ModuleInstance
  unfolding create_clients get_module_conf
  create_oidc module_configs =
      and_then (decoding (get_module_conf module_configs (codes "oidc") decode_oidc [])) (λ raw.
        and_then (create_clients raw ([], []))
          (λ (clients, domains). returning (oidc_module clients domains)))

  -- `ModuleEnforceHttps`
  unfoldable pub create_enforce_https : Map Text Text → Creator ModuleInstance
  unfolding get_module_conf
  create_enforce_https module_configs =
      and_then (decoding (get_module_conf module_configs (codes "security") decode_security false))
        (λ default_enforce_https. returning (enforce_https_module default_enforce_https))

  -- `ModuleSubrequestAuth`
  unfoldable pub create_subrequest_auth : Map Text Text → Creator ModuleInstance
  unfolding get_module_conf
  create_subrequest_auth module_configs =
      and_then (decoding (get_module_conf module_configs (codes "auth") decode_auth []))
        (λ configs. returning (subrequest_auth_module configs))

  -- A creator that neither reads its configuration nor fails.
  abbrev pub plain_creator : ModuleInstance → Map Text Text → Creator ModuleInstance
  plain_creator m module_configs = returning m

  -- The list `Modules`.
  unfoldable pub module_creators : List (Map Text Text → Creator ModuleInstance)
  module_creators =
      create_enforce_https
      ∷ plain_creator ip_auth_module
      ∷ plain_creator basic_auth_module
      ∷ create_subrequest_auth
      ∷ create_oidc
      ∷ plain_creator deny_route_module
      ∷ plain_creator websocket_module
      ∷ plain_creator custom_header_module
      ∷ plain_creator upstream_header_module
      ∷ []

  -- The loop of `getControllerConfig` over the creators.
  unfoldable pub create_all :
      List (Map Text Text → Creator ModuleInstance) → Map Text Text → Creator (List ModuleInstance)
  create_all [] module_configs = returning []
  create_all (creator ∷ creators) module_configs =
      and_then (creator module_configs)
        (λ m. and_then (create_all creators module_configs) (λ ms. returning (m ∷ ms)))
