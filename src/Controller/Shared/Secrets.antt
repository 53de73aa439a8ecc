-- ===== src/Controller/Shared/Secrets.antt =====
-- pkg/controller/config.go and reconcile.go: the modules and the secrets of a configuration, and
-- the watch that notices their changes.
use mathlib.Core.Path.{subst}
use s_ingress.Common.Texts.{Text, codes, text_keys}
use s_ingress.Common.{
  >>=-eq-ok, Bool, In, In-contains, List, Map, Option-cases, Result, [], ap, arith, contains, err,
  here, inl, inr, lookup, ok, ok-injective, refl, some, sym, there, true, ◌++◌, ◌∙◌, ◌∷◌, ◌≡◌,
}
use s_ingress.Config.Parse.{
  ConfError, ConfigLibrary, ControllerConf, decoded_unless_empty, empty_conf, parse_config,
  parse_general_proxy_conf, parse_proxy_ingress_conf, parse_yaml_config,
}
use s_ingress.Controller.Provenance.{some-injective}
use s_ingress.Controller.Reconcile.{ControllerEnvConf, IngressController, request_reconcile_common}
use s_ingress.Controller.Shared.{
  Sources, config_key, get_controller_config, module_reconciler, with_modules, with_parsed,
}
use s_ingress.Controller.Watches.{get_ingress_reconciles_for_secrets, shared_secret}
use s_ingress.Kubernetes.{NamespacedName, name_keys}
use s_ingress.Modules.Auth.{ForwardAuthConfig}
use s_ingress.Modules.Creators.Clients.{created-injective, secret_of, secrets_of}
use s_ingress.Modules.Creators.Complete.{create_all-modules}
use s_ingress.Modules.Creators.{
  Creation, ModuleLibrary, ModuleReconciler, OidcClient, created, get_module_conf, not_created,
  process_ended,
}
use s_ingress.Modules.Instances.{ModuleInstance, all_modules}
use s_ingress.Proxy.Closures.{ClientConfig}

parse_yaml_config-fresh :
    (library : ConfigLibrary) (bytes : Text) (conf : ControllerConf)
    → parse_yaml_config library bytes ≡ ok conf
    → conf.modules ≡ []
unfolding parse_yaml_config parse_config
parse_yaml_config-fresh library bytes conf e =
    let (raw, _, e1) = >>=-eq-ok (decoded_unless_empty library bytes empty_conf) _ e in
    let (general, _, e2) = >>=-eq-ok (parse_general_proxy_conf library raw.proxy_conf) _ e1 in
    let (ingress, _, e3) = >>=-eq-ok (parse_proxy_ingress_conf raw.proxy_conf) _ e2 in
    ap (λ c. c.modules) (sym (ok-injective e3))

module _ (sources : Sources) (env : ControllerEnvConf) where
  -- What a configuration that was made is made of.
  pub record IsLoaded (conf : ControllerConf) : Type 0 where
    pub enforce : Bool
    pub auth : Map Text ForwardAuthConfig
    pub clients : Map Text ClientConfig
    pub domains : Map Text ClientConfig
    pub raw : Map Text OidcClient
    pub loaded_modules : conf.modules ≡ all_modules enforce auth clients domains
    pub oidc_decoded :
        get_module_conf conf.module_configs (codes "oidc") sources.module_library.decode_oidc []
        ≡ some raw
    pub loaded_secrets :
        conf.used_secrets ≡ secrets_of sources.module_library (module_reconciler sources env) raw

  with_modules-created :
      (c : ControllerConf) (m : Creation (List ModuleInstance)) (conf : ControllerConf)
      (used : List NamespacedName)
      → with_modules sources c m ≡ created conf used
      → (ms : List ModuleInstance) × (m ≡ created ms used)
        × (record c { modules = c.modules ++ ms; used_secrets = used } ≡ conf)
  with_modules-created c (not_created e) conf used h = cc
  with_modules-created c process_ended conf used h = cc
  with_modules-created c (created ms u) conf used h =
      let (p, q) = created-injective h in (ms, ap (created ms) q, rw (sym q) p)

  with_parsed-IsLoaded :
      (r : Result ConfError ControllerConf) (conf : ControllerConf) (used : List NamespacedName)
      → ((c : ControllerConf) → r ≡ ok c → c.modules ≡ [])
      → with_parsed sources env r ≡ created conf used
      → IsLoaded conf
  with_parsed-IsLoaded (err e) conf used fresh h = cc
  with_parsed-IsLoaded (ok c) conf used fresh h =
      let (ms, all, same_conf) = with_modules-created c _ conf used h in
      let creates =
        create_all-modules sources.module_library (module_reconciler sources env) c.module_configs
          ms used all in
      let none_before : c.modules ≡ [] = fresh c refl in
      record {
        enforce = creates.enforce;
        auth = creates.auth;
        clients = creates.clients;
        domains = creates.domains;
        raw = creates.raw;
        loaded_modules =
            ap (λ x. x.modules) (sym same_conf) ∙ ap (λ x. x ++ ms) none_before ∙ creates.in_order;
        oidc_decoded =
            subst
              (λ x.
                get_module_conf x.module_configs (codes "oidc") sources.module_library.decode_oidc
                  []
                ≡ some creates.raw)
              same_conf creates.oidc_read;
        loaded_secrets = ap (λ x. x.used_secrets) (sym same_conf) ∙ creates.remembered;
      }

  pub get_controller_config-IsLoaded :
      (conf : ControllerConf) (used : List NamespacedName)
      → get_controller_config sources env ≡ created conf used
      → IsLoaded conf
  unfolding get_controller_config
  get_controller_config-IsLoaded conf used h =
      elim (Option-cases (sources.get_config_map env.controller_config_map)) [
        | inl e ↦
            let bad : not_created _ ≡ created conf used = rw (e, get_controller_config) at h in cc
        | inr (entries, e) ↦ elim (Option-cases (lookup config_key entries)) [
          | inl f ↦
              let bad : not_created _ ≡ created conf used = rw (e, get_controller_config, f) at h in
              cc
          | inr (bytes, f) ↦
              with_parsed-IsLoaded (parse_yaml_config sources.config_library bytes) conf used
                (parse_yaml_config-fresh sources.config_library bytes)
                (rw (e, get_controller_config, f) at h)
        ]
      ]

-- A secret that the configuration remembers.
watched :
    (ic : IngressController) (conf : ControllerConf) (n : NamespacedName)
    → ic.k8s_state.config ≡ some conf
    → contains conf.used_secrets n ≡ true
    → (get_ingress_reconciles_for_secrets ic n).0.reconcile_common_requested ≡ true
unfolding get_ingress_reconciles_for_secrets request_reconcile_common
watched ic conf n e h =
    let t : shared_secret ic n conf ≡ true = ground (arith, h) in
    rw (e, get_ingress_reconciles_for_secrets) (rw t refl)

secrets_of-In :
    (library : ModuleLibrary) (reconciler : ModuleReconciler) (name : Text) (client : OidcClient)
    (raw : Map Text OidcClient)
    → In (name, client) raw
    → In (secret_of library reconciler client) (secrets_of library reconciler raw)
secrets_of-In library reconciler name client [] m = elim m [ ]
secrets_of-In library reconciler name client (p ∷ raw) here = here
secrets_of-In library reconciler name client (p ∷ raw) (there m) =
    there (secrets_of-In library reconciler name client raw m)

-- While a configuration is in use, a change of the secret of any OIDC client that it names makes
-- the watch of the secrets request the shared resources anew.
pub get_controller_config-watched :
    (sources : Sources) (ic : IngressController) (conf : ControllerConf)
    (used : List NamespacedName) (raw : Map Text OidcClient) (name : Text) (client : OidcClient)
    → get_controller_config sources ic.env_config ≡ created conf used
    → ic.k8s_state.config ≡ some conf
    → get_module_conf conf.module_configs (codes "oidc") sources.module_library.decode_oidc []
      ≡ some raw
    → In (name, client) raw
    → (get_ingress_reconciles_for_secrets ic (record {
      namespace = ic.env_config.namespace;
      name = client.client_secret_name;
    })).0.reconcile_common_requested
      ≡ true
get_controller_config-watched sources ic conf used raw name client loaded stored read i =
    let l = get_controller_config-IsLoaded sources ic.env_config conf used loaded in
    let same_raw : l.raw ≡ raw = some-injective _ l.oidc_decoded read in
    let m =
      secrets_of-In sources.module_library (module_reconciler sources ic.env_config) name client raw
        i in
    watched ic conf _ stored (In-contains {K = NamespacedName} (rw (l.loaded_secrets, same_raw) m))
