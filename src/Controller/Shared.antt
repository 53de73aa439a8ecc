-- ===== src/Controller/Shared.antt =====
-- pkg/controller/config.go and the updates of converter.go, ingress.go and controller.go: what the
-- controller knows besides the ingresses and the classes.
pub mod Stages
pub mod Endpoint
pub mod Secrets
use s_ingress.Common.Int.{negsuc, pos, ℤ}
use s_ingress.Common.Net.{AddrPort}
use s_ingress.Common.Texts.{Text, codes, text_eq, text_keys}
use s_ingress.Common.{
  List, Map, Option, Result, [], err, false, if◌then◌else◌, lookup, none, ok, some, ℕ, ◌++◌, ◌-◌,
  ◌>>=◌, ◌^◌, ◌∷◌,
}
use s_ingress.Config.Parse.{
  ConfError, ConfigLibrary, ControllerConf, TcpProxyConf, parse_yaml_config,
}
use s_ingress.Controller.Certificates.{get_certificate_from_secret}
use s_ingress.Controller.Converter.{Cluster, Fails, or_fail, port_of, to_uint16}
use s_ingress.Controller.Reconcile.{
  ControllerEnvConf, IngressController, request_reconfigure, with_state,
}
use s_ingress.Kubernetes.{LoadBalancerIngress, NamespacedName, ServicePort, name_keys}
use s_ingress.Modules.Creators.{
  Creation, ModuleLibrary, ModuleReconciler, create_all, created, module_creators, not_created,
  process_ended,
}
use s_ingress.Modules.Instances.{ModuleInstance}
use s_ingress.Modules.Services.{Services}
use s_ingress.Proxy.Routing.{TcpProxyConfig}

-- What an update comes to: the controller after it, an error with the controller as it is then,
-- the end of the process, or a read of the configuration through a nil pointer.
pub data Update : Type 0 where
  updated : IngressController → Update
  not_updated : Text → IngressController → Update
  update_exits update_panics : Update

-- The error of an update gets a prefix, and what follows is left out.
abbrev pub then_update : Text → Update → (IngressController → Update) → Update
then_update prefix (updated ic) f = f ic
then_update prefix (not_updated e ic) f = not_updated (prefix ++ codes ": " ++ e) ic
then_update prefix update_exits f = update_exits
then_update prefix update_panics f = update_panics

-- The field of a config map that holds the configuration.
abbrev pub config_key : Text
config_key = codes "config.yaml"

-- The loop of `getServiceAddrPort` over the ports.
unfoldable pub find_port : Text → List ServicePort → Option ℕ
find_port port_name [] = none
find_port port_name (p ∷ ps) =
    let rest = find_port port_name ps in if text_eq p.name port_name then some p.port else rest

module _ (cluster : Cluster) where
  open cluster use {get_service, parse_addr}

  unfoldable pub get_service_addr_port : NamespacedName → Text → Fails AddrPort
  unfolding find_port
  get_service_addr_port service_name port_name = do
    service ← or_fail (get_service service_name) (codes "failed to get service")
    ip_net ← or_fail (parse_addr service.cluster_ip) (codes "failed to parse service ip")
    port ← or_fail (find_port port_name service.ports) (codes "failed to find port")
    ok (port_of ip_net port)

  -- `uint16` of an `int`.
  abbrev pub int_to_uint16 : ℤ → ℕ
  int_to_uint16 (pos n) = to_uint16 n
  int_to_uint16 (negsuc n) = 2 ^ 16 - 1 - to_uint16 n

  -- The loop of `updateTcpProxy`.
  unfoldable pub make_tcp_proxies : List TcpProxyConf → Fails (List TcpProxyConfig)
  unfolding get_service_addr_port
  make_tcp_proxies [] = ok []
  make_tcp_proxies (tcp ∷ more) =
      let rest = make_tcp_proxies more in
      get_service_addr_port tcp.service tcp.service_port_name >>= λ endpoint. rest >>= λ proxies.
      ok (
        record {
          use_proxy_protocol = false;
          port = int_to_uint16 tcp.port;
          endpoint_addr = endpoint;
        }
        ∷ proxies)

  -- `getUpstreamIpAddresses`: nil if no service is named, or if it cannot be read.
  unfoldable pub get_upstream_ip_addresses :
      Text → ControllerConf → Option (List LoadBalancerIngress)
  get_upstream_ip_addresses namespace conf = elim conf.upstream_service_name [
    | none ↦ none
    | some name ↦ elim (get_service (record { namespace = namespace; name = name })) [
      | none ↦ none
      | some service ↦ some service.load_balancer
    ]
  ]

  abbrev pub with_tcp_proxies : IngressController → Fails (List TcpProxyConfig) → Update
  with_tcp_proxies ic (err e) = not_updated e ic
  with_tcp_proxies ic (ok proxies) =
      updated (with_state ic (record ic.k8s_state { tcp_proxies = proxies }))

  unfoldable pub update_tcp_proxy : IngressController → Update
  unfolding make_tcp_proxies
  update_tcp_proxy ic = elim ic.k8s_state.config [
    | none ↦ update_panics
    | some conf ↦ with_tcp_proxies ic (make_tcp_proxies conf.tcp_proxy)
  ]

  unfoldable pub update_upstream_ip_address : IngressController → Update
  unfolding get_upstream_ip_addresses
  update_upstream_ip_address ic = elim ic.k8s_state.config [
    | none ↦ update_panics
    | some conf ↦ updated (
        with_state ic (record ic.k8s_state {
          ingress_load_balancer_status = get_upstream_ip_addresses ic.env_config.namespace conf;
        }))
  ]

-- All that the shared resources are made of: the API server, with its config maps, and the
-- libraries.
pub record Sources : Type 0 where
  pub services : Services
  pub cluster : Cluster
  pub get_config_map : NamespacedName → Option (Map Text Text)
  pub config_library : ConfigLibrary
  pub module_library : ModuleLibrary

module _ (sources : Sources) where
  open sources use {services, cluster, get_config_map, config_library, module_library}

  -- `getDefaultTls`
  unfoldable pub get_default_tls : Text → ControllerConf → Fails (Option Text)
  get_default_tls namespace conf =
      if text_eq conf.default_tls_secret []
      then ok none
      else get_certificate_from_secret services cluster
          (record { namespace = namespace; name = conf.default_tls_secret })
        >>= λ certificate. ok (some certificate)

  abbrev pub with_default_tls : IngressController → Fails (Option Text) → Update
  with_default_tls ic (err e) = not_updated e ic
  with_default_tls ic (ok cert) =
      updated (with_state ic (record ic.k8s_state { default_tls_secret = cert }))

  unfoldable pub update_default_tls : IngressController → Update
  unfolding get_default_tls
  update_default_tls ic = elim ic.k8s_state.config [
    | none ↦ update_panics
    | some conf ↦ with_default_tls ic (get_default_tls ic.env_config.namespace conf)
  ]

  -- `moduleReconciler`
  abbrev pub module_reconciler : ControllerEnvConf → ModuleReconciler
  module_reconciler env = record { read_secret = cluster.get_secret; namespace = env.namespace }

  abbrev pub with_modules :
      ControllerConf → Creation (List ModuleInstance) → Creation ControllerConf
  with_modules conf (not_created e) = not_created e
  with_modules conf process_ended = process_ended
  with_modules conf (created ms used) =
      created (record conf { modules = conf.modules ++ ms; used_secrets = used }) used

  abbrev pub with_parsed :
      ControllerEnvConf → Result ConfError ControllerConf → Creation ControllerConf
  with_parsed env (err e) = not_created (codes "error unmarshalling config.yaml")
  with_parsed env (ok conf) = with_modules conf (
      create_all module_library (module_reconciler env)
        (module_creators module_library (module_reconciler env)) conf.module_configs [])

  -- `getControllerConfig`
  unfoldable pub get_controller_config : ControllerEnvConf → Creation ControllerConf
  get_controller_config env = elim (get_config_map env.controller_config_map) [
    | none ↦ not_created (codes "error getting config-map")
    | some data_of ↦ elim (lookup config_key data_of) [
      | none ↦ not_created (codes "could not find config.yaml in controller config map")
      | some raw_conf ↦ with_parsed env (parse_yaml_config config_library raw_conf)
    ]
  ]

  abbrev pub with_config : IngressController → Creation ControllerConf → Update
  with_config ic (created conf used) =
      updated (with_state ic (record ic.k8s_state { config = some conf }))
  with_config ic (not_created e) = not_updated e ic
  with_config ic process_ended = update_exits

  unfoldable pub update_config : IngressController → Update
  unfolding get_controller_config
  update_config ic = with_config ic (get_controller_config ic.env_config)

  -- `reconfigureControllerCommonConfig`; `Init` is the same at the start.
  unfoldable pub reconfigure_controller_common_config : IngressController → Update
  unfolding update_config update_default_tls request_reconfigure
  reconfigure_controller_common_config ic =
      then_update (codes "update config") (update_config ic) (λ ic1.
        then_update (codes "update default TLS") (update_default_tls ic1) (λ ic2.
          then_update (codes "update upstream IP") (update_upstream_ip_address cluster ic2) (λ ic3.
            then_update (codes "update tcp proxies") (update_tcp_proxy cluster ic3)
              (λ ic4. updated (request_reconfigure ic4)))))
