-- ===== src/Examples/Loop.antt =====
-- The theorems about the loop of the controller, after the start with one OIDC client.
use s_ingress.Common.Int.{pos}
use s_ingress.Common.Net.{v4}
use s_ingress.Common.Texts.{codes, text_eq}
use s_ingress.Common.{All, In, [], false, here, none, refl, some, true, ◌↔◌, ◌∷◌, ◌≡◌, ◌≢◌}
use s_ingress.Config.Parse.{
  ControllerConf, parse_config, parse_general_proxy_conf, parse_proxy_ingress_conf,
  parse_tcp_proxy_conf, parse_trusted, parse_yaml_config,
}
use s_ingress.Controller.Loop.Keeps.{HasConfig}
use s_ingress.Controller.Loop.Sends.{IsSome, Reach-IsSome, Reach-progress}
use s_ingress.Controller.Loop.{LoopState, Reach, Step, initialized, reconfigure_taken, stepped}
use s_ingress.Controller.Reconcile.{IngressController, new_proxy_controller, request_reconfigure}
use s_ingress.Controller.Requeues.Handlers.{IsUpstream, requests_iff}
use s_ingress.Controller.Requeues.{IsUser}
use s_ingress.Controller.Shared.Secrets.{get_controller_config-watched}
use s_ingress.Controller.Shared.{
  find_port, get_controller_config, get_default_tls, get_service_addr_port,
  get_upstream_ip_addresses, make_tcp_proxies, reconfigure_controller_common_config, update_config,
  update_default_tls, update_tcp_proxy, update_upstream_ip_address,
}
use s_ingress.Controller.Watches.{
  get_ingress_reconciles_for_config_maps, get_ingress_reconciles_for_secrets,
  get_ingress_reconciles_for_services,
}
use s_ingress.Examples.Objects.{site, site_entry}
use s_ingress.Examples.Queues.{front, plain_state}
use s_ingress.Examples.Shared.{
  environment, fresh_controller, login_client, login_modules, login_sources, oidc_secret,
}
use s_ingress.Modules.Creators.{
  create_all, create_clients, create_enforce_https, create_oidc, create_subrequest_auth,
  get_client_config, get_module_conf, get_secret_remembered, module_creators,
}
use s_ingress.Proxy.Routing.{RoutingConfig}

abbrev loaded_conf : ControllerConf
loaded_conf = record {
  upstream_service_name = none;
  disable_status_update = false;
  tcp_proxy =
      record {
        port = pos 25;
        service = record { namespace = codes "web"; name = codes "front" };
        service_port_name = codes "http";
      }
      ∷ [];
  default_tls_secret = [];
  general_proxy = record { trusted_proxies = []; error_page = some (codes "p") };
  ingress_proxy = record { max_body_size = pos 4096 };
  modules = login_modules;
  module_configs = (codes "oidc", codes "o") ∷ [];
  used_secrets = oidc_secret ∷ [];
}

abbrev pub running_controller : IngressController
running_controller = record {
  k8s_state = record {
    config = some loaded_conf;
    controller_name = codes "s-ingress";
    controller_classes = [];
    ingresses = [];
    tcp_proxies =
        record {
          use_proxy_protocol = false;
          port = 25;
          endpoint_addr = record { addr = v4 0x0A010001; port = 8080 };
        }
        ∷ [];
    ingress_load_balancer_status = none;
    default_tls_secret = none;
  };
  reconfigure_requested = true;
  reconcile_common_requested = false;
  env_config = environment;
}

abbrev pub started : LoopState
started = record { controller = running_controller; sent = [] }

pub started-Reach : Reach login_sources started
unfolding reconfigure_controller_common_config update_config get_controller_config
    update_default_tls update_upstream_ip_address update_tcp_proxy get_default_tls make_tcp_proxies
    get_service_addr_port find_port get_upstream_ip_addresses request_reconfigure
    new_proxy_controller parse_yaml_config parse_config parse_general_proxy_conf parse_trusted
    parse_proxy_ingress_conf parse_tcp_proxy_conf create_all module_creators create_enforce_https
    create_subrequest_auth create_oidc create_clients get_client_config get_secret_remembered
    get_module_conf s_ingress.Common.lookup s_ingress.Common.insert text_eq
started-Reach = initialized fresh_controller refl

Reach-progress_example :
    (c : RoutingConfig) × Step login_sources started
      (record { controller = reconfigure_taken running_controller; sent = some c ∷ [] })
Reach-progress_example = Reach-progress login_sources started started-Reach refl

Reach-IsSome_example :
    HasConfig (reconfigure_taken running_controller)
    × All IsSome (some (Reach-progress login_sources started started-Reach refl).0 ∷ [])
Reach-IsSome_example =
    Reach-IsSome login_sources _
      (stepped started-Reach (Reach-progress login_sources started started-Reach refl).1)

get_controller_config-watched_example :
    (get_ingress_reconciles_for_secrets running_controller oidc_secret).0.reconcile_common_requested
    ≡ true
unfolding get_controller_config parse_yaml_config parse_config parse_general_proxy_conf
    parse_trusted parse_proxy_ingress_conf parse_tcp_proxy_conf create_all module_creators
    create_enforce_https create_subrequest_auth create_oidc create_clients get_client_config
    get_secret_remembered get_module_conf s_ingress.Common.lookup s_ingress.Common.insert text_eq
get_controller_config-watched_example =
    get_controller_config-watched login_sources running_controller loaded_conf (oidc_secret ∷ [])
      ((codes "main", login_client) ∷ []) (codes "main") login_client refl refl refl here

abbrev watching : IngressController
watching = record (new_proxy_controller environment) {
  k8s_state = record plain_state { ingresses = (site, site_entry) ∷ [] };
}

requests_iff_example :
    (In site (get_ingress_reconciles_for_secrets watching front).1
      ↔ IsUser (λ conf. conf.used_secrets) front site ((site, site_entry) ∷ []))
    × (In site (get_ingress_reconciles_for_config_maps watching front).1
        ↔ (front ≢ watching.env_config.controller_config_map)
          × IsUser (λ conf. conf.used_config_maps) front site ((site, site_entry) ∷ []))
    × (In site (get_ingress_reconciles_for_services watching front).1
        ↔ (¬ IsUpstream watching front)
          × IsUser (λ conf. conf.used_services) front site ((site, site_entry) ∷ []))
requests_iff_example = requests_iff watching front site
