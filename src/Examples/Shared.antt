-- ===== src/Examples/Shared.antt =====
-- The theorems about the configuration of the controller, with one OIDC client and a TCP proxy.
use s_ingress.Common.Int.{pos}
use s_ingress.Common.Net.{v4}
use s_ingress.Common.Texts.{codes}
use s_ingress.Common.{List, [], false, none, ok, some, true, ◌↔◌, ◌∷◌, ◌≡◌}
use s_ingress.Config.Parse.{RawConf}
use s_ingress.Controller.Converter.{Cluster}
use s_ingress.Controller.Reconcile.{ControllerEnvConf, IngressController, new_proxy_controller}
use s_ingress.Controller.Shared.Endpoint.{IsEndpoint, get_service_addr_port_iff}
use s_ingress.Controller.Shared.Stages.{
  Reconfigures, reconfigure_controller_common_config-Reconfigures,
}
use s_ingress.Controller.Shared.{
  Sources, get_service_addr_port, reconfigure_controller_common_config,
}
use s_ingress.Examples.Queues.{front, serving_cluster}
use s_ingress.Examples.Samples.{strict_services}
use s_ingress.Kubernetes.{NamespacedName}
use s_ingress.Modules.Creators.{ModuleLibrary, OidcClient}
use s_ingress.Modules.Instances.{
  ModuleInstance, basic_auth_module, custom_header_module, deny_route_module, enforce_https_module,
  ip_auth_module, oidc_module, subrequest_auth_module, upstream_header_module, websocket_module,
}
use s_ingress.Proxy.Closures.{ClientConfig}

abbrev pub login_client : OidcClient
login_client = record {
  issuer_url = codes "https://id.example";
  callback_domain = codes "login.example";
  cookie_domain = codes "example";
  client_secret_name = codes "oidc";
  auth_expiration = [];
}

abbrev pub login_library : ModuleLibrary
login_library = record {
  decode_security = λ t. some true;
  decode_auth = λ t. some [];
  decode_oidc = λ t. some ((codes "main", login_client) ∷ []);
  provider_is_found = λ t. true;
  encrypter_is_valid = λ t. true;
  parse_duration = λ t. some (pos 0);
  sha256 = λ t. t;
}

abbrev login_cluster : Cluster
login_cluster = record serving_cluster {
  get_secret = λ n. some ((codes "JWT_SECRET", codes "s") ∷ []);
}

abbrev login_conf : RawConf
login_conf = record {
  upstream_service_name = none;
  disable_status_update = false;
  tcp_proxy =
      record {
        service_name = codes "front";
        service_namespace = codes "web";
        service_port_name = codes "http";
        port = pos 25;
      }
      ∷ [];
  default_tls_secret = [];
  proxy_conf = record { max_body_size = []; trusted_proxies = []; error_page = codes "p" };
  module_configs = (codes "oidc", codes "o") ∷ [];
}

abbrev pub login_sources : Sources
login_sources = record {
  services = strict_services;
  cluster = login_cluster;
  get_config_map = λ n. some ((codes "config.yaml", codes "y") ∷ []);
  config_library = record {
    decode = λ t c. some login_conf;
    parse_prefix = λ t. none;
    template_is_valid = λ t. true;
    default_error_page = [];
    default_config = [];
  };
  module_library = login_library;
}

abbrev pub environment : ControllerEnvConf
environment = record {
  namespace = codes "ingress";
  controller_name = codes "s-ingress";
  controller_config_map = record { namespace = codes "ingress"; name = codes "conf" };
}

abbrev pub oidc_secret : NamespacedName
oidc_secret = record { namespace = codes "ingress"; name = codes "oidc" }

abbrev made_client : ClientConfig
made_client = record {
  name = codes "main";
  callback_domain = codes "login.example";
  cookie_domain = codes "example";
  expiration = pos 0;
  encryption_key = codes "s";
}

abbrev pub login_modules : List ModuleInstance
login_modules =
    enforce_https_module false
    ∷ ip_auth_module
    ∷ basic_auth_module
    ∷ subrequest_auth_module []
    ∷ oidc_module ((codes "main", made_client) ∷ []) ((codes "login.example", made_client) ∷ [])
    ∷ deny_route_module
    ∷ websocket_module
    ∷ custom_header_module
    ∷ upstream_header_module
    ∷ []

abbrev pub fresh_controller : IngressController
fresh_controller = new_proxy_controller environment

reconfigure_controller_common_config-Reconfigures_example :
    Reconfigures login_sources fresh_controller
      (reconfigure_controller_common_config login_sources fresh_controller)
reconfigure_controller_common_config-Reconfigures_example =
    reconfigure_controller_common_config-Reconfigures login_sources fresh_controller

get_service_addr_port_iff_example :
    (get_service_addr_port login_cluster front (codes "http")
      ≡ ok (record { addr = v4 0x0A010001; port = 8080 }))
    ↔ IsEndpoint login_cluster front (codes "http") (record { addr = v4 0x0A010001; port = 8080 })
get_service_addr_port_iff_example =
    get_service_addr_port_iff login_cluster front (codes "http")
      (record { addr = v4 0x0A010001; port = 8080 })
