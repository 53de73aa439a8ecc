-- ===== src/Examples/Objects.antt =====
-- The theorems about the controller at an ingress "web/site" of the class "ours".
use s_ingress.Common.Int.{pos}
use s_ingress.Common.Net.{v4}
use s_ingress.Common.Texts.{codes, split, text_eq, trim_space}
use s_ingress.Common.{In, [], false, here, none, refl, some, true, ◌↔◌, ◌∷◌, ◌≡◌}
use s_ingress.Config.Parse.{ControllerConf}
use s_ingress.Controller.Classes.{remove_ingress_class-quiet, taken}
use s_ingress.Controller.Converter.{get_middlewares}
use s_ingress.Controller.Guarding.{proxy_route-configured}
use s_ingress.Controller.Keyed.{IsKeyed, insert-IsKeyed, reconcile_named-IsKeyed}
use s_ingress.Controller.Merging.{IsProvided, routes_at}
use s_ingress.Controller.Provenance.{get_proxy_config-routes}
use s_ingress.Controller.ProxyConfig.{
  get_connection_modules, get_proxy_config, merge_certificates, merge_entries, merge_entry,
  merge_hosts, merge_routes,
}
use s_ingress.Controller.Reconcile.{IngressController, reconcile_named, remove_ingress_class}
use s_ingress.Controller.State.{IngressConfiguration, IngressEntry, K8sState}
use s_ingress.Examples.Samples.{context, empty_cluster, no_network, root, route_to, strict_services}
use s_ingress.Kubernetes.{Ingress, IngressClass, NamespacedName, PathTypeName}
use s_ingress.Modules.Auth.{basic_auth_middleware, ip_auth_middleware, subrequest_auth_middleware}
use s_ingress.Modules.Contacts.{contacts}
use s_ingress.Modules.CustomHeaders.{custom_header_middleware, upstream_header_middleware}
use s_ingress.Modules.Instances.{
  all_modules, enforce_https_module, ingress_middleware, request_middleware, run_middleware,
}
use s_ingress.Modules.Oidc.Middleware.{oidc_ingress_middleware}
use s_ingress.Modules.Security.{deny_route_middleware, enforce_https_ingress_middleware}
use s_ingress.Proxy.Closures.{MiddlewareFunc, ip_auth, websocket}
use s_ingress.Proxy.Routing.Order.{IsOrdered}
use s_ingress.Proxy.Routing.{RouteConfig, RoutingConfig, add_route, insert_prefix, path_type_prefix}
use s_ingress.Proxy.Serve.{proxy_route, with_route}

abbrev pub site : NamespacedName
site = record { namespace = codes "web"; name = codes "site" }

abbrev pub site_ingress : Ingress
site_ingress = record {
  namespace = codes "web";
  name = codes "site";
  annotations = (codes "s-ingress.oidq.dev/allow-ip", codes "192.0.2.0/24") ∷ [];
  ingress_class_name = some (codes "ours");
  rules =
      record {
        host = codes "a.example";
        http_paths = some (
            record {
              path = codes "/";
              path_type = some PathTypeName.prefix;
              service =
                  some (record { name = codes "front"; port_name = codes "http"; port_number = 0 });
            }
            ∷ []);
      }
      ∷ [];
  tls = [];
  load_balancer = none;
}

abbrev pub site_entry : IngressEntry
site_entry = record {
  ingress = site_ingress;
  configuration = some (record {
    used_secrets = [];
    used_config_maps = [];
    used_services = record { namespace = codes "web"; name = codes "front" } ∷ [];
    hosts = (codes "a.example", record { routes = root ∷ [] }) ∷ [];
    tls_certificates = [];
  });
}

abbrev pub conf : ControllerConf
conf = record {
  upstream_service_name = none;
  disable_status_update = false;
  tcp_proxy = [];
  default_tls_secret = [];
  general_proxy = record { trusted_proxies = []; error_page = none };
  ingress_proxy = record { max_body_size = pos 1000 };
  modules = enforce_https_module false ∷ [];
  module_configs = [];
  used_secrets = [];
}

abbrev ours : IngressClass
ours = record { name = codes "ours"; controller = codes "s-ingress" }

abbrev pub state : K8sState
state = record {
  config = some conf;
  controller_name = codes "s-ingress";
  controller_classes = (codes "ours", ours) ∷ [];
  ingresses = (site, site_entry) ∷ [];
  tcp_proxies = [];
  ingress_load_balancer_status = none;
  default_tls_secret = none;
}

abbrev controller_at : K8sState → IngressController
controller_at s = record {
  k8s_state = s;
  reconfigure_requested = true;
  reconcile_common_requested = false;
  env_config = record {
    namespace = codes "ingress";
    controller_name = codes "s-ingress";
    controller_config_map = record { namespace = codes "ingress"; name = codes "conf" };
  };
}

abbrev pub merged_config : RoutingConfig
merged_config = record {
  hosts = (codes "a.example", record { routes = root ∷ [] }) ∷ [];
  tls_certificates = [];
  default_tls_certificate = none;
  tcp_proxy = [];
  request_middlewares = [];
  trusted_proxies = [];
  error_page = none;
}

get_proxy_config-routes_example :
    ((r : RouteConfig)
      → In r (routes_at (codes "a.example") merged_config.hosts)
        ↔ IsProvided r (codes "a.example") state.ingresses)
    × IsOrdered (routes_at (codes "a.example") merged_config.hosts)
unfolding get_proxy_config merge_entries merge_entry merge_hosts merge_routes merge_certificates
    get_connection_modules request_middleware add_route insert_prefix s_ingress.Common.lookup
    s_ingress.Common.insert
get_proxy_config-routes_example =
    get_proxy_config-routes state merged_config refl (codes "a.example")

abbrev allow_list : MiddlewareFunc
allow_list = ip_auth (record { addr = v4 0xC0000200; bits = 24 } ∷ [])

abbrev site_route : RouteConfig
site_route = route_to path_type_prefix (codes "/") (allow_list ∷ websocket ∷ [])

abbrev no_configuration : IngressConfiguration
no_configuration = record {
  used_secrets = [];
  used_config_maps = [];
  used_services = [];
  hosts = [];
  tls_certificates = [];
}

proxy_route-configured_example :
    contacts
      (proxy_route no_network
        (run_middleware strict_services no_network)
        site_route
        context).1.calls
    ≡ 0
unfolding all_modules get_middlewares ingress_middleware s_ingress.Common.lookup text_eq
    enforce_https_ingress_middleware ip_auth_middleware basic_auth_middleware
    subrequest_auth_middleware oidc_ingress_middleware deny_route_middleware
    custom_header_middleware upstream_header_middleware with_route
    s_ingress.Common.Net.prefix_contains split trim_space
proxy_route-configured_example =
    proxy_route-configured strict_services empty_cluster no_network false [] [] [] site_ingress
      no_configuration (allow_list ∷ websocket ∷ [], no_configuration) site_route allow_list context
      refl refl here refl

reconcile_named-IsKeyed_example :
    IsKeyed
      (reconcile_named strict_services empty_cluster
        (controller_at state)
        site
        none).controller.k8s_state.ingresses
unfolding s_ingress.Common.insert s_ingress.Common.lookup
reconcile_named-IsKeyed_example =
    reconcile_named-IsKeyed strict_services empty_cluster (controller_at state) site none
      (insert-IsKeyed site_entry [] (λ k e l. cc))

remove_ingress_class-quiet_example :
    (reconcile_named strict_services empty_cluster
      (taken (remove_ingress_class (controller_at state) (codes "ours")))
      site
      (some site_ingress)).controller.reconfigure_requested
    ≡ false
unfolding s_ingress.Common.lookup text_eq
remove_ingress_class-quiet_example =
    remove_ingress_class-quiet strict_services empty_cluster (controller_at state) (codes "ours")
      ours site_entry site_ingress refl refl refl refl
