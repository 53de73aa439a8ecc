-- ===== src/Examples/Queues.antt =====
-- The theorems about the services and the queue at the ingress "web/site".
use s_ingress.Common.Int.{pos}
use s_ingress.Common.Net.{v4}
use s_ingress.Common.Texts.{codes, text_eq}
use s_ingress.Common.{In, [], here, none, refl, some, ◌∷◌}
use s_ingress.Controller.Certificates.{process_ingress_tls}
use s_ingress.Controller.Converter.{
  Cluster, add_path, add_paths, add_rules, get_http_proxy_config, get_middlewares, make_route,
  map_path_type, parse_annotation, select_port,
}
use s_ingress.Controller.Reconcile.{after_rules, ensure_active_ingress_status, reconcile_ingress}
use s_ingress.Controller.Remembered.{reconcile_ingress-used_services}
use s_ingress.Controller.State.{IngressConfiguration, K8sState}
use s_ingress.Examples.Objects.{conf, site_ingress, state}
use s_ingress.Examples.Samples.{strict_services}
use s_ingress.Kubernetes.{HttpIngressPath, Ingress, NamespacedName, PathTypeName, ServiceBackend}
use s_ingress.Proxy.Routing.{add_route, insert_prefix, path_type_prefix}

abbrev pub front : NamespacedName
front = record { namespace = codes "web"; name = codes "front" }

abbrev pub serving_cluster : Cluster
serving_cluster = record {
  get_service = λ n. some (record {
    cluster_ip = codes "10.1.0.1";
    ports = record { name = codes "http"; port = 8080 } ∷ [];
    load_balancer = [];
  });
  get_secret = λ n. none;
  parse_addr = λ t. some (v4 0x0A010001);
  x509_key_pair = λ a b. none;
}

abbrev pub plain_state : K8sState
plain_state = record state { config = some (record conf { modules = [] }) }

abbrev plain_ingress : Ingress
plain_ingress = record site_ingress { annotations = [] }

abbrev backend : ServiceBackend
backend = record { name = codes "front"; port_name = codes "http"; port_number = 0 }

abbrev site_path : HttpIngressPath
site_path = record {
  path = codes "/";
  path_type = some PathTypeName.prefix;
  service = some backend;
}

abbrev made_config : IngressConfiguration
made_config = record {
  used_secrets = [];
  used_config_maps = [];
  used_services = front ∷ [];
  hosts =
      (
        codes "a.example",
        record {
          routes =
              record {
                path = codes "/";
                path_type = path_type_prefix;
                endpoint = record { addr = v4 0x0A010001; port = 8080 };
                middlewares = [];
                http_proxy_config = record { max_body_size = pos 1000 };
                ingress_name = codes "web/site";
              }
              ∷ [];
        },
      )
      ∷ [];
  tls_certificates = [];
}

reconcile_ingress-used_services_example : In front made_config.used_services
unfolding reconcile_ingress after_rules add_rules add_paths add_path get_middlewares make_route
    select_port map_path_type get_http_proxy_config parse_annotation add_route insert_prefix
    s_ingress.Common.lookup s_ingress.Common.insert text_eq ensure_active_ingress_status
    process_ingress_tls
reconcile_ingress-used_services_example =
    reconcile_ingress-used_services strict_services serving_cluster plain_state plain_ingress
      made_config (record { host = codes "a.example"; http_paths = some (site_path ∷ []) })
      (site_path ∷ []) site_path backend refl here refl here refl
