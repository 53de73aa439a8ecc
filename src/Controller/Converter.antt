-- ===== src/Controller/Converter.antt =====
-- pkg/controller/converter.go: from an ingress to its routes and certificates, and from all
-- ingresses to the configuration of the proxy.
use s_ingress.Common.Net.{Addr, AddrPort}
use s_ingress.Common.Texts.{Text, codes, text_eq, text_keys}
use s_ingress.Common.{
  List, Option, Result, [], err, if◌then◌else◌, insert, lookup, nat_eq, none, ok, some, ℕ, ◌%◌,
  ◌++◌, ◌>>=◌, ◌^◌, ◌∷◌,
}
use s_ingress.Config.ByteSize.{parse_byte_size}
use s_ingress.Config.Parse.{ControllerConf, IngressProxyConf}
use s_ingress.Controller.State.{IngressConfiguration}
use s_ingress.Kubernetes.{
  HttpIngressPath, Ingress, IngressRule, NamespacedName, PathTypeName, Secret, Service,
  ServiceBackend, ServicePort, implementation_specific, name_keys, name_of, other_type,
}
use s_ingress.Modules.Instances.{ModuleInstance, ingress_middleware}
use s_ingress.Modules.Services.{Services}
use s_ingress.Proxy.Closures.{MiddlewareFunc}
use s_ingress.Proxy.Routing.{
  HostConfig, HttpProxyConfig, PathType, Returns, RouteConfig, add_route, empty_host, panic,
  path_type_exact, path_type_prefix, value,
}

-- The API server and the parsers. `none` stands for any error of a read.
pub record Cluster : Type 0 where
  pub get_service : NamespacedName → Option Service
  pub get_secret : NamespacedName → Option Secret
  pub parse_addr : Text → Option Addr
  pub x509_key_pair : Text → Text → Option Text

abbrev pub max_body_annotation : Text
max_body_annotation = codes "s-ingress.oidq.dev/max-body"

abbrev pub Fails {ℓ} : Type ℓ → Type ℓ
Fails A = Result Text A

-- `mapPathType`
unfoldable pub map_path_type : Option PathTypeName → Fails PathType
map_path_type none = ok path_type_exact
map_path_type (some PathTypeName.prefix) = ok path_type_prefix
map_path_type (some PathTypeName.exact) = ok path_type_exact
map_path_type (some implementation_specific) = ok path_type_prefix
map_path_type (some (other_type t)) = err (codes "invalid path type")

abbrev annotation_error {ℓ κ} : {E : Type ℓ} {A : Type κ} → Result E A → Fails A
annotation_error (ok a) = ok a
annotation_error (err e) = err (codes "parse annotation")

-- `parseAnnotation`
unfoldable pub parse_annotation {ℓ κ} :
    {E : Type ℓ} {T : Type κ} → Ingress → Text → (Text → Result E T) → T → Fails T
parse_annotation ingress name parse_f default_value = elim (lookup name ingress.annotations) [
  | none ↦ ok default_value
  | some v ↦ annotation_error (parse_f v)
]

-- `getHttpProxyConfig`
unfoldable pub get_http_proxy_config : Ingress → IngressProxyConf → Fails HttpProxyConfig
unfolding parse_annotation
get_http_proxy_config ingress conf =
    parse_annotation ingress max_body_annotation parse_byte_size conf.max_body_size >>= λ n.
    ok (record { max_body_size = n })

-- The loop of `addPath` over the ports of the service: 0 if none fits.
unfoldable pub select_port : ServiceBackend → List ServicePort → ℕ
select_port backend [] = 0
select_port backend (p ∷ ps) =
    let rest = select_port backend ps in
    if text_eq p.name backend.port_name
    then p.port
    else if nat_eq p.port backend.port_number
    then p.port
    else rest

-- `uint16(port)`
abbrev pub to_uint16 : ℕ → ℕ
to_uint16 n = n % 2 ^ 16

abbrev pub port_of : Addr → ℕ → AddrPort
port_of ip n = record { addr = ip; port = to_uint16 n }

abbrev pub or_fail {ℓ} : {A : Type ℓ} → Option A → Text → Fails A
or_fail none e = err e
or_fail (some a) e = ok a

abbrev pub host_or_empty : Option HostConfig → HostConfig
host_or_empty none = empty_host
host_or_empty (some host) = host

-- The "namespace/name" of `NamespacedName.String`.
abbrev pub name_string : NamespacedName → Text
name_string n = n.namespace ++ b'/' ∷ n.name

abbrev pub with_used_secrets : IngressConfiguration → List NamespacedName → IngressConfiguration
with_used_secrets conf names = record conf { used_secrets = conf.used_secrets ++ names }

abbrev pub with_used_service : IngressConfiguration → NamespacedName → IngressConfiguration
with_used_service conf name = record conf { used_services = conf.used_services ++ name ∷ [] }

abbrev pub prepend :
    Option MiddlewareFunc
    → List MiddlewareFunc × IngressConfiguration
    → List MiddlewareFunc × IngressConfiguration
prepend none rest = rest
prepend (some m) (ms, conf) = (m ∷ ms, conf)

module _ (services : Services) (cluster : Cluster) where
  open cluster use {get_service, get_secret, parse_addr}

  -- `getMiddlewares`, with the configuration that remembers the secrets.
  unfoldable pub get_middlewares :
      List ModuleInstance
      → Ingress
      → IngressConfiguration
      → Fails (List MiddlewareFunc × IngressConfiguration)
  get_middlewares [] ingress conf = ok ([], conf)
  get_middlewares (m ∷ ms) ingress conf =
      let (middleware, names) = ingress_middleware services get_secret m ingress in
      let rest = get_middlewares ms ingress (with_used_secrets conf names) in
      middleware >>= λ found. rest >>= λ more. ok (prepend found more)

  -- The route that a path gives, for its service.
  unfoldable pub make_route :
      ControllerConf
      → Ingress
      → HttpIngressPath
      → ServiceBackend
      → Service
      → List MiddlewareFunc
      → Fails RouteConfig
  unfolding select_port map_path_type get_http_proxy_config
  make_route controller_conf ingress path backend service middlewares = do
    ip ← or_fail (parse_addr service.cluster_ip) (codes "failed to parse service ip")
    path_type ← map_path_type path.path_type
    http_proxy_conf ← get_http_proxy_config ingress controller_conf.ingress_proxy
    ok (record {
      path = path.path;
      path_type = path_type;
      endpoint = port_of ip (select_port backend service.ports);
      middlewares = middlewares;
      http_proxy_config = http_proxy_conf;
      ingress_name = name_string (name_of ingress);
    })

  abbrev pub put_route : Text → IngressConfiguration → RouteConfig → IngressConfiguration
  put_route hostname conf route = record conf {
    hosts =
        insert hostname (add_route (host_or_empty (lookup hostname conf.hosts)) route) conf.hosts;
  }

  unfoldable pub add_path :
      ControllerConf
      → Ingress
      → Text
      → HttpIngressPath
      → ServiceBackend
      → IngressConfiguration
      → Fails IngressConfiguration
  unfolding get_middlewares make_route
  add_path controller_conf ingress hostname path backend ingress_conf = do
    (middlewares, conf) ← get_middlewares controller_conf.modules ingress ingress_conf
    let name : NamespacedName = record { namespace = ingress.namespace; name = backend.name }
    service ← or_fail (get_service name) (codes "failed to get service")
    route ← make_route controller_conf ingress path backend service middlewares
    ok (put_route hostname (with_used_service conf name) route)

  -- A path without a service is left out.
  abbrev pub add_backend :
      ControllerConf
      → Ingress
      → Text
      → HttpIngressPath
      → IngressConfiguration
      → Option ServiceBackend
      → Fails IngressConfiguration
  add_backend controller_conf ingress hostname path conf none = ok conf
  add_backend controller_conf ingress hostname path conf (some backend) =
      add_path controller_conf ingress hostname path backend conf

  -- The inner loop of `reconcileIngress`.
  unfoldable pub add_paths :
      ControllerConf
      → Ingress
      → Text
      → List HttpIngressPath
      → IngressConfiguration
      → Fails IngressConfiguration
  add_paths controller_conf ingress hostname [] conf = ok conf
  add_paths controller_conf ingress hostname (path ∷ paths) conf =
      add_backend controller_conf ingress hostname path conf path.service
      >>= add_paths controller_conf ingress hostname paths

  abbrev pub or_panic :
      Fails IngressConfiguration
      → (IngressConfiguration → Returns (Fails IngressConfiguration))
      → Returns (Fails IngressConfiguration)
  or_panic (err e) f = value (err e)
  or_panic (ok conf) f = f conf

  -- The outer loop: `rule.HTTP.Paths` is read through a pointer that may be nil.
  unfoldable pub add_rules :
      ControllerConf
      → Ingress
      → List IngressRule
      → IngressConfiguration
      → Returns (Fails IngressConfiguration)
  add_rules controller_conf ingress [] conf = value (ok conf)
  add_rules controller_conf ingress (rule ∷ rules) conf = elim rule.http_paths [
    | none ↦ panic
    | some paths ↦
        or_panic (add_paths controller_conf ingress rule.host paths conf)
          (add_rules controller_conf ingress rules)
  ]
