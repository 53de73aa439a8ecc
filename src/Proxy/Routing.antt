-- ===== src/Proxy/Routing.antt =====
-- pkg/proxy/config.go: hosts, their routes and the lookup of both.
pub mod Order
pub mod Lookup
pub mod Paths
pub mod Hosts
use s_ingress.Common.Int.{ℤ}
use s_ingress.Common.Net.{AddrPort, Prefix}
use s_ingress.Common.Texts.{Text, codes, has_prefix, index, split, text_eq, text_keys}
use s_ingress.Common.{
  Bool, List, Map, Option, Result, [], any, drop, err, false, if◌then◌else◌, inl, inr, insert,
  length, lookup, ltb, none, ok, refl, some, true, ℕ, ◌∷◌, ◌≡◌, ◌⊎◌,
}
use s_ingress.Proxy.Closures.{MiddlewareFunc}

-- The two constants of the source; no code makes another `PathType`.
pub data PathType : Type 0 where
  path_type_exact path_type_prefix : PathType

pub record HttpProxyConfig : Type 0 where
  pub max_body_size : ℤ

pub record TcpProxyConfig : Type 0 where
  pub use_proxy_protocol : Bool
  pub port : ℕ
  pub endpoint_addr : AddrPort

pub record RouteConfig : Type 0 where
  pub path : Text
  pub path_type : PathType
  pub endpoint : AddrPort
  pub middlewares : List MiddlewareFunc
  pub http_proxy_config : HttpProxyConfig
  pub ingress_name : Text

pub record HostConfig : Type 0 where
  pub routes : List RouteConfig

-- A certificate is the PEM text that it was loaded from, and a template its source.
pub record RoutingConfig : Type 0 where
  pub hosts : Map Text HostConfig
  pub tls_certificates : Map Text Text
  pub default_tls_certificate : Option Text
  pub tcp_proxy : List TcpProxyConfig
  pub request_middlewares : List MiddlewareFunc
  pub trusted_proxies : List Prefix
  pub error_page : Option Text

-- What a call gives that may panic.
pub data Returns {ℓ} (A : Type ℓ) : Type ℓ where
  value : A → Returns A
  panic : Returns A

pub Returns-cases {ℓ} : {A : Type ℓ} (r : Returns A) → (r ≡ panic) ⊎ ((a : A) × (r ≡ value a))
Returns-cases panic = inl refl
Returns-cases (value a) = inr (a, refl)

pub value-injective {ℓ} : {A : Type ℓ} {a b : A} → value a ≡ value b → a ≡ b
value-injective e = cc

abbrev pub is_exact : RouteConfig → Bool
is_exact r = elim r.path_type [ path_type_exact ↦ true | path_type_prefix ↦ false ]

-- The loop of `AddRoute` for a route that is not exact.
unfoldable pub insert_prefix : RouteConfig → List RouteConfig → List RouteConfig
insert_prefix route [] = route ∷ []
insert_prefix route (r ∷ rs) =
    let later = r ∷ insert_prefix route rs in
    if is_exact r
    then later
    else if ltb (length route.path) (length r.path)
    then later
    else route ∷ r ∷ rs

unfoldable pub add_route : HostConfig → RouteConfig → HostConfig
add_route hc route =
    if is_exact route
    then record { routes = route ∷ hc.routes }
    else record { routes = insert_prefix route hc.routes }

-- The loops of `getProxyConfig` and of the tests add one route after the other.
unfoldable pub add_routes : HostConfig → List RouteConfig → HostConfig
add_routes hc [] = hc
add_routes hc (route ∷ rest) = add_routes (add_route hc route) rest

-- `&HostConfig{}`
abbrev pub empty_host : HostConfig
empty_host = record { routes = [] }

-- `s[:len(s)-1]`, of a text that is not empty.
abbrev pub init : Text → Text
init [] = []
init (a ∷ []) = []
init (a ∷ b ∷ s) = a ∷ init (b ∷ s)

-- The case `PathTypePrefix`: the slice of an empty path is out of range.
unfoldable pub matches_prefix : Text → Text → Returns Bool
matches_prefix [] raw_path = panic
matches_prefix (a ∷ s) raw_path =
    value (if text_eq (init (a ∷ s)) raw_path then true else has_prefix raw_path (a ∷ s))

unfoldable pub matches_path : RouteConfig → Text → Returns Bool
unfolding matches_prefix
matches_path rc raw_path = elim rc.path_type [
  | path_type_exact ↦ value (text_eq rc.path raw_path)
  | path_type_prefix ↦ matches_prefix rc.path raw_path
]

unfoldable pub first_match : List RouteConfig → Text → Returns (Option RouteConfig)
first_match [] path = value none
first_match (route ∷ rest) path =
    let later = first_match rest path in
    elim (matches_path route path) [
      | panic ↦ panic
      | value b ↦ if b then value (some route) else later
    ]

unfoldable pub lookup_route : HostConfig → Text → Returns (Option RouteConfig)
unfolding first_match
lookup_route hc path = first_match hc.routes path

pub data HostError : Type 0 where
  invalid_host : Text → HostError

abbrev is_wildcard : List Text → Bool
is_wildcard [] = false
is_wildcard (part ∷ parts) = text_eq part (codes "*")

unfoldable pub normalize_host : Text → Result HostError Text
normalize_host host =
    let parts = split host b'.' in
    if ltb (length parts) 2
    then ok host
    else if any (λ part. ltb (length part) 1) parts
    then err (invalid_host host)
    else if is_wildcard parts
    then ok (drop 1 host)
    else ok host

unfoldable pub add_host : RoutingConfig → Text → HostConfig → Result HostError RoutingConfig
add_host rc host config = elim (normalize_host host) [
  | err e ↦ err e
  | ok normalized_host ↦ ok (record rc { hosts = insert normalized_host config rc.hosts })
]

-- The part of `LookupHost` after the lookups by name: the host "".
default_host : RoutingConfig → Option HostConfig
default_host rc = lookup (codes "") rc.hosts

unfoldable pub lookup_host : RoutingConfig → Text → Option HostConfig
unfolding default_host
lookup_host rc raw_host = elim (lookup raw_host rc.hosts) [
  | some host ↦ some host
  | none ↦ elim (index raw_host b'.') [
    | none ↦ default_host rc
    | some first_dot ↦ elim (lookup (drop first_dot raw_host) rc.hosts) [
      | some host ↦ some host
      | none ↦ default_host rc
    ]
  ]
]
