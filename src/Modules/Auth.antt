-- ===== src/Modules/Auth.antt =====
-- modules/auth: the address list, the password file and the subrequest.
use s_ingress.Common.Net.{Prefix, prefix_contains}
use s_ingress.Common.Texts.{Text, codes, replace_first, split, text_keys, trim_space}
use s_ingress.Common.{
  List, Map, Option, Result, [], any, err, if◌then◌else◌, leb, lookup, nat_eq, none, ok, some, ℕ,
  ◌&&◌, ◌++◌, ◌>>=◌, ◌∷◌,
}
use s_ingress.Kubernetes.{Ingress, NamespacedName, Secret, name_keys}
use s_ingress.Modules.Redirect.{http_redirect}
use s_ingress.Modules.Services.{Services}
use s_ingress.Proxy.Closures.{MiddlewareFunc, basic_auth, ip_auth, subrequest_auth}
use s_ingress.Proxy.Context.{
  Handler, Outside, RequestContext, asks, auth_request_to, done, failed, set_header,
}
use s_ingress.Proxy.Errors.{forbidden, unauthorized}

abbrev pub auth_ip_allowlist : Text
auth_ip_allowlist = codes "s-ingress.oidq.dev/allow-ip"

abbrev pub auth_basic_auth_secret : Text
auth_basic_auth_secret = codes "s-ingress.oidq.dev/basic-auth-secret"

abbrev pub auth_basic_auth_realm : Text
auth_basic_auth_realm = codes "s-ingress.oidq.dev/basic-auth-realm"

abbrev pub forward_auth_key : Text
forward_auth_key = codes "s-ingress.oidq.dev/auth"

abbrev pub forward_auth_url_key : Text
forward_auth_url_key = codes "s-ingress.oidq.dev/auth-url"

abbrev pub forward_auth_sign_in_key : Text
forward_auth_sign_in_key = codes "s-ingress.oidq.dev/auth-signin"

pub record ForwardAuthConfig : Type 0 where
  pub auth_url : Text
  pub sign_in_url : Text

-- `getAnnotationsConfig`
unfoldable pub get_annotations_config : Ingress → Option ForwardAuthConfig
get_annotations_config ingress = elim (lookup forward_auth_url_key ingress.annotations) [
  | none ↦ none
  | some auth_url ↦ elim (lookup forward_auth_sign_in_key ingress.annotations) [
    | none ↦ none
    | some sign_in ↦ some (record { auth_url = auth_url; sign_in_url = sign_in })
  ]
]

-- `getGlobalConfig`
unfoldable pub get_global_config :
    Map Text ForwardAuthConfig → Ingress → Result Text (Option ForwardAuthConfig)
get_global_config auth ingress = elim (lookup forward_auth_key ingress.annotations) [
  | none ↦ ok none
  | some auth_raw ↦ elim (lookup auth_raw auth) [
    | none ↦ err (codes "forward auth configuration not found")
    | some conf ↦ ok (some conf)
  ]
]

-- The annotations go before the named configuration.
abbrev pub preferred {ℓ} : {A : Type ℓ} → Option A → Option A → Option A
preferred (some a) o = some a
preferred none o = o

module _ (services : Services) where
  open services use {parse_prefix, htpasswd_is_valid, url_is_valid}

  -- The loop over the parts of the annotation.
  unfoldable pub parse_allowlist : List Text → Result Text (List Prefix)
  parse_allowlist [] = ok []
  parse_allowlist (v ∷ vs) =
      let rest = parse_allowlist vs in
      elim (parse_prefix (trim_space v)) [
        | none ↦ err (codes "invalid ip auth url")
        | some ip_net ↦ rest >>= λ more. ok (ip_net ∷ more)
      ]

  unfoldable pub ip_auth_middleware : Ingress → Result Text (Option MiddlewareFunc)
  unfolding parse_allowlist
  ip_auth_middleware ingress = elim (lookup auth_ip_allowlist ingress.annotations) [
    | none ↦ ok none
    | some raw ↦ parse_allowlist (split raw b',') >>= λ allowlist. ok (some (ip_auth allowlist))
  ]

  -- What the secret gives: it has to hold a password file under `auth`.
  with_secret : Text → Secret → Result Text (Option MiddlewareFunc)
  with_secret realm secret = elim (lookup (codes "auth") secret) [
    | none ↦ err (codes "secret does not contain auth")
    | some htpasswd ↦
        if htpasswd_is_valid htpasswd
        then ok (some (basic_auth realm htpasswd))
        else err (codes "error parsing htpasswd secret")
  ]

  -- With the secrets that are read, which the reconciler remembers.
  unfoldable pub basic_auth_middleware :
      (NamespacedName → Option Secret)
      → Ingress
      → Result Text (Option MiddlewareFunc) × List NamespacedName
  unfolding with_secret
  basic_auth_middleware get_secret ingress =
      elim (lookup auth_basic_auth_realm ingress.annotations) [
        | none ↦ (ok none, [])
        | some realm ↦ elim (lookup auth_basic_auth_secret ingress.annotations) [
          | none ↦ (ok none, [])
          | some secret_raw ↦
              let name : NamespacedName = record {
                namespace = ingress.namespace;
                name = secret_raw;
              } in
              elim (get_secret name) [
                | none ↦ (err (codes "error getting secret"), [])
                | some secret ↦ (with_secret realm secret, name ∷ [])
              ]
        ]
      ]

  unfoldable pub subrequest_of : Option ForwardAuthConfig → Result Text (Option MiddlewareFunc)
  subrequest_of none = ok none
  subrequest_of (some conf) =
      if url_is_valid conf.auth_url
      then ok (some (subrequest_auth conf.auth_url conf.sign_in_url))
      else err (codes "failed to parse forward-auth url")

  unfoldable pub subrequest_auth_middleware :
      Map Text ForwardAuthConfig → Ingress → Result Text (Option MiddlewareFunc)
  unfolding subrequest_of get_annotations_config get_global_config
  subrequest_auth_middleware configs ingress = get_global_config configs ingress >>= λ conf.
      subrequest_of (preferred (get_annotations_config ingress) conf)

-- The closures.
module _ (services : Services) (outside : Outside) where
  open services use {basic_auth_of, htpasswd_match, url_reprinted, url_string, query_escape}
  open services use {auth_response}

  unfoldable pub run_ip_auth : List Prefix → Handler → Handler
  run_ip_auth allowlist next c =
      if any (λ ip_net. prefix_contains ip_net c.real_ip) allowlist
      then next c
      else forbidden outside (codes "forbidden") c

  abbrev challenge : Text → RequestContext → RequestContext
  challenge realm c =
      set_header c (codes "WWW-Authenticate")
        (codes "Basic realm=\"" ++ realm ++ codes "\", charset=\"UTF-8\"")

  unfoldable pub run_basic_auth : Text → Text → Handler → Handler
  run_basic_auth realm htpasswd next c = elim (basic_auth_of c.r.header) [
    | none ↦ unauthorized outside [] (challenge realm c)
    | some (user, passwd) ↦
        if htpasswd_match htpasswd user passwd
        then next c
        else forbidden outside (codes "forbidden") (challenge realm c)
  ]

  -- `getRedirectUrl`
  unfoldable pub get_redirect_url : RequestContext → Text → Text
  get_redirect_url c sign_in_url =
      let s =
        replace_first sign_in_url (codes "$escaped_uri") (query_escape (url_string c.r.url)) in
      replace_first s (codes "$host") (query_escape c.r.host)

  unfoldable pub after_subrequest : Text → Option ℕ → Handler → Handler
  unfolding get_redirect_url
  after_subrequest sign_in_url none next c = (failed (codes "forward-auth request failed"), c)
  after_subrequest sign_in_url (some status) next c =
      if nat_eq status 403
      then forbidden outside [] c
      else if leb 200 status && leb status 299
      then next c
      else (done, http_redirect services (get_redirect_url c sign_in_url) 302 c)

  -- The subrequest is a GET of the configured address with the header of the client.
  unfoldable pub run_subrequest_auth : Text → Text → Handler → Handler
  unfolding after_subrequest
  run_subrequest_auth auth_url sign_in_url next c =
      let target = url_reprinted auth_url in
      after_subrequest sign_in_url (auth_response target c.r.header) next
        (asks c (auth_request_to target c.r.header))
