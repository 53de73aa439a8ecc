-- ===== src/Modules/Chain.antt =====
-- What the middlewares of a route let through to the upstream.
use s_ingress.Common.Net.{Prefix, prefix_contains}
use s_ingress.Common.Texts.{Text, text_keys}
use s_ingress.Common.{
  Bool, List, Map, Option, any, false, leb, lookup, nat_eq, none, not, refl, some, true, ℕ, ◌&&◌,
  ◌≡◌,
}
use s_ingress.Modules.Auth.{after_subrequest, run_basic_auth, run_ip_auth, run_subrequest_auth}
use s_ingress.Modules.Contacts.Logins.{
  Same-handle_callback, Same-handle_renewing_auth_info, Same-handle_unauthorized,
}
use s_ingress.Modules.Contacts.{
  Same, Same-asks, Same-handle_error_page, Same-http_redirect, Same-refl, Same-set_custom,
  Same-set_header, Same-set_response_header, Same-trans,
}
use s_ingress.Modules.CustomHeaders.{run_custom_header, run_upstream_header}
use s_ingress.Modules.Instances.{run_middleware}
use s_ingress.Modules.Oidc.Middleware.{
  check_session, run_oidc_ingress, run_oidc_request, with_session,
}
use s_ingress.Modules.Oidc.Session.{
  Extracted, check_access, cookie_invalid, cookie_not_found, extract_auth_info, extracted, not_json,
  validate_info,
}
use s_ingress.Modules.Rules.{if_rule, option_rule}
use s_ingress.Modules.Security.{
  run_deny_route, run_enforce_https_ingress, run_enforce_https_request,
}
use s_ingress.Modules.Services.{AuthInfo, Services}
use s_ingress.Proxy.Closures.{
  ClientConfig, IngressConfig, MiddlewareFunc, basic_auth, custom_header, deny_route,
  enforce_https_ingress, enforce_https_request, ip_auth, oidc_ingress, oidc_request,
  subrequest_auth, upstream_header, websocket,
}
use s_ingress.Proxy.Context.{Handler, Outside, RequestContext, auth_request_to}

abbrev pub is_websocket : MiddlewareFunc → Bool
is_websocket websocket = true
is_websocket _ = false

abbrev Passes : (RequestContext → Type 0) → Handler → RequestContext → Type 0
Passes Q next c = ((c' : RequestContext) → Same c c' → Q (next c').1)

module _ (services : Services) (outside : Outside) (Q : RequestContext → Type 0) (next : Handler)
    (c : RequestContext) (go : (c' : RequestContext) → Same c c' → Q (next c').1)
    (stop : (c' : RequestContext) → Same c c' → Q c') where
  enforce_https_request-passes : Q (run_enforce_https_request services outside next c).1
  unfolding run_enforce_https_request
  enforce_https_request-passes =
      if_rule Q c.r.tls _ _ (go _ (Same-set_response_header c _ _))
        (stop _ (Same-http_redirect services _ 301 c))

  enforce_https_ingress-passes : Q (run_enforce_https_ingress services outside next c).1
  unfolding run_enforce_https_ingress
  enforce_https_ingress-passes =
      if_rule Q c.r.tls _ _ (go _ (Same-refl c)) (stop _ (Same-http_redirect services _ 301 c))

  ip_auth-passes : (allowlist : List Prefix) → Q (run_ip_auth services outside allowlist next c).1
  unfolding run_ip_auth
  ip_auth-passes allowlist =
      if_rule Q (any (λ p. prefix_contains p c.real_ip) allowlist) _ _ (go _ (Same-refl c))
        (stop _ (Same-handle_error_page outside 403 _ c))

  basic_auth-passes :
      (realm htpasswd : Text) → Q (run_basic_auth services outside realm htpasswd next c).1
  unfolding run_basic_auth
  basic_auth-passes realm htpasswd =
      option_rule Q (services.basic_auth_of c.r.header) _ _
        (stop _ (Same-trans (Same-set_header c _ _) (Same-handle_error_page outside 401 _ _)))
        λ user.
          if_rule Q (services.htpasswd_match htpasswd user.0 user.1) _ _ (go _ (Same-refl c))
            (stop _ (Same-trans (Same-set_header c _ _) (Same-handle_error_page outside 403 _ _)))

  after_subrequest-passes :
      (sign_in_url : Text) (o : Option ℕ) (c' : RequestContext)
      → Same c c'
      → Q (after_subrequest services outside sign_in_url o next c').1
  unfolding after_subrequest
  after_subrequest-passes sign_in_url none c' h = stop c' h
  after_subrequest-passes sign_in_url (some status) c' h =
      if_rule Q (nat_eq status 403) _ _
        (stop _ (Same-trans h (Same-handle_error_page outside 403 _ c')))
        (if_rule Q (leb 200 status && leb status 299) _ _ (go c' h)
          (stop _ (Same-trans h (Same-http_redirect services _ 302 c'))))

  subrequest_auth-passes :
      (auth_url sign_in_url : Text)
      → Q (run_subrequest_auth services outside auth_url sign_in_url next c).1
  unfolding run_subrequest_auth
  subrequest_auth-passes auth_url sign_in_url =
      let target = services.url_reprinted auth_url in
      after_subrequest-passes sign_in_url (services.auth_response target c.r.header) _
        (Same-asks c (auth_request_to target c.r.header) refl)

  oidc_request-passes :
      (callback_domains : Map Text ClientConfig)
      → Q (run_oidc_request services outside callback_domains next c).1
  unfolding run_oidc_request
  oidc_request-passes callback_domains =
      option_rule Q (lookup c.r.host callback_domains) _ _ (go _ (Same-refl c)) λ client.
        if_rule Q _ _ _ (stop _ (Same-handle_callback services outside client c))
          (go _ (Same-refl c))

  check_session-passes :
      (client : ClientConfig) (ingress : IngressConfig) (info : AuthInfo) (c' : RequestContext)
      → Same c c'
      → Q (check_session services outside client ingress next info c').1
  unfolding check_session
  check_session-passes client ingress info c' h =
      if_rule Q (not (validate_info services client info)) _ _
        (stop _ (Same-trans h (Same-handle_unauthorized services outside client c')))
        (if_rule Q (not (check_access ingress info)) _ _
          (stop _ (Same-trans h (Same-handle_error_page outside 403 _ c'))) (go c' h))

  oidc_ingress-passes :
      (client : ClientConfig) (ingress : IngressConfig)
      → Q (run_oidc_ingress services outside client ingress next c).1
  unfolding run_oidc_ingress
  oidc_ingress-passes client ingress = extracted-passes (extract_auth_info services client c)
    where
      extracted-passes :
          (x : Extracted) → Q (with_session services outside client ingress next x c).1
      extracted-passes cookie_not_found =
          stop _ (Same-handle_unauthorized services outside client c)
      extracted-passes cookie_invalid = stop _ (Same-handle_unauthorized services outside client c)
      extracted-passes not_json = stop c (Same-refl c)
      extracted-passes (extracted info) =
          check_session-passes client ingress _ _
            (Same-handle_renewing_auth_info services outside client info c)

  deny_route-passes :
      (pattern_text : Text) → Q (run_deny_route services outside pattern_text next c).1
  unfolding run_deny_route
  deny_route-passes pattern_text =
      if_rule Q (services.regexp_match pattern_text c.r.url.url_path) _ _
        (stop _ (Same-handle_error_page outside 403 _ c)) (go _ (Same-refl c))

  custom_header-passes : (headers : List Text) → Q (run_custom_header headers next c).1
  unfolding run_custom_header
  custom_header-passes headers = go _ (Same-set_custom headers c)

  upstream_header-passes : (headers : List Text) → Q (run_upstream_header headers next c).1
  unfolding run_upstream_header
  upstream_header-passes headers =
      option_rule Q c.upstream_request _ _
        (if_rule Q _ _ _ (stop _ (Same-refl c)) (go _ (Same-refl c)))
        λ upstream. go _ (record { request = refl; client = refl; route = refl; quiet = refl })

module _ (services : Services) (outside : Outside) where
  -- A middleware that is no websocket does not ask the upstream: it ends by itself, or it hands a
  -- context about the same request on.
  pub run_middleware-passes :
      (Q : RequestContext → Type 0) (m : MiddlewareFunc) (next : Handler) (c : RequestContext)
      → is_websocket m ≡ false
      → ((c' : RequestContext) → Same c c' → Q (next c').1)
      → ((c' : RequestContext) → Same c c' → Q c')
      → Q (run_middleware services outside m next c).1
  unfolding run_middleware
  run_middleware-passes Q enforce_https_request next c n go stop =
      enforce_https_request-passes services outside Q next c go stop
  run_middleware-passes Q enforce_https_ingress next c n go stop =
      enforce_https_ingress-passes services outside Q next c go stop
  run_middleware-passes Q (ip_auth allowlist) next c n go stop =
      ip_auth-passes services outside Q next c go stop allowlist
  run_middleware-passes Q (basic_auth realm htpasswd) next c n go stop =
      basic_auth-passes services outside Q next c go stop realm htpasswd
  run_middleware-passes Q (subrequest_auth auth_url sign_in_url) next c n go stop =
      subrequest_auth-passes services outside Q next c go stop auth_url sign_in_url
  run_middleware-passes Q (oidc_request callback_domains) next c n go stop =
      oidc_request-passes services outside Q next c go stop callback_domains
  run_middleware-passes Q (oidc_ingress client config) next c n go stop =
      oidc_ingress-passes services outside Q next c go stop client config
  run_middleware-passes Q (deny_route pattern_text) next c n go stop =
      deny_route-passes services outside Q next c go stop pattern_text
  run_middleware-passes Q websocket next c n go stop = cc
  run_middleware-passes Q (custom_header headers) next c n go stop =
      custom_header-passes services outside Q next c go stop headers
  run_middleware-passes Q (upstream_header headers) next c n go stop =
      upstream_header-passes services outside Q next c go stop headers
