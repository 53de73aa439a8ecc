-- ===== src/Modules/Refusal/Quiet.antt =====
-- modules: a middleware that refuses a request ends it without a call of the upstream.
use s_ingress.Common.Texts.{Text}
use s_ingress.Common.{
  Bool, Bool-cases, Option, false, inl, inr, nat_eq, none, not, refl, some, true, ℕ, ◌≡◌,
}
use s_ingress.Modules.Auth.{after_subrequest, run_basic_auth, run_ip_auth, run_subrequest_auth}
use s_ingress.Modules.Contacts.Logins.{Same-handle_renewing_auth_info, Same-handle_unauthorized}
use s_ingress.Modules.Contacts.{
  Same, Same-asks, Same-handle_error_page, Same-http_redirect, Same-set_header, Same-trans,
  contacts,
}
use s_ingress.Modules.Instances.{run_middleware}
use s_ingress.Modules.Oidc.Middleware.{check_session, run_oidc_ingress, with_session}
use s_ingress.Modules.Oidc.Session.{
  Extracted, check_access, cookie_invalid, cookie_not_found, extract_auth_info, extracted, not_json,
  validate_info,
}
use s_ingress.Modules.Refusal.{Refuses, is_2xx, session_of}
use s_ingress.Modules.Rules.{false_rule, if_rule, option_eq_rule, true_rule}
use s_ingress.Modules.Security.{
  run_deny_route, run_enforce_https_ingress, run_enforce_https_request,
}
use s_ingress.Modules.Services.{AuthInfo, Services}
use s_ingress.Proxy.Closures.{
  ClientConfig, IngressConfig, MiddlewareFunc, basic_auth, custom_header, deny_route,
  enforce_https_ingress, enforce_https_request, ip_auth, oidc_ingress, oidc_request,
  subrequest_auth, upstream_header, websocket,
}
use s_ingress.Proxy.Context.{Handler, Outside, RequestContext, auth_request_to}

abbrev Quiet : RequestContext → RequestContext → Type 0
Quiet c c' = contacts c'.calls ≡ contacts c.calls

not-true : (b : Bool) → b ≡ false → not b ≡ true
not-true b e = rw e refl

quiet_of : {c c' : RequestContext} → Same c c' → contacts c'.calls ≡ contacts c.calls
quiet_of h = h.quiet

module _ (services : Services) (outside : Outside) where
  subrequest-refused :
      (sign_in_url : Text) (o : Option ℕ) (next : Handler) (c' : RequestContext)
      {c : RequestContext}
      → Same c c'
      → ((status : ℕ) → o ≡ some status → is_2xx status ≡ false)
      → Quiet c (after_subrequest services outside sign_in_url o next c').1
  unfolding after_subrequest
  subrequest-refused sign_in_url none next c' h f = h.quiet
  subrequest-refused sign_in_url (some status) next c' {c} h f =
      if_rule (Quiet c) (nat_eq status 403) _ _
        (quiet_of (Same-trans h (Same-handle_error_page outside 403 _ c')))
        (false_rule (Quiet c) (is_2xx status) _ _ (f status refl)
          (quiet_of (Same-trans h (Same-http_redirect services _ 302 c'))))

  session-refused :
      (client : ClientConfig) (config : IngressConfig) (x : Extracted) (next : Handler)
      (c : RequestContext)
      → ((info : AuthInfo)
          → x ≡ extracted info
          → validate_info services client (session_of services client info c) ≡ true
          → check_access config (session_of services client info c) ≡ false)
      → Quiet c (with_session services outside client config next x c).1
  unfolding with_session check_session
  session-refused client config cookie_not_found next c f =
      quiet_of (Same-handle_unauthorized services outside client c)
  session-refused client config cookie_invalid next c f =
      quiet_of (Same-handle_unauthorized services outside client c)
  session-refused client config not_json next c f = refl
  session-refused client config (extracted info) next c f =
      let h = Same-handle_renewing_auth_info services outside client info c in
      let unauthorized_quiet =
        quiet_of (Same-trans h (Same-handle_unauthorized services outside client _)) in
      elim (Bool-cases (validate_info services client (session_of services client info c))) [
        | inl valid ↦ if_rule (Quiet c) _ _ _ unauthorized_quiet (
            true_rule (Quiet c) (not (check_access config (session_of services client info c))) _ _
              (not-true _ (f info refl valid))
              (quiet_of (Same-trans h (Same-handle_error_page outside 403 _ _))))
        | inr invalid_session ↦
            true_rule (Quiet c)
              (not (validate_info services client (session_of services client info c))) _ _
              (not-true _ invalid_session) unauthorized_quiet
      ]

  -- A middleware that turns the request away ends it: what comes next is not called.
  pub run_middleware-refused :
      (m : MiddlewareFunc) (next : Handler) (c : RequestContext)
      → Refuses services m c
      → contacts (run_middleware services outside m next c).1.calls ≡ contacts c.calls
  unfolding run_middleware run_enforce_https_request run_enforce_https_ingress run_ip_auth
      run_deny_route run_basic_auth run_subrequest_auth run_oidc_ingress
  run_middleware-refused enforce_https_request next c f =
      false_rule (Quiet c) c.r.tls _ _ f (quiet_of (Same-http_redirect services _ 301 c))
  run_middleware-refused enforce_https_ingress next c f =
      false_rule (Quiet c) c.r.tls _ _ f (quiet_of (Same-http_redirect services _ 301 c))
  run_middleware-refused (ip_auth allowlist) next c f =
      false_rule (Quiet c) _ _ _ f (quiet_of (Same-handle_error_page outside 403 _ c))
  run_middleware-refused (basic_auth realm htpasswd) next c f =
      option_eq_rule (Quiet c) (services.basic_auth_of c.r.header) _ _
        (quiet_of (Same-trans (Same-set_header c _ _) (Same-handle_error_page outside 401 _ _)))
        λ user e.
          false_rule (Quiet c) _ _ _ (f user.0 user.1 e)
            (quiet_of (Same-trans (Same-set_header c _ _) (Same-handle_error_page outside 403 _ _)))
  run_middleware-refused (subrequest_auth auth_url sign_in_url) next c f =
      let target = services.url_reprinted auth_url in
      subrequest-refused sign_in_url (services.auth_response target c.r.header) next _
        (Same-asks c (auth_request_to target c.r.header) refl) f
  run_middleware-refused (oidc_request callback_domains) next c f = absurd f
  run_middleware-refused (oidc_ingress client config) next c f =
      session-refused client config (extract_auth_info services client c) next c f
  run_middleware-refused (deny_route pattern_text) next c f =
      true_rule (Quiet c) _ _ _ f (quiet_of (Same-handle_error_page outside 403 _ c))
  run_middleware-refused websocket next c f = absurd f
  run_middleware-refused (custom_header headers) next c f = absurd f
  run_middleware-refused (upstream_header headers) next c f = absurd f
