-- ===== src/Modules/Refusal.antt =====
-- The conditions under which a middleware turns a request away, and what that means for a route.
pub mod Quiet
use mathlib.Core.Path.{fun_ext}
use s_ingress.Common.Net.{prefix_contains}
use s_ingress.Common.Texts.{Text, codes}
use s_ingress.Common.{
  Bool, Result, any, ap, arith, err, false, leb, none, ok, refl, some, sym, true, ℕ, ◌&&◌, ◌>>=◌,
  ◌∙◌, ◌≡◌,
}
use s_ingress.Modules.Contacts.{Same}
use s_ingress.Modules.Oidc.Session.{
  check_access, claimed_info, extract_auth_info, extracted, generate_jwt_cookie,
  handle_renewing_auth_info, renew_auth_info, renewed, validate_info, verified_id_token,
}
use s_ingress.Modules.Order.{is_header}
use s_ingress.Modules.Services.{AuthInfo, Services}
use s_ingress.Proxy.Closures.{
  ClientConfig, MiddlewareFunc, basic_auth, custom_header, deny_route, enforce_https_ingress,
  enforce_https_request, ip_auth, oidc_ingress, oidc_request, subrequest_auth, upstream_header,
  websocket,
}
use s_ingress.Proxy.Context.{Cookie, RequestContext, asks, identity_provider}

abbrev pub is_2xx : ℕ → Bool
is_2xx status = leb 200 status && leb status 299

module _ (services : Services) where
  -- The session that the middleware goes by, after the attempt to renew it.
  abbrev pub session_of : ClientConfig → AuthInfo → RequestContext → AuthInfo
  session_of client info c = (handle_renewing_auth_info services client info c).0

  -- The client does not meet what the middleware asks for. The middlewares that only change
  -- headers, the callback and the websocket turn nobody away.
  abbrev pub Refuses : MiddlewareFunc → RequestContext → Type 0
  Refuses enforce_https_request c = c.r.tls ≡ false
  Refuses enforce_https_ingress c = c.r.tls ≡ false
  Refuses (ip_auth allowlist) c = any (λ p. prefix_contains p c.real_ip) allowlist ≡ false
  Refuses (basic_auth realm htpasswd) c =
      (user passwd : Text)
      → services.basic_auth_of c.r.header ≡ some (user, passwd)
      → services.htpasswd_match htpasswd user passwd ≡ false
  Refuses (subrequest_auth auth_url sign_in_url) c =
      (status : ℕ)
      → services.auth_response (services.url_reprinted auth_url) c.r.header ≡ some status
      → is_2xx status ≡ false
  Refuses (oidc_ingress client config) c =
      (info : AuthInfo)
      → extract_auth_info services client c ≡ extracted info
      → validate_info services client (session_of client info c) ≡ true
      → check_access config (session_of client info c) ≡ false
  Refuses (deny_route pattern_text) c = services.regexp_match pattern_text c.r.url.url_path ≡ true
  Refuses _ c = ⊥

  generate-Same :
      (client : ClientConfig) (info : AuthInfo) {c c' : RequestContext}
      → Same c c'
      → generate_jwt_cookie services client info c' ≡ generate_jwt_cookie services client info c
  unfolding generate_jwt_cookie
  generate-Same client info h = ground (arith, h.request)

  -- The renewal, as a function of how the cookie is made.
  abbrev with_cookies :
      ClientConfig → AuthInfo → (AuthInfo → Result Text Cookie) → Result Text (AuthInfo × Cookie)
  with_cookies client info generate =
      elim (services.renewed_token client.name (record {
        access_token = info.access_token;
        refresh_token = info.refresh_token;
        expiry = info.token_expiry;
        id_token = none;
      })) [
        | none ↦ err (codes "failed to renew token")
        | some new_token ↦ verified_id_token services client new_token >>= λ id_token.
            claimed_info services client new_token info.authenticated_at id_token >>= λ new_info.
            generate new_info >>= λ cookie. ok (new_info, cookie)
      ]

  renew-Same :
      (client : ClientConfig) (info : AuthInfo) {c c' : RequestContext}
      → Same c c'
      → renew_auth_info services client info c' ≡ renew_auth_info services client info c
  unfolding renew_auth_info
  renew-Same client info h =
      ap (λ g. with_cookies client info g) (fun_ext (λ i. generate-Same client i h))

  renewed-Same :
      (info : AuthInfo) (c c' : RequestContext) (r : Result Text (AuthInfo × Cookie))
      → (renewed services info c' r).0 ≡ (renewed services info c r).0
  renewed-Same info c c' (ok (i, k)) = refl
  renewed-Same info c c' (err e) = refl

  session_of-Same :
      (client : ClientConfig) (info : AuthInfo) {c c' : RequestContext}
      → Same c c'
      → session_of client info c' ≡ session_of client info c
  unfolding handle_renewing_auth_info
  session_of-Same client info {c} {c'} h = ground (
    arith,
    renew-Same client info h,
    renewed-Same info (asks c (identity_provider (codes "token")))
        (asks c' (identity_provider (codes "token"))) (renew_auth_info services client info c),
  )

  extract-Same :
      (client : ClientConfig) {c c' : RequestContext}
      → Same c c'
      → extract_auth_info services client c' ≡ extract_auth_info services client c
  unfolding extract_auth_info
  extract-Same client h = rw (extract_auth_info, h.request)

  pub Refuses-Same :
      (m : MiddlewareFunc) {c c' : RequestContext} → Same c c' → Refuses m c → Refuses m c'
  Refuses-Same enforce_https_request h f = rw h.request f
  Refuses-Same enforce_https_ingress h f = rw h.request f
  Refuses-Same (ip_auth allowlist) h f = rw h.client f
  Refuses-Same (basic_auth realm htpasswd) h f = rw h.request f
  Refuses-Same (subrequest_auth auth_url sign_in_url) h f = rw h.request f
  Refuses-Same (oidc_request callback_domains) h f = f
  Refuses-Same (oidc_ingress client config) h f = λ info e v.
      rw (session_of-Same client info h)
        (f info (sym (extract-Same client h) ∙ e) (rw (session_of-Same client info h) at v))
  Refuses-Same (deny_route pattern_text) h f = rw h.request f
  Refuses-Same websocket h f = f
  Refuses-Same (custom_header headers) h f = f
  Refuses-Same (upstream_header headers) h f = f

  pub header-Refuses_nothing :
      (m : MiddlewareFunc) (c : RequestContext) → is_header m ≡ true → Refuses m c → ⊥
  header-Refuses_nothing (custom_header headers) c h f = f
  header-Refuses_nothing (upstream_header headers) c h f = f
  header-Refuses_nothing _ c h f = cc
