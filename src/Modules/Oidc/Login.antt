-- ===== src/Modules/Oidc/Login.antt =====
-- modules/oidc/middlewares.go and oidc.go: the redirect to the provider and the way back.
use s_ingress.Common.Int.{negsuc, pos, quot, ℤ}
use s_ingress.Common.Texts.{Text, codes, text_eq}
use s_ingress.Common.{Result, [], err, if◌then◌else◌, none, not, ok, some, true, ◌&&◌, ◌++◌, ◌||◌}
use s_ingress.Modules.Oidc.Session.{
  claimed_info, cookie_nonce, cookie_redirect, cookie_state, generate_jwt_cookie, get_cookie_name,
  verified_id_token,
}
use s_ingress.Modules.Redirect.{http_redirect}
use s_ingress.Modules.Services.{AuthInfo, IdToken, Services, Token}
use s_ingress.Proxy.Closures.{ClientConfig}
use s_ingress.Proxy.Context.{
  Cookie, Exit, Handler, Outside, RequestContext, asks, done, failed, identity_provider, panicked,
}
use s_ingress.Proxy.Errors.{bad_request, unauthorized}
use s_ingress.Proxy.Headers.{header_add}

-- How `handleOidcCallback` returns: with the session, with an answer already written, or with
-- an error. An error page that fails to be written is an error too.
pub data Callback : Type 0 where
  logged_in : AuthInfo → Callback
  answered : Callback
  callback_failed : Text → Callback

module _ (services : Services) (outside : Outside) where
  open services use {cookie_of, rand_state, rand_nonce, auth_code_url, query_get, exchange, now}
  open services use {is_web_socket_upgrade, url_string}
  open outside use {cookie_string}

  -- `http.SetCookie`
  unfoldable pub add_set_cookie : Cookie → RequestContext → RequestContext
  add_set_cookie cookie c =
      let v = cookie_string cookie in
      if text_eq v []
      then c
      else record c { w = record c.w { header = header_add c.w.header (codes "Set-Cookie") v } }

  abbrev http_cookie : ClientConfig → Text → Text → ℤ → RequestContext → Cookie
  http_cookie client name v max_age c = record {
    name = name;
    value_text = v;
    max_age = max_age;
    secure = c.r.tls;
    http_only = true;
    cookie_path = codes "/";
    domain = client.cookie_domain;
  }

  -- `setHttpCookie`, for an hour.
  unfoldable pub set_http_cookie : ClientConfig → Text → Text → RequestContext → RequestContext
  unfolding add_set_cookie
  set_http_cookie client name v c = add_set_cookie (http_cookie client name v (pos 3600) c) c

  -- `clearHttpCookie`, of a cookie that the request has.
  unfoldable pub clear_http_cookie : ClientConfig → Text → RequestContext → RequestContext
  unfolding add_set_cookie
  clear_http_cookie client name c = elim (cookie_of c.r.header name) [
    | none ↦ c
    | some _ ↦ add_set_cookie (http_cookie client name [] (negsuc 0) c) c
  ]

  unfoldable pub clear_callback_cookies : ClientConfig → RequestContext → RequestContext
  unfolding clear_http_cookie
  clear_callback_cookies client c =
      clear_http_cookie client cookie_state
        (clear_http_cookie client cookie_nonce (clear_http_cookie client cookie_redirect c))

  -- `getRequestUrl`
  unfoldable pub get_request_url : RequestContext → Text
  get_request_url c = url_string (record {
    scheme = codes "https";
    host = c.r.host;
    url_path = c.r.url.url_path;
    raw_query = [];
    fragment = c.r.url.fragment;
  })

  unfoldable pub start_login : ClientConfig → Handler
  unfolding set_http_cookie get_request_url
  start_login client c = elim rand_state [
    | none ↦ (failed (codes "could not generate state"), c)
    | some state ↦ elim rand_nonce [
      | none ↦ (failed (codes "could not generate nonce"), c)
      | some nonce ↦
          let c1 = set_http_cookie client cookie_state state c in
          let c2 = set_http_cookie client cookie_nonce nonce c1 in
          let c3 = set_http_cookie client cookie_redirect (get_request_url c2) c2 in
          (done, http_redirect services (auth_code_url client.name state nonce) 302 c3)
    ]
  ]

  -- `handleUnauthorized`
  unfoldable pub handle_unauthorized : ClientConfig → Handler
  unfolding start_login clear_http_cookie
  handle_unauthorized client c =
      let c' = clear_http_cookie client (get_cookie_name client) c in
      let reads = text_eq c.r.method (codes "GET") || text_eq c.r.method (codes "HEAD") in
      if reads && not (is_web_socket_upgrade c.r)
      then start_login client c'
      else unauthorized outside (codes "OIDC authorization required") c'

  abbrev pub after_page : Exit × RequestContext → Callback × RequestContext
  after_page (done, c) = (answered, c)
  after_page (failed e, c) = (callback_failed e, c)
  after_page (panicked, c) = (callback_failed [], c)

  abbrev pub with_info : RequestContext → Result Text AuthInfo → Callback × RequestContext
  with_info c (err e) = (callback_failed e, c)
  with_info c (ok info) = (logged_in info, c)

  unfoldable pub check_nonce :
      ClientConfig → Token → Result Text IdToken → RequestContext → Callback × RequestContext
  check_nonce client token (err e) c = (callback_failed e, c)
  check_nonce client token (ok id_token) c = elim (cookie_of c.r.header cookie_nonce) [
    | none ↦ after_page (bad_request outside (codes "nonce cookie not found") c)
    | some nonce ↦
        if text_eq id_token.nonce nonce
        then with_info c (claimed_info services client token (quot now 1_000_000_000) id_token)
        else after_page (bad_request outside (codes "nonce cookie did not match") c)
  ]

  unfoldable pub handle_oidc_callback : ClientConfig → RequestContext → Callback × RequestContext
  unfolding check_nonce
  handle_oidc_callback client c = elim (cookie_of c.r.header cookie_state) [
    | none ↦ after_page (bad_request outside (codes "state cookie not found") c)
    | some state ↦
        if text_eq (query_get c.r.url (codes "state")) state
        then (let c' = asks c (identity_provider (codes "exchange")) in
            elim (exchange client.name (query_get c.r.url (codes "code"))) [
              | none ↦ (callback_failed (codes "could not exchange code for token"), c')
              | some token ↦ check_nonce client token (verified_id_token services client token) c'
            ])
        else after_page (bad_request outside (codes "state not found") c)
  ]

  -- Where the callback redirects to.
  unfoldable pub callback_target : ClientConfig → RequestContext → Text
  callback_target client c = elim (cookie_of c.r.header cookie_redirect) [
    | none ↦ client.callback_domain
    | some redirect ↦ redirect
  ]

  unfoldable pub finish_callback : ClientConfig → Callback → Handler
  unfolding callback_target
  finish_callback client (callback_failed e) c = (failed (codes "handle oidc callback: " ++ e), c)
  finish_callback client answered c = (done, clear_callback_cookies client c)
  finish_callback client (logged_in info) c = elim (generate_jwt_cookie services client info c) [
    | err e ↦ (failed (codes "generate jwt cookie: " ++ e), clear_callback_cookies client c)
    | ok cookie ↦ (
      done,
      http_redirect services (callback_target client c) 302
          (clear_callback_cookies client (add_set_cookie cookie c)),
    )
  ]

  unfoldable pub handle_callback : ClientConfig → Handler
  unfolding finish_callback handle_oidc_callback
  handle_callback client c =
      let (outcome, c') = handle_oidc_callback client c in finish_callback client outcome c'
