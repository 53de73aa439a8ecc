-- ===== src/Modules/Contacts/Logins.antt =====
-- modules/oidc: a login leaves the request and its route, and does not ask the upstream.
use s_ingress.Common.Texts.{Text, codes, text_eq}
use s_ingress.Common.{Result, Result-cases, arith, err, inl, inr, ok, refl}
use s_ingress.Modules.Contacts.{
  Same, Same-asks, Same-handle_error_page, Same-http_redirect, Same-refl, Same-trans,
}
use s_ingress.Modules.Oidc.Login.{
  Callback, add_set_cookie, after_page, answered, callback_failed, check_nonce,
  clear_callback_cookies, clear_http_cookie, finish_callback, handle_callback, handle_oidc_callback,
  handle_unauthorized, logged_in, set_http_cookie, start_login, with_info,
}
use s_ingress.Modules.Oidc.Session.{
  cookie_nonce, cookie_redirect, cookie_state, generate_jwt_cookie, get_cookie_name,
  handle_renewing_auth_info, renew_auth_info, renewed,
}
use s_ingress.Modules.Rules.{if_rule, option_rule}
use s_ingress.Modules.Services.{AuthInfo, IdToken, Services, Token}
use s_ingress.Proxy.Closures.{ClientConfig}
use s_ingress.Proxy.Context.{
  Cookie, Exit, Outside, RequestContext, asks, done, failed, identity_provider, panicked,
  set_response_cookie,
}

Same-renewed :
    (services : Services) (info : AuthInfo) (c : RequestContext)
    (r : Result Text (AuthInfo × Cookie))
    → Same c (renewed services info c r).1
unfolding set_response_cookie
Same-renewed services info c (ok (i, k)) = record {
  request = refl;
  client = refl;
  route = refl;
  quiet = refl;
}
Same-renewed services info c (err e) = Same-refl c

module _ (services : Services) (outside : Outside) where
  Same-add_set_cookie :
      (cookie : Cookie) (c : RequestContext) → Same c (add_set_cookie services outside cookie c)
  unfolding add_set_cookie
  Same-add_set_cookie cookie c = ground arith

  Same-set_http_cookie :
      (client : ClientConfig) (name v : Text) (c : RequestContext)
      → Same c (set_http_cookie services outside client name v c)
  unfolding set_http_cookie
  Same-set_http_cookie client name v c = ground arith

  Same-clear_http_cookie :
      (client : ClientConfig) (name : Text) (c : RequestContext)
      → Same c (clear_http_cookie services outside client name c)
  unfolding clear_http_cookie
  Same-clear_http_cookie client name c = ground arith

  Same-clear_callback_cookies :
      (client : ClientConfig) (c : RequestContext)
      → Same c (clear_callback_cookies services outside client c)
  unfolding clear_callback_cookies
  Same-clear_callback_cookies client c =
      Same-trans (Same-clear_http_cookie client cookie_redirect c) (
        Same-trans (Same-clear_http_cookie client cookie_nonce _)
          (Same-clear_http_cookie client cookie_state _))

  Same-start_login :
      (client : ClientConfig) (c : RequestContext)
      → Same c (start_login services outside client c).1
  unfolding start_login
  Same-start_login client c = option_rule (Same c) services.rand_state _ _ (Same-refl c) λ state.
      option_rule (Same c) services.rand_nonce _ _ (Same-refl c) λ nonce.
        Same-trans (Same-set_http_cookie client cookie_state state c) (
          Same-trans (Same-set_http_cookie client cookie_nonce nonce _) (
            Same-trans (Same-set_http_cookie client cookie_redirect _ _)
              (Same-http_redirect services _ 302 _)))

  pub Same-handle_unauthorized :
      (client : ClientConfig) (c : RequestContext)
      → Same c (handle_unauthorized services outside client c).1
  unfolding handle_unauthorized
  Same-handle_unauthorized client c =
      Same-trans (Same-clear_http_cookie client (get_cookie_name client) c) (
        if_rule (Same _) _ _ _ (Same-start_login client _) (Same-handle_error_page outside 401 _ _))

  Same-after_page :
      (c : RequestContext) (p : Exit × RequestContext)
      → Same c p.1
      → Same c (after_page services outside p).1
  Same-after_page c (done, c') h = h
  Same-after_page c (failed e, c') h = h
  Same-after_page c (panicked, c') h = h

  Same-with_info :
      (c : RequestContext) (r : Result Text AuthInfo) → Same c (with_info services outside c r).1
  Same-with_info c (ok info) = Same-refl c
  Same-with_info c (err e) = Same-refl c

  Same-check_nonce :
      (client : ClientConfig) (token : Token) (r : Result Text IdToken) (c : RequestContext)
      → Same c (check_nonce services outside client token r c).1
  unfolding check_nonce
  Same-check_nonce client token (err e) c = Same-refl c
  Same-check_nonce client token (ok id_token) c =
      option_rule (Same c) (services.cookie_of c.r.header cookie_nonce) _ _
        (Same-after_page c _ (Same-handle_error_page outside 400 _ c))
        λ nonce.
          if_rule (Same c) (text_eq id_token.nonce nonce) _ _ (Same-with_info c _)
            (Same-after_page c _ (Same-handle_error_page outside 400 _ c))

  Same-handle_oidc_callback :
      (client : ClientConfig) (c : RequestContext)
      → Same c (handle_oidc_callback services outside client c).1
  unfolding handle_oidc_callback
  Same-handle_oidc_callback client c =
      option_rule (Same c) (services.cookie_of c.r.header cookie_state) _ _
        (Same-after_page c _ (Same-handle_error_page outside 400 _ c))
        λ state.
          if_rule (Same c) (text_eq (services.query_get c.r.url (codes "state")) state) _ _
            (option_rule (Same c) (services.exchange client.name _) _ _ (Same-asks c _ refl)
              λ token. Same-trans (Same-asks c _ refl) (Same-check_nonce client token _ _))
            (Same-after_page c _ (Same-handle_error_page outside 400 _ c))

  Same-finish_callback :
      (client : ClientConfig) (o : Callback) (c : RequestContext)
      → Same c (finish_callback services outside client o c).1
  unfolding finish_callback
  Same-finish_callback client (callback_failed e) c = Same-refl c
  Same-finish_callback client answered c = Same-clear_callback_cookies client c
  Same-finish_callback client (logged_in info) c =
      elim (Result-cases (generate_jwt_cookie services client info c)) [
        | inl (e, h) ↦ rw (finish_callback, h) (Same-clear_callback_cookies client c)
        | inr (cookie, h) ↦
            rw (finish_callback, h)
              (Same-trans (Same-add_set_cookie cookie c) (
                Same-trans (Same-clear_callback_cookies client _)
                  (Same-http_redirect services _ 302 _)))
      ]

  pub Same-handle_callback :
      (client : ClientConfig) (c : RequestContext)
      → Same c (handle_callback services outside client c).1
  unfolding handle_callback
  Same-handle_callback client c =
      Same-trans (Same-handle_oidc_callback client c) (Same-finish_callback client _ _)

  pub Same-handle_renewing_auth_info :
      (client : ClientConfig) (info : AuthInfo) (c : RequestContext)
      → Same c (handle_renewing_auth_info services client info c).1
  unfolding handle_renewing_auth_info
  Same-handle_renewing_auth_info client info c = ground (
    arith,
    Same-asks c (identity_provider (codes "token")) refl,
    Same-renewed services info (asks c (identity_provider (codes "token")))
        (renew_auth_info services client info c),
  )
