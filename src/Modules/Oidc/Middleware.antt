-- ===== src/Modules/Oidc/Middleware.antt =====
-- The closures of modules/oidc/middlewares.go and the instances of modules/oidc/module.go.
use s_ingress.Common.Texts.{Text, codes, text_eq, text_keys}
use s_ingress.Common.{
  Map, Option, Result, [], err, if◌then◌else◌, lookup, none, not, ok, some, ◌&&◌,
}
use s_ingress.Kubernetes.{Ingress}
use s_ingress.Modules.Oidc.Login.{handle_callback, handle_unauthorized}
use s_ingress.Modules.Oidc.Session.{
  Extracted, check_access, cookie_invalid, cookie_not_found, extract_auth_info, extracted,
  handle_renewing_auth_info, not_json, parse_ingress_annotations, validate_info,
}
use s_ingress.Modules.Security.{annotation_or_empty}
use s_ingress.Modules.Services.{AuthInfo, Services}
use s_ingress.Proxy.Closures.{ClientConfig, IngressConfig, MiddlewareFunc, oidc_ingress}
use s_ingress.Proxy.Context.{Handler, Outside, failed}
use s_ingress.Proxy.Errors.{forbidden}

abbrev pub config_annotation_key : Text
config_annotation_key = codes "s-ingress.oidq.dev/oidc"

abbrev pub callback_path : Text
callback_path = codes "/_oidc/callback"

-- `IngressMiddleware`, up to the closure.
unfoldable pub oidc_ingress_middleware :
    Map Text ClientConfig → Ingress → Result Text (Option MiddlewareFunc)
unfolding parse_ingress_annotations annotation_or_empty
oidc_ingress_middleware clients ingress =
    let conf_name = annotation_or_empty ingress config_annotation_key in
    if text_eq conf_name [] then ok none else elim (lookup conf_name clients) [
      | none ↦ err (codes "no configuration found")
      | some client ↦ ok (some (oidc_ingress client (parse_ingress_annotations ingress)))
    ]

module _ (services : Services) (outside : Outside) where
  -- A session that was extracted, after the attempt to renew it.
  unfoldable pub check_session : ClientConfig → IngressConfig → Handler → AuthInfo → Handler
  check_session client ingress next info c =
      if not (validate_info services client info)
      then handle_unauthorized services outside client c
      else if not (check_access ingress info)
      then forbidden outside (codes "no access to given resource") c
      else next c

  unfoldable pub with_session : ClientConfig → IngressConfig → Handler → Extracted → Handler
  unfolding check_session
  with_session client ingress next cookie_not_found c =
      handle_unauthorized services outside client c
  with_session client ingress next cookie_invalid c = handle_unauthorized services outside client c
  with_session client ingress next not_json c = (failed (codes "extract info"), c)
  with_session client ingress next (extracted info) c =
      let (info', c') = handle_renewing_auth_info services client info c in
      check_session client ingress next info' c'

  unfoldable pub run_oidc_ingress : ClientConfig → IngressConfig → Handler → Handler
  unfolding with_session
  run_oidc_ingress client ingress next c =
      with_session client ingress next (extract_auth_info services client c) c

  -- The closure of `RequestMiddleware`: only the callback of a known domain is taken.
  unfoldable pub run_oidc_request : Map Text ClientConfig → Handler → Handler
  run_oidc_request callback_domains next c = elim (lookup c.r.host callback_domains) [
    | none ↦ next c
    | some client ↦
        if text_eq c.r.method (codes "GET") && text_eq c.r.url.url_path callback_path
        then handle_callback services outside client c
        else next c
  ]
