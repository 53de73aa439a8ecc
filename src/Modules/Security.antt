-- ===== src/Modules/Security.antt =====
-- modules/security/https.go and modules/security/deny_route.go
use s_ingress.Common.Texts.{Text, codes, text_eq, text_keys}
use s_ingress.Common.{Bool, Option, Result, [], err, if◌then◌else◌, lookup, none, ok, some, true}
use s_ingress.Kubernetes.{Ingress}
use s_ingress.Modules.Redirect.{http_redirect}
use s_ingress.Modules.Services.{Services}
use s_ingress.Proxy.Closures.{
  MiddlewareFunc, deny_route, enforce_https_ingress, enforce_https_request,
}
use s_ingress.Proxy.Context.{Handler, Outside, done, set_response_header}
use s_ingress.Proxy.Errors.{forbidden}

module _ (services : Services) (outside : Outside) where
  open services use {url_string, regexp_match}

  unfoldable pub redirect_https : Handler
  redirect_https c =
      let new_url = record c.r.url { scheme = codes "https"; host = c.r.host } in
      (done, http_redirect services (url_string new_url) 301 c)

  -- The closure of `RequestMiddleware`.
  unfoldable pub run_enforce_https_request : Handler → Handler
  unfolding redirect_https
  run_enforce_https_request next c =
      if c.r.tls
      then next (
          set_response_header c (codes "Strict-Transport-Security")
            (codes "max-age=31536000; includeSubDomains"))
      else redirect_https c

  -- The closure of `IngressMiddleware`.
  unfoldable pub run_enforce_https_ingress : Handler → Handler
  unfolding redirect_https
  run_enforce_https_ingress next c = if c.r.tls then next c else redirect_https c

  unfoldable pub run_deny_route : Text → Handler → Handler
  run_deny_route deny_regexp next c =
      if regexp_match deny_regexp c.r.url.url_path
      then forbidden outside (codes "denied") c
      else next c

abbrev pub enforce_https_annotation : Text
enforce_https_annotation = codes "s-ingress.oidq.dev/enforce-https"

abbrev pub deny_route_annotation : Text
deny_route_annotation = codes "s-ingress.oidq.dev/deny-route"

-- `ingress.Annotations[key]`, "" where there is none.
unfoldable pub annotation_or_empty : Ingress → Text → Text
annotation_or_empty ingress key = elim (lookup key ingress.annotations) [ none ↦ [] | some v ↦ v ]

unfoldable pub enforce_https_request_middleware : Bool → Option MiddlewareFunc
enforce_https_request_middleware default_enforce_https =
    if default_enforce_https then some enforce_https_request else none

unfoldable pub enforce_https_ingress_middleware : Bool → Ingress → Option MiddlewareFunc
unfolding annotation_or_empty
enforce_https_ingress_middleware default_enforce_https ingress =
    let do_redirect =
      if text_eq (annotation_or_empty ingress enforce_https_annotation) (codes "true")
      then true
      else default_enforce_https in
    if do_redirect then some enforce_https_ingress else none

unfoldable pub deny_route_middleware : Services → Ingress → Result Text (Option MiddlewareFunc)
unfolding annotation_or_empty
deny_route_middleware services ingress =
    let deny_annotation = annotation_or_empty ingress deny_route_annotation in
    if text_eq deny_annotation []
    then ok none
    else if services.regexp_is_valid deny_annotation
    then ok (some (deny_route deny_annotation))
    else err (codes "error compiling deny route regexp")
