-- ===== src/Proxy/Closures.antt =====
-- The type `MiddlewareFunc` of pkg/proxy/context.go. Its values are the closures that the modules
-- return; a closure is here the constructor for its body, with the variables that it captures.
use s_ingress.Common.Int.{ℤ}
use s_ingress.Common.Net.{Prefix}
use s_ingress.Common.Texts.{Text}
use s_ingress.Common.{List, Map}

-- modules/oidc/module.go, `clientConfig`. The verifier, the OAuth2 configuration and the encrypter
-- belong to third-party libraries, and are found by the client's name. Durations are nanoseconds.
pub record ClientConfig : Type 0 where
  pub name : Text
  pub callback_domain : Text
  pub cookie_domain : Text
  pub expiration : ℤ
  pub encryption_key : Text

-- modules/oidc/middlewares.go, `ingressConfig`. A nil slice is the empty list: the annotations
-- that are there give at least one element.
pub record IngressConfig : Type 0 where
  pub allowed_groups : List Text
  pub allowed_emails : List Text

pub data MiddlewareFunc : Type 0 where
  enforce_https_request : MiddlewareFunc
  enforce_https_ingress : MiddlewareFunc
  ip_auth : (allowlist : List Prefix) → MiddlewareFunc
  basic_auth : (realm htpasswd : Text) → MiddlewareFunc
  subrequest_auth : (auth_url sign_in_url : Text) → MiddlewareFunc
  oidc_request : (callback_domains : Map Text ClientConfig) → MiddlewareFunc
  oidc_ingress : ClientConfig → IngressConfig → MiddlewareFunc
  deny_route : (pattern_text : Text) → MiddlewareFunc
  websocket : MiddlewareFunc
  custom_header : (headers : List Text) → MiddlewareFunc
  upstream_header : (headers : List Text) → MiddlewareFunc
