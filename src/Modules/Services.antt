-- ===== src/Modules/Services.antt =====
-- What the modules take from outside of the repository: parsers and printers of the standard
-- library, third-party libraries, other servers, the clock and the source of randomness.
use s_ingress.Common.Int.{ℤ}
use s_ingress.Common.Net.{AddrPort, Prefix}
use s_ingress.Common.Texts.{Text}
use s_ingress.Common.{Bool, List, Option, ℕ}
use s_ingress.Proxy.Context.{Request, ResponseWriter, Url}
use s_ingress.Proxy.Headers.{Header}

-- modules/oidc/oidc.go, `authInfo`; times are in seconds since 1970.
pub record AuthInfo : Type 0 where
  pub subject : Text
  pub email : Text
  pub groups : List Text
  pub client_name : Text
  pub authenticated_at : ℤ
  pub token_expiry : ℤ
  pub access_token : Text
  pub refresh_token : Text

-- `oauth2.Token` with its extra field `id_token`, if that is a string.
pub record Token : Type 0 where
  pub access_token : Text
  pub refresh_token : Text
  pub expiry : ℤ
  pub id_token : Option Text

-- modules/oidc/middlewares.go, `claims`
pub record Claims : Type 0 where
  pub email : Text
  pub groups : List Text

-- `oidc.IDToken`; the claims are `none` where they do not parse.
pub record IdToken : Type 0 where
  pub subject : Text
  pub nonce : Text
  pub claims : Option Claims

-- How the handshake with the upstream of a websocket ends.
pub data Dial : Type 0 where
  bad_handshake dial_failed connected : Dial

-- `now` is the clock in nanoseconds since 1970: one reading serves all that one request asks.
pub record Services : Type 0 where
  pub parse_prefix : Text → Option Prefix
  pub basic_auth_of : Header → Option (Text × Text)
  pub htpasswd_is_valid : Text → Bool
  pub htpasswd_match : Text → Text → Text → Bool
  pub regexp_is_valid : Text → Bool
  pub regexp_match : Text → Text → Bool
  pub url_is_valid : Text → Bool
  pub url_reprinted : Text → Text
  pub url_string : Url → Text
  pub query_escape : Text → Text
  pub query_get : Url → Text → Text
  pub redirect_location : Request → Text → Text
  pub redirect_body : Text → ℕ → Text
  pub auth_response : Text → Header → Option ℕ
  pub is_web_socket_upgrade : Request → Bool
  pub dial : AddrPort → Url → Header → Dial
  pub upgrade : Request → ResponseWriter → Option Text × ResponseWriter
  pub cookie_of : Header → Text → Option Text
  pub decrypt : Text → Text → Option Text
  pub encrypt : Text → Text → Option Text
  pub compact_serialize : Text → Option Text
  pub marshal : AuthInfo → Text
  pub unmarshal : Text → Option AuthInfo
  pub now : ℤ
  pub exchange : Text → Text → Option Token
  pub renewed_token : Text → Token → Option Token
  pub verify : Text → Text → Option IdToken
  pub rand_state : Option Text
  pub rand_nonce : Option Text
  pub auth_code_url : Text → Text → Text → Text
