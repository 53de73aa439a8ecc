-- ===== src/Modules/Oidc/Session.antt =====
-- modules/oidc/oidc.go, jwt.go and middlewares.go: cookies, the session and who may pass.
use s_ingress.Common.Int.{is_zero, ltbℤ, pos, quot, scale, ℤ, ◌+ℤ◌}
use s_ingress.Common.Texts.{Text, codes, split, text_eq, text_keys, trim_space}
use s_ingress.Common.{
  Bool, List, Result, [], any, contains, err, false, if◌then◌else◌, map, none, not, ok, some, true,
  ◌&&◌, ◌++◌, ◌>>=◌, ◌∷◌,
}
use s_ingress.Kubernetes.{Ingress}
use s_ingress.Modules.Security.{annotation_or_empty}
use s_ingress.Modules.Services.{AuthInfo, Claims, IdToken, Services, Token}
use s_ingress.Proxy.Closures.{ClientConfig, IngressConfig}
use s_ingress.Proxy.Context.{Cookie, RequestContext, asks, identity_provider, set_response_cookie}

abbrev pub cookie_state : Text
cookie_state = codes "_oidc_state"

abbrev pub cookie_nonce : Text
cookie_nonce = codes "_oidc_nonce"

abbrev pub cookie_redirect : Text
cookie_redirect = codes "_oidc_redirect"

-- `getCookieName`
abbrev pub get_cookie_name : ClientConfig → Text
get_cookie_name client = codes "_oidq_" ++ client.name

-- `parseAnnotationArray`
unfoldable pub parse_annotation_array : Text → List Text
parse_annotation_array raw_value =
    if text_eq raw_value [] then [] else map trim_space (split raw_value b',')

abbrev pub allow_group_key : Text
allow_group_key = codes "s-ingress.oidq.dev/oidc-require-group"

abbrev pub allow_email_key : Text
allow_email_key = codes "s-ingress.oidq.dev/oidc-require-email"

-- `parseIngressAnnotations`
unfoldable pub parse_ingress_annotations : Ingress → IngressConfig
unfolding parse_annotation_array annotation_or_empty
parse_ingress_annotations ingress = record {
  allowed_groups = parse_annotation_array (annotation_or_empty ingress allow_group_key);
  allowed_emails = parse_annotation_array (annotation_or_empty ingress allow_email_key);
}

abbrev is_nil {ℓ} : {A : Type ℓ} → List A → Bool
is_nil [] = true
is_nil (x ∷ xs) = false

-- `checkAccess`
unfoldable pub check_access : IngressConfig → AuthInfo → Bool
check_access ingress info =
    if is_nil ingress.allowed_emails && is_nil ingress.allowed_groups
    then true
    else if contains ingress.allowed_emails info.email
    then true
    else any (λ group. contains ingress.allowed_groups group) info.groups

abbrev pub nanoseconds : ℤ → ℤ
nanoseconds seconds = scale 1_000_000_000 seconds

-- `renewOffset`, in nanoseconds.
abbrev pub renew_offset : ℤ
renew_offset = pos 300_000_000_000

-- The outcomes of `extractAuthInfo`: the two errors that the caller tells apart, and the others.
pub data Extracted : Type 0 where
  cookie_not_found cookie_invalid not_json : Extracted
  extracted : AuthInfo → Extracted

module _ (services : Services) where
  open services use {now, cookie_of, decrypt, encrypt, compact_serialize, marshal, unmarshal}
  open services use {verify, renewed_token}

  -- `validateInfo`
  unfoldable pub validate_info : ClientConfig → AuthInfo → Bool
  validate_info client info =
      if not (text_eq info.client_name client.name)
      then false
      else if not (is_zero client.expiration)
      then ltbℤ now (nanoseconds info.authenticated_at +ℤ client.expiration)
      else ltbℤ now (nanoseconds info.token_expiry)

  -- `extractAuthInfo`
  unfoldable pub extract_auth_info : ClientConfig → RequestContext → Extracted
  extract_auth_info client c = elim (cookie_of c.r.header (get_cookie_name client)) [
    | none ↦ cookie_not_found
    | some cookie ↦ elim (decrypt client.encryption_key cookie) [
      | none ↦ cookie_invalid
      | some plain ↦ elim (unmarshal plain) [ none ↦ not_json | some info ↦ extracted info ]
    ]
  ]

  -- `generateJwtCookie`
  unfoldable pub generate_jwt_cookie : ClientConfig → AuthInfo → RequestContext → Result Text Cookie
  generate_jwt_cookie client info c = elim (encrypt client.encryption_key (marshal info)) [
    | none ↦ err (codes "encrypt info")
    | some encrypted ↦ elim (compact_serialize encrypted) [
      | none ↦ err (codes "serialize info")
      | some serialized ↦ ok (record {
        name = get_cookie_name client;
        value_text = serialized;
        max_age = quot (quot client.expiration 1_000_000) 1000;
        secure = c.r.tls;
        http_only = true;
        cookie_path = codes "/";
        domain = client.cookie_domain;
      })
    ]
  ]

  -- `oauthToAuthInfo` without the nonce: what the verified token says.
  abbrev info_of : ClientConfig → Token → ℤ → IdToken → Claims → AuthInfo
  info_of client token auth_at id_token claims = record {
    subject = id_token.subject;
    email = claims.email;
    groups = claims.groups;
    client_name = client.name;
    authenticated_at = auth_at;
    token_expiry = token.expiry;
    access_token = token.access_token;
    refresh_token = token.refresh_token;
  }

  unfoldable pub verified_id_token : ClientConfig → Token → Result Text IdToken
  verified_id_token client token = elim token.id_token [
    | none ↦ err (codes "no id_token field found in oauth2 token")
    | some raw_id_token ↦ elim (verify client.name raw_id_token) [
      | none ↦ err (codes "could not verify id token")
      | some id_token ↦ ok id_token
    ]
  ]

  unfoldable pub claimed_info : ClientConfig → Token → ℤ → IdToken → Result Text AuthInfo
  claimed_info client token auth_at id_token = elim id_token.claims [
    | none ↦ err (codes "could not parse id token claims")
    | some claims ↦ ok (info_of client token auth_at id_token claims)
  ]

  -- `renewAuthInfo`, up to the cookie.
  unfoldable pub renew_auth_info :
      ClientConfig → AuthInfo → RequestContext → Result Text (AuthInfo × Cookie)
  unfolding verified_id_token claimed_info generate_jwt_cookie
  renew_auth_info client info c =
      elim (renewed_token client.name (record {
        access_token = info.access_token;
        refresh_token = info.refresh_token;
        expiry = info.token_expiry;
        id_token = none;
      })) [
        | none ↦ err (codes "failed to renew token")
        | some new_token ↦ verified_id_token client new_token >>= λ id_token.
            claimed_info client new_token info.authenticated_at id_token >>= λ new_info.
            generate_jwt_cookie client new_info c >>= λ cookie. ok (new_info, cookie)
      ]

  abbrev pub renewed :
      AuthInfo → RequestContext → Result Text (AuthInfo × Cookie) → AuthInfo × RequestContext
  renewed info c (err e) = (info, c)
  renewed info c (ok (new_info, cookie)) = (new_info, set_response_cookie c cookie)

  -- `handleRenewingAuthInfo`: a session that cannot be renewed stays as it is.
  unfoldable pub handle_renewing_auth_info :
      ClientConfig → AuthInfo → RequestContext → AuthInfo × RequestContext
  unfolding renew_auth_info
  handle_renewing_auth_info client info c =
      if text_eq info.refresh_token []
      then (info, c)
      else if ltbℤ (now +ℤ renew_offset) (nanoseconds info.token_expiry)
      then (info, c)
      else renewed info (asks c (identity_provider (codes "token"))) (renew_auth_info client info c)
