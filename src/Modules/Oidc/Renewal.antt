-- ===== src/Modules/Oidc/Renewal.antt =====
-- modules/oidc: the session in the cookie, and its renewal.
use mathlib.Core.Path.{subst}
use s_ingress.Common.Int.{is_zero, ltbℤ, ◌+ℤ◌}
use s_ingress.Common.Texts.{Text, codes, text_eq}
use s_ingress.Common.{
  >>=-eq-ok, Bool-cases, Option-cases, Result, Result-cases, [], ap, err, false, inl, inr, none, ok,
  ok-injective, refl, some, sym, ◌≡◌,
}
use s_ingress.Modules.Oidc.Session.{
  claimed_info, extract_auth_info, extracted, generate_jwt_cookie, get_cookie_name,
  handle_renewing_auth_info, nanoseconds, renew_auth_info, renew_offset, renewed, validate_info,
  verified_id_token,
}
use s_ingress.Modules.Order.{made}
use s_ingress.Modules.Services.{AuthInfo, IdToken, Services, Token}
use s_ingress.Proxy.Closures.{ClientConfig}
use s_ingress.Proxy.Context.{Cookie, RequestContext}

module _ (services : Services) (client : ClientConfig) where
  -- A session of the same login at the same client.
  abbrev pub IsSameLogin : AuthInfo → AuthInfo → Type 0
  IsSameLogin info info' =
      (info'.authenticated_at ≡ info.authenticated_at) × (info'.client_name ≡ client.name)

  claimed_info-IsSameLogin :
      (token : Token) (info : AuthInfo) (id_token : IdToken) (info' : AuthInfo)
      → claimed_info services client token info.authenticated_at id_token ≡ ok info'
      → IsSameLogin info info'
  unfolding claimed_info
  claimed_info-IsSameLogin token info id_token info' e = elim (Option-cases id_token.claims) [
    | inl n ↦ let bad : err _ ≡ ok info' = rw (n, claimed_info) at e in cc
    | inr (claims, n) ↦
        let same = ok-injective (rw (n, claimed_info) at e) in
        (ap (λ i. i.authenticated_at) (sym same), ap (λ i. i.client_name) (sym same))
  ]

  abbrev token_of : AuthInfo → Token
  token_of info = record {
    access_token = info.access_token;
    refresh_token = info.refresh_token;
    expiry = info.token_expiry;
    id_token = none;
  }

  renew_auth_info-IsSameLogin :
      (info : AuthInfo) (c : RequestContext) (info' : AuthInfo) (cookie : Cookie)
      → renew_auth_info services client info c ≡ ok (info', cookie)
      → IsSameLogin info info'
  unfolding renew_auth_info
  renew_auth_info-IsSameLogin info c info' cookie e =
      elim (Option-cases (services.renewed_token client.name (token_of info))) [
        | inl n ↦
            let bad : ◌≡◌ {A = Result Text (AuthInfo × Cookie)}
                (err (codes "failed to renew token")) (ok (info', cookie)) =
              rw (n, renew_auth_info) at e in
            cc
        | inr (token, n) ↦
            let (id_token, _, e1) =
              >>=-eq-ok (verified_id_token services client token) _
                (rw (n, renew_auth_info) at e) in
            let (new_info, claimed, e2) =
              >>=-eq-ok (claimed_info services client token info.authenticated_at id_token) _ e1 in
            let (cookie', _, e3) =
              >>=-eq-ok (generate_jwt_cookie services client new_info c) _ e2 in
            let same : new_info ≡ info' = ap (λ p. p.0) (ok-injective e3) in
            subst (IsSameLogin info) same
              (claimed_info-IsSameLogin token info id_token new_info claimed)
      ]

  renewed-IsSameLogin :
      (info : AuthInfo) (c c' : RequestContext)
      → info.client_name ≡ client.name
      → IsSameLogin info (renewed services info c' (renew_auth_info services client info c)).0
  renewed-IsSameLogin info c c' own = elim (Result-cases (renew_auth_info services client info c)) [
    | inl (m, e) ↦ rw e (refl, own)
    | inr ((info', cookie), e) ↦ rw e (renew_auth_info-IsSameLogin info c info' cookie e)
  ]

  handle_renewing_auth_info-IsSameLogin :
      (info : AuthInfo) (c : RequestContext)
      → info.client_name ≡ client.name
      → IsSameLogin info (handle_renewing_auth_info services client info c).0
  unfolding handle_renewing_auth_info
  handle_renewing_auth_info-IsSameLogin info c own =
      elim (Bool-cases (text_eq info.refresh_token [])) [
        | inl e ↦ rw e (refl, own)
        | inr e ↦
            elim (Bool-cases
              (ltbℤ (services.now +ℤ renew_offset) (nanoseconds info.token_expiry))) [
                | inl f ↦ rw (e, f) (refl, own)
                | inr f ↦ rw (e, f) (renewed-IsSameLogin info c _ own)
              ]
      ]

-- Where a client has an expiration, a renewal of a session of that client neither prolongs nor
-- shortens it: the session is valid after the attempt to renew it exactly if it was before.
pub handle_renewing_auth_info-validity :
    (services : Services) (client : ClientConfig) (info : AuthInfo) (c : RequestContext)
    → is_zero client.expiration ≡ false
    → info.client_name ≡ client.name
    → validate_info services client (handle_renewing_auth_info services client info c).0
      ≡ validate_info services client info
unfolding validate_info
handle_renewing_auth_info-validity services client info c lasting own =
    let (at_login, name_kept) = handle_renewing_auth_info-IsSameLogin services client info c own in
    rw (at_login, name_kept, own, lasting) refl

-- The laws of the libraries that a cookie is made with: what was encrypted and serialized decrypts
-- to itself, and the session that was printed as JSON is read back.
pub record IsLossless (services : Services) (info : AuthInfo) : Type 0 where
  pub decrypts :
      (key plain encrypted serialized : Text)
      → services.encrypt key plain ≡ some encrypted
      → services.compact_serialize encrypted ≡ some serialized
      → services.decrypt key serialized ≡ some plain
  pub unmarshals : services.unmarshal (services.marshal info) ≡ some info

-- A request that brings back the cookie that was made for a session, under the name of the cookie,
-- has that session again.
pub extract_auth_info-generate_jwt_cookie :
    (services : Services) (client : ClientConfig) (info : AuthInfo) (c c' : RequestContext)
    (cookie : Cookie)
    → IsLossless services info
    → generate_jwt_cookie services client info c ≡ ok cookie
    → services.cookie_of c'.r.header cookie.name ≡ some cookie.value_text
    → extract_auth_info services client c' ≡ extracted info
unfolding generate_jwt_cookie extract_auth_info
extract_auth_info-generate_jwt_cookie services client info c c' cookie laws made sent =
    elim (Option-cases (services.encrypt client.encryption_key (services.marshal info))) [
      | inl e ↦ let bad : err _ ≡ ok cookie = rw (e, generate_jwt_cookie) at made in cc
      | inr (encrypted, e) ↦ elim (Option-cases (services.compact_serialize encrypted)) [
        | inl f ↦ let bad : err _ ≡ ok cookie = rw (e, generate_jwt_cookie, f) at made in cc
        | inr (serialized, f) ↦
            let same = ok-injective (rw (e, generate_jwt_cookie, f) at made) in
            let back : services.cookie_of c'.r.header (get_cookie_name client) ≡ some serialized =
              subst (λ k. services.cookie_of c'.r.header k.name ≡ some k.value_text) (sym same)
                sent in
            rw
              (
                back,
                laws.decrypts client.encryption_key (services.marshal info) encrypted serialized e
                    f,
                laws.unmarshals,
                extract_auth_info,
              )
              refl
      ]
    ]
