-- ===== src/Modules/Oidc/Access.antt =====
-- Who has access behind a login, and what a login requires.
use s_ingress.Common.Int.{quot}
use s_ingress.Common.Texts.{Text, codes, text_eq, text_eq_iff, text_keys}
use s_ingress.Common.{
  Bool-cases, In, In-any, In-contains, List, Option-cases, Result, [], any, any-In, ap, arith,
  contains, contains-In, err, inl, inr, ok, refl, some, sym, true, ◌↔◌, ◌∙◌, ◌≡◌, ◌≢◌, ◌⊎◌,
}
use s_ingress.Modules.Oidc.Login.{
  Callback, after_page, callback_failed, check_nonce, handle_oidc_callback, logged_in, with_info,
}
use s_ingress.Modules.Oidc.Session.{
  check_access, claimed_info, cookie_nonce, cookie_state, verified_id_token,
}
use s_ingress.Modules.Services.{AuthInfo, IdToken, Services, Token}
use s_ingress.Proxy.Closures.{ClientConfig, IngressConfig}
use s_ingress.Proxy.Context.{
  Exit, Outside, RequestContext, asks, done, failed, identity_provider, panicked,
}

any_group_iff :
    (allowed groups : List Text)
    → (any (λ group. contains allowed group) groups ≡ true)
      ↔ ((group : Text) × In group groups × In group allowed)
any_group_iff allowed groups = (
  λ e. let (g, i, h) = any-In _ groups e in (g, i, contains-In allowed g h),
  λ (g, i, j). In-any _ i (In-contains j),
)

-- `checkAccess` lets a session pass exactly where the ingress names neither addresses nor groups,
-- or where it names the address of the session or one of its groups.
pub check_access_iff :
    (ingress : IngressConfig) (info : AuthInfo)
    → (check_access ingress info ≡ true) ↔ (
        ((ingress.allowed_emails ≡ []) × (ingress.allowed_groups ≡ []))
        ⊎ (In info.email ingress.allowed_emails
            ⊎ ((group : Text) × In group info.groups × In group ingress.allowed_groups)))
unfolding check_access
check_access_iff ingress info = (
  λ e. elim (Bool-cases (contains ingress.allowed_emails info.email)) [
    | inl m ↦ inr (inl (contains-In ingress.allowed_emails info.email m))
    | inr m ↦ elim (Bool-cases (any (λ group. contains ingress.allowed_groups group) info.groups)) [
      | inl g ↦ inr (inr ((any_group_iff ingress.allowed_groups info.groups).0 g))
      | inr g ↦ inl (ground (arith, e, m, g))
    ]
  ],
  elim [
    | inl h ↦ ground (arith, h)
    | inr (inl m) ↦ let k = In-contains m in ground (arith, k)
    | inr (inr g) ↦
        let k = (any_group_iff ingress.allowed_groups info.groups).1 g in ground (arith, k)
  ],
)

module _ (services : Services) (outside : Outside) (client : ClientConfig)
    (c : RequestContext) where
  -- What a login rests on.
  pub record IsVerified (info : AuthInfo) : Type 0 where
    pub state : Text
    pub remembered : services.cookie_of c.r.header cookie_state ≡ some state
    pub returned : services.query_get c.r.url (codes "state") ≡ state
    pub token : Token
    pub exchanged :
        services.exchange client.name (services.query_get c.r.url (codes "code")) ≡ some token
    pub id_token : IdToken
    pub signed : verified_id_token services client token ≡ ok id_token
    pub own : services.cookie_of c.r.header cookie_nonce ≡ some id_token.nonce
    pub claimed :
        claimed_info services client token (quot services.now 1_000_000_000) id_token ≡ ok info

  after_page-ne-logged_in :
      (p : Exit × RequestContext) (info : AuthInfo)
      → (after_page services outside p).0 ≢ logged_in info
  after_page-ne-logged_in (done, d) info e = cc
  after_page-ne-logged_in (failed t, d) info e = cc
  after_page-ne-logged_in (panicked, d) info e = cc

  abbrev logs_in : Result Text AuthInfo → RequestContext → Callback
  logs_in r d = (with_info services outside d r).0

  logs_in-eq :
      (r : Result Text AuthInfo) (d : RequestContext) (info : AuthInfo)
      → logs_in r d ≡ logged_in info
      → r ≡ ok info
  logs_in-eq (ok i) d info e = cc
  logs_in-eq (err t) d info e = cc

  -- What the check of the nonce requires.
  record IsOwn (token : Token) (r : Result Text IdToken) (d : RequestContext) (info : AuthInfo)
      : Type 0 where
    id_token : IdToken
    signed : r ≡ ok id_token
    own : services.cookie_of d.r.header cookie_nonce ≡ some id_token.nonce
    claimed :
        claimed_info services client token (quot services.now 1_000_000_000) id_token ≡ ok info

  check_nonce-IsOwn :
      (token : Token) (r : Result Text IdToken) (d : RequestContext) (info : AuthInfo)
      → (check_nonce services outside client token r d).0 ≡ logged_in info
      → IsOwn token r d info
  unfolding check_nonce
  check_nonce-IsOwn token (err t) d info e = cc
  check_nonce-IsOwn token (ok id_token) d info e =
      elim (Option-cases (services.cookie_of d.r.header cookie_nonce)) [
        | inl n ↦ absurd (after_page-ne-logged_in _ info (rw (check_nonce, n) at e))
        | inr (nonce, n) ↦ elim (Bool-cases (text_eq id_token.nonce nonce)) [
          | inr m ↦ absurd (after_page-ne-logged_in _ info (rw (check_nonce, n, m) at e))
          | inl m ↦
              let same : id_token.nonce ≡ nonce = (text_eq_iff _ _).0 m in
              record {
                id_token = id_token;
                signed = refl;
                own = n ∙ ap some (sym same);
                claimed = logs_in-eq _ d info (rw (check_nonce, n, m) at e);
              }
        ]
      ]

  -- A callback logs a user in only where the state in the URL is that of the cookie, the provider
  -- gives a token for the code with an identity token that verifies, and the nonce of that token
  -- is that of the cookie.
  pub handle_oidc_callback-IsVerified :
      (info : AuthInfo)
      → (handle_oidc_callback services outside client c).0 ≡ logged_in info
      → IsVerified info
  unfolding handle_oidc_callback asks
  handle_oidc_callback-IsVerified info e =
      elim (Option-cases (services.cookie_of c.r.header cookie_state)) [
        | inl n ↦ absurd (after_page-ne-logged_in _ info (rw (handle_oidc_callback, n) at e))
        | inr (state, n) ↦
            elim (Bool-cases (text_eq (services.query_get c.r.url (codes "state")) state)) [
              | inr m ↦
                  absurd (after_page-ne-logged_in _ info (rw (handle_oidc_callback, n, m) at e))
              | inl m ↦
                  elim (Option-cases
                    (services.exchange client.name (services.query_get c.r.url (codes "code")))) [
                      | inl x ↦
                          let bad : callback_failed (codes "could not exchange code for token")
                              ≡ logged_in info =
                            rw (handle_oidc_callback, n, m, x) at e in
                          cc
                      | inr (token, x) ↦
                          let own =
                            check_nonce-IsOwn token (verified_id_token services client token)
                              (asks c (identity_provider (codes "exchange"))) info
                              (rw (handle_oidc_callback, n, m, x) at e) in
                          record {
                            state = state;
                            remembered = n;
                            returned = (text_eq_iff _ _).0 m;
                            token = token;
                            exchanged = x;
                            id_token = own.id_token;
                            signed = own.signed;
                            own = own.own;
                            claimed = own.claimed;
                          }
                    ]
            ]
      ]
