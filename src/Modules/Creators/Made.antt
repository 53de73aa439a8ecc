-- ===== src/Modules/Creators/Made.antt =====
-- modules/oidc/module.go: the clients that `ModuleOidc` makes of its configuration.
pub mod Found
use mathlib.Core.Path.{subst}
use s_ingress.Common.Int.{ℤ}
use s_ingress.Common.Texts.{Text, codes, text_eq, text_keys}
use s_ingress.Common.{
  Bool-cases, List, Option, Option-cases, [], ap, inl, inr, none, refl, some, sym, ◌∙◌, ◌≡◌,
}
use s_ingress.Controller.Certificates.{entry_or_nil}
use s_ingress.Kubernetes.{NamespacedName, Secret, name_keys}
use s_ingress.Modules.Creators.Clients.{and_then-created, created-injective, secret_of}
use s_ingress.Modules.Creators.{
  ModuleLibrary, ModuleReconciler, OidcClient, client_of, client_with_key, created, default_str,
  get_client_config, get_secret_remembered, not_created, process_ended,
}
use s_ingress.Proxy.Closures.{ClientConfig}

module _ (library : ModuleLibrary) (reconciler : ModuleReconciler) where
  -- A client as the configuration of its name describes it, with the key from its secret.
  pub record IsClientOf (name : Text) (conf : OidcClient) (c : ClientConfig) : Type 0 where
    pub named : c.name ≡ name
    pub answers : c.callback_domain ≡ conf.callback_domain
    pub remembers : c.cookie_domain ≡ conf.cookie_domain
    pub expires :
        library.parse_duration (default_str conf.auth_expiration (codes "0")) ≡ some c.expiration
    pub secret : Secret
    pub was_read : reconciler.read_secret (secret_of library reconciler conf) ≡ some secret
    pub keyed : c.encryption_key ≡ library.sha256 (entry_or_nil (codes "JWT_SECRET") secret)

  client_of-made :
      (name : Text) (conf : OidcClient) (key : Text) (o : Option ℤ) (u v : List NamespacedName)
      {c : ClientConfig} (secret : Secret)
      → o ≡ library.parse_duration (default_str conf.auth_expiration (codes "0"))
      → reconciler.read_secret (secret_of library reconciler conf) ≡ some secret
      → key ≡ library.sha256 (entry_or_nil (codes "JWT_SECRET") secret)
      → client_of library reconciler name conf key o u ≡ created c v
      → IsClientOf name conf c
  client_of-made name conf key none u v s p r k e = cc
  client_of-made name conf key (some x) u v {c} s p r k e =
      let same = (created-injective e).0 in
      subst (IsClientOf name conf) same (record {
        named = refl;
        answers = refl;
        remembers = refl;
        expires = sym p;
        secret = s;
        was_read = r;
        keyed = k;
      })

  client_with_key-made :
      (name : Text) (conf : OidcClient) (key : Text) (u v : List NamespacedName) {c : ClientConfig}
      (secret : Secret)
      → reconciler.read_secret (secret_of library reconciler conf) ≡ some secret
      → key ≡ library.sha256 (entry_or_nil (codes "JWT_SECRET") secret)
      → client_with_key library reconciler name conf key u ≡ created c v
      → IsClientOf name conf c
  client_with_key-made name conf key u v s r k e =
      elim (Bool-cases (library.provider_is_found conf.issuer_url)) [
        | inr n ↦ let bad : process_ended ≡ created _ v = rw n at e in cc
        | inl y ↦ elim (Bool-cases (library.encrypter_is_valid key)) [
          | inr n ↦ let bad : not_created _ ≡ created _ v = rw (y, n) at e in cc
          | inl z ↦
              let o = library.parse_duration (default_str conf.auth_expiration (codes "0")) in
              client_of-made name conf key o u v s refl r k (rw (y, z) at e)
        ]
      ]

  get_secret_remembered-read :
      (n : NamespacedName) (u v : List NamespacedName) {secret : Secret}
      → get_secret_remembered library reconciler n u ≡ created secret v
      → reconciler.read_secret n ≡ some secret
  unfolding get_secret_remembered
  get_secret_remembered-read n u v e = elim (Option-cases (reconciler.read_secret n)) [
    | inl h ↦ let bad : not_created _ ≡ created _ v = rw (h, get_secret_remembered) at e in cc
    | inr (s, h) ↦ h ∙ ap some ((created-injective (rw (h, get_secret_remembered) at e)).0)
  ]

  pub get_client_config-made :
      (name : Text) (conf : OidcClient) (u v : List NamespacedName) {c : ClientConfig}
      → get_client_config library reconciler name conf u ≡ created c v
      → IsClientOf name conf c
  unfolding get_client_config
  get_client_config-made name conf u v e =
      let (secret, w, read, more) =
        and_then-created
          (get_secret_remembered library reconciler (secret_of library reconciler conf)) _ u e in
      let found = get_secret_remembered-read (secret_of library reconciler conf) u w read in
      elim (Bool-cases (text_eq (entry_or_nil (codes "JWT_SECRET") secret) [])) [
        | inl y ↦ let bad : not_created _ ≡ created _ v = rw y at more in cc
        | inr n ↦ client_with_key-made name conf _ w v secret found refl (rw n at more)
      ]
