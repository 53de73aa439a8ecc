-- ===== src/Modules/Creators/Complete.antt =====
-- modules/modules.go: what the list of all creators gives.
use s_ingress.Common.Texts.{Text, codes}
use s_ingress.Common.{Bool, List, Map, [], ap, false, refl, some, sym, ◌++◌, ◌∙◌, ◌∷◌, ◌≡◌}
use s_ingress.Config.Parse.{decoded}
use s_ingress.Kubernetes.{NamespacedName}
use s_ingress.Modules.Auth.{ForwardAuthConfig}
use s_ingress.Modules.Creators.Clients.{
  and_then-created, create_clients-remembers, created-injective, decoding-same, secrets_of,
}
use s_ingress.Modules.Creators.Made.Found.{
  AreFrom, HasAll, create_clients-AreFrom, create_clients-HasAll, empty-AreFrom,
}
use s_ingress.Modules.Creators.{
  Creator, ModuleLibrary, ModuleReconciler, OidcClient, create_all, create_clients,
  create_enforce_https, create_oidc, create_subrequest_auth, created, decoding, get_module_conf,
  module_creators, plain_creator, returning,
}
use s_ingress.Modules.Instances.{
  ModuleInstance, all_modules, enforce_https_module, oidc_module, subrequest_auth_module,
}
use s_ingress.Modules.Order.{made}
use s_ingress.Proxy.Closures.{ClientConfig}

module _ (library : ModuleLibrary) (reconciler : ModuleReconciler) where
  abbrev CreatorOf : Type 0
  CreatorOf = Map Text Text → Creator ModuleInstance

  -- Inversion of one round of the loop over the creators.
  create_all-cons :
      (creator : CreatorOf) (creators : List CreatorOf) (configs : Map Text Text)
      (u v : List NamespacedName) {ms : List ModuleInstance}
      → create_all library reconciler (creator ∷ creators) configs u ≡ created ms v
      → (m : ModuleInstance) × (w : List NamespacedName) × (creator configs u ≡ created m w)
        × (rest : List ModuleInstance) × (create_all library reconciler creators configs w
            ≡ created rest v)
        × (ms ≡ m ∷ rest)
  unfolding create_all
  create_all-cons creator creators configs u v e =
      let (m, w, made, more) = and_then-created (creator configs) _ u e in
      let (rest, x, others, last) =
        and_then-created (create_all library reconciler creators configs) _ w more in
      let (p, q) = created-injective last in (m, w, made, rest, rw q at others, sym p)

  -- The creators that never fail put their instance in front.
  create_all-plain :
      (m : ModuleInstance) (creators : List CreatorOf) (configs : Map Text Text)
      (u v : List NamespacedName) {ms : List ModuleInstance}
      → create_all library reconciler (plain_creator library reconciler m ∷ creators) configs u
        ≡ created ms v
      → (rest : List ModuleInstance) × (create_all library reconciler creators configs u
          ≡ created rest v)
        × (ms ≡ m ∷ rest)
  create_all-plain m creators configs u v e =
      let (m', w, made, rest, more, same) = create_all-cons _ creators configs u v e in
      let (p, q) = created-injective made in (rest, rw (sym q) at more, rw (sym p) at same)

  create_all-nil :
      (configs : Map Text Text) (u v : List NamespacedName) {ms : List ModuleInstance}
      → create_all library reconciler [] configs u ≡ created ms v
      → ([] ≡ ms) × (u ≡ v)
  unfolding create_all
  create_all-nil configs u v e = created-injective e

  create_enforce_https-created :
      (configs : Map Text Text) (u v : List NamespacedName) {m : ModuleInstance}
      → create_enforce_https library reconciler configs u ≡ created m v
      → (b : Bool) × (m ≡ enforce_https_module b)
        × (v ≡ u)
        × (get_module_conf configs (codes "security") library.decode_security false ≡ some b)
  unfolding create_enforce_https
  create_enforce_https-created configs u v e =
      let o = get_module_conf configs (codes "security") library.decode_security false in
      let (b, w, read, last) =
        and_then-created (decoding o) (λ b. returning (enforce_https_module b)) u e in
      let (p, q) = created-injective last in
      let (decoded, same) = decoding-same library reconciler o u w read in
      (b, sym p, sym q ∙ sym same, decoded)

  create_subrequest_auth-created :
      (configs : Map Text Text) (u v : List NamespacedName) {m : ModuleInstance}
      → create_subrequest_auth library reconciler configs u ≡ created m v
      → (a : Map Text ForwardAuthConfig) × (m ≡ subrequest_auth_module a)
        × (v ≡ u)
        × (get_module_conf configs (codes "auth") library.decode_auth [] ≡ some a)
  unfolding create_subrequest_auth
  create_subrequest_auth-created configs u v e =
      let o = get_module_conf configs (codes "auth") library.decode_auth [] in
      let (a, w, read, last) =
        and_then-created (decoding o) (λ a. returning (subrequest_auth_module a)) u e in
      let (p, q) = created-injective last in
      let (decoded, same) = decoding-same library reconciler o u w read in
      (a, sym p, sym q ∙ sym same, decoded)

  create_oidc-created :
      (configs : Map Text Text) (u v : List NamespacedName) {m : ModuleInstance}
      → create_oidc library reconciler configs u ≡ created m v
      → (raw : Map Text OidcClient) × (get_module_conf configs (codes "oidc") library.decode_oidc []
          ≡ some raw)
        × (clients : Map Text ClientConfig) × (domains : Map Text ClientConfig) × (m
            ≡ oidc_module clients domains)
        × (v ≡ u ++ secrets_of library reconciler raw)
        × AreFrom library reconciler raw (clients, domains)
        × HasAll library reconciler raw (clients, domains)
  unfolding create_oidc
  create_oidc-created configs u v e =
      let o = get_module_conf configs (codes "oidc") library.decode_oidc [] in
      let (raw, w, read, more) = and_then-created (decoding o) _ u e in
      let (found, x, made, last) =
        and_then-created (create_clients library reconciler raw ([], [])) _ w more in
      let (p, q) = created-injective last in
      let (decoded, same) = decoding-same library reconciler o u w read in
      (
        raw,
        decoded,
        found.0,
        found.1,
        sym p,
        sym q
            ∙ create_clients-remembers library reconciler raw ([], []) w x made
            ∙ ap (λ y. y ++ secrets_of library reconciler raw) (sym same),
        create_clients-AreFrom library reconciler raw raw ([], []) w x (λ n d i. i)
            (empty-AreFrom library reconciler raw) made,
        create_clients-HasAll library reconciler raw ([], []) w x made,
      )

cons-same :
    {m n : ModuleInstance} {xs ys zs : List ModuleInstance}
    → m ≡ n
    → xs ≡ ys
    → zs ≡ m ∷ xs
    → zs ≡ n ∷ ys
cons-same p q e = rw (e, p, q) refl

-- The modules that the creators give for the configurations of the modules.
pub record Creates (library : ModuleLibrary) (reconciler : ModuleReconciler)
    (configs : Map Text Text) (ms : List ModuleInstance) (used : List NamespacedName) : Type 0 where
  pub enforce : Bool
  pub auth : Map Text ForwardAuthConfig
  pub clients : Map Text ClientConfig
  pub domains : Map Text ClientConfig
  pub raw : Map Text OidcClient
  pub in_order : ms ≡ all_modules enforce auth clients domains
  pub security_read :
      get_module_conf configs (codes "security") library.decode_security false ≡ some enforce
  pub auth_read : get_module_conf configs (codes "auth") library.decode_auth [] ≡ some auth
  pub oidc_read : get_module_conf configs (codes "oidc") library.decode_oidc [] ≡ some raw
  pub clients_from : AreFrom library reconciler raw (clients, domains)
  pub clients_all : HasAll library reconciler raw (clients, domains)
  pub remembered : used ≡ secrets_of library reconciler raw

pub create_all-modules :
    (library : ModuleLibrary) (reconciler : ModuleReconciler) (configs : Map Text Text)
    (ms : List ModuleInstance) (used : List NamespacedName)
    → create_all library reconciler (module_creators library reconciler) configs []
      ≡ created ms used
    → Creates library reconciler configs ms used
unfolding module_creators all_modules
create_all-modules library reconciler configs ms used e =
    let (m0, w0, made0, ms0, e0, s0) = create_all-cons library reconciler _ _ configs [] used e in
    let (b, enforce, same0, b_read) =
      create_enforce_https-created library reconciler configs [] w0 made0 in
    let (ms1, e1, s1) = create_all-plain library reconciler _ _ configs w0 used e0 in
    let (ms2, e2, s2) = create_all-plain library reconciler _ _ configs w0 used e1 in
    let (m3, w3, made3, ms3, e3, s3) = create_all-cons library reconciler _ _ configs w0 used e2 in
    let (a, subrequest, same3, a_read) =
      create_subrequest_auth-created library reconciler configs w0 w3 made3 in
    let (m4, w4, made4, ms4, e4, s4) = create_all-cons library reconciler _ _ configs w3 used e3 in
    let (raw, decoded, clients, domains, oidc, grown, from, all) =
      create_oidc-created library reconciler configs w3 w4 made4 in
    let (ms5, e5, s5) = create_all-plain library reconciler _ _ configs w4 used e4 in
    let (ms6, e6, s6) = create_all-plain library reconciler _ _ configs w4 used e5 in
    let (ms7, e7, s7) = create_all-plain library reconciler _ _ configs w4 used e6 in
    let (ms8, e8, s8) = create_all-plain library reconciler _ _ configs w4 used e7 in
    let (p, q) = create_all-nil library reconciler configs w4 used e8 in
    record {
      enforce = b;
      auth = a;
      clients = clients;
      domains = domains;
      raw = raw;
      in_order =
          cons-same enforce
            (cons-same refl
              (cons-same refl
                (cons-same subrequest
                  (cons-same oidc
                    (cons-same refl
                      (cons-same refl (cons-same refl (cons-same refl (sym p) s8) s7) s6) s5)
                    s4)
                  s3)
                s2)
              s1)
            s0;
      security_read = b_read;
      auth_read = a_read;
      oidc_read = decoded;
      clients_from = from;
      clients_all = all;
      remembered = sym q ∙ grown ∙ ap (λ y. y ++ secrets_of library reconciler raw) (same3 ∙ same0);
    }
