-- ===== src/Controller/ServerNames.antt =====
-- pkg/controller/converter.go and pkg/proxy/proxy_http.go: the certificate of a server name.
use mathlib.Core.Path.{subst}
use s_ingress.Common.Texts.{Text, text_eq, text_eq_iff, text_keys}
use s_ingress.Common.{
  Bool-cases, Map, Option, Option-cases, [], ap, if◌then◌else◌, inl, inr, insert, lookup,
  lookup-insert, none, ok, refl, some, sym, ◌∙◌, ◌∷◌, ◌≡◌,
}
use s_ingress.Controller.Provenance.{merged_from}
use s_ingress.Controller.ProxyConfig.{
  base_config, get_proxy_config, merge_certificates, merge_entries, merge_entry,
}
use s_ingress.Controller.State.{IngressEntry, K8sState}
use s_ingress.Kubernetes.{NamespacedName, name_keys}
use s_ingress.Proxy.Listeners.{get_certificate}
use s_ingress.Proxy.Routing.{RoutingConfig, value}

-- The second where the first is missing.
abbrev pub or_else : Option Text → Option Text → Option Text
or_else (some a) other = some a
or_else none other = other

-- The certificate that the configuration of an ingress has for a name.
abbrev pub certificate_of : Text → IngressEntry → Option Text
certificate_of name entry = elim entry.configuration [
  | none ↦ none
  | some conf ↦ lookup name conf.tls_certificates
]

-- The certificate of the first ingress, in the order of the map, that has one for the name.
abbrev pub first_certificate : Text → Map NamespacedName IngressEntry → Option Text
first_certificate name [] = none
first_certificate name ((_, entry) ∷ more) =
    or_else (certificate_of name entry) (first_certificate name more)

or_else_assoc : (a b c : Option Text) → or_else (or_else a b) c ≡ or_else a (or_else b c)
or_else_assoc none b c = refl
or_else_assoc (some a) b c = refl

or_else-none : (a : Option Text) → or_else a none ≡ a
or_else-none none = refl
or_else-none (some a) = refl

module _ (name : Text) where
  abbrev entry_at : Text → Text → Option Text
  entry_at host certificate = if text_eq host name then some certificate else none

  lookup-keep_first :
      (host certificate : Text) (certificates : Map Text Text)
      → lookup name (elim (lookup host certificates) [
        | some _ ↦ certificates
        | none ↦ insert host certificate certificates
      ])
        ≡ or_else (lookup name certificates) (entry_at host certificate)
  lookup-keep_first host certificate certificates = elim (Bool-cases (text_eq host name)) [
    | inr other ↦ elim (Option-cases (lookup host certificates)) [
      | inl e ↦
          rw (e, lookup-insert host name certificate certificates, other)
            (sym (or_else-none (lookup name certificates)))
      | inr (c, e) ↦ rw (e, other) (sym (or_else-none (lookup name certificates)))
    ]
    | inl same ↦
        let p : host ≡ name = (text_eq_iff host name).0 same in
        elim (Option-cases (lookup host certificates)) [
          | inl e ↦
              let e' : lookup name certificates ≡ none = rw p at e in
              rw (e, lookup-insert host name certificate certificates, same, e') refl
          | inr (c, e) ↦ let e' : lookup name certificates ≡ some c = rw p at e in rw (e, e') refl
        ]
  ]

  or_else-entry_at :
      (host certificate : Text) (other : Option Text)
      → or_else (entry_at host certificate) other
        ≡ (if text_eq host name then some certificate else other)
  or_else-entry_at host certificate other = elim (Bool-cases (text_eq host name)) [
    | inl e ↦ rw e refl
    | inr e ↦ rw e refl
  ]

  lookup-merge_certificates :
      (more certificates : Map Text Text)
      → lookup name (merge_certificates more certificates)
        ≡ or_else (lookup name certificates) (lookup name more)
  unfolding merge_certificates lookup
  lookup-merge_certificates [] certificates = sym (or_else-none (lookup name certificates))
  lookup-merge_certificates ((host, certificate) ∷ more) certificates =
      rw (lookup-merge_certificates more _, lookup-keep_first host certificate certificates)
        (or_else_assoc (lookup name certificates) (entry_at host certificate) (lookup name more)
          ∙ ap (or_else (lookup name certificates)) (or_else-entry_at host certificate _))

  lookup-merge_entry :
      (entry : IngressEntry) (c : RoutingConfig)
      → lookup name (merge_entry entry c).tls_certificates
        ≡ or_else (lookup name c.tls_certificates) (certificate_of name entry)
  unfolding merge_entry
  lookup-merge_entry entry c = elim (Option-cases entry.configuration) [
    | inl e ↦ rw e (sym (or_else-none (lookup name c.tls_certificates)))
    | inr (conf, e) ↦ rw e (lookup-merge_certificates conf.tls_certificates c.tls_certificates)
  ]

  lookup-merge_entries :
      (ingresses : Map NamespacedName IngressEntry) (c : RoutingConfig)
      → lookup name (merge_entries ingresses c).tls_certificates
        ≡ or_else (lookup name c.tls_certificates) (first_certificate name ingresses)
  unfolding merge_entries
  lookup-merge_entries [] c = sym (or_else-none (lookup name c.tls_certificates))
  lookup-merge_entries ((n, entry) ∷ more) c =
      rw (lookup-merge_entries more (merge_entry entry c), lookup-merge_entry entry c)
        (or_else_assoc (lookup name c.tls_certificates) (certificate_of name entry) _)

merge_entries-default :
    (ingresses : Map NamespacedName IngressEntry) (c : RoutingConfig)
    → (merge_entries ingresses c).default_tls_certificate ≡ c.default_tls_certificate
unfolding merge_entries merge_entry
merge_entries-default [] c = refl
merge_entries-default ((n, entry) ∷ more) c = elim (Option-cases entry.configuration) [
  | inl e ↦ rw e (merge_entries-default more c)
  | inr (conf, e) ↦ rw e (merge_entries-default more _)
]

get_certificate-or_else :
    (c : RoutingConfig) (name : Text)
    → get_certificate (some c) name
      ≡ ok (or_else (lookup name c.tls_certificates) c.default_tls_certificate)
unfolding get_certificate
get_certificate-or_else c name = elim (Option-cases (lookup name c.tls_certificates)) [
  | inl e ↦ rw (e, get_certificate) refl
  | inr (a, e) ↦ rw (e, get_certificate) refl
]

-- With the configuration that the controller makes, a TLS connection gets the certificate of the
-- first ingress, in the order in which they are merged, that lists exactly its server name, and
-- else the default certificate of the controller.
pub get_certificate-get_proxy_config :
    (state : K8sState) (c : RoutingConfig) (name : Text)
    → get_proxy_config state ≡ value (ok c)
    → get_certificate (some c) name
      ≡ ok (or_else (first_certificate name state.ingresses) state.default_tls_secret)
unfolding lookup
get_certificate-get_proxy_config state c name h =
    let (conf, ms, e) = merged_from state c h in
    let base = base_config state conf ms in
    subst
      (λ x.
        get_certificate (some x) name
        ≡ ok (or_else (first_certificate name state.ingresses) state.default_tls_secret))
      e
      (rw
        (
          get_certificate-or_else (merge_entries state.ingresses base) name,
          lookup-merge_entries name state.ingresses base,
          merge_entries-default state.ingresses base,
        )
        refl)
