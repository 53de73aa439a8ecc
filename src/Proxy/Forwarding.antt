-- ===== src/Proxy/Forwarding.antt =====
-- The header of the request that goes upstream.
use s_ingress.Common.Texts.{Text, codes, text_eq, text_keys}
use s_ingress.Common.{Bool, List, [], beq_ne, false, if◌then◌else◌, refl, sym, true, ◌∷◌, ◌≡◌, ◌≢◌}
use s_ingress.Proxy.Context.{Outside, RequestContext}
use s_ingress.Proxy.Headers.{canonical_key, header_set, header_values, header_values-set}
use s_ingress.Proxy.Routing.{RouteConfig}
use s_ingress.Proxy.Serve.{proxied_request, upstream_header_of}

abbrev x_request_id : Text
x_request_id = codes "X-Request-Id"

abbrev x_forwarded_for : Text
x_forwarded_for = codes "X-Forwarded-For"

abbrev x_forwarded_host : Text
x_forwarded_host = codes "X-Forwarded-Host"

abbrev x_forwarded_proto : Text
x_forwarded_proto = codes "X-Forwarded-Proto"

-- A name of which the canonical form is none of the four that the proxy sets.
abbrev pub IsForeign : Text → Type 0
IsForeign k =
    (canonical_key k ≢ canonical_key x_request_id)
    × (canonical_key k ≢ canonical_key x_forwarded_for)
    × (canonical_key k ≢ canonical_key x_forwarded_host)
    × (canonical_key k ≢ canonical_key x_forwarded_proto)

-- The names of the proxy are canonical.
differs :
    (name k : Text)
    → canonical_key k ≢ canonical_key name
    → text_eq (canonical_key name) (canonical_key k) ≡ false
differs name k h = beq_ne (canonical_key name) (canonical_key k) (λ e. h (sym e))

if_same {ℓ} : {A : Type ℓ} (b : Bool) (x : A) → (if b then x else x) ≡ x
if_same true x = refl
if_same false x = refl

module _ (outside : Outside) (c : RequestContext) (endpoint : RouteConfig) where
  upstream_header_of_lem :
      upstream_header_of outside c
      ≡ header_set
          (header_set
            (header_set
              (header_set c.r.header x_request_id c.request_id)
              x_forwarded_for
              (outside.addr_port_string c.remote_ip))
            x_forwarded_host
            c.r.host)
          x_forwarded_proto
          (codes "https")
  unfolding upstream_header_of
  upstream_header_of_lem = if_same c.r.tls _

  abbrev sent_values : Text → List Text
  sent_values = header_values (proxied_request outside c endpoint).header

  -- The request that is formed for the upstream has one value under each of these names, whatever
  -- the client sends under them: the identifier of the request, the address and the port of the
  -- peer, the host that was asked for, and "https", also when the client has not used TLS.
  pub header_values-proxied_request :
      (sent_values x_request_id ≡ c.request_id ∷ [])
      × (sent_values x_forwarded_for ≡ outside.addr_port_string c.remote_ip ∷ [])
      × (sent_values x_forwarded_host ≡ c.r.host ∷ [])
      × (sent_values x_forwarded_proto ≡ codes "https" ∷ [])
  unfolding proxied_request canonical_key text_eq
  header_values-proxied_request = (
    rw upstream_header_of_lem (simp header_values-set),
    rw upstream_header_of_lem (simp header_values-set),
    rw upstream_header_of_lem (simp header_values-set),
    rw upstream_header_of_lem (simp header_values-set),
  )

  -- The request that is formed for the upstream has the values that the client has sent under
  -- every other name.
  pub header_values-proxied_request_foreign :
      (k : Text) → IsForeign k → sent_values k ≡ header_values c.r.header k
  unfolding proxied_request
  header_values-proxied_request_foreign k (a, b, d, e) = rw upstream_header_of_lem (
      rw (header_values-set _ x_forwarded_proto k _, differs _ k e)
        (rw (header_values-set _ x_forwarded_host k _, differs _ k d)
          (rw (header_values-set _ x_forwarded_for k _, differs _ k b)
            (rw (header_values-set _ x_request_id k _, differs _ k a)))))

  -- The request that is formed for the upstream has one value under each of the four names of the
  -- proxy, whatever the client sends under them: the identifier of the request, the address and the
  -- port of the peer, the host that was asked for, and "https", also when the client has not used
  -- TLS. Under every other name it has the values that the client has sent.
  pub proxied_request-header :
      (k : Text)
      → IsForeign k
      → (sent_values x_request_id ≡ c.request_id ∷ [])
        × (sent_values x_forwarded_for ≡ outside.addr_port_string c.remote_ip ∷ [])
        × (sent_values x_forwarded_host ≡ c.r.host ∷ [])
        × (sent_values x_forwarded_proto ≡ codes "https" ∷ [])
        × (sent_values k ≡ header_values c.r.header k)
  proxied_request-header k foreign =
      let (a, b, d, e) = header_values-proxied_request in
      (a, b, d, e, header_values-proxied_request_foreign k foreign)
