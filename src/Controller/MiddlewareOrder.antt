-- ===== src/Controller/MiddlewareOrder.antt =====
-- The middlewares that the controller puts into a route, in their order.
use s_ingress.Common.Texts.{Text}
use s_ingress.Common.{
  >>=-eq-ok, All, List, Option, Result, [], ap, arith, none, ok, ok-injective, refl, some, true,
  ◌∙◌, ◌∷◌, ◌≡◌,
}
use s_ingress.Controller.Converter.{Cluster, get_middlewares, prepend}
use s_ingress.Controller.State.{IngressConfiguration}
use s_ingress.Kubernetes.{Ingress}
use s_ingress.Modules.Chain.{is_websocket}
use s_ingress.Modules.Instances.{ModuleInstance}
use s_ingress.Modules.Order.{
  AllHeaders, IsGuarded, IsGuardedModules, is_header, is_header_module, made, made_header,
  made_websocket,
}
use s_ingress.Modules.Services.{Services}
use s_ingress.Proxy.Closures.{MiddlewareFunc}

module _ (services : Services) (cluster : Cluster) (ingress : Ingress) where
  abbrev found_by : ModuleInstance → Result Text (Option MiddlewareFunc)
  found_by = made services cluster.get_secret ingress

  AllHeaders-prepend :
      (o : Option MiddlewareFunc) (rest : List MiddlewareFunc × IngressConfiguration)
      → ((f : MiddlewareFunc) → o ≡ some f → is_header f ≡ true)
      → AllHeaders rest.0
      → AllHeaders (prepend o rest).0
  AllHeaders-prepend none (ms, conf) f h = h
  AllHeaders-prepend (some m) (ms, conf) f h = (f m refl, h)

  IsGuarded-prepend :
      (o : Option MiddlewareFunc) (rest : List MiddlewareFunc × IngressConfiguration)
      → ((f : MiddlewareFunc) → o ≡ some f → is_websocket f ≡ true → AllHeaders rest.0)
      → IsGuarded rest.0
      → IsGuarded (prepend o rest).0
  IsGuarded-prepend none (ms, conf) f h = h
  IsGuarded-prepend (some m) (ms, conf) f h = (f m refl, h)

  get_middlewares-AllHeaders :
      (ms : List ModuleInstance) (conf : IngressConfiguration)
      (p : List MiddlewareFunc × IngressConfiguration)
      → All (λ x. is_header_module x ≡ true) ms
      → get_middlewares services cluster ms ingress conf ≡ ok p
      → AllHeaders p.0
  unfolding get_middlewares
  get_middlewares-AllHeaders [] conf p h e = ground arith
  get_middlewares-AllHeaders (m ∷ ms) conf p (h, hs) e =
      let (found, e1, e2) = >>=-eq-ok (found_by m) _ e in
      let (more, e3, e4) = >>=-eq-ok (get_middlewares services cluster ms ingress _) _ e2 in
      let q : prepend found more ≡ p = ok-injective e4 in
      rw (← q) (
        AllHeaders-prepend found more
          (λ f k. made_header services cluster.get_secret ingress m f h (e1 ∙ ap ok k))
          (get_middlewares-AllHeaders ms _ more hs e3))

  -- The middlewares of a route come in a guarded order, if the modules do.
  pub get_middlewares-IsGuarded :
      (ms : List ModuleInstance) (conf : IngressConfiguration)
      (p : List MiddlewareFunc × IngressConfiguration)
      → IsGuardedModules ms
      → get_middlewares services cluster ms ingress conf ≡ ok p
      → IsGuarded p.0
  unfolding get_middlewares
  get_middlewares-IsGuarded [] conf p g e = ground arith
  get_middlewares-IsGuarded (m ∷ ms) conf p (g, gs) e =
      let (found, e1, e2) = >>=-eq-ok (found_by m) _ e in
      let (more, e3, e4) = >>=-eq-ok (get_middlewares services cluster ms ingress _) _ e2 in
      let q : prepend found more ≡ p = ok-injective e4 in
      rw (← q) (
        IsGuarded-prepend found more
          (λ f k w.
            get_middlewares-AllHeaders ms _ more
              (g (made_websocket services cluster.get_secret ingress m f (e1 ∙ ap ok k) w)) e3)
          (get_middlewares-IsGuarded ms _ more gs e3))
