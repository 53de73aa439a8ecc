-- ===== src/Modules/Redirect.antt =====
-- `http.Redirect` of `net/http`.
use s_ingress.Common.Texts.{Text, codes, text_eq}
use s_ingress.Common.{Bool, if◌then◌else◌, leb, length, not, ℕ, ◌&&◌, ◌||◌}
use s_ingress.Modules.Services.{Services}
use s_ingress.Proxy.Context.{RequestContext, set_header, with_status, write}
use s_ingress.Proxy.Headers.{header_values}

module _ (services : Services) where
  open services use {redirect_location, redirect_body}

  -- GET and HEAD get a content type, if none is set, and GET a short page with the link.
  abbrev link_page : Bool → Text → ℕ → RequestContext → RequestContext
  link_page had_type location code c =
      if text_eq c.r.method (codes "GET") && not had_type
      then (let c' = with_status c code in
          record c' { w = write c'.w (redirect_body location code) })
      else with_status c code

  abbrev typed_link : Text → ℕ → RequestContext → RequestContext
  typed_link location code c =
      let had_type = leb 1 (length (header_values c.w.header (codes "Content-Type"))) in
      let wants_type = text_eq c.r.method (codes "GET") || text_eq c.r.method (codes "HEAD") in
      link_page had_type location code (
        if wants_type && not had_type
        then set_header c (codes "Content-Type") (codes "text/html; charset=utf-8")
        else c)

  unfoldable pub http_redirect : Text → ℕ → RequestContext → RequestContext
  http_redirect url code c =
      let location = redirect_location c.r url in
      typed_link location code (set_header c (codes "Location") location)
