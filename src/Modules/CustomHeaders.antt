-- ===== src/Modules/CustomHeaders.antt =====
-- modules/headers: header lines of an annotation, for the response and for the upstream.
use s_ingress.Common.Texts.{Text, codes, split, split_two, text_eq, trim_space}
use s_ingress.Common.{
  Bool, List, Option, [], any, false, if◌then◌else◌, none, some, true, ◌||◌, ◌∷◌,
}
use s_ingress.Kubernetes.{Ingress}
use s_ingress.Modules.Security.{annotation_or_empty}
use s_ingress.Proxy.Closures.{MiddlewareFunc, custom_header, upstream_header}
use s_ingress.Proxy.Context.{Handler, RequestContext, panicked, set_response_header}
use s_ingress.Proxy.Headers.{Header, header_set}

abbrev pub headers_response_annotation : Text
headers_response_annotation = codes "s-ingress.oidq.dev/headers-response"

abbrev pub headers_upstream_annotation : Text
headers_upstream_annotation = codes "s-ingress.oidq.dev/headers-upstream"

unfoldable pub custom_header_middleware : Ingress → Option MiddlewareFunc
unfolding annotation_or_empty
custom_header_middleware ingress =
    let raw = annotation_or_empty ingress headers_response_annotation in
    if text_eq raw [] then none else some (custom_header (split raw 10))

unfoldable pub upstream_header_middleware : Ingress → Option MiddlewareFunc
unfolding annotation_or_empty
upstream_header_middleware ingress =
    let raw = annotation_or_empty ingress headers_upstream_annotation in
    if text_eq raw [] then none else some (upstream_header (split raw 10))

abbrev named_value : Text → Option Text → Option (Text × Text)
named_value before none = none
named_value before (some after) =
    let header_name = trim_space before in
    let header_value = trim_space after in
    if text_eq header_name [] || text_eq header_value []
    then none
    else some (header_name, header_value)

-- The name and the value of a line, `none` for a line that the loops skip.
unfoldable pub parse_line : Text → Option (Text × Text)
parse_line line = let (before, after) = split_two line b':' in named_value before after

abbrev is_some {ℓ} : {A : Type ℓ} → Option A → Bool
is_some none = false
is_some (some a) = true

-- The loop of the first closure.
unfoldable pub set_custom : List Text → RequestContext → RequestContext
unfolding parse_line
set_custom [] c = c
set_custom (line ∷ lines) c =
    set_custom lines
      (elim (parse_line line) [ none ↦ c | some (name, v) ↦ set_response_header c name v ])

unfoldable pub run_custom_header : List Text → Handler → Handler
unfolding set_custom
run_custom_header headers next c = next (set_custom headers c)

-- The loop of the second closure, on the header of the upstream request.
unfoldable pub set_upstream : List Text → Header → Header
unfolding parse_line
set_upstream [] h = h
set_upstream (line ∷ lines) h =
    set_upstream lines (elim (parse_line line) [ none ↦ h | some (name, v) ↦ header_set h name v ])

-- A line that is not skipped reads the upstream request, which is there after the routing.
unfoldable pub run_upstream_header : List Text → Handler → Handler
unfolding set_upstream
run_upstream_header headers next c = elim c.upstream_request [
  | none ↦ if any (λ line. is_some (parse_line line)) headers then (panicked, c) else next c
  | some upstream ↦ next (record c {
    upstream_request = some (record upstream { header = set_upstream headers upstream.header });
  })
]
