-- ===== src/Modules/Contacts.antt =====
-- Which of the calls in the trace reach the upstream, and what the handlers leave of the request.
pub mod Logins
use s_ingress.Common.Texts.{Text}
use s_ingress.Common.{
  Bool, List, Option-cases, [], arith, false, if◌then◌else◌, inl, inr, refl, true, ℕ, ◌++◌, ◌+◌,
  ◌∷◌, ◌≡◌,
}
use s_ingress.Modules.CustomHeaders.{parse_line, set_custom}
use s_ingress.Modules.Redirect.{http_redirect}
use s_ingress.Modules.Services.{Services}
use s_ingress.Proxy.Context.{
  Call, Outside, RequestContext, asks, auth_request_to, identity_provider, round_trip_to,
  set_header, set_response_header, web_socket_to,
}
use s_ingress.Proxy.Errors.{handle_error_page, handle_errorf}

abbrev pub is_contact : Call → Bool
is_contact (round_trip_to endpoint upstream) = true
is_contact (web_socket_to endpoint url header) = true
is_contact (auth_request_to url header) = false
is_contact (identity_provider what) = false

-- How often the upstream is asked.
abbrev pub contacts : List Call → ℕ
contacts [] = 0
contacts (call ∷ calls) = (if is_contact call then 1 else 0) + contacts calls

pub contacts-append : (xs ys : List Call) → contacts (xs ++ ys) ≡ contacts xs + contacts ys
contacts-append [] ys = omega arith
contacts-append (x ∷ xs) ys = omega (arith, contacts-append xs ys)

-- `c'` is about the same request as `c`, from the same client, and the upstream was not asked
-- in between.
pub record Same (c c' : RequestContext) : Type 0 where
  pub request : c'.r ≡ c.r
  pub client : c'.real_ip ≡ c.real_ip
  pub route : c'.matched_route ≡ c.matched_route
  pub quiet : contacts c'.calls ≡ contacts c.calls

pub Same-refl : (c : RequestContext) → Same c c
Same-refl c = record { request = refl; client = refl; route = refl; quiet = refl }

pub Same-trans : {a b c : RequestContext} → Same a b → Same b c → Same a c
Same-trans h k = ground arith

pub Same-set_header : (c : RequestContext) (k v : Text) → Same c (set_header c k v)
unfolding set_header
Same-set_header c k v = record { request = refl; client = refl; route = refl; quiet = refl }

pub Same-set_response_header :
    (c : RequestContext) (k v : Text) → Same c (set_response_header c k v)
unfolding set_response_header
Same-set_response_header c k v = record {
  request = refl;
  client = refl;
  route = refl;
  quiet = refl;
}

pub Same-asks : (c : RequestContext) (call : Call) → is_contact call ≡ false → Same c (asks c call)
unfolding asks
Same-asks c call h = record {
  request = refl;
  client = refl;
  route = refl;
  quiet = ground (arith, contacts-append c.calls (call ∷ []));
}

module _ (outside : Outside) where
  pub Same-handle_error_page :
      (status : ℕ) (msg : Text) (c : RequestContext)
      → Same c (handle_error_page outside status msg c).1
  unfolding handle_error_page
  Same-handle_error_page status msg c = ground arith

  pub Same-handle_errorf :
      (status : ℕ) (c : RequestContext) → Same c (handle_errorf outside status c).1
  unfolding handle_errorf
  Same-handle_errorf status c = Same-handle_error_page status [] c

pub quiet_handle_errorf :
    (outside : Outside) (status : ℕ) (c : RequestContext)
    → contacts (handle_errorf outside status c).1.calls ≡ contacts c.calls
quiet_handle_errorf outside status c = (Same-handle_errorf outside status c).quiet

module _ (services : Services) where
  pub Same-http_redirect :
      (url : Text) (code : ℕ) (c : RequestContext) → Same c (http_redirect services url code c)
  unfolding http_redirect set_header
  Same-http_redirect url code c = ground arith

pub Same-set_custom : (lines : List Text) (c : RequestContext) → Same c (set_custom lines c)
unfolding set_custom
Same-set_custom [] c = Same-refl c
Same-set_custom (line ∷ lines) c = elim (Option-cases (parse_line line)) [
  | inl e ↦ rw e (Same-set_custom lines c)
  | inr ((name, v), e) ↦
      rw e (Same-trans (Same-set_response_header c name v) (Same-set_custom lines _))
]
