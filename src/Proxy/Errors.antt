-- ===== src/Proxy/Errors.antt =====
-- pkg/proxy/error.go: the error pages.
use s_ingress.Common.Texts.{Text, codes, text_eq}
use s_ingress.Common.{Option, [], if◌then◌else◌, none, some, ℕ}
use s_ingress.Proxy.Context.{
  ErrorPageData, Exit, Handler, Outside, RequestContext, done, failed, with_status, write,
}

abbrev exit_of : Option Text → Exit
exit_of none = done
exit_of (some e) = failed e

module _ (outside : Outside) where
  open outside use {execute, client_write, status_text}

  abbrev page_data : RequestContext → ℕ → Text → ErrorPageData
  page_data c status msg = record {
    status = status;
    status_text = status_text status;
    message = msg;
    url = c.r.url;
    host = c.r.host;
    request_id = c.request_id;
    real_ip = c.real_ip;
  }

  -- What follows the status line: the page, or the message where there is no template.
  write_page : Option Text → ℕ → Text → Handler
  write_page none status msg c = (exit_of (client_write msg), record c { w = write c.w msg })
  write_page (some template) status msg c =
      let (page, e) = execute template (page_data c status msg) in
      (exit_of e, record c { w = write c.w page })

  unfoldable pub handle_error_page : ℕ → Text → Handler
  unfolding write_page
  handle_error_page status msg c =
      let c' = with_status c status in
      if text_eq c.r.method (codes "HEAD")
      then (done, c')
      else write_page c.routing_config.error_page status msg c'

  -- `HandleErrorf` logs the message and shows a page without it.
  unfoldable pub handle_errorf : ℕ → Handler
  unfolding handle_error_page
  handle_errorf status = handle_error_page status []

  abbrev pub bad_request : Text → Handler
  bad_request = handle_error_page 400

  abbrev pub unauthorized : Text → Handler
  unauthorized = handle_error_page 401

  abbrev pub forbidden : Text → Handler
  forbidden = handle_error_page 403

  abbrev pub not_found : Text → Handler
  not_found = handle_error_page 404

  abbrev pub bad_gateway : Text → Handler
  bad_gateway = handle_error_page 502
