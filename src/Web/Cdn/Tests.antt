-- ===== src/Web/Cdn/Tests.antt =====
-- The theorem on the CDN proxy at a request that names the current ETag.
use configcat_proxy.Base.{◌==◌, if◌then◌else◌, string_eq}
use configcat_proxy.Web.{Request}
use configcat_proxy.Web.Examples.{some_registrar, request_of}
use configcat_proxy.Web.Cdn.{Strings, serve_http}
use configcat_proxy.Web.Cdn.Laws.{IsAnswered, serve_http-IsAnswered}

-- Of the paths only the one of the example has the prefix.
abbrev some_strings : Strings
some_strings = record {
  has_prefix = λ s p. s == "configcat-proxy/a";
  trim_prefix = λ s p. "a";
  trim_suffix = λ s p. s;
}

abbrev current_request : Request
current_request = request_of "GET" (λ name. if name == "If-None-Match" then "e1" else "")

serve_http-IsAnswered_example :
    IsAnswered some_strings some_registrar current_request
      (serve_http some_strings some_registrar current_request)
serve_http-IsAnswered_example = serve_http-IsAnswered some_strings some_registrar current_request
