-- ===== src/Web.antt =====
-- web: what the HTTP handlers share. A request is what a handler reads of it, and a handler gives
-- the calls that it makes on the `http.ResponseWriter`, and on the SDK client, in order. `json` and
-- `io` are outside of the repository: the results of reading a body, parsing and printing are
-- parameters.
pub mod Lookup
pub mod Api
pub mod Cdn
pub mod Webhook
pub mod Ofrep
pub mod Sse
pub mod Router
pub mod Examples
use configcat_proxy.Base.{Result, ℕ, ◌+◌, String, List, [], ◌∷◌, string_eq}

pub record Request : Type 0 where
  pub method : String
  pub path_value : String → String
  pub header : String → String
  pub query : String → String
  -- `io.ReadAll(r.Body)`.
  pub body : Result String String

pub data Call : Type 0 where
  set_header add_header : String → String → Call
  write_header : ℕ → Call
  write : String → Call
  -- `http.Error`.
  error : String → ℕ → Call
  -- `Refresh` of the SDK client that was found.
  refresh : Call

-- The status that the server sends: that of the first call that writes; 200 if there is none.
unfoldable pub status_code : List Call → ℕ
status_code [] = 200
status_code (set_header k v ∷ calls) = status_code calls
status_code (add_header k v ∷ calls) = status_code calls
status_code (write_header code ∷ calls) = code
status_code (write body ∷ calls) = 200
status_code (error message code ∷ calls) = code
status_code (refresh ∷ calls) = status_code calls

-- How often a handler calls `Refresh`.
unfoldable pub refreshes : List Call → ℕ
refreshes [] = 0
refreshes (refresh ∷ calls) = refreshes calls + 1
refreshes (_ ∷ calls) = refreshes calls
