-- ===== src/Web/Reply.antt =====
-- What web/api/v1/api.go writes to the client: the instr of Register, respond and respondError.
use mathlib.Core.Option
use promeproxy.Common.{ℕ, String, Option, none, some, List, [], ◌∷◌, ◌++◌}
use promeproxy.Web.Api.{
  ErrorType, error_timeout, error_canceled, error_exec, error_bad_data, error_internal, status_code,
  Response, api_error, success,
}
use promeproxy.Web.Handlers.{Payload, Api, ApiRequest, handle}

-- response
pub record Envelope (R : Type 0) : Type 0 where
  pub status : String
  pub payload_data : Option (Payload R)
  pub error_type : String

-- What is written to the client.
pub record Reply (R : Type 0) : Type 0 where
  pub code : ℕ
  pub headers : List (String × String)
  pub body : Option (Envelope R)

-- the strings of errorType
unfoldable pub error_name : ErrorType → String
error_name error_timeout = "timeout"
error_name error_canceled = "canceled"
error_name error_exec = "execution"
error_name error_bad_data = "bad_data"
error_name error_internal = "internal"

-- corsHeaders
abbrev pub cors_headers : List (String × String)
cors_headers =
    ("Access-Control-Allow-Headers", "Accept, Authorization, Content-Type, Origin")
    ∷ ("Access-Control-Allow-Methods", "GET, OPTIONS")
    ∷ ("Access-Control-Allow-Origin", "*")
    ∷ ("Access-Control-Expose-Headers", "Date")
    ∷ []

module _ {R : Type 0} where
  -- respond
  unfoldable pub respond : List (String × String) → Payload R → Reply R
  respond headers d = record {
    code = 200;
    headers = headers ++ ("Content-Type", "application/json") ∷ [];
    body = some (record { status = "success"; payload_data = some d; error_type = "" });
  }

  -- respondError; the handlers return no data with an error
  unfoldable pub respond_error : List (String × String) → ErrorType → Reply R
  unfolding status_code error_name
  respond_error headers e = record {
    code = status_code e;
    headers = headers ++ ("Content-Type", "application/json") ∷ [];
    body = some (record { status = "error"; payload_data = none; error_type = error_name e });
  }

  -- the function that instr wraps around a handler
  unfoldable pub instr : Response (Option (Payload R)) → Reply R
  unfolding respond respond_error
  instr (api_error e) = respond_error cors_headers e
  instr (success none) = record { code = 204; headers = cors_headers; body = none }
  instr (success (some d)) = respond cors_headers d

-- An API request, answered; none for a panic.
unfoldable pub serve : {B R : Type 0} → Api B → ApiRequest R → Option (Reply R)
unfolding instr handle
serve api r = Option.map instr (handle api r)
