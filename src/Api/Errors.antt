-- ===== src/Api/Errors.antt =====
-- src/api/middleware/error-handler.ts, with the statuses and codes of
-- src/domain/errors/app-error.ts. The details are left out.
use Prim.Native.String
use realtime_game_server.Base.{ℕ, String, Option, none, some, ◌==◌, if◌then◌else◌, get_or}
use realtime_game_server.Base.Action.{
  Error, not_found, conflict, unauthorized, forbidden, validation, rate_limit, unexpected,
}

-- what the handler is given: an exception of a service, a `ZodError`, or an error of the framework
-- with its status, if it has one
pub data Failure : Type 0 where
  thrown : Error → Failure
  malformed : Failure
  framework : Option ℕ → Failure

pub record ErrorReply : Type 0 where
  pub status : ℕ
  pub code : String
  pub message : String

-- `SAFE_CLIENT_STATUS_MESSAGES[status]`
abbrev safe_client_status_message : ℕ → Option String
safe_client_status_message status =
    if status == 400
    then some "Bad request"
    else if status == 401
    then some "Unauthorized"
    else if status == 403
    then some "Forbidden"
    else if status == 404
    then some "Not found"
    else if status == 409
    then some "Conflict"
    else if status == 429
    then some "Rate limit exceeded"
    else none

abbrev status_reply : ℕ → ErrorReply
status_reply status = record {
  status = status;
  code = if status == 500 then "INTERNAL_ERROR" else "REQUEST_ERROR";
  message =
      if status == 500
      then "Internal server error"
      else get_or (safe_client_status_message status) "Request error";
}

abbrev app_reply : ℕ → String → String → ErrorReply
app_reply status code message = record { status = status; code = code; message = message }

abbrev error_reply : Error → ErrorReply
error_reply (not_found resource) = app_reply 404 "NOT_FOUND" (String.◌++◌ resource " not found")
error_reply (conflict message) = app_reply 409 "CONFLICT" message
error_reply (unauthorized message) = app_reply 401 "UNAUTHORIZED" message
error_reply (forbidden message) = app_reply 403 "FORBIDDEN" message
error_reply (validation message) = app_reply 400 "VALIDATION_ERROR" message
error_reply (rate_limit message) = app_reply 429 "RATE_LIMIT" message
error_reply (unexpected message) = status_reply 500

unfoldable pub error_handler : Failure → ErrorReply
error_handler (thrown e) = error_reply e
error_handler malformed = app_reply 400 "VALIDATION_ERROR" "Request validation failed"
error_handler (framework status) = status_reply (get_or status 500)
