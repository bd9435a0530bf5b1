-- ===== src/Http.antt =====
-- internal/interfaces/http/handlers/base_handler.go, `HandleError`: the response to an error of a
-- service. An error that gin's validator makes is not a value of `GoError`, and its branch is left
-- out.
pub mod Statuses
mod Runs
use hsm_service.Prelude.{ℕ, String, Option, none, some, List, [], ◌∷◌}
use hsm_service.Domain.Errors.{
  ErrorCode, invalid_key_name, invalid_algorithm, invalid_key_size, invalid_key_usage,
  invalid_tenant, invalid_input, key_not_found, tenant_not_found, key_inactive,
  hsm_operation_failed, invalid_token, session_expired, session_not_found, internal_error, GoError,
  code_text, error_text, as_domain,
}

-- The JSON body: an empty list of details stands for their absence.
pub record Response : Type 0 where
  pub status : ℕ
  pub error : String
  pub message : String
  pub details : List (String × String)

unfoldable pub map_domain_error_to_http : ErrorCode → ℕ
map_domain_error_to_http invalid_key_name = 400
map_domain_error_to_http invalid_algorithm = 400
map_domain_error_to_http invalid_key_size = 400
map_domain_error_to_http invalid_key_usage = 400
map_domain_error_to_http invalid_tenant = 400
map_domain_error_to_http invalid_input = 400
map_domain_error_to_http key_not_found = 404
map_domain_error_to_http tenant_not_found = 404
map_domain_error_to_http key_inactive = 409
map_domain_error_to_http hsm_operation_failed = 503
map_domain_error_to_http invalid_token = 401
map_domain_error_to_http session_expired = 401
map_domain_error_to_http session_not_found = 404
map_domain_error_to_http _ = 500

respond : GoError → Option (ErrorCode × String × List (String × String)) → Response
unfolding map_domain_error_to_http code_text
respond e (some (code, message, details)) = record {
  status = map_domain_error_to_http code;
  error = code_text code;
  message = message;
  details = details;
}
respond e none = record {
  status = 500;
  error = code_text internal_error;
  message = "An internal error occurred";
  details = ("original_error", error_text e) ∷ [];
}

unfoldable pub handle_error : GoError → Response
unfolding respond as_domain
handle_error e = respond e (as_domain e)
