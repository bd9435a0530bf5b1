-- ===== src/Audit/Events.antt =====
-- internal/domain/entities/audit_event.go, and the event that `AuditOperation` of worker.go makes.
-- Its time and its duration are left out. `resource_id` and `resource_type` stand beside the data.
use hsm_service.Prelude.{String, Bool, false, Option, none, some, List}
use hsm_service.Prelude.Int.{pos}
use hsm_service.Domain.Values.{IdentityContext}
use hsm_service.Domain.Entities.{AuditData, Detail}

-- `request.ContextValues`, what the middlewares put into the context.
pub record ContextValues : Type 0 where
  pub correlation_id : String
  pub session_id : String
  pub ip_address : String
  pub user_agent : String
  pub request_id : String
  pub actor : String

pub record AuditEvent : Type 0 where
  pub correlation_id : String
  pub session_id : String
  pub request_id : String
  pub service_name : String
  pub event_type : String
  pub event_action : String
  pub organization_id : Option String
  pub user_id : String
  pub tenant_id : String
  pub resource_id : String
  pub resource_type : String
  pub actor_type : String
  pub actor_id : String
  pub success : Bool
  pub status_code : String
  pub error_message : String
  pub ip_address : String
  pub user_agent : String
  pub metadata : List (String × Detail)

-- `&valueobjects.IdentityContext{}`
abbrev no_identity : IdentityContext
no_identity = record {
  tenant_id = "";
  owner_type = "";
  owner_id = "";
  organization_id = none;
  parent_key_id = none;
  user_id = "";
  cert_level = pos 0;
  max_cert_level = pos 0;
  can_certify = false;
  certification_path = "";
}

abbrev identity_or_empty : Option IdentityContext → IdentityContext
identity_or_empty none = no_identity
identity_or_empty (some identity) = identity

unfoldable pub event_of :
    ContextValues → String → String → AuditData → Option IdentityContext → AuditEvent
event_of c resource_id resource_type data' identity = record {
  correlation_id = c.correlation_id;
  session_id = c.session_id;
  request_id = c.request_id;
  service_name = data'.service_name;
  event_type = data'.event_type;
  event_action = data'.operation;
  organization_id = (identity_or_empty identity).organization_id;
  user_id = (identity_or_empty identity).user_id;
  tenant_id = (identity_or_empty identity).tenant_id;
  resource_id = resource_id;
  resource_type = resource_type;
  actor_type = data'.actor_type;
  actor_id = c.actor;
  success = data'.success;
  status_code = data'.status_code;
  error_message = data'.err_msg;
  ip_address = c.ip_address;
  user_agent = c.user_agent;
  metadata = data'.metadata;
}
