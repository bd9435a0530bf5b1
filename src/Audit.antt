-- ===== src/Audit.antt =====
-- internal/infrastructure/audit: factory.go and hybrid_processor.go, the recorders of audit events.
-- The HTTP transporter and the storage are parameters.
pub mod Events
pub mod Dispatch
pub mod Recorders
mod Runs
use hsm_service.Prelude.{
  String, Bool, true, false, not, ◌&&◌, ◌||◌, Option, none, some, str_eq, if◌then◌else◌,
}
use hsm_service.Domain.Errors.{GoError}

-- `output.AuditStorage` and `output.AuditTransporter`, which store and send an event.
pub record Outlets (W E : Type 0) : Type 0 where
  pub store : E → W → Option GoError × W
  pub send : E → W → Option GoError × W

-- `AuditStrategy.IsValid`
unfoldable pub strategy_is_valid : String → Bool
strategy_is_valid s =
    str_eq s "database"
    || str_eq s "http"
    || str_eq s "hybrid"
    || str_eq s "mock"
    || str_eq s "async"

-- The recorders; the hybrid processor has a strategy and may lack its transporter.
pub data Recorder : Type 0 where
  database_recorder http_recorder mock_recorder : Recorder
  hybrid_processor : String → Bool → Recorder

unfoldable pub has_http : String → Bool
has_http url = not (str_eq url "") && not (str_eq url "mock")

forced : Bool → String → String
forced http strategy =
    if not http && (str_eq strategy "http" || str_eq strategy "hybrid")
    then "database"
    else strategy

recorder_for : Bool → String → Recorder
recorder_for http strategy =
    if str_eq strategy "database"
    then database_recorder
    else if str_eq strategy "http"
    then http_recorder
    else if str_eq strategy "hybrid"
    then hybrid_processor strategy http
    else if str_eq strategy "mock"
    then mock_recorder
    else database_recorder

unfoldable pub new_audit_recorder : String → String → Recorder
unfolding has_http forced recorder_for
new_audit_recorder strategy url = recorder_for (has_http url) (forced (has_http url) strategy)

module _ {W E : Type 0} (O : Outlets W E) where
  -- The fallback after a failed send.
  sent_or_stored : E → Option GoError × W → Option GoError × W
  sent_or_stored event (none, w) = (none, w)
  sent_or_stored event (some x, w) = O.store event w

  hybrid_record : String → Bool → E → W → Option GoError × W
  unfolding sent_or_stored
  hybrid_record strategy primary event w =
      if str_eq strategy "database"
      then O.store event w
      else if str_eq strategy "http"
      then (if primary then O.send event w else O.store event w)
      else if str_eq strategy "hybrid"
      then (if primary then sent_or_stored event (O.send event w) else O.store event w)
      else O.store event w

  unfoldable pub record_event : Recorder → E → W → Option GoError × W
  unfolding hybrid_record
  record_event database_recorder event w = O.store event w
  record_event http_recorder event w = O.send event w
  record_event mock_recorder event w = (none, w)
  record_event (hybrid_processor strategy primary) event w = hybrid_record strategy primary event w
