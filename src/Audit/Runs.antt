-- ===== src/Audit/Runs.antt =====
-- The theorems on the audit dispatch at concrete events.
use mathlib.Core.List.{Perm}
use hsm_service.Prelude.{ℕ, ◌≡◌, refl, ◌⊎◌, false, none, some, ◌==◌, [], ◌∷◌, ◌++◌, arith}
use hsm_service.Domain.Errors.{plain}
use hsm_service.Exec.{returned, panicked}
use hsm_service.Audit.{Outlets, has_http, new_audit_recorder, record_event}
use hsm_service.Audit.Recorders.{record_event-Keeps}
use hsm_service.Audit.Dispatch.{
  AuditWorker, new_audit_worker, Sends, sent, sends, Reachable, start, next, Steps, WorksAll,
}
use hsm_service.Audit.Dispatch.Accounts.{IsAccounted, Reachable-IsAccounted}
use hsm_service.Audit.Dispatch.Workers.{Answered}
use hsm_service.Audit.Dispatch.Shutdown.{IsOver, IsSettled, Reachable-drains, Close-loses}

-- Two events are accepted.
abbrev one_queued : AuditWorker ℕ
one_queued = record new_audit_worker { queue = 7 ∷ []; accepted = 7 ∷ [] }

abbrev two_queued : AuditWorker ℕ
two_queued = record new_audit_worker { queue = 7 ∷ 8 ∷ []; accepted = 7 ∷ 8 ∷ [] }

two_queued-Reachable : Reachable two_queued
unfolding new_audit_worker
two_queued-Reachable =
    next one_queued two_queued
      (next new_audit_worker one_queued start
        (sends new_audit_worker one_queued 7 (sent refl (omega arith))))
      (sends one_queued two_queued 8 (sent refl (omega arith)))

Reachable-IsAccounted_example : IsAccounted two_queued
Reachable-IsAccounted_example = Reachable-IsAccounted two_queued two_queued-Reachable

Reachable-drains_example :
    (y : AuditWorker ℕ) × WorksAll two_queued y
    × Answered (λ e. e == 7) two_queued y
    × (y.queue ≡ [])
    × (y.busy ≡ [])
    × (y.accepted ≡ two_queued.accepted)
    × Perm two_queued.accepted (y.recorded ++ y.lost)
unfolding new_audit_worker
Reachable-drains_example = Reachable-drains (λ e. e == 7) two_queued two_queued-Reachable refl

Close-loses_example :
    (y : AuditWorker ℕ) × Steps two_queued y
    × IsOver y
    × (y.queue ≡ two_queued.queue)
    × (y.accepted ≡ two_queued.accepted)
    × ((z : AuditWorker ℕ)
        → Steps y z
        → IsSettled y z
          × ((e : ℕ)
              → Sends z e panicked × Sends z e (returned (record z { dropped = e ∷ z.dropped }))))
unfolding new_audit_worker
Close-loses_example = Close-loses two_queued two_queued-Reachable refl

-- The audit service is down and the database takes the event.
abbrev outlets : Outlets ℕ ℕ
outlets = record {
  store = λ event w. (none, event);
  send = λ event w. (some (plain "connection refused"), w);
}

record_event-Keeps_example :
    ((record_event outlets (new_audit_recorder "hybrid" "http://audit") 7 0).0 ≡ none
      → ((outlets.send 7 0).0 ≡ none) ⊎ ((w' : ℕ) × ((outlets.store 7 w').0 ≡ none)))
    × (has_http "http://audit" ≡ false
        → record_event outlets (new_audit_recorder "hybrid" "http://audit") 7 0 ≡ outlets.store 7 0)
record_event-Keeps_example = record_event-Keeps outlets "hybrid" "http://audit" 7 0 refl
