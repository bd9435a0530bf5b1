-- ===== src/Audit/Dispatch.antt =====
-- internal/infrastructure/audit/worker.go, with an audit client: the callers of `SendEvent`, the
-- three workers and `Close`, cut at the points where another goroutine may run. The channel is its
-- buffer, oldest first.

pub mod Accounts
pub mod Workers
pub mod Shutdown
use hsm_service.Prelude.{
  ℕ, suc, ◌<◌, ◌≡◌, Bool, true, false, Option, none, some, List, [], ◌∷◌, ◌++◌, length,
}
use hsm_service.Exec.{Outcome, returned, panicked}

abbrev pub audit_buffer_size : ℕ
audit_buffer_size = 1000

abbrev pub audit_worker_count : ℕ
audit_worker_count = 3

-- `idle` and `exited` count workers, `busy` lists the events that workers are recording. What was
-- queued, taken from the queue, recorded, lost since `RecordEvent` failed, and dropped by `SendEvent`
-- since the start is listed too: `accepted` and `taken` oldest first, the others newest first.
pub record AuditWorker (E : Type 0) : Type 0 where
  pub queue : List E
  pub cancelled : Bool
  pub closed : Bool
  pub idle : ℕ
  pub busy : List E
  pub exited : ℕ
  pub accepted : List E
  pub taken : List E
  pub recorded : List E
  pub lost : List E
  pub dropped : List E

module _ {E : Type 0} where
  -- `NewAuditWorker`
  unfoldable pub new_audit_worker : AuditWorker E
  new_audit_worker = record {
    queue = [];
    cancelled = false;
    closed = false;
    idle = audit_worker_count;
    busy = [];
    exited = 0;
    accepted = [];
    taken = [];
    recorded = [];
    lost = [];
    dropped = [];
  }

  -- The steps of the workers: the loop of `auditWorker`, whose select takes any case that is ready.
  pub data Works : AuditWorker E → AuditWorker E → Type 0 where
    took :
        (x : AuditWorker E) (n : ℕ) (e : E) (rest : List E)
        → x.idle ≡ suc n
        → x.queue ≡ e ∷ rest
        → Works x
            (record x { queue = rest; idle = n; busy = e ∷ x.busy; taken = x.taken ++ (e ∷ []) })
    finished :
        (x : AuditWorker E) (before after : List E) (e : E)
        → x.busy ≡ before ++ (e ∷ after)
        → Works x
            (record x { idle = suc x.idle; busy = before ++ after; recorded = e ∷ x.recorded })
    failed_to_record :
        (x : AuditWorker E) (before after : List E) (e : E)
        → x.busy ≡ before ++ (e ∷ after)
        → Works x (record x { idle = suc x.idle; busy = before ++ after; lost = e ∷ x.lost })
    left_cancelled :
        (x : AuditWorker E) (n : ℕ)
        → x.idle ≡ suc n
        → x.cancelled ≡ true
        → Works x (record x { idle = n; exited = suc x.exited })
    left_closed :
        (x : AuditWorker E) (n : ℕ)
        → x.idle ≡ suc n
        → x.closed ≡ true
        → x.queue ≡ []
        → Works x (record x { idle = n; exited = suc x.exited })

  -- How a `SendEvent` ends: its select takes any case that is ready, and a send on a closed channel
  -- is ready and panics. The 100 ms may be over at any point, and then the event may be dropped.
  pub data Sends (x : AuditWorker E) (e : E) : Outcome (AuditWorker E) → Type 0 where
    sent :
        x.closed ≡ false
        → length x.queue < audit_buffer_size
        → Sends x e
            (returned (record x { queue = x.queue ++ (e ∷ []); accepted = x.accepted ++ (e ∷ []) }))
    timed_out : Sends x e (returned (record x { dropped = e ∷ x.dropped }))
    turned_away : x.cancelled ≡ true → Sends x e (returned (record x { dropped = e ∷ x.dropped }))
    panics : x.closed ≡ true → Sends x e panicked

  -- The steps of the workers and of the callers. `Close` cancels the context and then closes the
  -- channel.
  pub data Step : AuditWorker E → AuditWorker E → Type 0 where
    worked : (x y : AuditWorker E) → Works x y → Step x y
    sends : (x y : AuditWorker E) (e : E) → Sends x e (returned y) → Step x y
    cancels : (x : AuditWorker E) → Step x (record x { cancelled = true })
    closes :
        (x : AuditWorker E)
        → x.cancelled ≡ true
        → x.closed ≡ false
        → Step x (record x { closed = true })

  pub data Reachable : AuditWorker E → Type 0 where
    start : Reachable new_audit_worker
    next : (x y : AuditWorker E) → Reachable x → Step x y → Reachable y

  -- Any number of steps of the workers.
  pub data WorksAll : AuditWorker E → AuditWorker E → Type 0 where
    stop : (x : AuditWorker E) → WorksAll x x
    then_on : (x y z : AuditWorker E) → Works x y → WorksAll y z → WorksAll x z

  pub data Steps : AuditWorker E → AuditWorker E → Type 0 where
    stop_here : (x : AuditWorker E) → Steps x x
    step_on : (x y z : AuditWorker E) → Step x y → Steps y z → Steps x z
