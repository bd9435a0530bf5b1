-- ===== src/Audit/Dispatch/Accounts.antt =====
-- worker.go: where the accepted events are.
use mathlib.Core.List.{Perm, perm_middle}
use mathlib.Core.List.Perm
use hsm_service.Prelude.{
  ◌+◌, ◌≤◌, ◌≡◌, refl, sym, subst, ap, ◌∙◌, true, false, List, [], ◌∷◌, ◌++◌, length, length-append,
  append-nil, append_assoc, arith,
}
use hsm_service.Exec.{returned}
use hsm_service.Audit.Dispatch.{
  AuditWorker, audit_buffer_size, audit_worker_count, new_audit_worker, Works, took, finished,
  failed_to_record, left_cancelled, left_closed, Sends, sent, timed_out, turned_away, Step, worked,
  sends, cancels, closes, Reachable, start, next,
}

module _ {E : Type 0} where
  -- The queue keeps within its buffer, three workers are idle, recording or gone, and none is gone
  -- before the context is cancelled. What was accepted was taken, in its order, or is queued, and
  -- what was taken is recorded, lost or being recorded, each event once.
  pub record IsAccounted (x : AuditWorker E) : Type 0 where
    pub room : length x.queue ≤ audit_buffer_size
    pub workers : x.idle + length x.busy + x.exited ≡ audit_worker_count
    pub in_order : x.accepted ≡ x.taken ++ x.queue
    pub each_once : Perm x.taken ((x.recorded ++ x.lost) ++ x.busy)
    pub closed_late : x.closed ≡ true → x.cancelled ≡ true
    pub gone_late : x.cancelled ≡ false → x.exited ≡ 0

  took_once :
      (e : E) (taken recorded busy : List E)
      → Perm taken (recorded ++ busy)
      → Perm (taken ++ (e ∷ [])) (recorded ++ (e ∷ busy))
  took_once e taken recorded busy p = Perm.trans (perm_middle taken []) (
      Perm.trans (Perm.cons e (subst (λ l. Perm l (recorded ++ busy)) (sym (append-nil taken)) p))
        (Perm.symm (perm_middle recorded busy)))

  recorded_once :
      (e : E) (taken recorded before after : List E)
      → Perm taken (recorded ++ (before ++ (e ∷ after)))
      → Perm taken (e ∷ (recorded ++ (before ++ after)))
  recorded_once e taken recorded before after p = Perm.trans p (
      Perm.trans (Perm.append_left recorded (perm_middle before after))
        (perm_middle recorded (before ++ after)))

  lost_once :
      (e : E) (taken recorded lost busy : List E)
      → Perm taken (e ∷ ((recorded ++ lost) ++ busy))
      → Perm taken ((recorded ++ (e ∷ lost)) ++ busy)
  lost_once e taken recorded lost busy p =
      Perm.trans p (Perm.append_right busy (Perm.symm (perm_middle recorded lost)))

  pub Works-IsAccounted : (x y : AuditWorker E) → Works x y → IsAccounted x → IsAccounted y
  Works-IsAccounted _ _ (took x n e rest hi hq) s = record {
    room = omega (arith, s.room, ap length hq);
    workers = omega (arith, s.workers, hi);
    in_order = s.in_order ∙ ap (λ q. x.taken ++ q) hq ∙ sym (append_assoc x.taken (e ∷ []) rest);
    each_once = took_once e x.taken (x.recorded ++ x.lost) x.busy s.each_once;
    closed_late = s.closed_late;
    gone_late = s.gone_late;
  }
  Works-IsAccounted _ _ (finished x before after e hb) s = record {
    room = s.room;
    workers = omega (
      arith,
      s.workers,
      ap length hb,
      length-append before (e ∷ after),
      length-append before after,
    );
    in_order = s.in_order;
    each_once =
        recorded_once e x.taken (x.recorded ++ x.lost) before after
          (subst (λ b. Perm x.taken ((x.recorded ++ x.lost) ++ b)) hb s.each_once);
    closed_late = s.closed_late;
    gone_late = s.gone_late;
  }
  Works-IsAccounted _ _ (failed_to_record x before after e hb) s = record {
    room = s.room;
    workers = omega (
      arith,
      s.workers,
      ap length hb,
      length-append before (e ∷ after),
      length-append before after,
    );
    in_order = s.in_order;
    each_once = lost_once e x.taken x.recorded x.lost (before ++ after) (
        recorded_once e x.taken (x.recorded ++ x.lost) before after
          (subst (λ b. Perm x.taken ((x.recorded ++ x.lost) ++ b)) hb s.each_once));
    closed_late = s.closed_late;
    gone_late = s.gone_late;
  }
  Works-IsAccounted _ _ (left_cancelled x n hi hc) s = record {
    room = s.room;
    workers = omega (arith, s.workers, hi);
    in_order = s.in_order;
    each_once = s.each_once;
    closed_late = s.closed_late;
    gone_late = λ h. absurd (ground (arith, h, hc));
  }
  Works-IsAccounted _ _ (left_closed x n hi hc hq) s = record {
    room = s.room;
    workers = omega (arith, s.workers, hi);
    in_order = s.in_order;
    each_once = s.each_once;
    closed_late = s.closed_late;
    gone_late = λ h. absurd (ground (arith, h, s.closed_late hc));
  }

  Sends-IsAccounted :
      (x : AuditWorker E) (e : E) (y : AuditWorker E)
      → Sends x e (returned y)
      → IsAccounted x
      → IsAccounted y
  Sends-IsAccounted x e _ (sent hc hl) s = record {
    room = omega (arith, hl, length-append x.queue (e ∷ []));
    workers = s.workers;
    in_order = ap (λ l. l ++ (e ∷ [])) s.in_order ∙ append_assoc x.taken x.queue (e ∷ []);
    each_once = s.each_once;
    closed_late = s.closed_late;
    gone_late = s.gone_late;
  }
  Sends-IsAccounted x e _ timed_out s = record {
    room = s.room;
    workers = s.workers;
    in_order = s.in_order;
    each_once = s.each_once;
    closed_late = s.closed_late;
    gone_late = s.gone_late;
  }
  Sends-IsAccounted x e _ (turned_away h) s = record {
    room = s.room;
    workers = s.workers;
    in_order = s.in_order;
    each_once = s.each_once;
    closed_late = s.closed_late;
    gone_late = s.gone_late;
  }

  Step-IsAccounted : (x y : AuditWorker E) → Step x y → IsAccounted x → IsAccounted y
  Step-IsAccounted _ _ (worked x y w) s = Works-IsAccounted x y w s
  Step-IsAccounted x y (sends _ _ e h) s = Sends-IsAccounted x e y h s
  Step-IsAccounted _ _ (cancels x) s = record {
    room = s.room;
    workers = s.workers;
    in_order = s.in_order;
    each_once = s.each_once;
    closed_late = λ h. refl;
    gone_late = λ h. absurd (ground (arith, h));
  }
  Step-IsAccounted _ _ (closes x hc ho) s = record {
    room = s.room;
    workers = s.workers;
    in_order = s.in_order;
    each_once = s.each_once;
    closed_late = λ h. hc;
    gone_late = s.gone_late;
  }

  -- However the callers, the workers and `Close` interleave: at most 1000 events are queued, three
  -- workers are idle, recording or gone, none before the context is cancelled, and each accepted
  -- event is, once, queued, taken in the order of acceptance to be recorded, recorded, or lost with a
  -- failed recording.
  pub Reachable-IsAccounted : (x : AuditWorker E) → Reachable x → IsAccounted x
  unfolding new_audit_worker
  Reachable-IsAccounted _ start = record {
    room = omega arith;
    workers = omega arith;
    in_order = refl;
    each_once = Perm.refl [];
    closed_late = λ h. absurd (ground (arith, h));
    gone_late = λ h. refl;
  }
  Reachable-IsAccounted _ (next x y r s) = Step-IsAccounted x y s (Reachable-IsAccounted x r)
