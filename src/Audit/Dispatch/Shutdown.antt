-- ===== src/Audit/Dispatch/Shutdown.antt =====
-- worker.go: what the workers can always still do, and what `Close` can leave undone.
use mathlib.Core.List.{Perm}
use hsm_service.Prelude.{
  ℕ, zero, suc, ◌≡◌, refl, sym, subst, ap, ◌∙◌, Bool, true, false, List, [], ◌∷◌, ◌++◌, length,
  length-append, append-nil, arith,
}
use hsm_service.Exec.{returned, panicked}
use hsm_service.Audit.Dispatch.{
  AuditWorker, Works, took, finished, failed_to_record, left_cancelled, left_closed, Sends, sent,
  timed_out, turned_away, panics, Step, worked, sends, cancels, closes, Reachable, WorksAll, stop,
  then_on, Steps, stop_here, step_on,
}
use hsm_service.Audit.Dispatch.Accounts.{Reachable-IsAccounted}
use hsm_service.Audit.Dispatch.Workers.{
  Answered, Answered-trans, WorksAll-IsAccounted, WorksAll-trans, WorksAll-Steps, finish_all, drain,
}

module _ {E : Type 0} where
  -- While the context is not cancelled, the workers alone can always empty the queue, whatever
  -- `RecordEvent` answers on each event: then every accepted event is recorded or lost, once, those
  -- recorded meanwhile are those on which it succeeds, and those lost meanwhile those on which it
  -- fails.
  pub Reachable-drains :
      (answer : E → Bool) (x : AuditWorker E)
      → Reachable x
      → x.cancelled ≡ false
      → (y : AuditWorker E) × WorksAll x y
        × Answered answer x y
        × (y.queue ≡ [])
        × (y.busy ≡ [])
        × (y.accepted ≡ x.accepted)
        × Perm x.accepted (y.recorded ++ y.lost)
  Reachable-drains answer x r h =
      let s = Reachable-IsAccounted x r in
      let (y, ws, a1, hb, hi, hq, he, ha, hc, hd) = finish_all answer x.busy x refl in
      let idle_left : y.idle ≡ 3 = omega (arith, hi, s.workers, s.gone_late h) in
      let (z, vs, a2, zb, zq, za) = drain answer y.queue y 2 refl hb idle_left in
      let all = WorksAll-trans x y z ws vs in
      let t = WorksAll-IsAccounted x z all s in
      let accepted_all : z.taken ≡ x.accepted =
        sym (t.in_order ∙ ap (λ q. z.taken ++ q) zq ∙ append-nil z.taken) ∙ za ∙ ha in
      (
        z,
        all,
        Answered-trans answer x y z a1 a2,
        zq,
        zb,
        za ∙ ha,
        subst (λ l. Perm l (z.recorded ++ z.lost)) accepted_all
            (subst (λ l. Perm z.taken l)
              (ap (λ b. (z.recorded ++ z.lost) ++ b) zb ∙ append-nil (z.recorded ++ z.lost))
              t.each_once),
      )

  -- The idle workers leave, since the context is cancelled.
  leave_all :
      (n : ℕ) (x : AuditWorker E)
      → x.idle ≡ n
      → x.busy ≡ []
      → x.cancelled ≡ true
      → (y : AuditWorker E) × WorksAll x y
        × (y.idle ≡ 0)
        × (y.busy ≡ [])
        × (y.queue ≡ x.queue)
        × (y.accepted ≡ x.accepted)
        × (y.closed ≡ x.closed)
  leave_all zero x hi hb hc = (x, stop x, hi, hb, refl, refl, refl)
  leave_all (suc n) x hi hb hc =
      let x' : AuditWorker E = record x { idle = n; exited = suc x.exited } in
      let (y, ws, yi, yb, yq, ya, yc) = leave_all n x' refl hb hc in
      (y, then_on x x' y (left_cancelled x n hi hc) ws, yi, yb, yq, ya, yc)

  -- All workers are gone and the channel is closed.
  pub record IsOver (x : AuditWorker E) : Type 0 where
    pub none_idle : x.idle ≡ 0
    pub none_busy : x.busy ≡ []
    pub is_closed : x.closed ≡ true

  Works-IsOver : (x y : AuditWorker E) → Works x y → IsOver x → ⊥
  Works-IsOver _ _ (took x n e rest hi hq) o = absurd (omega (arith, hi, o.none_idle))
  Works-IsOver _ _ (finished x before after e hb) o =
      absurd (omega (arith, ap length (sym hb ∙ o.none_busy), length-append before (e ∷ after)))
  Works-IsOver _ _ (failed_to_record x before after e hb) o =
      absurd (omega (arith, ap length (sym hb ∙ o.none_busy), length-append before (e ∷ after)))
  Works-IsOver _ _ (left_cancelled x n hi hc) o = absurd (omega (arith, hi, o.none_idle))
  Works-IsOver _ _ (left_closed x n hi hc hq) o = absurd (omega (arith, hi, o.none_idle))

  -- What stays when all is over.
  abbrev pub IsSettled : AuditWorker E → AuditWorker E → Type 0
  IsSettled x y =
      (y.queue ≡ x.queue)
      × (y.accepted ≡ x.accepted)
      × (y.recorded ≡ x.recorded)
      × (y.lost ≡ x.lost)

  dropped-IsOver : (x : AuditWorker E) (d : List E) → IsOver x → IsOver (record x { dropped = d })
  dropped-IsOver x d o = record {
    none_idle = o.none_idle;
    none_busy = o.none_busy;
    is_closed = o.is_closed;
  }

  Sends-IsOver :
      (x : AuditWorker E) (e : E) (y : AuditWorker E)
      → Sends x e (returned y)
      → IsOver x
      → IsOver y × IsSettled x y
  Sends-IsOver x e _ (sent hc hl) o = absurd (ground (arith, hc, o.is_closed))
  Sends-IsOver x e _ timed_out o = (dropped-IsOver x (e ∷ x.dropped) o, (refl, refl, refl, refl))
  Sends-IsOver x e _ (turned_away h) o =
      (dropped-IsOver x (e ∷ x.dropped) o, (refl, refl, refl, refl))

  Step-IsOver : (x y : AuditWorker E) → Step x y → IsOver x → IsOver y × IsSettled x y
  Step-IsOver _ _ (worked x y w) o = absurd (Works-IsOver x y w o)
  Step-IsOver _ _ (sends x y e h) o = Sends-IsOver x e y h o
  Step-IsOver _ _ (cancels x) o = (
    record { none_idle = o.none_idle; none_busy = o.none_busy; is_closed = o.is_closed },
    (refl, refl, refl, refl),
  )
  Step-IsOver _ _ (closes x hc ho) o = absurd (ground (arith, ho, o.is_closed))

  Steps-IsOver : (x y : AuditWorker E) → Steps x y → IsOver x → IsOver y × IsSettled x y
  Steps-IsOver x _ (stop_here _) o = (o, (refl, refl, refl, refl))
  Steps-IsOver x z (step_on _ y _ s ss) o =
      let (oy, (hq, ha, hr, hl)) = Step-IsOver x y s o in
      let (oz, (kq, ka, kr, kl)) = Steps-IsOver y z ss oy in
      (oz, (kq ∙ hq, ka ∙ ha, kr ∙ hr, kl ∙ hl))

  -- From any point before the channel is closed, `Close` can end with all workers gone and the queue
  -- as it was. Then, whatever follows, the events that were queued stay there, and nothing more is
  -- accepted, recorded or lost; a `SendEvent` may panic then, and also may drop its event.
  pub Close-loses :
      (x : AuditWorker E)
      → Reachable x
      → x.closed ≡ false
      → (y : AuditWorker E) × Steps x y
        × IsOver y
        × (y.queue ≡ x.queue)
        × (y.accepted ≡ x.accepted)
        × ((z : AuditWorker E)
            → Steps y z
            → IsSettled y z
              × ((e : E)
                  → Sends z e panicked
                    × Sends z e (returned (record z { dropped = e ∷ z.dropped }))))
  Close-loses x r h =
      let x1 : AuditWorker E = record x { cancelled = true } in
      let x2 : AuditWorker E = record x1 { closed = true } in
      let (y, ws, a, hb, hi, hq, he, ha, hc, hd) = finish_all (λ e. true) x.busy x2 refl in
      let (z, vs, zi, zb, zq, za, zc) = leave_all y.idle y refl hb hc in
      let over : IsOver z = record { none_idle = zi; none_busy = zb; is_closed = zc ∙ hd } in
      (
        z,
        step_on x x1 z (cancels x) (
            step_on x1 x2 z (closes x1 refl h) (WorksAll-Steps x2 z (WorksAll-trans x2 y z ws vs))),
        over,
        zq ∙ hq,
        za ∙ ha,
        λ u ss.
            let (ou, settled) = Steps-IsOver z u ss over in
            (settled, λ e. (panics ou.is_closed, timed_out)),
      )
