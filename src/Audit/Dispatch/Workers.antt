-- ===== src/Audit/Dispatch/Workers.antt =====
-- worker.go: runs of the workers alone, whatever the recordings answer.
use hsm_service.Prelude.{
  ℕ, suc, ◌+◌, ◌≡◌, refl, sym, ap, ◌∙◌, Bool, true, false, List, [], ◌∷◌, ◌++◌, length,
  append_assoc, arith,
}
use hsm_service.Audit.Dispatch.{
  AuditWorker, Works, took, finished, failed_to_record, worked, WorksAll, stop, then_on, Steps,
  stop_here, step_on,
}
use hsm_service.Audit.Dispatch.Accounts.{IsAccounted, Works-IsAccounted}

-- Every event of the list is answered by `b`.
abbrev pub All : {E : Type 0} → (E → Bool) → Bool → List E → Type 0
All answer b [] = Unit
All answer b (e ∷ es) = (answer e ≡ b) × All answer b es

All-append :
    {E : Type 0} (answer : E → Bool) (b : Bool) (xs ys : List E)
    → All answer b xs
    → All answer b ys
    → All answer b (xs ++ ys)
All-append answer b [] ys hx hy = hy
All-append answer b (e ∷ xs) ys hx hy = (hx.0, All-append answer b xs ys hx.1 hy)

-- What was recorded from `x` to `y` are events on which `RecordEvent` succeeds, and what was lost,
-- events on which it fails.
pub record Answered {E : Type 0} (answer : E → Bool) (x y : AuditWorker E) : Type 0 where
  pub good : List E
  pub bad : List E
  pub now_recorded : y.recorded ≡ good ++ x.recorded
  pub now_lost : y.lost ≡ bad ++ x.lost
  pub all_good : All answer true good
  pub all_bad : All answer false bad

module _ {E : Type 0} (answer : E → Bool) where
  Answered-refl : (x : AuditWorker E) → Answered answer x x
  Answered-refl x = record {
    good = [];
    bad = [];
    now_recorded = refl;
    now_lost = refl;
    all_good = tt;
    all_bad = tt;
  }

  pub Answered-trans :
      (x y z : AuditWorker E) → Answered answer x y → Answered answer y z → Answered answer x z
  Answered-trans x y z a b = record {
    good = b.good ++ a.good;
    bad = b.bad ++ a.bad;
    now_recorded =
        b.now_recorded
        ∙ ap (λ l. b.good ++ l) a.now_recorded
        ∙ sym (append_assoc b.good a.good x.recorded);
    now_lost = b.now_lost ∙ ap (λ l. b.bad ++ l) a.now_lost ∙ sym (append_assoc b.bad a.bad x.lost);
    all_good = All-append answer true b.good a.good b.all_good a.all_good;
    all_bad = All-append answer false b.bad a.bad b.all_bad a.all_bad;
  }

  Answered-same :
      (x x' y : AuditWorker E)
      → x'.recorded ≡ x.recorded
      → x'.lost ≡ x.lost
      → Answered answer x' y
      → Answered answer x y
  Answered-same x x' y hr hl a = record {
    good = a.good;
    bad = a.bad;
    now_recorded = a.now_recorded ∙ ap (λ l. a.good ++ l) hr;
    now_lost = a.now_lost ∙ ap (λ l. a.bad ++ l) hl;
    all_good = a.all_good;
    all_bad = a.all_bad;
  }

module _ {E : Type 0} where
  pub WorksAll-IsAccounted : (x y : AuditWorker E) → WorksAll x y → IsAccounted x → IsAccounted y
  WorksAll-IsAccounted x _ (stop _) s = s
  WorksAll-IsAccounted x z (then_on _ y _ w ws) s =
      WorksAll-IsAccounted y z ws (Works-IsAccounted x y w s)

  pub WorksAll-trans : (x y z : AuditWorker E) → WorksAll x y → WorksAll y z → WorksAll x z
  WorksAll-trans x _ z (stop _) vs = vs
  WorksAll-trans x y z (then_on _ u _ w ws) vs = then_on x u z w (WorksAll-trans u y z ws vs)

  pub WorksAll-Steps : (x y : AuditWorker E) → WorksAll x y → Steps x y
  WorksAll-Steps x _ (stop _) = stop_here x
  WorksAll-Steps x z (then_on _ y _ w ws) = step_on x y z (worked x y w) (WorksAll-Steps y z ws)

  pub Steps-trans : (x y z : AuditWorker E) → Steps x y → Steps y z → Steps x z
  Steps-trans x _ z (stop_here _) vs = vs
  Steps-trans x y z (step_on _ u _ w ws) vs = step_on x u z w (Steps-trans u y z ws vs)

  -- One worker ends its recording, which succeeds or fails as `answer` says.
  ended :
      (answer : E → Bool) (x : AuditWorker E) (e : E) (rest : List E) (b : Bool)
      → answer e ≡ b
      → x.busy ≡ e ∷ rest
      → (y : AuditWorker E) × Works x y
        × Answered answer x y
        × (y.busy ≡ rest)
        × (y.idle ≡ suc x.idle)
        × (y.queue ≡ x.queue)
        × (y.exited ≡ x.exited)
        × (y.accepted ≡ x.accepted)
        × (y.cancelled ≡ x.cancelled)
        × (y.closed ≡ x.closed)
  ended answer x e rest true a h = (
    record x { idle = suc x.idle; busy = rest; recorded = e ∷ x.recorded },
    finished x [] rest e h,
    record {
      good = e ∷ [];
      bad = [];
      now_recorded = refl;
      now_lost = refl;
      all_good = (a, tt);
      all_bad = tt;
    },
    refl,
    refl,
    refl,
    refl,
    refl,
    refl,
    refl,
  )
  ended answer x e rest false a h = (
    record x { idle = suc x.idle; busy = rest; lost = e ∷ x.lost },
    failed_to_record x [] rest e h,
    record {
      good = [];
      bad = e ∷ [];
      now_recorded = refl;
      now_lost = refl;
      all_good = tt;
      all_bad = (a, tt);
    },
    refl,
    refl,
    refl,
    refl,
    refl,
    refl,
    refl,
  )

  -- The workers end what they are recording.
  pub finish_all :
      (answer : E → Bool) (busy : List E) (x : AuditWorker E)
      → x.busy ≡ busy
      → (y : AuditWorker E) × WorksAll x y
        × Answered answer x y
        × (y.busy ≡ [])
        × (y.idle ≡ x.idle + length busy)
        × (y.queue ≡ x.queue)
        × (y.exited ≡ x.exited)
        × (y.accepted ≡ x.accepted)
        × (y.cancelled ≡ x.cancelled)
        × (y.closed ≡ x.closed)
  finish_all answer [] x h =
      (x, stop x, Answered-refl answer x, h, omega arith, refl, refl, refl, refl, refl)
  finish_all answer (e ∷ rest) x h =
      let (x', w, a', kb, ki, kq, ke, ka, kc, kd) = ended answer x e rest (answer e) refl h in
      let (y, ws, a, hb, hi, hq, he, ha, hc, hd) = finish_all answer rest x' kb in
      (
        y,
        then_on x x' y w ws,
        Answered-trans answer x x' y a' a,
        hb,
        omega (arith, hi, ki),
        hq ∙ kq,
        he ∙ ke,
        ha ∙ ka,
        hc ∙ kc,
        hd ∙ kd,
      )

  -- One worker takes and records what is queued.
  pub drain :
      (answer : E → Bool) (queue : List E) (x : AuditWorker E) (n : ℕ)
      → x.queue ≡ queue
      → x.busy ≡ []
      → x.idle ≡ suc n
      → (y : AuditWorker E) × WorksAll x y
        × Answered answer x y
        × (y.busy ≡ [])
        × (y.queue ≡ [])
        × (y.accepted ≡ x.accepted)
  drain answer [] x n hq hb hi = (x, stop x, Answered-refl answer x, hb, hq, refl)
  drain answer (e ∷ rest) x n hq hb hi =
      let x1 : AuditWorker E = record x {
        queue = rest;
        idle = n;
        busy = e ∷ x.busy;
        taken = x.taken ++ (e ∷ []);
      } in
      let (x2, w, a1, kb, ki, kq, ke, ka, kc, kd) = ended answer x1 e x.busy (answer e) refl refl in
      let (y, ws, a2, yb, yq, ya) = drain answer rest x2 n kq (kb ∙ hb) ki in
      (
        y,
        then_on x x1 y (took x n e rest hi hq) (then_on x1 x2 y w ws),
        Answered-trans answer x x2 y (Answered-same answer x x1 x2 refl refl a1) a2,
        yb,
        yq,
        ya ∙ ka,
      )
