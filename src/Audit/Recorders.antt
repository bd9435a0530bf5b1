-- ===== src/Audit/Recorders.antt =====
-- factory.go and hybrid_processor.go: where an event goes under each strategy.
use hsm_service.Prelude.{
  ◌⊎◌, inl, inr, ◌≡◌, refl, String, Bool, true, false, not, Option, none, some, str_eq, ap, subst,
  sym, ◌&&◌, ◌||◌, if◌then◌else◌, arith,
}
use hsm_service.Domain.Errors.{GoError}
use hsm_service.Audit.{
  Outlets, Recorder, database_recorder, http_recorder, mock_recorder, hybrid_processor, has_http,
  forced, recorder_for, new_audit_recorder, sent_or_stored, hybrid_record, record_event,
}

module _ {W E : Type 0} (O : Outlets W E) where
  -- The event was sent, or else it was stored, and the outlet took it.
  IsKept : E → W → Type 0
  IsKept event w = ((O.send event w).0 ≡ none) ⊎ ((w' : W) × ((O.store event w').0 ≡ none))

  fallback-IsKept :
      (event : E) (w : W) (r : Option GoError × W)
      → O.send event w ≡ r
      → (sent_or_stored O event r).0 ≡ none
      → IsKept event w
  unfolding sent_or_stored IsKept
  fallback-IsKept event w (none, w') h k = inl (ap (λ p. p.0) h)
  fallback-IsKept event w (some x, w') h k = inr (w', k)

  if_kept :
      {K : Type 0} (b : Bool) (x y : Option GoError × W)
      → (x.0 ≡ none → K)
      → (y.0 ≡ none → K)
      → (if b then x else y).0 ≡ none
      → K
  if_kept true x y hx hy h = hx h
  if_kept false x y hx hy h = hy h

  hybrid-IsKept :
      (strategy : String) (primary : Bool) (event : E) (w : W)
      → (hybrid_record O strategy primary event w).0 ≡ none
      → IsKept event w
  unfolding hybrid_record IsKept
  hybrid-IsKept strategy primary event w h =
      if_kept (str_eq strategy "database") _ _ (λ k. inr (w, k))
        (if_kept (str_eq strategy "http") _ _ (if_kept primary _ _ (λ k. inl k) (λ k. inr (w, k))) (
          if_kept (str_eq strategy "hybrid") _ _
            (if_kept primary _ _ (fallback-IsKept event w (O.send event w) refl) (λ k. inr (w, k)))
            (λ k. inr (w, k))))
        h

  record_event-IsKept :
      (r : Recorder) (event : E) (w : W)
      → ((r ≡ mock_recorder) → ⊥)
      → (record_event O r event w).0 ≡ none
      → IsKept event w
  unfolding record_event IsKept
  record_event-IsKept database_recorder event w n h = inr (w, h)
  record_event-IsKept http_recorder event w n h = inl h
  record_event-IsKept mock_recorder event w n h = absurd (n refl)
  record_event-IsKept (hybrid_processor strategy primary) event w n h =
      hybrid-IsKept strategy primary event w h

  recorder_not_mock :
      (http : Bool) (s : String) → str_eq s "mock" ≡ false → recorder_for http s ≡ mock_recorder → ⊥
  unfolding recorder_for
  recorder_not_mock http s hm h = ground (arith, hm, h)

  if_not_mock :
      (c : Bool) (s : String)
      → str_eq s "mock" ≡ false
      → str_eq (if c then "database" else s) "mock" ≡ false
  if_not_mock true s hm = refl
  if_not_mock false s hm = hm

  not_mock :
      (strategy url : String)
      → str_eq strategy "mock" ≡ false
      → new_audit_recorder strategy url ≡ mock_recorder
      → ⊥
  unfolding new_audit_recorder forced
  not_mock strategy url hm h =
      recorder_not_mock (has_http url) (forced (has_http url) strategy)
        (if_not_mock (not (has_http url) && (str_eq strategy "http" || str_eq strategy "hybrid"))
          strategy hm)
        h

  stored_without :
      (c : Bool) (s : String) (event : E) (w : W)
      → str_eq s "mock" ≡ false
      → (str_eq s "http" || str_eq s "hybrid") ≡ c
      → record_event O (recorder_for false (if c then "database" else s)) event w ≡ O.store event w
  unfolding record_event recorder_for
  stored_without true s event w hm hc = refl
  stored_without false s event w hm hc = ground (arith, hm, hc)

  -- Without a URL of the audit service, each strategy but `mock` records as the database strategy.
  without_http :
      (strategy url : String) (event : E) (w : W)
      → str_eq strategy "mock" ≡ false
      → has_http url ≡ false
      → record_event O (new_audit_recorder strategy url) event w ≡ O.store event w
  unfolding new_audit_recorder forced
  without_http strategy url event w hm hu =
      subst (λ b. record_event O (recorder_for b (forced b strategy)) event w ≡ O.store event w)
        (sym hu)
        (stored_without (str_eq strategy "http" || str_eq strategy "hybrid") strategy event w hm
          refl)

  -- Under every strategy but `mock`, an event whose recording reports no error was sent, or was
  -- stored; without a URL of the audit service it is stored and never sent.
  pub record_event-Keeps :
      (strategy url : String) (event : E) (w : W)
      → str_eq strategy "mock" ≡ false
      → ((record_event O (new_audit_recorder strategy url) event w).0 ≡ none
          → ((O.send event w).0 ≡ none) ⊎ ((w' : W) × ((O.store event w').0 ≡ none)))
        × (has_http url ≡ false
            → record_event O (new_audit_recorder strategy url) event w ≡ O.store event w)
  unfolding IsKept
  record_event-Keeps strategy url event w hm = (
    record_event-IsKept (new_audit_recorder strategy url) event w (not_mock strategy url hm),
    without_http strategy url event w hm,
  )
