-- ===== src/Hsm/SoftHsm/Opening.antt =====
-- `NewSoftHSMClient` of internal/infrastructure/hsm/client.go, over the shared PKCS#11 context. The
-- client that it makes is the handle of its session.
use Prim.Native.String.{◌++◌ as cat}
use hsm_service.Prelude.{
  ℕ, String, Bool, ◌||◌, Option, none, some, List, [], ◌∷◌, ◌==◌, if◌then◌else◌,
}
use hsm_service.Prelude.Decimal.{decimal}
use hsm_service.Domain.Errors.{GoError, plain, wrapped, error_text}
use hsm_service.Exec.{Reply, ok, err, Outcome, returned, failed, panicked}
use hsm_service.Hsm.Context.{Library, Context, get_or_init}
use hsm_service.Hsm.Pool.{Login, logged_in, already_logged_in, refused}

-- The calls on the context, which may be nil.
pub record Opener (W H : Type 0) : Type 0 where
  pub open_session : Option H → ℕ → W → Reply ℕ × W
  pub session_state : Option H → ℕ → W → Reply ℕ × W
  pub login : Option H → ℕ → String → W → Login × W
  pub close_opened : Option H → ℕ → W → W

-- `fmt.Errorf("… %d: %w", slot, err)`
abbrev on_slot : String → ℕ → GoError → GoError
on_slot message slot = wrapped (cat message (decimal slot))

-- CKS_RO_USER_FUNCTIONS or CKS_RW_USER_FUNCTIONS.
unfoldable pub user_logged_in : ℕ → Bool
user_logged_in state = (state == 1) || (state == 3)

module _ {W H : Type 0} (C : Library W H) (O : Opener W H) (pin : String) (slot : ℕ) where
  login_answered : Option H → ℕ → Login × W → Context W H → Outcome ℕ × Context W H
  login_answered h session (logged_in, e) c = (returned session, record c { env = e })
  login_answered h session (already_logged_in, e) c = (returned session, record c { env = e })
  login_answered h session (refused x, e) c = (
    failed (on_slot "failed to login to slot " slot x),
    record c { env = O.close_opened h session e },
  )

  state_read : Option H → ℕ → Reply ℕ × W → Context W H → Outcome ℕ × Context W H
  unfolding login_answered user_logged_in
  state_read h session (err x, e) c = (
    failed (on_slot "failed to get session info for slot " slot x),
    record c { env = O.close_opened h session e },
  )
  state_read h session (ok state, e) c =
      if user_logged_in state
      then (returned session, record c { env = e })
      else login_answered h session (O.login h session pin e) c

  session_opened : Option H → Reply ℕ × W → Context W H → Outcome ℕ × Context W H
  unfolding state_read
  session_opened h (err x, e) c =
      (failed (on_slot "failed to open session on slot " slot x), record c { env = e })
  session_opened h (ok session, e) c = state_read h session (O.session_state h session e) c

  slots_listed : Option H → Outcome (List ℕ) × W → Context W H → Outcome ℕ × Context W H
  unfolding session_opened
  slots_listed h (panicked, e) c = (panicked, record c { env = e })
  slots_listed h (failed x, e) c =
      (failed (plain (cat "failed to get slots: " (error_text x))), record c { env = e })
  slots_listed h (returned [], e) c =
      (failed (plain "no PKCS#11 slots available"), record c { env = e })
  slots_listed h (returned (s ∷ slots), e) c = session_opened h (O.open_session h slot e) c

  context_got : (Option H × Option GoError) × Context W H → Outcome ℕ × Context W H
  unfolding slots_listed
  context_got ((h, some x), c) = (failed (wrapped "failed to get PKCS#11 context" x), c)
  context_got ((h, none), c) = slots_listed h (C.slot_list h c.env) c

  unfoldable pub new_softhsm_client : String → Context W H → Outcome ℕ × Context W H
  unfolding context_got
  new_softhsm_client module_path c = context_got (get_or_init C module_path c)
