-- ===== src/Hsm/Pool.antt =====
-- internal/infrastructure/hsm/session_pool.go. The PKCS#11 library and the weighted semaphore are
-- parameters. The channel is its buffer, oldest first. The configured size is taken as a natural
-- number: a negative one panics when the channel is made.
pub mod Laws
pub mod Permits
mod Runs
pub mod Steps
use Prim.Native.String.{◌++◌ as cat}
use hsm_service.Prelude.{
  ℕ, zero, suc, ◌+◌, String, Bool, true, false, not, ◌&&◌, Option, none, some, List, [], ◌∷◌, ◌++◌,
  length, ltb, str_eq, if◌then◌else◌,
}
use hsm_service.Domain.Errors.{GoError, plain, wrapped}
use hsm_service.Exec.{Reply, ok, err, Outcome, returned, failed, panicked}

-- The answer of `Login`.
pub data Login : Type 0 where
  logged_in already_logged_in : Login
  refused : GoError → Login

-- The part of `pkcs11.Ctx` that the pool calls.
pub record Token (W : Type 0) : Type 0 where
  pub load : String → W → Bool × W
  pub initialize : W → Option GoError × W
  pub slot_list : W → Reply (List ℕ) × W
  pub token_label : ℕ → W → Reply String × W
  pub open_session : ℕ → W → Reply ℕ × W
  pub login : ℕ → String → W → Login × W
  pub logout : ℕ → W → W
  pub close_session : ℕ → W → W
  pub session_info : ℕ → W → Option GoError × W
  pub finalize : W → W

-- `semaphore.Weighted`, with weights of 1. `acquire` fails when the context ends first; `release`
-- of a permit that nobody holds panics.
pub record Semaphore (S : Type 0) : Type 0 where
  pub new : ℕ → S
  pub acquire : S → Reply S
  pub release : S → Option S

pub record Pool (W S : Type 0) : Type 0 where
  pub slot_id : ℕ
  pub pin : String
  pub max_sessions : ℕ
  pub initialized : Bool
  pub sessions : List ℕ
  pub sem : S
  pub env : W

-- What a `select` on `ctx.Done()` may see: the context is alive, or it ended, and then whether the
-- select takes that case when a session is there too.
pub data Done : Type 0 where
  alive : Done
  ended : GoError → Bool → Done

unfoldable pub min : ℕ → ℕ → ℕ
min a b = if ltb a b then a else b

abbrev pub not_initialized : GoError
not_initialized = plain "session pool not initialized"

module _ {W S : Type 0} (T : Token W) (L : Semaphore S) where
  -- `createSession`
  logged : ℕ → Login × W → Pool W S → Outcome ℕ × Pool W S
  logged session (logged_in, e) p = (returned session, record p { env = e })
  logged session (already_logged_in, e) p = (returned session, record p { env = e })
  logged session (refused x, e) p =
      (failed (wrapped "failed to login" x), record p { env = T.close_session session e })

  opened : Reply ℕ × W → Pool W S → Outcome ℕ × Pool W S
  unfolding logged
  opened (err x, e) p = (failed (wrapped "failed to open session" x), record p { env = e })
  opened (ok session, e) p = logged session (T.login session p.pin e) p

  unfoldable pub create_session : Pool W S → Outcome ℕ × Pool W S
  unfolding opened
  create_session p = opened (T.open_session p.slot_id p.env) p

  -- `p.sem.Release(1)`, and then a return.
  unfoldable pub released : {A : Type 0} → Outcome A → Pool W S → Outcome A × Pool W S
  released o p = elim (L.release p.sem) [
    | none ↦ (panicked, p)
    | some s ↦ (o, record p { sem = s })
  ]

  chosen : Done → List ℕ → Pool W S → Outcome ℕ × Pool W S
  chosen alive [] p = create_session p
  chosen alive (session ∷ rest) p = (returned session, record p { sessions = rest })
  chosen (ended x first) [] p = released (failed x) p
  chosen (ended x first) (session ∷ rest) p =
      if first then released (failed x) p else (returned session, record p { sessions = rest })

  -- The `select` of `GetSession`.
  unfoldable pub select_session : Done → Pool W S → Outcome ℕ × Pool W S
  unfolding chosen
  select_session d p = chosen d p.sessions p

  permitted : Reply S → Done → Pool W S → Outcome ℕ × Pool W S
  permitted (err x) d p = (failed (wrapped "failed to acquire semaphore" x), p)
  permitted (ok s) d p = select_session d (record p { sem = s })

  unfoldable pub get_session : Done → Pool W S → Outcome ℕ × Pool W S
  unfolding permitted
  get_session d p =
      if not p.initialized then (failed not_initialized, p) else permitted (L.acquire p.sem) d p

  -- The `select` of `ReturnSession`: the channel takes the session, or it is full and the session
  -- is closed.
  unfoldable pub put_session : ℕ → Pool W S → Pool W S
  put_session session p =
      if ltb (length p.sessions) p.max_sessions
      then record p { sessions = p.sessions ++ (session ∷ []) }
      else record p { env = T.close_session session p.env }

  unfoldable pub return_session : ℕ → Pool W S → Outcome (Unit {0}) × Pool W S
  unfolding put_session released
  return_session session p =
      if not p.initialized then (returned tt, p) else released (returned tt) (put_session session p)

  unfoldable pub drain : List ℕ → W → W
  drain [] e = e
  drain (session ∷ rest) e = drain rest (T.close_session session (T.logout session e))

  unfoldable pub close : Pool W S → Pool W S
  unfolding drain
  close p = if not p.initialized then p else record p {
    sessions = [];
    env = T.finalize (drain p.sessions p.env);
    initialized = false;
  }

  info_error : Option GoError → Outcome (Unit {0})
  info_error none = returned tt
  info_error (some x) = failed (wrapped "session is not active" x)

  -- The session is given back by a deferred call, which may panic.
  after_return : Outcome (Unit {0}) → Outcome (Unit {0}) × Pool W S → Outcome (Unit {0}) × Pool W S
  after_return o (returned tt, p) = (o, p)
  after_return o (failed x, p) = (o, p)
  after_return o (panicked, p) = (panicked, p)

  checked : Outcome ℕ × Pool W S → Outcome (Unit {0}) × Pool W S
  unfolding info_error after_return
  checked (returned session, p) =
      let (r, e) = T.session_info session p.env in
      after_return (info_error r) (return_session session (record p { env = e }))
  checked (failed x, p) = (failed (wrapped "failed to get session for health check" x), p)
  checked (panicked, p) = (panicked, p)

  -- `HealthCheck`: the background context does not end.
  unfoldable pub health_check : Pool W S → Outcome (Unit {0}) × Pool W S
  unfolding checked
  health_check p =
      if not p.initialized then (failed not_initialized, p) else checked (get_session alive p)

  -- The loop of `NewSessionPool` that opens sessions in advance: a failure is passed over.
  warmed : Outcome ℕ × Pool W S → Pool W S
  warmed (returned session, p) = record p { sessions = p.sessions ++ (session ∷ []) }
  warmed (failed x, p) = p
  warmed (panicked, p) = p

  unfoldable pub prewarm : ℕ → Pool W S → Pool W S
  unfolding warmed create_session
  prewarm zero p = p
  prewarm (suc n) p = prewarm n (warmed (create_session p))

  -- The loop that looks for the token by its label.
  label_is : String → Reply String → Bool
  label_is label (ok l) = str_eq l label
  label_is label (err x) = false

  unfoldable pub find_token : String → List ℕ → W → Option ℕ × W
  unfolding label_is
  find_token label [] e = (none, e)
  find_token label (slot ∷ rest) e =
      let (r, e') = T.token_label slot e in
      let later = find_token label rest e' in if label_is label r then (some slot, e') else later

  unfoldable pub unwarmed : ℕ → String → ℕ → W → Pool W S
  unwarmed slot pin max_sessions e = record {
    slot_id = slot;
    pin = pin;
    max_sessions = max_sessions;
    initialized = false;
    sessions = [];
    sem = L.new max_sessions;
    env = e;
  }

  -- The pool that `NewSessionPool` makes on a slot.
  unfoldable pub new_pool : ℕ → String → ℕ → W → Pool W S
  unfolding prewarm min unwarmed
  new_pool slot pin max_sessions e =
      record (prewarm (min 2 max_sessions) (unwarmed slot pin max_sessions e)) {
        initialized = true;
      }

  on_token : String → String → ℕ → Option ℕ × W → Reply (Pool W S) × W
  unfolding new_pool
  on_token label pin max_sessions (none, e) =
      (err (plain (cat "token with label " (cat label " not found"))), e)
  on_token label pin max_sessions (some slot, e) =
      let p = new_pool slot pin max_sessions e in (ok p, p.env)

  on_slots : String → String → ℕ → Reply (List ℕ) × W → Reply (Pool W S) × W
  unfolding on_token find_token
  on_slots label pin max_sessions (err x, e) = (err (wrapped "failed to get slot list" x), e)
  on_slots label pin max_sessions (ok [], e) = (err (plain "no slots found"), e)
  on_slots label pin max_sessions (ok (slot ∷ rest), e) =
      on_token label pin max_sessions (find_token label (slot ∷ rest) e)

  on_library : String → String → ℕ → Option GoError × W → Reply (Pool W S) × W
  unfolding on_slots
  on_library label pin max_sessions (some x, e) =
      (err (wrapped "failed to initialize PKCS#11" x), e)
  on_library label pin max_sessions (none, e) = on_slots label pin max_sessions (T.slot_list e)

  unfoldable pub new_session_pool : String → String → String → ℕ → W → Reply (Pool W S) × W
  unfolding on_library
  new_session_pool library label pin max_sessions e =
      let (loaded, e') = T.load library e in
      if not loaded
      then (err (plain (cat "failed to load PKCS#11 library from " library)), e')
      else on_library label pin max_sessions (T.initialize e')
