-- ===== src/Hsm/Pool/Runs.antt =====
-- The theorems on the session pool at a concrete semaphore and at two concrete tokens.
use hsm_service.Prelude.{
  ℕ, zero, suc, ◌+◌, ◌≡◌, ◌<◌, refl, true, Option, none, some, [], ◌∷◌, arith,
}
use hsm_service.Domain.Errors.{GoError, plain}
use hsm_service.Exec.{Reply, ok, err, returned, failed}
use hsm_service.Hsm.Pool.{
  Token, Semaphore, Pool, logged_in, alive, get_session, return_session, create_session, new_pool,
}
use hsm_service.Hsm.Pool.Laws.{SemaphoreLaws}
use hsm_service.Hsm.Pool.Permits.{Gets, get_session-Gets, attempts, get_session_starves}
use hsm_service.Hsm.Pool.Steps.{
  Shared, Reachable, start, next, acquired, took, IsSound, Reachable-IsSound,
  return_session-Reachable,
}

-- How many permits are free, and how many are held.
abbrev Permits : Type 0
Permits = ℕ × ℕ

abbrev acquire_one : Permits → Reply Permits
acquire_one (zero, h) = err (plain "context deadline exceeded")
acquire_one (suc n, h) = ok (n, suc h)

abbrev release_one : Permits → Option Permits
release_one (n, zero) = none
release_one (n, suc h) = some (suc n, h)

counting : Semaphore Permits
counting = record { new = λ n. (n, 0); acquire = acquire_one; release = release_one }

some_released : (s : Permits) → s.0 < s.0 + s.1 → (s' : Permits) × (release_one s ≡ some s')
some_released (n, zero) h = absurd (omega (arith, h))
some_released (n, suc k) h = ((suc n, k), refl)

counting-SemaphoreLaws : SemaphoreLaws counting
unfolding counting
counting-SemaphoreLaws = record {
  free = λ s. s.0;
  size = λ s. s.0 + s.1;
  new_free = λ n. refl;
  new_size = λ n. omega arith;
  acquire_free = λ s s' h. ground (arith, h);
  acquire_size = λ s s' h. ground (arith, h);
  acquire_none = λ s h. (plain "context deadline exceeded", ground (arith, h));
  acquire_some = λ s n h. ((n, suc s.1), ground (arith, h));
  release_some = some_released;
  release_free = λ s s' h. ground (arith, h);
  release_size = λ s s' h. ground (arith, h);
}

-- A token that hands out the next handle, and one that opens no session.
working : Token ℕ
working = record {
  load = λ path w. (true, w);
  initialize = λ w. (none, w);
  slot_list = λ w. (ok (7 ∷ []), w);
  token_label = λ slot w. (ok "acme", w);
  open_session = λ slot w. (ok w, suc w);
  login = λ session pin w. (logged_in, w);
  logout = λ session w. w;
  close_session = λ session w. w;
  session_info = λ session w. (none, w);
  finalize = λ w. w;
}

unplugged : Token ℕ
unfolding working
unplugged = record working { open_session = λ slot w. (err (plain "CKR_TOKEN_NOT_PRESENT"), w) }

abbrev cold : Pool ℕ Permits
cold = record {
  slot_id = 7;
  pin = "1234";
  max_sessions = 2;
  initialized = true;
  sessions = [];
  sem = (2, 0);
  env = 40;
}

get_session-Gets_example :
    let (o, q) = get_session working counting alive cold in
    Gets working counting counting-SemaphoreLaws alive cold o q
unfolding counting-SemaphoreLaws
get_session-Gets_example =
    get_session-Gets working counting counting-SemaphoreLaws alive cold (omega arith)

get_session_starves_example :
    (x : GoError) × ((get_session working counting alive
        (attempts unplugged counting counting-SemaphoreLaws 2 cold)).0
      ≡ failed x)
unfolding counting-SemaphoreLaws unplugged
get_session_starves_example =
    get_session_starves unplugged counting counting-SemaphoreLaws working cold alive
      (λ slot e. (plain "CKR_TOKEN_NOT_PRESENT", refl)) refl refl

abbrev warm : Shared ℕ Permits
warm = record {
  pool = new_pool working counting 7 "1234" 1 40;
  waiting = 0;
  creating = 0;
  lent = 0;
  releasing = 0;
  leaked = 0;
}

abbrev asked : Shared ℕ Permits
asked = record warm { pool = record warm.pool { sem = (0, 1) }; waiting = 1 }

abbrev busy : Shared ℕ Permits
busy = record asked { pool = record asked.pool { sessions = [] }; waiting = 0; lent = 1 }

busy-Reachable : Reachable working counting busy
unfolding new_pool working counting create_session
busy-Reachable =
    next asked busy (next warm asked (start 7 "1234" 1 40) (acquired warm (0, 1) refl))
      (took asked 0 40 [] refl refl)

Reachable-IsSound_example : IsSound working counting counting-SemaphoreLaws busy
Reachable-IsSound_example =
    Reachable-IsSound working counting counting-SemaphoreLaws busy busy-Reachable

return_session-Reachable_example :
    (s : Permits) × (release_one (0, 1) ≡ some s)
    × (return_session working counting 40 busy.pool
        ≡ (returned tt, record busy.pool { sessions = 40 ∷ []; sem = s }))
unfolding new_pool counting
return_session-Reachable_example =
    return_session-Reachable working counting counting-SemaphoreLaws busy 0 40 busy-Reachable refl
      refl
