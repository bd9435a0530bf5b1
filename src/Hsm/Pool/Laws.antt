-- ===== src/Hsm/Pool/Laws.antt =====
-- What session_pool.go relies on of the weighted semaphore.
use hsm_service.Prelude.{ℕ, suc, ◌<◌, ◌≡◌, some}
use hsm_service.Domain.Errors.{GoError}
use hsm_service.Exec.{ok, err}
use hsm_service.Hsm.Pool.{Semaphore}

-- A semaphore has a size and a number of free permits: one that is acquired was free, none is
-- acquired when none is free, one that is free is acquired while the context lives, and one that is held can be released.
pub record SemaphoreLaws {S : Type 0} (L : Semaphore S) : Type 0 where
  pub free : S → ℕ
  pub size : S → ℕ
  pub new_free : (n : ℕ) → free (L.new n) ≡ n
  pub new_size : (n : ℕ) → size (L.new n) ≡ n
  pub acquire_free : (s s' : S) → L.acquire s ≡ ok s' → free s ≡ suc (free s')
  pub acquire_size : (s s' : S) → L.acquire s ≡ ok s' → size s' ≡ size s
  pub acquire_none : (s : S) → free s ≡ 0 → (x : GoError) × (L.acquire s ≡ err x)
  pub acquire_some : (s : S) (n : ℕ) → free s ≡ suc n → (s' : S) × (L.acquire s ≡ ok s')
  pub release_some : (s : S) → free s < size s → (s' : S) × (L.release s ≡ some s')
  pub release_free : (s s' : S) → L.release s ≡ some s' → free s' ≡ suc (free s)
  pub release_size : (s s' : S) → L.release s ≡ some s' → size s' ≡ size s
