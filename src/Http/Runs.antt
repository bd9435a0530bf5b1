-- ===== src/Http/Runs.antt =====
-- The theorems on responses at concrete calls.
use hsm_service.Prelude.{◌≡◌, refl, [], ◌∷◌}
use hsm_service.Domain.Errors.{GoError}
use hsm_service.Exec.{failed}
use hsm_service.Services.Signing.{sign_hash}
use hsm_service.Memory.{memory}
use hsm_service.Memory.Data.{alice, start}
use hsm_service.Http.{handle_error}
use hsm_service.Http.Statuses.{refusal_status, sign_hash-status}

sign_hash-status_example :
    (e : GoError) × ((sign_hash memory "key-2" (4 ∷ []) alice start).0 ≡ failed e)
    × ((handle_error e).status ≡ 404)
unfolding memory refusal_status
sign_hash-status_example = sign_hash-status memory "key-2" (4 ∷ []) alice start 404 refl
