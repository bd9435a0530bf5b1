-- ===== src/Secrets/Runs.antt =====
-- The theorems on the local key manager at concrete inputs.
use hsm_service.Prelude.{◌≡◌, refl}
use hsm_service.Domain.Entities.{Bytes}
use hsm_service.Exec.{ok}
use hsm_service.Aes.Plain.{zeros, length-zeros, toy, toy-AeadLaws, some_key}
use hsm_service.Secrets.{LocalAesKeyManager, local_wrap_key, local_unwrap_key, rewrap_key}
use hsm_service.Secrets.Envelope.{local_unwrap-rewrap}

abbrev manager : LocalAesKeyManager
manager = record { master_key = some_key; key_id = "kek-1" }

local_unwrap-rewrap_example :
    (wrapped : Bytes) × (rewrapped_key : Bytes) × ((local_wrap_key toy manager "kek-1"
        (zeros 32)
        5).0
      ≡ ok wrapped)
    × (local_unwrap_key toy manager "kek-1" wrapped ≡ ok (zeros 32))
    × ((rewrap_key toy manager "kek-1" "kek-2" wrapped 40).0 ≡ ok rewrapped_key)
    × (local_unwrap_key toy manager "kek-2" rewrapped_key ≡ ok (zeros 32))
unfolding toy
local_unwrap-rewrap_example =
    local_unwrap-rewrap toy toy-AeadLaws manager "kek-1" "kek-1" "kek-2" (zeros 32) (zeros 12)
      (zeros 12) 5 40 (length-zeros 32) (length-zeros 32) refl refl
