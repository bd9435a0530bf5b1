-- ===== src/Secrets/Adapter/Runs.antt =====
-- The theorem on the audited key manager at concrete calls.
use hsm_service.Prelude.{ℕ, ◌≡◌, true, [], ◌∷◌}
use hsm_service.Aes.Plain.{zeros, toy, some_key}
use hsm_service.Secrets.{LocalAesKeyManager}
use hsm_service.Secrets.Adapter.{Audited, adapter}
use hsm_service.Secrets.Adapter.Values.{
  generating, wrapping, encrypting_with, request_all, flags_of, successes, adapter-local,
}
use hsm_service.Services.Slots.Recovery.{local_manager}

abbrev manager : LocalAesKeyManager
manager = record { master_key = some_key; key_id = "kek-1" }

abbrev before : Audited ℕ
before = record { env = 5; records = [] }

adapter-local_example :
    let rs = generating ∷ wrapping "kek-1" (zeros 31) ∷ encrypting_with (zeros 32) (1 ∷ []) ∷ [] in
    let q = request_all (local_manager toy manager) rs 5 in
    let r = request_all (adapter toy (local_manager toy manager) true) rs before in
    (r.0 ≡ q.0) × (r.1.env ≡ q.1) × (successes r.1.records ≡ flags_of rs q.0 (successes []))
adapter-local_example =
    adapter-local toy manager
      (generating ∷ wrapping "kek-1" (zeros 31) ∷ encrypting_with (zeros 32) (1 ∷ []) ∷ []) before
