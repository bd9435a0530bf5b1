-- ===== src/Memory/Keeping.antt =====
-- The in-memory repository keeps the records it has, as `InsertsOnly` asks.
use hsm_service.Prelude.{String, ◌≡◌, true, List, [], ◌∷◌, arith, eq_iff}
use hsm_service.Domain.Errors.{plain}
use hsm_service.Domain.Entities.{CryptographicKey}
use hsm_service.Exec.{ok}
use hsm_service.Services.Keys.InsertOnly.{InsertsOnly}
use hsm_service.Memory.{Store, has_id, look_up, insert, memory}

look_up_held :
    (id tenant_id : String) (keys : List CryptographicKey) (k : CryptographicKey)
    → look_up id tenant_id keys ≡ ok k
    → has_id k.id keys ≡ true
unfolding look_up has_id
look_up_held id tenant_id [] k h = absurd (cc)
look_up_held id tenant_id (k' ∷ rest) k h =
    ground (arith, eq_iff k'.id k.id, look_up_held id tenant_id rest k)

pub memory-InsertsOnly : InsertsOnly memory
unfolding memory insert has_id
memory-InsertsOnly = record {
  Holds = λ id e. has_id id e.keys ≡ true;
  found_held = λ id tenant_id e k h. look_up_held id tenant_id e.keys k h;
  refuses = λ k e h. (plain "duplicate id", ground (arith, h));
  after_save = kept;
  after_tenant = λ id t e h. h;
  after_slot = λ id s e h. h;
  after_operation = λ id op e h. h;
  after_audit = λ id d i e h. h;
  after_generate = λ id a l n s e h. h;
  after_hsm_delete = λ id h s e k. k;
  after_uuid = λ id e h. h;
  after_now = λ id e h. h;
}
  where
    kept :
        (id : String) (k : CryptographicKey) (e : Store)
        → has_id id e.keys ≡ true
        → has_id id (insert k e).1.keys ≡ true
    kept id k e h = ground (arith, h)
