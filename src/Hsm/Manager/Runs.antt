-- ===== src/Hsm/Manager/Runs.antt =====
-- The theorems on the manager at concrete clients, which are numbers; client 3 fails to close.
use hsm_service.Prelude.{
  ℕ, suc, ◌≡◌, ◌↔◌, refl, true, false, none, some, [], ◌∷◌, if◌then◌else◌, ◌==◌,
}
use hsm_service.Prelude.Int.{pos}
use hsm_service.Domain.Errors.{plain}
use hsm_service.Domain.Values.{IdentityContext}
use hsm_service.Exec.{ok}
use hsm_service.Hsm.Manager.{
  Clients, Manager, client_at, get_client_for_slot, client_count, register_client,
  manager_sign_hash, close_all,
}
use hsm_service.Hsm.Manager.Registry.{Distinct, register_client-at, failures, close_all-failures}

abbrev plain_clients : Clients ℕ ℕ
plain_clients = record {
  generate_key_pair = λ c a n l w. (ok ([], "1"), w);
  delete_key = λ c h w. (none, w);
  list_keys = λ c w. (ok [], w);
  get_public_key = λ c h w. (ok [], w);
  sign_hash = λ c h hash i w. (ok (c ∷ hash), w);
  verify_signature = λ c h hash s w. (ok true, w);
  encrypt = λ c h p w. (ok p, w);
  decrypt = λ c h p w. (ok p, w);
  generate_key_pair_with_label = λ c a n l t w. (ok ([], "1"), w);
  find_keys_by_label = λ c p w. (ok [], w);
  health_check = λ c w. (none, w);
  close_client = λ c w. (if c == 3 then some (plain "CKR_DEVICE_ERROR") else none, suc w);
  close_dispatcher = λ w. w;
  finalize_shared_context = λ w. (none, w);
}

abbrev two_clients : Manager ℕ
two_clients = record { clients = (pos 1, 3) ∷ (pos 2, 4) ∷ []; has_dispatcher = true }

abbrev caller : IdentityContext
caller = record {
  tenant_id = "acme";
  owner_type = "TENANT";
  owner_id = "acme";
  organization_id = none;
  parent_key_id = none;
  user_id = "alice";
  cert_level = pos 0;
  max_cert_level = pos 1;
  can_certify = false;
  certification_path = "";
}

register_client-at_example :
    let m' = (register_client plain_clients (pos 2) 9 two_clients 50).0 in
    (get_client_for_slot (pos 2) m' ≡ ok 9)
    × Distinct m'.clients
    × (client_count m' ≡ client_count two_clients)
    × (manager_sign_hash plain_clients "10" (4 ∷ []) (pos 2) caller m' 60 ≡ (ok (9 ∷ 4 ∷ []), 60))
unfolding client_at
register_client-at_example =
    register_client-at plain_clients (pos 2) (pos 2) 9 two_clients 50 60 "10" (4 ∷ []) caller
      (refl, (refl, tt))

close_all-failures_example :
    let (r, m', w') = close_all plain_clients two_clients 50 in
    (m'.clients ≡ [])
    × (w' ≡ 52)
    × (r ≡ none
        ↔ ((failures plain_clients two_clients.clients 50).0 ≡ 0)
          × ((plain_clients.finalize_shared_context 52).0 ≡ none))
unfolding failures
close_all-failures_example = close_all-failures plain_clients two_clients 50
