-- ===== src/Hsm/Manager.antt =====
-- internal/infrastructure/hsm/manager.go. The clients and the shared context are parameters, and
-- the map is an association list without two entries for a slot. `CloseAll` and `HealthCheckAll`
-- visit the clients in the order of the list; Go's order is not determined.
pub mod Registry
mod Runs
use Prim.Native.String.{◌++◌ as cat}
use hsm_service.Prelude.{
  ℕ, String, Bool, true, false, Option, none, some, List, [], ◌∷◌, length, if◌then◌else◌,
}
use hsm_service.Prelude.Int.{ℤ, eqb_ℤ}
use hsm_service.Prelude.Decimal.{decimal_int}
use hsm_service.Domain.Errors.{GoError, plain}
use hsm_service.Domain.Values.{IdentityContext}
use hsm_service.Domain.Entities.{Bytes, HsmKey}
use hsm_service.Exec.{Reply, ok, err}

-- `output.HSMClient` over a type of clients.
pub record Clients (W C : Type 0) : Type 0 where
  pub generate_key_pair : C → String → ℤ → String → W → Reply (Bytes × String) × W
  pub delete_key : C → String → W → Option GoError × W
  pub list_keys : C → W → Reply (List HsmKey) × W
  pub get_public_key : C → String → W → Reply Bytes × W
  pub sign_hash : C → String → Bytes → IdentityContext → W → Reply Bytes × W
  pub verify_signature : C → String → Bytes → Bytes → W → Reply Bool × W
  pub encrypt : C → String → Bytes → W → Reply Bytes × W
  pub decrypt : C → String → Bytes → W → Reply Bytes × W
  pub generate_key_pair_with_label :
      C → String → ℤ → String → String → W → Reply (Bytes × String) × W
  pub find_keys_by_label : C → String → W → Reply (List HsmKey) × W
  pub health_check : C → W → Option GoError × W
  pub close_client : C → W → Option GoError × W
  pub close_dispatcher : W → W
  pub finalize_shared_context : W → Option GoError × W

pub record Manager (C : Type 0) : Type 0 where
  pub clients : List (ℤ × C)
  pub has_dispatcher : Bool

unfoldable pub no_client : ℤ → GoError
no_client slot = plain (cat "no HSM client registered for slot " (decimal_int slot))

module _ {C : Type 0} where
  unfoldable pub client_at : ℤ → List (ℤ × C) → Option C
  client_at slot [] = none
  client_at slot ((s, c) ∷ rest) = if eqb_ℤ s slot then some c else client_at slot rest

  -- `m.clients[slot] = client`
  unfoldable pub put_client : ℤ → C → List (ℤ × C) → List (ℤ × C)
  put_client slot c [] = (slot, c) ∷ []
  put_client slot c ((s, c') ∷ rest) =
      if eqb_ℤ s slot then (slot, c) ∷ rest else (s, c') ∷ put_client slot c rest

  unfoldable pub new_hsm_manager : Bool → Manager C
  new_hsm_manager has_dispatcher = record { clients = []; has_dispatcher = has_dispatcher }

  client_or : ℤ → Option C → Reply C
  unfolding no_client
  client_or slot none = err (no_client slot)
  client_or slot (some c) = ok c

  unfoldable pub get_client_for_slot : ℤ → Manager C → Reply C
  unfolding client_or
  get_client_for_slot slot m = client_or slot (client_at slot m.clients)

  unfoldable pub client_count : Manager C → ℕ
  client_count m = length m.clients

module _ {W C : Type 0} (K : Clients W C) where
  close_existing : Option C → W → W
  close_existing none w = w
  close_existing (some c) w = (K.close_client c w).1

  unfoldable pub register_client : ℤ → C → Manager C → W → Manager C × W
  unfolding close_existing put_client
  register_client slot c m w = (
    record m { clients = put_client slot c m.clients },
    close_existing (client_at slot m.clients) w,
  )

  -- A call on the client of a slot, with a value and an error, or with an error alone.
  unfoldable pub forward : {A : Type 0} → Reply C → (C → W → Reply A × W) → W → Reply A × W
  forward (ok c) call w = call c w
  forward (err e) call w = (err e, w)

  unfoldable pub forward_error : Reply C → (C → W → Option GoError × W) → W → Option GoError × W
  forward_error (ok c) call w = call c w
  forward_error (err e) call w = (some e, w)

  unfoldable pub manager_generate_key_pair :
      String → ℤ → String → ℤ → Manager C → W → Reply (Bytes × String) × W
  unfolding forward
  manager_generate_key_pair algorithm size label slot m =
      forward (get_client_for_slot slot m) (λ c. K.generate_key_pair c algorithm size label)

  unfoldable pub manager_delete_key : String → ℤ → Manager C → W → Option GoError × W
  unfolding forward_error
  manager_delete_key handle slot m =
      forward_error (get_client_for_slot slot m) (λ c. K.delete_key c handle)

  unfoldable pub manager_list_keys : ℤ → Manager C → W → Reply (List HsmKey) × W
  unfolding forward
  manager_list_keys slot m = forward (get_client_for_slot slot m) K.list_keys

  unfoldable pub manager_get_public_key : String → ℤ → Manager C → W → Reply Bytes × W
  unfolding forward
  manager_get_public_key handle slot m =
      forward (get_client_for_slot slot m) (λ c. K.get_public_key c handle)

  unfoldable pub manager_sign_hash :
      String → Bytes → ℤ → IdentityContext → Manager C → W → Reply Bytes × W
  unfolding forward
  manager_sign_hash handle hash slot identity m =
      forward (get_client_for_slot slot m) (λ c. K.sign_hash c handle hash identity)

  unfoldable pub manager_verify_signature :
      String → Bytes → Bytes → ℤ → Manager C → W → Reply Bool × W
  unfolding forward
  manager_verify_signature handle hash signature slot m =
      forward (get_client_for_slot slot m) (λ c. K.verify_signature c handle hash signature)

  unfoldable pub manager_encrypt : String → Bytes → ℤ → Manager C → W → Reply Bytes × W
  unfolding forward
  manager_encrypt handle plaintext slot m =
      forward (get_client_for_slot slot m) (λ c. K.encrypt c handle plaintext)

  unfoldable pub manager_decrypt : String → Bytes → ℤ → Manager C → W → Reply Bytes × W
  unfolding forward
  manager_decrypt handle ciphertext slot m =
      forward (get_client_for_slot slot m) (λ c. K.decrypt c handle ciphertext)

  unfoldable pub manager_generate_key_pair_with_label :
      String → ℤ → String → String → ℤ → Manager C → W → Reply (Bytes × String) × W
  unfolding forward
  manager_generate_key_pair_with_label algorithm size label tenant_id slot m =
      forward (get_client_for_slot slot m)
        (λ c. K.generate_key_pair_with_label c algorithm size label tenant_id)

  unfoldable pub manager_find_keys_by_label : String → ℤ → Manager C → W → Reply (List HsmKey) × W
  unfolding forward
  manager_find_keys_by_label pattern slot m =
      forward (get_client_for_slot slot m) (λ c. K.find_keys_by_label c pattern)

  unfoldable pub manager_health_check : ℤ → Manager C → W → Option GoError × W
  unfolding forward_error
  manager_health_check slot m = forward_error (get_client_for_slot slot m) K.health_check

  is_healthy : Option GoError → Bool
  is_healthy none = true
  is_healthy (some e) = false

  health_of : List (ℤ × C) → W → List (ℤ × Bool) × W
  unfolding is_healthy
  health_of [] w = ([], w)
  health_of ((slot, c) ∷ rest) w =
      let (r, w1) = K.health_check c w in
      let (later, w2) = health_of rest w1 in ((slot, is_healthy r) ∷ later, w2)

  unfoldable pub health_check_all : Manager C → W → List (ℤ × Bool) × W
  unfolding health_of
  health_check_all m w = health_of m.clients w

  -- `lastErr`
  later_error : Option GoError → Option GoError → Option GoError
  later_error none last = last
  later_error (some e) last = some e

  unfoldable pub close_clients : List (ℤ × C) → Option GoError → W → Option GoError × W
  unfolding later_error
  close_clients [] last w = (last, w)
  close_clients ((slot, c) ∷ rest) last w =
      let (r, w1) = K.close_client c w in close_clients rest (later_error r last) w1

  first_error : Option GoError → Option GoError → Option GoError
  first_error none x = x
  first_error (some e) x = some e

  unfoldable pub close_all : Manager C → W → Option GoError × Manager C × W
  unfolding close_clients first_error
  close_all m w =
      let (last, w1) = close_clients m.clients none w in
      let w2 = if m.has_dispatcher then K.close_dispatcher w1 else w1 in
      let (r, w3) = K.finalize_shared_context w2 in
      (first_error last r, record m { clients = [] }, w3)

  -- `Close`: the client's error is dropped, and the client stays registered.
  closed_one : Reply C → W → Option GoError × W
  closed_one (ok c) w = (none, (K.close_client c w).1)
  closed_one (err e) w = (some e, w)

  unfoldable pub close_slot : ℤ → Manager C → W → Option GoError × W
  unfolding closed_one
  close_slot slot m w = closed_one (get_client_for_slot slot m) w
