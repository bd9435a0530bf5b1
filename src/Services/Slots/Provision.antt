-- ===== src/Services/Slots/Provision.antt =====
-- slot_service.go: InitializeSlot, which prepares a token for a tenant, and the listings of slots.
-- The PKCS#11 library, the tenant repository, the random numbers and the clients' constructor are
-- parameters. The trace of the world lists the audit records; its `env` has the writes to the slot
-- repositories as in `createHSMSlot`.
pub mod Writes
pub mod Initialized
use Prim.Native.String.{◌++◌ as cat, len, slice}
use hsm_service.Prelude.{
  ℕ, ◌+◌, String, Bool, true, false, Option, none, some, List, [], ◌∷◌, str_eq, ltb, if◌then◌else◌,
}
use hsm_service.Prelude.Int.{ℤ, int_of_uint}
use hsm_service.Prelude.Decimal.{decimal}
use hsm_service.Domain.Errors.{
  GoError, wrapped, predefined, error_text, new_domain_error, plain, tenant_not_found,
  pkcs11_library_not_found,
}
use hsm_service.Domain.Values.{IdentityContext}
use hsm_service.Domain.Entities.{Bytes, HsmSlot, Tenant, AuditData, Detail, text}
use hsm_service.Exec.{
  Reply, ok, err, World, Event, audited, Outcome, returned, failed, panicked, answer, outcome_error,
  Exec, pure, fail, deref, rethrow, deferring, ◌>>=◌,
}
use hsm_service.Ports.AesKeys.{AesKeyManager}
use hsm_service.Services.Helpers.{operation_data}
use hsm_service.Services.Slots.{SlotStore, SlotWorld, create_hsm_slot}

-- `get_context` is `GetOrInitPKCS11Context`, whose context may be nil. `get_token_info` gives the
-- token's label. `random n` is `rand.Intn(n)`. `remove_dashes` is
-- `strings.ReplaceAll(id, "-", "")`, and `base36_of_hex` the text of `big.Int` in base 36. The client
-- of `new_client` is `NewSoftHSMClient`, which Hsm.SoftHsm.Opening has.
pub record Provisioning (W : Type 0) : Type 0 where
  pub has_dispatcher : Bool
  pub so_pin : String
  pub bytes_of : String → Bytes
  pub remove_dashes : String → String
  pub base36_of_hex : String → String
  pub find_tenant : String → W → Reply (Option Tenant) × W
  pub audit_operation : AuditData → W → W
  pub get_context : W → Reply (Option (Unit {0})) × W
  pub get_slot_list : Bool → W → Reply (List ℕ) × W
  pub get_token_info : ℕ → W → Reply String × W
  pub init_token : ℕ → String → String → W → Option GoError × W
  pub open_session : ℕ → W → Reply ℕ × W
  pub close_session : ℕ → W → W
  pub login : ℕ → String → W → Option GoError × W
  pub init_pin : ℕ → String → W → Option GoError × W
  pub logout : ℕ → W → W
  pub random : ℕ → W → ℕ × W
  pub new_client : String → ℕ → W → Option GoError × W
  pub register_client : ℤ → W → W

abbrev unless : Option GoError → Outcome (Unit {0})
unless none = returned tt
unless (some e) = failed e

abbrev value_or_none : {A : Type 0} → Reply A → Option A
value_or_none (ok a) = some a
value_or_none (err e) = none

module _ {W : Type 0} where
  abbrev behind : W → World (SlotWorld W) → World (SlotWorld W)
  behind e w = record w { env = record w.env { env = e } }

  unfoldable pub outside : {A : Type 0} → (W → Reply A × W) → Exec (SlotWorld W) A
  outside f w = let (r, e) = f w.env.env in (answer r, behind e w)

  -- A call whose error is looked at and dropped.
  unfoldable pub tried : {A : Type 0} → (W → Reply A × W) → Exec (SlotWorld W) (Option A)
  tried f w = let (r, e) = f w.env.env in (returned (value_or_none r), behind e w)

  unfoldable pub doing : (W → Option GoError × W) → Exec (SlotWorld W) (Unit {0})
  doing f w = let (r, e) = f w.env.env in (unless r, behind e w)

  unfoldable pub drawn : {A : Type 0} → (W → A × W) → Exec (SlotWorld W) A
  drawn f w = let (a, e) = f w.env.env in (returned a, behind e w)

  unfoldable pub done : (W → W) → World (SlotWorld W) → World (SlotWorld W)
  done f w = behind (f w.env.env) w

-- `availableSlots[0]`: an empty slice panics.
unfoldable pub first_available : {W : Type 0} → List ℕ → Exec W ℕ
first_available [] w = (panicked, w)
first_available (n ∷ rest) w = (returned n, w)

unfoldable pub with_slot : ℕ → Option String → List ℕ → List ℕ
with_slot n none rest = rest
with_slot n (some label) rest = if str_eq label "" then n ∷ rest else rest

abbrev unknown_tenant : GoError
unknown_tenant = new_domain_error tenant_not_found "tenant not found for slot initialization"

module _ {W : Type 0} (V : Provisioning W) where
  -- `GenerateTenantSlotLabel`
  unfoldable pub tenant_slot_label : String → String
  tenant_slot_label tenant_id =
      let label = cat "t-" (V.base36_of_hex (V.remove_dashes tenant_id)) in
      if ltb 32 (len label) then slice label 0 32 else label

  unfoldable pub gen_random_pin : W → String × W
  gen_random_pin w = let (n, w') = V.random 9000 w in (decimal (n + 1000), w')

  -- The context, of which a nil pointer panics at its first use.
  unfoldable pub pkcs11_context : (GoError → GoError) → Exec (SlotWorld W) (Unit {0})
  unfolding outside ◌>>=◌
  pkcs11_context f = do context ← rethrow f (outside V.get_context); deref context

  -- `GetAllSlots`: on an error of the listing, `slots` is nil.
  unfoldable pub get_all_slots : Exec (SlotWorld W) (List ℕ)
  unfolding pkcs11_context tried ◌>>=◌
  get_all_slots = do
    _ ← pkcs11_context (wrapped "failed to load PKCS#11 library")
    slots ← tried (V.get_slot_list false)
    pure (listed slots)
    where
      listed : Option (List ℕ) → List ℕ
      listed none = []
      listed (some slots) = slots

  -- The loop of `GetAvailableSlots`.
  unfoldable pub uninitialized : List ℕ → Exec (SlotWorld W) (List ℕ)
  unfolding tried with_slot ◌>>=◌
  uninitialized [] = pure []
  uninitialized (n ∷ slots) = do
    label ← tried (V.get_token_info n)
    rest ← uninitialized slots
    pure (with_slot n label rest)

  unfoldable pub get_available_slots : Exec (SlotWorld W) (List ℕ)
  unfolding pkcs11_context outside uninitialized ◌>>=◌
  get_available_slots = do
    _ ← pkcs11_context (wrapped "failed to load PKCS#11 library")
    slots ← rethrow (wrapped "failed to get slot list") (outside (V.get_slot_list false))
    uninitialized slots

  module _ (K : AesKeyManager W) (R : SlotStore W) where
    unfoldable pub created_slot : ℕ → String → String → Exec (SlotWorld W) HsmSlot
    created_slot slot label pin w =
        let (r, s) = create_hsm_slot K R slot label (V.bytes_of pin) w.env in
        (answer r, record w { env = s })

    -- From the open session on.
    unfoldable pub pin_set : ℕ → String → Exec (SlotWorld W) (Unit {0})
    unfolding doing ◌>>=◌
    pin_set session pin = do
      _ ← rethrow (wrapped "SO login failed") (doing (V.login session V.so_pin))
      _ ← rethrow (wrapped "failed to set user PIN") (doing (V.init_pin session pin))
      λ w. (returned tt, done (V.logout session) w)

    unfoldable pub initialize_slot_internal : ℕ → String → String → Exec (SlotWorld W) HsmSlot
    unfolding pkcs11_context doing outside pin_set created_slot done ◌>>=◌
    initialize_slot_internal slot tenant_id pin = do
      _ ← pkcs11_context (wrapped (error_text (predefined pkcs11_library_not_found)))
      _ ←
          rethrow (wrapped "failed to initialize token")
            (doing (V.init_token slot V.so_pin (tenant_slot_label tenant_id)))
      session ← rethrow (wrapped "failed to open session") (outside (V.open_session slot))
      deferring (pin_set session pin >>= λ _. created_slot slot (tenant_slot_label tenant_id) pin)
          (λ o. done (V.close_session session))

    -- The client of the new slot.
    unfoldable pub client_registered : String → HsmSlot → Exec (SlotWorld W) String
    unfolding doing done ◌>>=◌
    client_registered pin slot = do
      _ ←
          rethrow (wrapped (cat "failed to create HSM client for slot " (decimal slot.slot_number)))
            (doing (V.new_client pin slot.slot_number))
      λ w. (returned slot.id, done (V.register_client (int_of_uint slot.slot_number)) w)

    unfoldable pub slot_prepared : String → String → ℕ → Exec (SlotWorld W) String
    unfolding initialize_slot_internal client_registered ◌>>=◌
    slot_prepared tenant_id pin first = do
      slot ←
          rethrow (wrapped (cat "failed to initialize slot " (decimal first)))
            (initialize_slot_internal first tenant_id pin)
      client_registered pin slot

    -- From the available slots on.
    unfoldable pub prepared : String → List ℕ → Exec (SlotWorld W) String
    unfolding drawn gen_random_pin first_available slot_prepared ◌>>=◌
    prepared tenant_id available = do
      pin ← drawn gen_random_pin
      first ← first_available available
      slot_prepared tenant_id pin first

    known_tenant : Option Tenant → Exec (SlotWorld W) (Unit {0})
    known_tenant none = fail unknown_tenant
    known_tenant (some tenant) = pure tt

    unfoldable pub initialize_body : String → Exec (SlotWorld W) String
    unfolding outside known_tenant get_available_slots prepared ◌>>=◌
    initialize_body tenant_id = do
      tenant ← rethrow (λ e. unknown_tenant) (outside (V.find_tenant tenant_id))
      _ ← known_tenant tenant
      available ← rethrow (wrapped "no available slots") get_available_slots
      prepared tenant_id available

    abbrev slot_id_of : Outcome String → String
    slot_id_of (returned id) = id
    slot_id_of (failed e) = ""
    slot_id_of panicked = ""

    unfoldable pub initialize_slot : IdentityContext → Exec (SlotWorld W) String
    unfolding initialize_body done
    initialize_slot identity = deferring (initialize_body identity.tenant_id) recorded
      where
        data' : Outcome String → AuditData
        data' o =
            record (operation_data "slot-service" "INITIALIZE_SLOT" (outcome_error o)
              (("slot", text (slot_id_of o)) ∷ ("tenant_id", text identity.tenant_id) ∷ [])) {
                actor_type = "EXTERNAL";
              }

        recorded : Outcome String → World (SlotWorld W) → World (SlotWorld W)
        recorded o w =
            if V.has_dispatcher
            then done (V.audit_operation (data' o))
                (record w { trace = audited (data' o) none ∷ w.trace })
            else w
