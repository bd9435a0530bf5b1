-- ===== src/Services/Slots/Provision/Initialized.antt =====
-- `InitializeSlot`: what it leaves in the slot repositories.
use Prim.Native.String.{◌++◌ as cat}
use hsm_service.Prelude.Decimal.{decimal}
use hsm_service.Prelude.{
  ℕ, String, ◌≡◌, refl, sym, subst, inl, inr, ◌⊎◌, Option-cases, false, Option, none, some, List,
  [], ◌∷◌, arith,
}
use hsm_service.Domain.Errors.{GoError, wrapped}
use hsm_service.Domain.Values.{IdentityContext}
use hsm_service.Domain.Entities.{HsmSlot, Tenant}
use hsm_service.Exec.{
  Reply, World, Outcome, returned, failed, panicked, Exec, IsRefused, on_error, rethrow, deferring,
  continue, ◌>>=◌,
}
use hsm_service.Exec.Keeps.{Keeps, Keeps-pure, Keeps-fail, Keeps-deref, Keeps-rethrow, Keeps-bind}
use hsm_service.Ports.AesKeys.{AesKeyManager}
use hsm_service.Services.Slots.{SlotStore, Write, SlotWorld, create_hsm_slot}
use hsm_service.Services.Slots.Creation.{CreatesSlot, create_hsm_slot-CreatesSlot}
use hsm_service.Services.Slots.Provision.{
  Provisioning, tenant_slot_label, outside, tried, doing, drawn, done, with_slot, first_available,
  gen_random_pin, pkcs11_context, uninitialized, get_available_slots, created_slot, pin_set,
  initialize_slot_internal, prepared, slot_prepared, client_registered, known_tenant,
  initialize_body, initialize_slot,
}
use hsm_service.Services.Slots.Provision.Writes.{
  InitializesSlot, unwritten, rethrow-Initializes, refused-Initializes, slot-Initializes,
  reply-Initializes,
}

module _ {W : Type 0} (before : List Write) where
  abbrev Untouched : World (SlotWorld W) → Type 0
  Untouched w = w.env.trace ≡ before

  Keeps-outside : {A : Type 0} (f : W → Reply A × W) → Keeps Untouched (outside f)
  unfolding outside
  Keeps-outside f = record { at = λ w h. h }

  Keeps-tried : {A : Type 0} (f : W → Reply A × W) → Keeps Untouched (tried f)
  unfolding tried
  Keeps-tried f = record { at = λ w h. h }

  Keeps-doing : (f : W → Option GoError × W) → Keeps Untouched (doing f)
  unfolding doing
  Keeps-doing f = record { at = λ w h. h }

  Keeps-drawn : {A : Type 0} (f : W → A × W) → Keeps Untouched (drawn f)
  unfolding drawn
  Keeps-drawn f = record { at = λ w h. h }

  Keeps-first_available : (ns : List ℕ) → Keeps Untouched (first_available ns)
  unfolding first_available
  Keeps-first_available [] = record { at = λ w h. h }
  Keeps-first_available (n ∷ ns) = record { at = λ w h. h }

  module _ (V : Provisioning W) where
    Keeps-pkcs11_context : (f : GoError → GoError) → Keeps Untouched (pkcs11_context V f)
    unfolding pkcs11_context
    Keeps-pkcs11_context f =
        Keeps-bind _ _ (Keeps-rethrow f (outside V.get_context) (Keeps-outside V.get_context))
          (λ context. Keeps-deref context)

    Keeps-uninitialized : (ns : List ℕ) → Keeps Untouched (uninitialized V ns)
    unfolding uninitialized
    Keeps-uninitialized [] = Keeps-pure []
    Keeps-uninitialized (n ∷ ns) = Keeps-bind _ _ (Keeps-tried (V.get_token_info n)) (λ label.
        Keeps-bind _ _ (Keeps-uninitialized ns) (λ rest. Keeps-pure (with_slot n label rest)))

    Keeps-get_available_slots : Keeps Untouched (get_available_slots V)
    unfolding get_available_slots
    Keeps-get_available_slots = Keeps-bind _ _ (Keeps-pkcs11_context _) (λ u.
        Keeps-bind _ _ (Keeps-rethrow _ _ (Keeps-outside (V.get_slot_list false)))
          (λ slots. Keeps-uninitialized slots))

  module _ (label : String) where
    -- What a call in the middle of `InitializeSlot` leaves.
    abbrev Leaves : {A : Type 0} → (HsmSlot → A) → Outcome A × World (SlotWorld W) → Type 0
    Leaves out r = InitializesSlot out label r.0 before r.1.env.trace

    continue-Leaves :
        {A B : Type 0} {out : HsmSlot → B} (o : Outcome A) (f : A → Exec (SlotWorld W) B)
        → ((a : A) (w : World (SlotWorld W)) → Untouched w → Leaves out (f a w))
        → (w : World (SlotWorld W)) → Untouched w
        → Leaves out (continue o f w)
    continue-Leaves (returned a) f k w h = k a w h
    continue-Leaves (failed e) f k w h = unwritten (inl (e, refl)) h
    continue-Leaves panicked f k w h = unwritten (inr refl) h

    bind-Leaves :
        {A B : Type 0} {out : HsmSlot → B} (m : Exec (SlotWorld W) A) (f : A → Exec (SlotWorld W) B)
        → Keeps Untouched m
        → ((a : A) (w : World (SlotWorld W)) → Untouched w → Leaves out (f a w))
        → (w : World (SlotWorld W)) → Untouched w
        → Leaves out ((m >>= f) w)
    unfolding ◌>>=◌
    bind-Leaves m f km k w h = continue-Leaves (m w).0 f k (m w).1 (km.at w h)

    -- The rest of the call, once the slot is there.
    after_slot :
        {B : Type 0} {out : HsmSlot → B} (f : HsmSlot → Exec (SlotWorld W) B) (o : Outcome HsmSlot)
        (w : World (SlotWorld W))
        → Leaves (λ slot. slot) (o, w)
        → ((slot : HsmSlot)
            → ((f slot w).1.env.trace ≡ w.env.trace)
              × (IsRefused (f slot w).0 ⊎ ((f slot w).0 ≡ returned (out slot))))
        → Leaves out (continue o f w)
    after_slot {out = out} f (returned slot) w l k =
        subst (λ t. InitializesSlot out label (f slot w).0 before t) (sym (k slot).0)
          (slot-Initializes slot (f slot w).0 (k slot).1 l)
    after_slot f (failed e) w l k =
        refused-Initializes (failed e) (failed e) (λ slot h. ground (arith, h)) (inl (e, refl)) l
    after_slot f panicked w l k =
        refused-Initializes panicked panicked (λ slot h. ground (arith, h)) (inr refl) l

  module _ (V : Provisioning W) (K : AesKeyManager W) (R : SlotStore W) (tenant_id : String) where
    abbrev own_label : String
    own_label = tenant_slot_label V tenant_id

    created_slot-Leaves :
        (number : ℕ) (pin : String) (w : World (SlotWorld W))
        → Untouched w
        → Leaves own_label (λ slot. slot) (created_slot V K R number own_label pin w)
    unfolding created_slot
    created_slot-Leaves number pin w h =
        let (r, s) = create_hsm_slot K R number own_label (V.bytes_of pin) w.env in
        reply-Initializes number own_label r s.trace (
          subst (λ t. CreatesSlot number own_label r t s.trace) h
            (create_hsm_slot-CreatesSlot K R number own_label (V.bytes_of pin) w.env))

    Keeps-pin_set : (session : ℕ) (pin : String) → Keeps Untouched (pin_set V K R session pin)
    unfolding pin_set done
    Keeps-pin_set session pin =
        Keeps-bind _ _ (Keeps-rethrow _ _ (Keeps-doing (V.login session V.so_pin))) (λ u.
          Keeps-bind _ _ (Keeps-rethrow _ _ (Keeps-doing (V.init_pin session pin)))
            (λ u'. record { at = λ w h. h }))

    internal-Leaves :
        (number : ℕ) (pin : String) (w : World (SlotWorld W))
        → Untouched w
        → Leaves own_label (λ slot. slot) (initialize_slot_internal V K R number tenant_id pin w)
    unfolding initialize_slot_internal deferring done
    internal-Leaves number pin = bind-Leaves own_label _ _ (Keeps-pkcs11_context V _) (λ u.
        bind-Leaves own_label _ _ (Keeps-rethrow _ _ (Keeps-doing _)) (λ u'.
          bind-Leaves own_label _ _ (Keeps-rethrow _ _ (Keeps-outside (V.open_session number)))
            (λ session.
              bind-Leaves own_label _ _ (Keeps-pin_set session pin)
                (λ u''. created_slot-Leaves number pin))))

    registered :
        (pin : String) (slot : HsmSlot) (w : World (SlotWorld W))
        → let r = client_registered V K R pin slot w in
          (r.1.env.trace ≡ w.env.trace) × (IsRefused r.0 ⊎ (r.0 ≡ returned slot.id))
    unfolding client_registered
    registered pin slot w = elim (Option-cases (V.new_client pin slot.slot_number w.env.env).0) [
      | inl h ↦ (ground (arith, h), inr (ground (arith, h)))
      | inr (e, h) ↦ (
        ground (arith, h),
        inl (
            inl (
              wrapped (cat "failed to create HSM client for slot " (decimal slot.slot_number)) e,
              ground (arith, h),
            )),
      )
    ]

    slot_prepared-Leaves :
        (pin : String) (first : ℕ) (w : World (SlotWorld W))
        → Untouched w
        → Leaves own_label (λ slot. slot.id) (slot_prepared V K R tenant_id pin first w)
    unfolding slot_prepared rethrow ◌>>=◌
    slot_prepared-Leaves pin first w h =
        let (o, w') = initialize_slot_internal V K R first tenant_id pin w in
        after_slot own_label (client_registered V K R pin)
          (on_error (wrapped (cat "failed to initialize slot " (decimal first))) o) w'
          (rethrow-Initializes (wrapped (cat "failed to initialize slot " (decimal first))) o
            w'.env.trace (internal-Leaves first pin w h))
          (λ slot. registered pin slot w')

    prepared-Leaves :
        (available : List ℕ) (w : World (SlotWorld W))
        → Untouched w
        → Leaves own_label (λ slot. slot.id) (prepared V K R tenant_id available w)
    unfolding prepared
    prepared-Leaves available =
        bind-Leaves own_label _
          (λ pin. first_available available >>= slot_prepared V K R tenant_id pin)
          (Keeps-drawn (gen_random_pin V))
          (λ pin.
            bind-Leaves own_label _ (slot_prepared V K R tenant_id pin)
              (Keeps-first_available available) (slot_prepared-Leaves pin))

    Keeps-known_tenant : (tenant : Option Tenant) → Keeps Untouched (known_tenant V K R tenant)
    unfolding known_tenant
    Keeps-known_tenant none = Keeps-fail _
    Keeps-known_tenant (some tenant) = Keeps-pure tt

    body-Leaves :
        (w : World (SlotWorld W))
        → Untouched w
        → Leaves own_label (λ slot. slot.id) (initialize_body V K R tenant_id w)
    unfolding initialize_body
    body-Leaves =
        bind-Leaves own_label _
          (λ tenant. known_tenant V K R tenant >>= λ _.
            rethrow (wrapped "no available slots") (get_available_slots V)
            >>= prepared V K R tenant_id)
          (Keeps-rethrow _ _ (Keeps-outside (V.find_tenant tenant_id)))
          (λ tenant.
            bind-Leaves own_label (known_tenant V K R tenant)
              (λ _.
                rethrow (wrapped "no available slots") (get_available_slots V)
                >>= prepared V K R tenant_id)
              (Keeps-known_tenant tenant)
              (λ u.
                bind-Leaves own_label _ (prepared V K R tenant_id)
                  (Keeps-rethrow _ _ (Keeps-get_available_slots V)) prepared-Leaves))

module _ {W : Type 0} (V : Provisioning W) (K : AesKeyManager W) (R : SlotStore W) where
  -- `InitializeSlot` on every branch. It writes nothing and gives no slot; or `createHSMSlot` fails,
  -- with the writes of its failures, and so does the call; or the slot and its metadata are saved
  -- under the tenant's label, each with the id of the other, and the slot's id is returned; or both
  -- are saved and stay, and no id is returned.
  pub initialize_slot-InitializesSlot :
      (identity : IdentityContext) (w : World (SlotWorld W))
      → let (o, w') = initialize_slot V K R identity w in
        InitializesSlot
          (λ slot. slot.id)
          (tenant_slot_label V identity.tenant_id)
          o
          w.env.trace
          w'.env.trace
  unfolding initialize_slot deferring done
  initialize_slot-InitializesSlot identity w =
      let w1 = (initialize_body V K R identity.tenant_id w).1 in
      let same : (initialize_slot V K R identity w).1.env.trace ≡ w1.env.trace = ground arith in
      subst
        (λ t.
          InitializesSlot (λ slot. slot.id) (tenant_slot_label V identity.tenant_id)
            (initialize_body V K R identity.tenant_id w).0 w.env.trace t)
        (sym same) (body-Leaves w.env.trace V K R identity.tenant_id w refl)
