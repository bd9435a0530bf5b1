-- ===== src/Hsm/Manager/Registry.antt =====
-- manager.go: the registered clients, the calls that reach them, and `CloseAll`.
use hsm_service.Prelude.{
  ℕ, suc, ◌+◌, ◌≡◌, ◌↔◌, refl, String, Option, none, some, List, [], ◌∷◌, length, if◌then◌else◌,
  arith, Option-cases, Bool-cases, inl, inr,
}
use hsm_service.Prelude.Int.{ℤ, eqb_ℤ, eqb_ℤ_iff}
use hsm_service.Domain.Errors.{GoError}
use hsm_service.Domain.Values.{IdentityContext}
use hsm_service.Domain.Entities.{Bytes}
use hsm_service.Exec.{ok}
use hsm_service.Hsm.Manager.{
  Clients, Manager, client_at, put_client, client_or, get_client_for_slot, client_count,
  register_client, manager_sign_hash, forward, later_error, close_clients, first_error, close_all,
}

module _ {C : Type 0} where
  -- No slot has two clients.
  abbrev pub Distinct : List (ℤ × C) → Type 0
  Distinct [] = Unit {0}
  Distinct ((s, c) ∷ rest) = (client_at s rest ≡ none) × Distinct rest

  put_client-at :
      (slot slot' : ℤ) (c : C) (cs : List (ℤ × C))
      → client_at slot' (put_client slot c cs)
        ≡ (if eqb_ℤ slot slot' then some c else client_at slot' cs)
  unfolding client_at put_client
  put_client-at slot slot' c [] = refl
  put_client-at slot slot' c ((s, c') ∷ rest) = ground (
    arith,
    put_client-at slot slot' c rest,
    eqb_ℤ_iff s slot,
    eqb_ℤ_iff s slot',
    eqb_ℤ_iff slot slot',
  )

  put_client-Distinct :
      (slot : ℤ) (c : C) (cs : List (ℤ × C)) → Distinct cs → Distinct (put_client slot c cs)
  unfolding put_client client_at
  put_client-Distinct slot c [] d = (refl, tt)
  put_client-Distinct slot c ((s, c') ∷ rest) (h, d) = elim (Bool-cases (eqb_ℤ s slot)) [
    | inl e ↦ rw e (ground (arith, h, eqb_ℤ_iff s slot), d)
    | inr e ↦ rw e (
      ground (arith, h, put_client-at slot s c rest, eqb_ℤ_iff s slot, eqb_ℤ_iff slot s),
      put_client-Distinct slot c rest d,
    )
  ]

  length-put_client :
      (slot : ℤ) (c : C) (cs : List (ℤ × C))
      → length (put_client slot c cs)
        ≡ elim (client_at slot cs) [ none ↦ length cs + 1 | some c' ↦ length cs ]
  unfolding put_client client_at
  length-put_client slot c [] = omega arith
  length-put_client slot c ((s, c') ∷ rest) = ground (arith, length-put_client slot c rest)

module _ {W C : Type 0} (K : Clients W C) where
  -- After `RegisterClient` the slot has the new client, every other slot has what it had, no slot
  -- has two, and the count grows by one unless the slot had a client. A signature on the slot is
  -- made by the new client, and one on another slot as before.
  pub register_client-at :
      (slot slot' : ℤ) (c : C) (m : Manager C) (w w' : W) (handle : String) (hash : Bytes)
      (identity : IdentityContext)
      → Distinct m.clients
      → let m' = (register_client K slot c m w).0 in
        (get_client_for_slot slot' m'
          ≡ (if eqb_ℤ slot slot' then ok c else get_client_for_slot slot' m))
        × Distinct m'.clients
        × (client_count m' ≡ elim (client_at slot m.clients) [
          | none ↦ client_count m + 1
          | some c' ↦ client_count m
        ])
        × (manager_sign_hash K handle hash slot' identity m' w' ≡ (
            if eqb_ℤ slot slot'
            then K.sign_hash c handle hash identity w'
            else manager_sign_hash K handle hash slot' identity m w'))
  unfolding register_client get_client_for_slot client_or client_count manager_sign_hash forward
  register_client-at slot slot' c m w w' handle hash identity d =
      let at = put_client-at slot slot' c m.clients in
      (
        ground (arith, at),
        put_client-Distinct slot c m.clients d,
        length-put_client slot c m.clients,
        ground (arith, at),
      )

  -- How many of the clients, closed in turn, give an error, and the world after that.
  unfoldable pub failures : List (ℤ × C) → W → ℕ × W
  failures [] w = (0, w)
  failures ((slot, c) ∷ rest) w =
      let (r, w1) = K.close_client c w in
      let (n, w2) = failures rest w1 in (elim r [ none ↦ n | some e ↦ suc n ], w2)

  close_clients-failures :
      (cs : List (ℤ × C)) (last : Option GoError) (w : W)
      → ((close_clients K cs last w).1 ≡ (failures cs w).1)
        × ((close_clients K cs last w).0 ≡ none ↔ (last ≡ none) × ((failures cs w).0 ≡ 0))
  unfolding close_clients failures later_error
  close_clients-failures [] last w = (refl, ground arith)
  close_clients-failures ((slot, c) ∷ rest) last w =
      let (r, w1) = K.close_client c w in
      elim (Option-cases r) [
        | inl e ↦
            let (h1, h2) = close_clients-failures rest last w1 in
            (ground (arith, e, h1), ground (arith, e, h2))
        | inr (x, e) ↦
            let (h1, h2) = close_clients-failures rest (some x) w1 in
            (ground (arith, e, h1), ground (arith, e, h2))
      ]

  -- `CloseAll` leaves no client, whatever fails, closes every client once and then finalizes the
  -- shared context, and returns no error exactly when no client failed to close and the shared
  -- context was finalized.
  pub close_all-failures :
      (m : Manager C) (w : W)
      → let (n, w1) = failures m.clients w in
        let w2 = if m.has_dispatcher then K.close_dispatcher w1 else w1 in
        let (r, m', w') = close_all K m w in
        (m'.clients ≡ [])
        × (w' ≡ (K.finalize_shared_context w2).1)
        × (r ≡ none ↔ (n ≡ 0) × ((K.finalize_shared_context w2).0 ≡ none))
  unfolding close_all first_error
  close_all-failures m w =
      let (h1, h2) = close_clients-failures m.clients none w in
      (refl, rw h1 refl, rw h1 (ground (arith, h2)))
