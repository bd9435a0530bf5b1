-- ===== src/Hsm/SoftHsm/Inventory/Listing.antt =====
-- client_inventory.go: what `ListKeys` can report. The search for the private keys is still active
-- when the public key of each is searched for.
use hsm_service.Prelude.{
  ◌≡◌, refl, sym, ◌∙◌, ℕ, suc, ◌≤◌, String, Bool, Option, none, some, List, [], ◌∷◌, ◌++◌, length,
  length-append, arith,
}
use hsm_service.Domain.Errors.{GoError, wrapped}
use hsm_service.Domain.Entities.{HsmKey}
use hsm_service.Exec.{
  Reply, ok, err, answer, World, Outcome, returned, failed, panicked, Exec, pure, deferring,
  on_error, handle, continue, ◌>>=◌,
}
use hsm_service.Hsm.SoftHsm.{
  Session, Client, about_label, Attributes, a_label, a_key_type, a_id, private_key, public_key,
  class_is, label_is, session_call, effect, afterwards, audited_method, record_call, find_by_label,
  effect_outcome,
}
use hsm_service.Hsm.SoftHsm.Inventory.{
  with_attributes, blank_key, public_found, softhsm_get_public_key, with_public_key, get_key_info,
  one_info, key_infos, keys_listed, list_search, softhsm_list_keys, object_batch_size,
}
use hsm_service.Hsm.SoftHsm.Inventory.Searches.{
  SearchLaws, Unpublished, none_left, unpublished, Unpublished-append, exactly,
  attributes_unpublished,
}

module _ {W : Type 0} (S : Session W) (L : SearchLaws S) (has_dispatcher : Bool) where
  -- In the middle of a search, `GetPublicKey` fails, and the search goes on.
  get_public_key_refused :
      (label : String) (w : World (Client W))
      → L.Searching w.env.behind
      → ((e : GoError) × ((softhsm_get_public_key S has_dispatcher label w).0 ≡ failed e))
        × L.Searching (softhsm_get_public_key S has_dispatcher label w).1.env.behind
  unfolding softhsm_get_public_key audited_method record_call public_found find_by_label effect
      effect_outcome ◌>>=◌
  get_public_key_refused label w h =
      let (e, he, hs) = L.refused (class_is public_key ∷ label_is label ∷ []) w.env.behind h in
      let x =
        about_label "failed to find public key with label '" label "'"
          (wrapped "failed to initialize object search" e) in
      ((x, ground (arith, he)), ground (arith, he, hs))

  with_public_key_kept :
      (key : HsmKey) (w : World (Client W))
      → L.Searching w.env.behind
      → ((with_public_key S has_dispatcher key w).0 ≡ returned key)
        × L.Searching (with_public_key S has_dispatcher key w).1.env.behind
  unfolding with_public_key ◌>>=◌
  with_public_key_kept key w h =
      let ((e, he), hs) = get_public_key_refused key.key_handle w h in
      (ground (arith, he), ground (arith, he, hs))

  -- What is known of a call in the middle of the search: the search goes on, and the keys that the
  -- call returns are no more than these and have no public keys.
  Lists : ℕ → Outcome (List HsmKey) × World (Client W) → Type 0
  Lists n p =
      L.Searching p.1.env.behind
      × ((keys : List HsmKey) → p.0 ≡ returned keys → Unpublished keys × (length keys ≤ n))

  Informs : Outcome HsmKey × World (Client W) → Type 0
  Informs p =
      L.Searching p.1.env.behind × ((key : HsmKey) → p.0 ≡ returned key → key.public_key ≡ [])

  attributed-Informs :
      (o : Outcome HsmKey) (w : World (Client W))
      → L.Searching w.env.behind
      → ((key : HsmKey) → o ≡ returned key → key.public_key ≡ [])
      → Informs (continue o (with_public_key S has_dispatcher) w)
  unfolding Informs
  attributed-Informs (returned key) w h k =
      let (e, hs) = with_public_key_kept key w h in (hs, λ key' e'. k key' (sym e ∙ e'))
  attributed-Informs (failed x) w h k = (h, λ key e. absurd (ground (arith, e)))
  attributed-Informs panicked w h k = (h, λ key e. absurd (ground (arith, e)))

  read-Informs :
      (r : Reply Attributes) (w : World (Client W))
      → L.Searching w.env.behind
      → Informs (
          continue
            (on_error (wrapped "failed to get key attributes") (answer r))
            (λ attrs w'.
              continue
                (with_attributes S.text_of blank_key attrs)
                (with_public_key S has_dispatcher)
                w')
            w)
  unfolding Informs
  read-Informs (ok attrs) w h =
      attributed-Informs (with_attributes S.text_of blank_key attrs) w h
        (λ key e. attributes_unpublished S.text_of attrs blank_key key refl e)
  read-Informs (err x) w h = (h, λ key e. absurd (ground (arith, e)))

  get_key_info-Informs :
      (handle : ℕ) (w : World (Client W))
      → L.Searching w.env.behind
      → Informs (get_key_info S has_dispatcher handle w)
  unfolding get_key_info session_call ◌>>=◌
  get_key_info-Informs handle w h =
      let (r, b) = S.get_attribute_value handle (a_label ∷ a_key_type ∷ a_id ∷ []) w.env.behind in
      read-Informs r (record { env = record w.env { behind = b }; trace = w.trace })
        (L.after_get handle (a_label ∷ a_key_type ∷ a_id ∷ []) w.env.behind h)

  taken-Lists :
      (p : Outcome HsmKey × World (Client W))
      → Informs p
      → Lists 1 (let q = continue p.0 (λ key. pure (key ∷ [])) p.1 in handle q.0 (λ _. pure []) q.1)
  unfolding Informs Lists pure
  taken-Lists (returned key, w) (h, k) =
      (h, exactly 1 (key ∷ []) (unpublished (k key refl) none_left) (omega arith))
  taken-Lists (failed x, w) (h, k) = (h, exactly 1 [] none_left (omega arith))
  taken-Lists (panicked, w) (h, k) = (h, λ keys e. absurd (ground (arith, e)))

  one_info-Lists :
      (handle : ℕ) (w : World (Client W))
      → L.Searching w.env.behind
      → Lists 1 (one_info S has_dispatcher handle w)
  unfolding one_info ◌>>=◌
  one_info-Lists handle w h =
      taken-Lists (get_key_info S has_dispatcher handle w) (get_key_info-Informs handle w h)

  appended-Lists :
      (n : ℕ) (keys : List HsmKey) (q : Outcome (List HsmKey) × World (Client W))
      → Unpublished keys
      → length keys ≤ 1
      → Lists n q
      → Lists (suc n) (continue q.0 (λ rest. pure (keys ++ rest)) q.1)
  unfolding Lists pure
  appended-Lists n keys (returned rest, w) hu hl (h, k) =
      let (ru, rl) = k rest refl in
      (
        h,
        exactly (suc n) (keys ++ rest) (Unpublished-append keys rest hu ru)
            (omega (arith, hl, rl, length-append keys rest)),
      )
  appended-Lists n keys (failed x, w) hu hl (h, k) = (h, λ ks e. absurd (ground (arith, e)))
  appended-Lists n keys (panicked, w) hu hl (h, k) = (h, λ ks e. absurd (ground (arith, e)))

  joined-Lists :
      (n : ℕ) (p : Outcome (List HsmKey) × World (Client W)) (f : Exec (Client W) (List HsmKey))
      → Lists 1 p
      → ((w : World (Client W)) → L.Searching w.env.behind → Lists n (f w))
      → Lists
          (suc n)
          (continue p.0 (λ keys w'. continue (f w').0 (λ rest. pure (keys ++ rest)) (f w').1) p.1)
  unfolding Lists
  joined-Lists n (returned keys, w) f (h, k) hf =
      let (hu, hl) = k keys refl in appended-Lists n keys (f w) hu hl (hf w h)
  joined-Lists n (failed x, w) f (h, k) hf = (h, λ ks e. absurd (ground (arith, e)))
  joined-Lists n (panicked, w) f (h, k) hf = (h, λ ks e. absurd (ground (arith, e)))

  key_infos-Lists :
      (handles : List ℕ) (w : World (Client W))
      → L.Searching w.env.behind
      → Lists (length handles) (key_infos S has_dispatcher handles w)
  unfolding key_infos ◌>>=◌ Lists
  key_infos-Lists [] w h = (h, exactly 0 [] none_left (omega arith))
  key_infos-Lists (handle ∷ handles) w h =
      joined-Lists (length handles) (one_info S has_dispatcher handle w)
        (key_infos S has_dispatcher handles) (one_info-Lists handle w h)
        (λ w' h'. key_infos-Lists handles w' h')

  found-Lists :
      (r : Reply (List ℕ)) (w : World (Client W))
      → L.Searching w.env.behind
      → ((handles : List ℕ) → r ≡ ok handles → length handles ≤ object_batch_size)
      → (keys : List HsmKey)
      → (continue
          (on_error (wrapped "failed to find keys") (answer r))
          (key_infos S has_dispatcher)
          w).0
        ≡ returned keys
      → Unpublished keys × (length keys ≤ object_batch_size)
  unfolding Lists
  found-Lists (ok handles) w h k keys e =
      let (hs, hk) = key_infos-Lists handles w h in
      let (hu, hl) = hk keys e in (hu, omega (arith, hl, k handles refl))
  found-Lists (err x) w h k keys e = absurd (ground (arith, e))

  searched-Lists :
      (r : Option GoError × W) (w : World (Client W))
      → (r.0 ≡ none → L.Searching r.1)
      → (keys : List HsmKey)
      → (continue
          (on_error (wrapped "failed to initialize key search") (effect_outcome r.0))
          (λ u. deferring (keys_listed S has_dispatcher) (λ o. afterwards S.find_objects_final))
          (record { env = record w.env { behind = r.1 }; trace = w.trace })).0
        ≡ returned keys
      → Unpublished keys × (length keys ≤ object_batch_size)
  unfolding effect_outcome deferring keys_listed session_call ◌>>=◌ afterwards
  searched-Lists (some x, b) w h keys e = absurd (ground (arith, e))
  searched-Lists (none, b) w h keys e =
      let (r, b') = S.find_objects object_batch_size b in
      found-Lists r (record { env = record w.env { behind = b' }; trace = w.trace })
        (L.after_find object_batch_size b (h refl))
        (λ handles e'. L.length-find object_batch_size b handles e') keys e

  -- Where PKCS#11 refuses a search while another is active: the keys that `ListKeys` returns have no
  -- public keys, and they are at most 100.
  pub list_keys-Unpublished :
      (w : World (Client W)) (keys : List HsmKey)
      → (softhsm_list_keys S has_dispatcher w).0 ≡ returned keys
      → Unpublished keys × (length keys ≤ object_batch_size)
  unfolding softhsm_list_keys audited_method list_search effect ◌>>=◌
  list_keys-Unpublished w keys e =
      searched-Lists (S.find_objects_init (class_is private_key ∷ []) w.env.behind) w
        (L.started (class_is private_key ∷ []) w.env.behind) keys e
