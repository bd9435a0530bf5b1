-- ===== src/Hsm/SoftHsm/Inventory/Searches.antt =====
-- client_inventory.go: what PKCS#11 says of searches, and keys with no public keys.
use hsm_service.Prelude.{
  ◌≡◌, ap, subst, ℕ, ◌≤◌, String, none, some, List, [], ◌∷◌, ◌++◌, length, arith,
}
use hsm_service.Domain.Errors.{GoError}
use hsm_service.Domain.Entities.{Bytes, HsmKey}
use hsm_service.Exec.{ok, Outcome, returned, failed, panicked}
use hsm_service.Hsm.SoftHsm.{
  Session, Attribute, AttributeType, Attributes, a_class, a_label, a_key_type, a_id, a_modulus,
  a_public_exponent, a_ec_point, a_ec_params,
}
use hsm_service.Hsm.SoftHsm.Inventory.{with_attributes}

-- What PKCS#11 says of searches: `C_FindObjectsInit` starts one, and is refused while one is active;
-- `C_FindObjects` and `C_GetAttributeValue` do not end it; and `C_FindObjects` gives at most as many
-- objects as are asked for.
pub record SearchLaws {W : Type 0} (S : Session W) : Type 1 where
  pub Searching : W → Type 0
  pub started :
      (t : List Attribute) (w : W)
      → (S.find_objects_init t w).0 ≡ none
      → Searching (S.find_objects_init t w).1
  pub refused :
      (t : List Attribute) (w : W)
      → Searching w
      → (e : GoError) × ((S.find_objects_init t w).0 ≡ some e)
        × Searching (S.find_objects_init t w).1
  pub after_find : (n : ℕ) (w : W) → Searching w → Searching (S.find_objects n w).1
  pub after_get :
      (handle : ℕ) (ts : List AttributeType) (w : W)
      → Searching w
      → Searching (S.get_attribute_value handle ts w).1
  pub length-find :
      (n : ℕ) (w : W) (handles : List ℕ) → (S.find_objects n w).0 ≡ ok handles → length handles ≤ n

-- No key of the list has a public key.
pub data Unpublished : List HsmKey → Type 0 where
  none_left : Unpublished []
  unpublished :
      {key : HsmKey} {rest : List HsmKey}
      → key.public_key ≡ []
      → Unpublished rest
      → Unpublished (key ∷ rest)

pub Unpublished-append :
    (xs ys : List HsmKey) → Unpublished xs → Unpublished ys → Unpublished (xs ++ ys)
Unpublished-append [] ys none_left h = h
Unpublished-append (x ∷ xs) ys (unpublished e g) h = unpublished e (Unpublished-append xs ys g h)

pub exactly :
    (n : ℕ) (keys : List HsmKey)
    → Unpublished keys
    → length keys ≤ n
    → (keys' : List HsmKey) → returned keys ≡ returned keys'
    → Unpublished keys' × (length keys' ≤ n)
exactly n keys hu hl keys' e =
    let same : keys ≡ keys' = ap returned_list e in
    (subst Unpublished same hu, subst (λ ks. length ks ≤ n) same hl)
  where
    returned_list : Outcome (List HsmKey) → List HsmKey
    returned_list (returned ks) = ks
    returned_list (failed x) = []
    returned_list panicked = []

pub attributes_unpublished :
    (text_of : Bytes → String) (attrs : Attributes) (key key' : HsmKey)
    → key.public_key ≡ []
    → with_attributes text_of key attrs ≡ returned key'
    → key'.public_key ≡ []
unfolding with_attributes
attributes_unpublished text_of [] key key' h e = ground (arith, h, e)
attributes_unpublished text_of ((a_label, value) ∷ rest) key key' h e =
    attributes_unpublished text_of rest _ key' h e
attributes_unpublished text_of ((a_key_type, []) ∷ rest) key key' h e = absurd (ground (arith, e))
attributes_unpublished text_of ((a_key_type, b ∷ bytes) ∷ rest) key key' h e =
    attributes_unpublished text_of rest _ key' h e
attributes_unpublished text_of ((a_id, []) ∷ rest) key key' h e =
    attributes_unpublished text_of rest key key' h e
attributes_unpublished text_of ((a_id, b ∷ bytes) ∷ rest) key key' h e =
    attributes_unpublished text_of rest _ key' h e
attributes_unpublished text_of ((a_class, value) ∷ rest) key key' h e =
    attributes_unpublished text_of rest key key' h e
attributes_unpublished text_of ((a_modulus, value) ∷ rest) key key' h e =
    attributes_unpublished text_of rest key key' h e
attributes_unpublished text_of ((a_public_exponent, value) ∷ rest) key key' h e =
    attributes_unpublished text_of rest key key' h e
attributes_unpublished text_of ((a_ec_point, value) ∷ rest) key key' h e =
    attributes_unpublished text_of rest key key' h e
attributes_unpublished text_of ((a_ec_params, value) ∷ rest) key key' h e =
    attributes_unpublished text_of rest key key' h e
