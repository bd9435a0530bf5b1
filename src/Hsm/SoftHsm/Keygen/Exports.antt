-- ===== src/Hsm/SoftHsm/Keygen/Exports.antt =====
-- client_export.go: the export of a new public key, which only reads.
use hsm_service.Prelude.{
  ◌⊎◌, ◌≡◌, inl, inr, ℕ, Bool, true, false, Option, none, some, List, [], ◌∷◌, if◌then◌else◌, ◌==◌,
  arith,
}
use hsm_service.Domain.Errors.{GoError, wrapped}
use hsm_service.Domain.Entities.{Bytes}
use hsm_service.Exec.{
  Reply, answer, lift, World, Outcome, returned, failed, panicked, fail, on_error, handle, continue,
  ◌>>=◌, Outcome-cases,
}
use hsm_service.Hsm.SoftHsm.{
  Session, Client, AttributeType, Attributes, a_key_type, a_modulus, a_public_exponent, a_ec_point,
  a_ec_params, session_call,
}
use hsm_service.Hsm.SoftHsm.Export.{
  Encodings, export_public_key, export_by_type, export_rsa_public_key, export_ec_public_key,
  key_type_byte,
}

module _ {W : Type 0} (S : Session W) (E : Encodings) where
  -- The token `c` is reached from `b` by reading attributes of one object.
  pub data Reads (handle : ℕ) : W → W → Type 0 where
    read_none : (b : W) → Reads handle b b
    read_on :
        (b : W) (ts : List AttributeType) (c : W)
        → Reads handle (S.get_attribute_value handle ts b).1 c
        → Reads handle b c

  -- The export of the public key, on the token `b`, ends with `o`.
  abbrev pub Exports : ℕ → W → Outcome Bytes → Type 0
  Exports handle b o =
      (v : World (Client W)) × (v.env.behind ≡ b) × ((export_public_key S E handle v).0 ≡ o)

  -- The export gives a key or fails.
  pub export_ends :
      (public_handle : ℕ) (w : World (Client W))
      → ((key : Bytes) × ((export_public_key S E public_handle w).0 ≡ returned key))
        ⊎ ((e : GoError) × ((export_public_key S E public_handle w).0 ≡ failed e))
  unfolding export_public_key ◌>>=◌
  export_ends public_handle w = elim (Outcome-cases (export_public_key S E public_handle w).0) [
    | inl (key, e) ↦ inl (key, e)
    | inr (inl (x, e)) ↦ inr (x, e)
    | inr (inr e) ↦ absurd (ground (arith, e))
  ]

  -- The export only reads.
  lifted-Reads :
      (handle : ℕ) (b : W) (o : Outcome Attributes) (f : Attributes → Reply Bytes)
      (v : World (Client W))
      → Reads handle b v.env.behind
      → Reads handle b (continue o (λ attrs. lift (f attrs)) v).1.env.behind
  unfolding lift ◌>>=◌
  lifted-Reads handle b (returned attrs) f v h = h
  lifted-Reads handle b (failed e) f v h = h
  lifted-Reads handle b panicked f v h = h

  if_Reads :
      (handle : ℕ) (b : W) (c : Bool) (x y : Outcome Bytes × World (Client W))
      → Reads handle b x.1.env.behind
      → Reads handle b y.1.env.behind
      → Reads handle b (if c then x else y).1.env.behind
  if_Reads handle b true x y hx hy = hx
  if_Reads handle b false x y hx hy = hy

  rsa-Reads :
      (handle : ℕ) (w : World (Client W))
      → Reads handle w.env.behind (export_rsa_public_key S E handle w).1.env.behind
  unfolding export_rsa_public_key session_call ◌>>=◌
  rsa-Reads handle w =
      let ts = a_modulus ∷ a_public_exponent ∷ [] in
      lifted-Reads handle w.env.behind _ _ _
        (read_on w.env.behind ts _ (read_none (S.get_attribute_value handle ts w.env.behind).1))

  ec-Reads :
      (handle : ℕ) (w : World (Client W))
      → Reads handle w.env.behind (export_ec_public_key S E handle w).1.env.behind
  unfolding export_ec_public_key session_call ◌>>=◌
  ec-Reads handle w =
      let ts = a_ec_point ∷ a_ec_params ∷ [] in
      lifted-Reads handle w.env.behind _ _ _
        (read_on w.env.behind ts _ (read_none (S.get_attribute_value handle ts w.env.behind).1))

  by_type-Reads :
      (handle : ℕ) (kind : Option ℕ) (w : World (Client W))
      → Reads handle w.env.behind (export_by_type S E handle kind w).1.env.behind
  unfolding export_by_type fail
  by_type-Reads handle none w = read_none w.env.behind
  by_type-Reads handle (some b) w =
      if_Reads handle w.env.behind (b == 0) _ _ (rsa-Reads handle w)
        (if_Reads handle w.env.behind (b == 3) _ _ (ec-Reads handle w) (read_none w.env.behind))

  typed-Reads :
      (handle : ℕ) (b : W) (o : Outcome Attributes) (v : World (Client W))
      → ((kind : Option ℕ) → Reads handle b (export_by_type S E handle kind v).1.env.behind)
      → Reads handle b v.env.behind
      → Reads handle b
          (continue o (λ attrs. export_by_type S E handle (key_type_byte attrs)) v).1.env.behind
  typed-Reads handle b (returned attrs) v h k = h (key_type_byte attrs)
  typed-Reads handle b (failed e) v h k = k
  typed-Reads handle b panicked v h k = k

  pub export-Reads :
      (handle : ℕ) (w : World (Client W))
      → Reads handle w.env.behind (export_public_key S E handle w).1.env.behind
  unfolding export_public_key session_call ◌>>=◌
  export-Reads handle w =
      let ts = a_key_type ∷ [] in
      let v : World (Client W) = record w {
        env = record w.env { behind = (S.get_attribute_value handle ts w.env.behind).1 };
      } in
      typed-Reads handle w.env.behind
        (on_error (wrapped "failed to get key type")
          (answer (S.get_attribute_value handle ts w.env.behind).0))
        v (λ kind. read_on w.env.behind ts _ (by_type-Reads handle kind v))
        (read_on w.env.behind ts _ (read_none v.env.behind))
