-- ===== src/Hsm/SoftHsm/Keygen/Pairs.antt =====
-- client_keygen.go: which key pairs `GenerateKeyPair` makes, and which it leaves in the token.
use hsm_service.Prelude.{
  ◌⊎◌, ◌≡◌, refl, sym, subst, inl, inr, ℕ, String, Bool, true, false, Option, none, some, List, [],
  ◌∷◌, str_eq, if◌then◌else◌, arith,
}
use hsm_service.Prelude.Int.{ℤ}
use hsm_service.Domain.Errors.{GoError, wrapped}
use hsm_service.Domain.Entities.{Bytes, AuditData}
use hsm_service.Exec.{
  Reply, ok, err, answer, World, Outcome, returned, failed, panicked, pure, fail, ignoring,
  on_error, handle, continue, ◌>>=◌,
}
use hsm_service.Hsm.SoftHsm.{
  Session, Client, Attribute, class_is, kind_is, label_is, modulus_bits, public_exponent, ec_params,
  may_verify, may_encrypt, may_sign, may_decrypt, token, sensitive, extractable, private_key,
  public_key, rsa_kind, ec_kind, Mechanism, rsa_pkcs_key_pair_gen, ec_key_pair_gen, session_call,
  effect, not_closed, audited_method, record_call, closed_error,
}
use hsm_service.Hsm.SoftHsm.Export.{Encodings, curve_oid, export_public_key}
use hsm_service.Hsm.SoftHsm.Keygen.{
  rsa_public_template, rsa_private_template, ec_public_template, ec_private_template, rsa_pair,
  generate_rsa_key_pair, ec_pair, generate_ecdsa_key_pair, pair_generated, exported, pair_body,
  opened_body, rsa_bits, curve_of_size, softhsm_generate_key_pair,
}
use hsm_service.Hsm.SoftHsm.Keygen.Exports.{Reads, Exports, export_ends, export-Reads}

abbrev generation_failed : GoError → GoError
generation_failed = wrapped "HSM_OPERATION_FAILED: operation=generate_key_pair"

-- The templates of a pair under a label, for the mechanism of its kind: both objects have the label
-- and stay in the token, the private key signs, is sensitive and cannot be extracted.
pub data IsPair (label : String) : Mechanism → List Attribute → List Attribute → Type 0 where
  rsa :
      (bits : ℕ)
      → IsPair label rsa_pkcs_key_pair_gen
          (class_is public_key
            ∷ kind_is rsa_kind
            ∷ modulus_bits bits
            ∷ public_exponent (1 ∷ 0 ∷ 1 ∷ [])
            ∷ may_verify true
            ∷ may_encrypt true
            ∷ token true
            ∷ label_is label
            ∷ [])
          (class_is private_key
            ∷ kind_is rsa_kind
            ∷ may_sign true
            ∷ may_decrypt true
            ∷ token true
            ∷ sensitive true
            ∷ extractable false
            ∷ label_is label
            ∷ [])
  ec :
      (params : Bytes)
      → IsPair label ec_key_pair_gen
          (class_is public_key
            ∷ kind_is ec_kind
            ∷ ec_params params
            ∷ may_verify true
            ∷ token true
            ∷ label_is label
            ∷ [])
          (class_is private_key
            ∷ kind_is ec_kind
            ∷ may_sign true
            ∷ token true
            ∷ sensitive true
            ∷ extractable false
            ∷ label_is label
            ∷ [])

module _ {W : Type 0} (S : Session W) (E : Encodings) where
  -- How a token `b` that a client is connected to ends up after a `GenerateKeyPair`.
  pub data Generates (label : String) (b : W) : Outcome (Bytes × String) → W → Type 0 where
    no_pair : (e : GoError) → Generates label b (failed e) b
    not_generated :
        (m : Mechanism) (t t' : List Attribute) (x e : GoError)
        → IsPair label m t t'
        → (S.generate_key_pair m t t' b).0 ≡ err x
        → Generates label b (failed e) (S.generate_key_pair m t t' b).1
    destroyed :
        (m : Mechanism) (t t' : List Attribute) (public_handle private_handle : ℕ) (e : GoError)
        (b' : W)
        → IsPair label m t t'
        → (S.generate_key_pair m t t' b).0 ≡ ok (public_handle, private_handle)
        → Reads S E public_handle (S.generate_key_pair m t t' b).1 b'
        → Exports S E public_handle (S.generate_key_pair m t t' b).1 (failed e)
        → Generates label b
            (failed e)
            (S.destroy_object private_handle (S.destroy_object public_handle b').1).1
    made :
        (m : Mechanism) (t t' : List Attribute) (public_handle private_handle : ℕ) (key : Bytes)
        (b' : W)
        → IsPair label m t t'
        → (S.generate_key_pair m t t' b).0 ≡ ok (public_handle, private_handle)
        → Reads S E public_handle (S.generate_key_pair m t t' b).1 b'
        → Exports S E public_handle (S.generate_key_pair m t t' b).1 (returned key)
        → Generates label b (returned (key, label)) b'

  -- The same of a generated pair.
  data Pairs (label : String) (b : W) : Outcome (ℕ × ℕ) → W → Type 0 where
    none_made : (e : GoError) → Pairs label b (failed e) b
    refused :
        (m : Mechanism) (t t' : List Attribute) (x : GoError)
        → IsPair label m t t'
        → (S.generate_key_pair m t t' b).0 ≡ err x
        → Pairs label b (failed x) (S.generate_key_pair m t t' b).1
    pair :
        (m : Mechanism) (t t' : List Attribute) (public_handle private_handle : ℕ)
        → IsPair label m t t'
        → (S.generate_key_pair m t t' b).0 ≡ ok (public_handle, private_handle)
        → Pairs label b (returned (public_handle, private_handle)) (S.generate_key_pair m t t' b).1

  answered-Pairs :
      (label : String) (b : W) (m : Mechanism) (t t' : List Attribute) (r : Reply (ℕ × ℕ))
      → IsPair label m t t'
      → (S.generate_key_pair m t t' b).0 ≡ r
      → Pairs label b (answer r) (S.generate_key_pair m t t' b).1
  answered-Pairs label b m t t' (ok (pub', priv')) p h = pair m t t' pub' priv' p h
  answered-Pairs label b m t t' (err x) p h = refused m t t' x p h

  Ends : String → World (Client W) → Outcome (ℕ × ℕ) × World (Client W) → Type 0
  Ends label w p = Pairs label w.env.behind p.0 p.1.env.behind

  rsa-Ends :
      (size : ℤ) (label : String) (bits : Option ℕ) (w : World (Client W))
      → Ends label w (rsa_pair S E size label bits w)
  unfolding rsa_pair session_call Ends fail rsa_public_template rsa_private_template
  rsa-Ends size label none w = none_made _
  rsa-Ends size label (some bits) w = answered-Pairs label w.env.behind _ _ _ _ (rsa bits) refl

  ec_answered-Ends :
      (label : String) (params : Reply Bytes) (w : World (Client W))
      → Ends label w (
          continue
            (on_error (wrapped "failed to marshal EC params") (answer params))
            (λ p. session_call (
              S.generate_key_pair ec_key_pair_gen
                (ec_public_template p label)
                (ec_private_template label)))
            w)
  unfolding Ends session_call ec_public_template ec_private_template
  ec_answered-Ends label (err x) w = none_made _
  ec_answered-Ends label (ok params) w = answered-Pairs label w.env.behind _ _ _ _ (ec params) refl

  ec-Ends :
      (label : String) (curve : Option _) (w : World (Client W))
      → Ends label w (ec_pair S E label curve w)
  unfolding ec_pair ◌>>=◌ Ends
  ec-Ends label none w = none_made _
  ec-Ends label (some curve) w = ec_answered-Ends label (E.marshal_oid (curve_oid curve)) w

  if_Ends :
      (label : String) (w : World (Client W)) (b : Bool) (x y : Outcome (ℕ × ℕ) × World (Client W))
      → Ends label w x
      → Ends label w y
      → Ends label w (if b then x else y)
  if_Ends label w true x y hx hy = hx
  if_Ends label w false x y hx hy = hy

  pair_generated-Ends :
      (algorithm : String) (size : ℤ) (label : String) (w : World (Client W))
      → Ends label w (pair_generated S E algorithm size label w)
  unfolding pair_generated generate_rsa_key_pair generate_ecdsa_key_pair Ends fail
  pair_generated-Ends algorithm size label w =
      if_Ends label w (str_eq algorithm "RSA") _ _ (rsa-Ends size label (rsa_bits size) w) (
        if_Ends label w (str_eq algorithm "ECDSA") _ _ (ec-Ends label (curve_of_size size) w)
          (if_Ends label w (str_eq algorithm "Ed25519") _ _ (none_made _) (none_made _)))

  made_of :
      (label : String) (b : W) (public_handle private_handle : ℕ)
      (p : Outcome Bytes × World (Client W))
      → ((key : Bytes) × (p.0 ≡ returned key)) ⊎ ((e : GoError) × (p.0 ≡ failed e))
      → (m : Mechanism) (t t' : List Attribute) → IsPair label m t t'
      → (S.generate_key_pair m t t' b).0 ≡ ok (public_handle, private_handle)
      → Reads S E public_handle (S.generate_key_pair m t t' b).1 p.1.env.behind
      → Exports S E public_handle (S.generate_key_pair m t t' b).1 p.0
      → let q =
          handle p.0
            (λ e. ignoring (effect (S.destroy_object public_handle)) >>= λ _.
              ignoring (effect (S.destroy_object private_handle)) >>= λ _. fail e)
            p.1 in
        let r = continue {B = Bytes × String} q.0 (λ key. pure (key, label)) q.1 in
        Generates label b r.0 r.1.env.behind
  unfolding ◌>>=◌ effect
  made_of label b pub' priv' (returned key, w) ends m t t' i h r x =
      made m t t' pub' priv' key w.env.behind i h r x
  made_of label b pub' priv' (failed e, w) ends m t t' i h r x =
      destroyed m t t' pub' priv' e w.env.behind i h r x
  made_of label b pub' priv' (panicked, w) (inl (k, e)) m t t' i h r x = absurd (ground (arith, e))
  made_of label b pub' priv' (panicked, w) (inr (y, e)) m t t' i h r x = absurd (ground (arith, e))

  paired-Generates :
      (label : String) (b b' : W) (o : Outcome (ℕ × ℕ)) (w : World (Client W))
      → Pairs label b o b'
      → w.env.behind ≡ b'
      → let q =
          continue {B = Bytes × String}
            (on_error (wrapped "HSM_OPERATION_FAILED: operation=generate_key_pair") o)
            (λ handles. exported S E handles >>= λ key. pure (key, label))
            w in
        Generates label b q.0 q.1.env.behind
  unfolding exported ◌>>=◌
  paired-Generates label b b' _ w (none_made e) h =
      subst (λ c. Generates label b (failed (generation_failed e)) c) (sym h)
        (no_pair (generation_failed e))
  paired-Generates label b b' _ w (refused m t t' x i g) h =
      subst (λ c. Generates label b (failed (generation_failed x)) c) (sym h)
        (not_generated m t t' x (generation_failed x) i g)
  paired-Generates label b b' _ w (pair m t t' pub' priv' i g) h =
      made_of label b pub' priv' (export_public_key S E pub' w) (export_ends S E pub' w) m t t' i g
        (subst (λ c. Reads S E pub' c (export_public_key S E pub' w).1.env.behind) h
          (export-Reads S E pub' w))
        (w, h, refl)

  opened-Generates :
      (closed : Bool) (algorithm : String) (size : ℤ) (label : String) (w : World (Client W))
      → let p : Outcome (Unit {0}) × World (Client W) =
          if closed then (failed closed_error, w) else (returned tt, w) in
        let q = continue p.0 (λ u. pair_body S E algorithm size label) p.1 in
        Generates label w.env.behind q.0 q.1.env.behind
  unfolding pair_body ◌>>=◌ Ends
  opened-Generates true algorithm size label w = no_pair _
  opened-Generates false algorithm size label w =
      let g = pair_generated S E algorithm size label w in
      paired-Generates label w.env.behind g.1.env.behind g.0 g.1 (ends algorithm size label w) refl
    where
      ends :
          (algorithm' : String) (size' : ℤ) (label' : String) (w' : World (Client W))
          → Pairs label' w'.env.behind
              (pair_generated S E algorithm' size' label' w').0
              (pair_generated S E algorithm' size' label' w').1.env.behind
      ends algorithm' size' label' w' = pair_generated-Ends algorithm' size' label' w'

  if_Generates :
      (label : String) (b : W) (c : Bool) (x y : Outcome (Bytes × String) × World (Client W))
      → Generates label b x.0 x.1.env.behind
      → Generates label b y.0 y.1.env.behind
      → Generates label b (if c then x else y).0 (if c then x else y).1.env.behind
  if_Generates label b true x y hx hy = hx
  if_Generates label b false x y hx hy = hy

  recorded_same :
      (has_dispatcher : Bool) (data' : AuditData) (w : World (Client W))
      → (record_call has_dispatcher data' w).env ≡ w.env
  unfolding record_call
  recorded_same true data' w = refl
  recorded_same false data' w = refl

  -- `GenerateKeyPair` on every branch: it fails and leaves the token, or the token refuses to
  -- generate, or the pair is generated and its exported public key is returned with its label, or it is generated, its
  -- public key cannot be exported, and both its objects are destroyed. Between the generation and the end, or the two
  -- destructions, only attributes of the public key are read. What the token is asked for is an RSA or
  -- EC pair of this label whose private key signs, is sensitive and not extractable.
  pub generate_key_pair-Generates :
      (has_dispatcher : Bool) (algorithm : String) (size : ℤ) (label : String)
      (w : World (Client W))
      → let q = softhsm_generate_key_pair S E has_dispatcher algorithm size label w in
        Generates label w.env.behind q.0 q.1.env.behind
  unfolding softhsm_generate_key_pair audited_method opened_body not_closed ◌>>=◌
  generate_key_pair-Generates has_dispatcher algorithm size label w =
      subst
        (λ c.
          Generates label w.env.behind
            (softhsm_generate_key_pair S E has_dispatcher algorithm size label w).0 c.behind)
        (sym (recorded_same has_dispatcher _ _))
        (if_Generates label w.env.behind (str_eq label "") _ _ (no_pair _)
          (opened-Generates w.env.closed algorithm size label w))
