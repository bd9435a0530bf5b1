-- ===== src/Secrets/K8s/Rewrap.antt =====
-- k8s_manager.go: the change of the key under which a data key is wrapped.
use hsm_service.Prelude.{
  ℕ, ◌≡◌, refl, ◌∙◌, ap, subst, ◌≤◌, String, none, List, [], ◌∷◌, ◌++◌, length, arith,
}
use hsm_service.Domain.Entities.{Bytes}
use hsm_service.Exec.{ok}
use hsm_service.Aes.{Aead, unwrap_key, iv_size}
use hsm_service.Aes.Laws.{AeadLaws}
use hsm_service.Aes.RoundTrip.{unwrap-wrap}
use hsm_service.Secrets.K8s.{
  Secret, K8sConfig, K8sAesKeyManager, Cluster, secret_key, k8s_get_key, new_k8s_manager,
}
use hsm_service.Secrets.K8s.Operations.{
  beside, wrapped_with, k8s_wrap_key, unwrapped_with, k8s_unwrap_key, rewrapped_with,
  rewrapped_from, k8s_rewrap_key,
}
use hsm_service.Secrets.K8s.Keyring.{with_key_ok}
use hsm_service.Secrets.K8s.Cache.{Call, getting, perform, perform_all}
use hsm_service.Secrets.K8s.Lookups.{length-secret_key}
use hsm_service.Secrets.K8s.Reads.{get_key-secret_key}

module _ {W : Type 0} (C : Aead W) (K : Cluster W) where
  perform_snoc :
      (calls : List Call) (c : Call) (s : K8sAesKeyManager × W)
      → perform_all C K (calls ++ (c ∷ [])) s ≡ perform C K c (perform_all C K calls s)
  unfolding perform_all
  perform_snoc [] c s = refl
  perform_snoc (b ∷ bs) c s = perform_snoc bs c (perform C K b s)

module _ {W : Type 0} (C : Aead W) (L : AeadLaws C) (K : Cluster W) (config : K8sConfig)
    (k : K8sAesKeyManager) (fields : Secret) (made : new_k8s_manager none config ≡ ok k)
    (steady : (w : W)
      → (K.get_secret k.config.secret_namespace k.config.secret_name w).0 ≡ ok fields)
    (reads : (n : ℕ) (w : W) → (bs : Bytes) × ((C.read n w).0 ≡ ok bs)) where
  gives :
      (key_id : String) (key : Bytes) (calls : List Call) (w : W)
      → secret_key K k.config key_id (ok fields) ≡ ok key
      → (k8s_get_key K key_id (perform_all C K calls (k, w))).0 ≡ ok key
  gives key_id key calls w h =
      get_key-secret_key C K config k (ok fields) made steady w calls key_id ∙ h

  gives_next :
      (first key_id : String) (key : Bytes) (calls : List Call) (w : W)
      → secret_key K k.config key_id (ok fields) ≡ ok key
      → (k8s_get_key K key_id (k8s_get_key K first (perform_all C K calls (k, w))).1).0 ≡ ok key
  unfolding perform
  gives_next first key_id key calls w h =
      subst (λ s. (k8s_get_key K key_id s).0 ≡ ok key)
        (perform_snoc C K calls (getting first) (k, w))
        (gives key_id key (calls ++ (getting first ∷ [])) w h)

  wraps :
      (key_id : String) (key data_key : Bytes) (calls : List Call) (w : W)
      → secret_key K k.config key_id (ok fields) ≡ ok key
      → length data_key ≡ 32
      → (wrapped : Bytes) × ((k8s_wrap_key C K key_id data_key (perform_all C K calls (k, w))).0
          ≡ ok wrapped)
        × (28 ≤ length wrapped)
        × (unwrap_key C key wrapped ≡ ok data_key)
  unfolding k8s_wrap_key wrapped_with beside
  wraps key_id key data_key calls w h hd =
      let r = k8s_get_key K key_id (perform_all C K calls (k, w)) in
      let (iv, hr) = reads iv_size r.1.1 in
      let hk = length-secret_key K k.config key_id (ok fields) key h in
      let (b, b1, b2, b3) =
        unwrap-wrap C L key data_key iv r.1.1 hk (omega (arith, hd)) (omega (arith, hd)) hr in
      (
        b,
        ap (λ p. p.0) (with_key_ok _ (wrapped_with C K data_key) r key (gives key_id key calls w h))
            ∙ ground (arith, hd, b1),
        omega (arith, b2),
        b3,
      )

  unwraps :
      (key_id : String) (key data_key wrapped : Bytes) (calls : List Call) (w : W)
      → secret_key K k.config key_id (ok fields) ≡ ok key
      → 28 ≤ length wrapped
      → unwrap_key C key wrapped ≡ ok data_key
      → (k8s_unwrap_key C K key_id wrapped (perform_all C K calls (k, w))).0 ≡ ok data_key
  unfolding k8s_unwrap_key unwrapped_with
  unwraps key_id key data_key wrapped calls w h hl hu =
      ap (λ p. p.0)
        (with_key_ok _ (λ master s'. (unwrapped_with C K wrapped master, s'))
          (k8s_get_key K key_id (perform_all C K calls (k, w))) key (gives key_id key calls w h))
      ∙ ground (arith, hl, hu)

  rewraps :
      (old new : String) (old_key new_key data_key wrapped : Bytes) (calls : List Call) (w : W)
      → secret_key K k.config old (ok fields) ≡ ok old_key
      → secret_key K k.config new (ok fields) ≡ ok new_key
      → length data_key ≡ 32
      → unwrap_key C old_key wrapped ≡ ok data_key
      → (again : Bytes) × ((k8s_rewrap_key C K old new wrapped (perform_all C K calls (k, w))).0
          ≡ ok again)
        × (28 ≤ length again)
        × (unwrap_key C new_key again ≡ ok data_key)
  unfolding k8s_rewrap_key rewrapped_from rewrapped_with beside
  rewraps old new old_key new_key data_key wrapped calls w ho hn hd hu =
      let r = k8s_get_key K old (perform_all C K calls (k, w)) in
      let r' = k8s_get_key K new r.1 in
      let (iv, hr) = reads iv_size r'.1.1 in
      let hk = length-secret_key K k.config new (ok fields) new_key hn in
      let (b, b1, b2, b3) =
        unwrap-wrap C L new_key data_key iv r'.1.1 hk (omega (arith, hd)) (omega (arith, hd)) hr in
      (
        b,
        ap (λ p. p.0)
              (with_key_ok _ (λ key. rewrapped_from C K new (unwrap_key C key wrapped)) r old_key
                (gives old old_key calls w ho))
            ∙ ap (λ u. (rewrapped_from C K new u r.1).0) hu
            ∙ ap (λ p. p.0)
                (with_key_ok _ (rewrapped_with C K data_key) r' new_key
                  (gives_next old new new_key calls w hn))
            ∙ ground (arith, b1),
        omega (arith, b2),
        b3,
      )

  -- On a cluster that always answers the same secret, with a random source that gives bytes: a data
  -- key of 32 bytes that a manager wrapped under an id of the secret, and then rewrapped under
  -- another, is unwrapped under the other, whatever calls lie between the three.
  pub k8s_unwrap-rewrap :
      (old new : String) (old_key new_key data_key : Bytes) (calls calls' calls'' : List Call)
      (w w' w'' : W)
      → secret_key K k.config old (ok fields) ≡ ok old_key
      → secret_key K k.config new (ok fields) ≡ ok new_key
      → length data_key ≡ 32
      → (wrapped : Bytes) × (again : Bytes) × ((k8s_wrap_key C K old data_key
            (perform_all C K calls (k, w))).0
          ≡ ok wrapped)
        × ((k8s_rewrap_key C K old new wrapped (perform_all C K calls' (k, w'))).0 ≡ ok again)
        × ((k8s_unwrap_key C K new again (perform_all C K calls'' (k, w''))).0 ≡ ok data_key)
  k8s_unwrap-rewrap old new old_key new_key data_key calls calls' calls'' w w' w'' ho hn hd =
      let (a, a1, a2, a3) = wraps old old_key data_key calls w ho hd in
      let (b, b1, b2, b3) = rewraps old new old_key new_key data_key a calls' w' ho hn hd a3 in
      (a, b, a1, b1, unwraps new new_key data_key b calls'' w'' hn b2 b3)
