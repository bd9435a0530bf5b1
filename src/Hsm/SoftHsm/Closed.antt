-- ===== src/Hsm/SoftHsm/Closed.antt =====
-- The client after `Close`.
use hsm_service.Prelude.{
  ◌⊎◌, ◌≡◌, refl, inl, inr, ℕ, String, Bool, true, false, str_eq, if◌then◌else◌, arith, Bool-cases,
}
use hsm_service.Prelude.Int.{ℤ}
use hsm_service.Domain.Errors.{GoError}
use hsm_service.Domain.Entities.{Bytes}
use hsm_service.Exec.{
  World, Outcome, returned, failed, panicked, Exec, rethrow, on_error, handle, continue, ◌>>=◌,
  Outcome-cases,
}
use hsm_service.Hsm.SoftHsm.{
  Session, Client, ObjectClass, private_key, public_key, session_call, effect, afterwards,
  not_closed, first_of, found_object, find_by_label, effect_outcome, softhsm_close,
  softhsm_health_check, closed_error,
}
use hsm_service.Hsm.SoftHsm.Crypto.{
  softhsm_encrypt, softhsm_decrypt, softhsm_sign_hash, softhsm_verify_signature,
}
use hsm_service.Hsm.SoftHsm.Export.{Encodings}
use hsm_service.Hsm.SoftHsm.Keygen.{softhsm_generate_key_pair}
use hsm_service.Hsm.SoftHsm.Inventory.{softhsm_delete_key}

-- The call ends with an error.
abbrev pub IsFailed : {A : Type 0} → Outcome A → Type 0
IsFailed o = (e : GoError) × (o ≡ failed e)

module _ {W : Type 0} (S : Session W) where
  -- A search leaves the client open or closed, and does not panic.
  closed_searched :
      (class : ObjectClass) (label : String) (w : World (Client W))
      → w.env.closed ≡ true
      → (find_by_label S class label w).1.env.closed ≡ true
  unfolding find_by_label found_object session_call effect afterwards first_of ◌>>=◌ effect_outcome
  closed_searched class label w h = ground (arith, h)

  -- A search gives an object or fails.
  pub searched_ends :
      (class : ObjectClass) (label : String) (w : World (Client W))
      → ((handle : ℕ) × ((find_by_label S class label w).0 ≡ returned handle))
        ⊎ IsFailed (find_by_label S class label w).0
  unfolding find_by_label found_object session_call effect first_of ◌>>=◌ effect_outcome
  searched_ends class label w = elim (Outcome-cases (find_by_label S class label w).0) [
    | inl (v, e) ↦ inl (v, e)
    | inr (inl (x, e)) ↦ inr (x, e)
    | inr (inr e) ↦ absurd (ground (arith, e))
  ]

continue_fails :
    {W A B : Type 0} (o : Outcome A) (f : A → Exec W B) (w : World W)
    → ((a : A) × (o ≡ returned a)) ⊎ IsFailed o
    → ((a : A) → IsFailed (f a w).0)
    → IsFailed (continue o f w).0
continue_fails (returned a) f w h k = k a
continue_fails (failed e) f w h k = (e, refl)
continue_fails panicked f w (inl (a, h)) k = absurd (ground (arith, h))
continue_fails panicked f w (inr (e, h)) k = absurd (ground (arith, h))

pub rethrown_ends :
    {A : Type 0} (o : Outcome A) (g : GoError → GoError)
    → ((a : A) × (o ≡ returned a)) ⊎ IsFailed o
    → ((a : A) × (on_error g o ≡ returned a)) ⊎ IsFailed (on_error g o)
rethrown_ends (returned a) g h = inl (a, refl)
rethrown_ends (failed e) g h = inr (g e, refl)
rethrown_ends panicked g (inl (a, h)) = absurd (ground (arith, h))
rethrown_ends panicked g (inr (e, h)) = absurd (ground (arith, h))

module _ {W A : Type 0} (S : Session W) where
  closed_refuses :
      (f : Unit {0} → Exec (Client W) A) (w : World (Client W))
      → w.env.closed ≡ true
      → IsFailed ((not_closed >>= f) w).0
  unfolding ◌>>=◌ not_closed
  closed_refuses f w h = (closed_error, ground (arith, h))

  search_refuses :
      (class : ObjectClass) (label : String) (g : GoError → GoError) (f : ℕ → Exec (Client W) A)
      (w : World (Client W))
      → w.env.closed ≡ true
      → ((handle : ℕ) (w' : World (Client W)) → w'.env.closed ≡ true → IsFailed (f handle w').0)
      → IsFailed ((rethrow g (find_by_label S class label) >>= f) w).0
  unfolding ◌>>=◌
  search_refuses class label g f w h k =
      continue_fails (on_error g (find_by_label S class label w).0) f
        (find_by_label S class label w).1
        (rethrown_ends (find_by_label S class label w).0 g (searched_ends S class label w))
        (λ handle. k handle (find_by_label S class label w).1 (closed_searched S class label w h))

  second_refuses :
      (p : Outcome ℕ × World (Client W)) (label : String) (g : GoError → GoError)
      (f : ℕ → Exec (Client W) A)
      → ((handle : ℕ) × (p.0 ≡ returned handle)) ⊎ IsFailed p.0
      → p.1.env.closed ≡ true
      → ((handle : ℕ) (w' : World (Client W)) → w'.env.closed ≡ true → IsFailed (f handle w').0)
      → let q = handle p.0 (λ _. rethrow g (find_by_label S public_key label)) p.1 in
        IsFailed (continue q.0 f q.1).0
  unfolding ◌>>=◌
  second_refuses (returned handle, w) label g f ends h k = k handle w h
  second_refuses (failed e, w) label g f ends h k = search_refuses public_key label g f w h k
  second_refuses (panicked, w) label g f (inl (a, e)) h k = absurd (ground (arith, e))
  second_refuses (panicked, w) label g f (inr (x, e)) h k = absurd (ground (arith, e))

  if_refused :
      (b : Bool) (x y : Outcome A × World (Client W))
      → IsFailed x.0
      → IsFailed y.0
      → IsFailed (if b then x else y).0
  if_refused true x y hx hy = hx
  if_refused false x y hx hy = hy

module _ {W : Type 0} (S : Session W) (E : Encodings) (has_dispatcher : Bool) where
  close_closes : (w : World (Client W)) → (softhsm_close S w).env.closed ≡ true
  unfolding softhsm_close
  close_closes w = elim (Bool-cases w.env.closed) [
    | inl h ↦ ground (arith, h)
    | inr h ↦ ground (arith, h)
  ]

  close_again : (w : World (Client W)) → w.env.closed ≡ true → softhsm_close S w ≡ w
  unfolding softhsm_close
  close_again w h = ground (arith, h)

  sign_refused :
      (label : String) (hash : Bytes) (w : World (Client W))
      → w.env.closed ≡ true
      → IsFailed (softhsm_sign_hash S has_dispatcher label hash w).0
  unfolding softhsm_sign_hash
  sign_refused label hash w h =
      search_refuses S _ label _ _ w h (λ handle w' h'. closed_refuses S _ w' h')

  verify_refused :
      (label : String) (hash signature : Bytes) (w : World (Client W))
      → w.env.closed ≡ true
      → IsFailed (softhsm_verify_signature S has_dispatcher label hash signature w).0
  unfolding softhsm_verify_signature
  verify_refused label hash signature w h =
      search_refuses S _ label _ _ w h (λ handle w' h'. closed_refuses S _ w' h')

  encrypt_refused :
      (label : String) (plaintext : Bytes) (w : World (Client W))
      → w.env.closed ≡ true
      → IsFailed (softhsm_encrypt S label plaintext w).0
  unfolding softhsm_encrypt
  encrypt_refused label plaintext w h =
      search_refuses S _ label _ _ w h (λ handle w' h'. closed_refuses S _ w' h')

  decrypt_refused :
      (label : String) (ciphertext : Bytes) (w : World (Client W))
      → w.env.closed ≡ true
      → IsFailed (softhsm_decrypt S label ciphertext w).0
  unfolding softhsm_decrypt
  decrypt_refused label ciphertext w h =
      search_refuses S _ label _ _ w h (λ handle w' h'. closed_refuses S _ w' h')

  -- Both searches of `DeleteKey`.
  delete_refused :
      (label : String) (w : World (Client W))
      → w.env.closed ≡ true
      → IsFailed (softhsm_delete_key S has_dispatcher label w).0
  unfolding softhsm_delete_key
  delete_refused label w h =
      second_refuses S (find_by_label S private_key label w) label _ _
        (searched_ends S private_key label w) (closed_searched S private_key label w h)
        (λ handle w' h'. closed_refuses S _ w' h')

  generate_refused :
      (algorithm label : String) (size : ℤ) (w : World (Client W))
      → w.env.closed ≡ true
      → IsFailed (softhsm_generate_key_pair S E has_dispatcher algorithm size label w).0
  unfolding softhsm_generate_key_pair not_closed ◌>>=◌
  generate_refused algorithm label size w h =
      if_refused S (str_eq label "") _ _ (_, refl) (closed_refuses S _ w h)

  health_refused :
      (w : World (Client W))
      → w.env.closed ≡ true
      → IsFailed (softhsm_health_check S has_dispatcher w).0
  unfolding softhsm_health_check
  health_refused w h = closed_refuses S _ w h

  -- After `Close`, a further `Close` changes nothing, and `SignHash`, `VerifySignature`, `Encrypt`,
  -- `Decrypt`, `DeleteKey`, `GenerateKeyPair` and `HealthCheck` fail.
  pub close-IsFailed :
      (w : World (Client W))
      → let c = softhsm_close S w in
        (softhsm_close S c ≡ c)
        × ((label : String) (hash : Bytes)
            → IsFailed (softhsm_sign_hash S has_dispatcher label hash c).0)
        × ((label : String) (hash signature : Bytes)
            → IsFailed (softhsm_verify_signature S has_dispatcher label hash signature c).0)
        × ((label : String) (text : Bytes) → IsFailed (softhsm_encrypt S label text c).0)
        × ((label : String) (text : Bytes) → IsFailed (softhsm_decrypt S label text c).0)
        × ((label : String) → IsFailed (softhsm_delete_key S has_dispatcher label c).0)
        × ((algorithm label : String) (size : ℤ)
            → IsFailed (softhsm_generate_key_pair S E has_dispatcher algorithm size label c).0)
        × IsFailed (softhsm_health_check S has_dispatcher c).0
  close-IsFailed w =
      let c = softhsm_close S w in
      let h = close_closes w in
      (
        close_again c h,
        λ label hash. sign_refused label hash c h,
        λ label hash signature. verify_refused label hash signature c h,
        λ label text. encrypt_refused label text c h,
        λ label text. decrypt_refused label text c h,
        λ label. delete_refused label c h,
        λ algorithm label size. generate_refused algorithm label size c h,
        health_refused c h,
      )
