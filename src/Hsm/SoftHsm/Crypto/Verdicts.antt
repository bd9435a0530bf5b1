-- ===== src/Hsm/SoftHsm/Crypto/Verdicts.antt =====
-- client_crypto.go: what the verdicts and the signatures of the client rest on.
use hsm_service.Prelude.{
  ◌⊎◌, ◌≡◌, refl, ap, inl, inr, ℕ, String, Bool, true, false, Option, none, some, List, [], ◌∷◌,
  if◌then◌else◌, arith, Bool-cases,
}
use hsm_service.Domain.Errors.{GoError, wrapped}
use hsm_service.Domain.Entities.{Bytes}
use hsm_service.Exec.{
  Reply, ok, err, answer, World, Outcome, returned, failed, panicked, Exec, pure, fail, deferring,
  on_error, handle, continue, ◌>>=◌,
}
use hsm_service.Hsm.SoftHsm.{
  Session, Client, class_name, about_label, closed_error, sha256_rsa_pkcs, ObjectClass, class_is,
  label_is, public_key, a_class, session_call, effect, not_closed, audited_method, first_of,
  found_object, afterwards, find_by_label, effect_outcome,
}
use hsm_service.Hsm.SoftHsm.Closed.{IsFailed, searched_ends, rethrown_ends}
use hsm_service.Hsm.SoftHsm.Crypto.{
  no_such_key, verify_found, verified_as, softhsm_verify_signature,
}

module _ {W : Type 0} (S : Session W) where
  -- The handle is the first that a search for this class and label gave.
  pub IsFound : ObjectClass → String → ℕ → Type 0
  IsFound class label handle =
      (b b' : W) × (rest : List ℕ) × ((S.find_objects_init (class_is class ∷ label_is label ∷ []) b)
        ≡ (none, b'))
      × ((S.find_objects 1 b').0 ≡ ok (handle ∷ rest))

  -- How a verification ends.
  pub data Verdict (label : String) (hash signature : Bytes) : Outcome Bool → Type 0 where
    not_verified : (e : GoError) → Verdict label hash signature (failed e)
    valid :
        (key : ℕ) (b b' : W)
        → IsFound public_key label key
        → S.verify_init sha256_rsa_pkcs key b ≡ (none, b')
        → (S.verify hash signature b').0 ≡ none
        → Verdict label hash signature (returned true)
    invalid :
        (key : ℕ) (b b' : W) (e : GoError)
        → IsFound public_key label key
        → S.verify_init sha256_rsa_pkcs key b ≡ (none, b')
        → (S.verify hash signature b').0 ≡ some e
        → S.is_signature_invalid e ≡ true
        → Verdict label hash signature (returned false)

  begun :
      (class : ObjectClass) (label : String) (handle : ℕ) (o : Option GoError)
      (w : World (Client W))
      → (continue
          (on_error (wrapped "failed to initialize object search") (effect_outcome o))
          (λ u. deferring (found_object S class label) (λ p. afterwards S.find_objects_final))
          w).0
        ≡ returned handle
      → (o ≡ none) × ((found_object S class label w).0 ≡ returned handle)
  unfolding effect_outcome deferring
  begun class label handle none w h = (refl, h)
  begun class label handle (some e) w h = absurd (ground (arith, h))

  first_found :
      (class : ObjectClass) (label : String) (handle : ℕ) (r : Reply (List ℕ))
      (w : World (Client W))
      → (continue {B = ℕ}
          (on_error (wrapped "failed to find objects") (answer r))
          (λ objects w'. (answer (first_of (class_name class) label objects), w'))
          w).0
        ≡ returned handle
      → (rest : List ℕ) × (r ≡ ok (handle ∷ rest))
  unfolding first_of
  first_found class label handle (err e) w h = absurd (ground (arith, h))
  first_found class label handle (ok []) w h = absurd (ground (arith, h))
  first_found class label handle (ok (x ∷ rest)) w h = (rest, ground (arith, h))

  find_by_label-IsFound :
      (class : ObjectClass) (label : String) (w : World (Client W)) (handle : ℕ)
      → (find_by_label S class label w).0 ≡ returned handle
      → IsFound class label handle
  unfolding find_by_label found_object session_call effect IsFound ◌>>=◌
  find_by_label-IsFound class label w handle h =
      let (r, b') = S.find_objects_init (class_is class ∷ label_is label ∷ []) w.env.behind in
      let w' : World (Client W) = record { env = record w.env { behind = b' }; trace = w.trace } in
      let (hr, hf) = begun class label handle r w' h in
      let (rest, hs) = first_found class label handle (S.find_objects 1 b').0 _ hf in
      (w.env.behind, b', rest, ap (λ o. (o, b')) hr, hs)

  through :
      {A : Type 0} (label : String) (hash signature : Bytes) (o : Outcome A)
      (f : A → Exec (Client W) Bool) (w : World (Client W))
      → ((a : A) × (o ≡ returned a)) ⊎ IsFailed o
      → ((a : A) → o ≡ returned a → Verdict label hash signature (f a w).0)
      → Verdict label hash signature (continue o f w).0
  through label hash signature (returned a) f w ends k = k a refl
  through label hash signature (failed e) f w ends k = not_verified e
  through label hash signature panicked f w (inl (a, h)) k = absurd (ground (arith, h))
  through label hash signature panicked f w (inr (e, h)) k = absurd (ground (arith, h))

rethrown_returned :
    {A : Type 0} (g : GoError → GoError) (o : Outcome A) (a : A)
    → on_error g o ≡ returned a
    → o ≡ returned a
rethrown_returned g (returned b) a h = h
rethrown_returned g (failed e) a h = absurd (ground (arith, h))
rethrown_returned g panicked a h = h

unless_ends :
    (o : Option GoError)
    → ((u : Unit {0}) × (effect_outcome o ≡ returned u)) ⊎ IsFailed (effect_outcome o)
unfolding effect_outcome
unless_ends none = inl (tt, refl)
unless_ends (some e) = inr (e, refl)

unless_none :
    (g : GoError → GoError) (o : Option GoError) (u : Unit {0})
    → on_error g (effect_outcome o) ≡ returned u
    → o ≡ none
unfolding effect_outcome
unless_none g none u h = refl
unless_none g (some e) u h = absurd (ground (arith, h))

answer_ends : {A : Type 0} (r : Reply A) → ((a : A) × (answer r ≡ returned a)) ⊎ IsFailed (answer r)
answer_ends (ok a) = inl (a, refl)
answer_ends (err e) = inr (e, refl)

closed_ends :
    {W : Type 0} (w : World (Client W))
    → ((u : Unit {0}) × ((not_closed w).0 ≡ returned u)) ⊎ IsFailed (not_closed w).0
unfolding not_closed
closed_ends w = elim (Bool-cases w.env.closed) [
  | inl h ↦ inr (closed_error, ground (arith, h))
  | inr h ↦ inl (tt, ground (arith, h))
]

module _ {W : Type 0} (S : Session W) (label : String) (hash signature : Bytes) where
  refused-Verdict :
      (key : ℕ) (b b' : W) (e : GoError) (w : World (Client W)) (c : Bool)
      → IsFound S public_key label key
      → S.verify_init sha256_rsa_pkcs key b ≡ (none, b')
      → (S.verify hash signature b').0 ≡ some e
      → S.is_signature_invalid e ≡ c
      → Verdict S label hash signature
          ((if c then pure false else fail (wrapped "failed to verify signature" e)) w).0
  unfolding fail pure
  refused-Verdict key b b' e w true f i h h' = invalid key b b' e f i h h'
  refused-Verdict key b b' e w false f i h h' = not_verified _

  -- What `verified_as` does after the call.
  concluded : Outcome Bool × World (Client W) → Outcome Bool × World (Client W)
  concluded q =
      handle q.0
        (λ e.
          if S.is_signature_invalid e
          then pure false
          else fail (wrapped "failed to verify signature" e))
        q.1

  answered-Verdict :
      (key : ℕ) (b b' : W) (o : Option GoError) (w : World (Client W))
      → IsFound S public_key label key
      → S.verify_init sha256_rsa_pkcs key b ≡ (none, b')
      → (S.verify hash signature b').0 ≡ o
      → Verdict S label hash signature
          (concluded (continue (effect_outcome o) (λ u. pure true) w)).0
  unfolding effect_outcome concluded pure
  answered-Verdict key b b' none w f i h = valid key b b' f i h
  answered-Verdict key b b' (some e) w f i h =
      refused-Verdict key b b' e w (S.is_signature_invalid e) f i h refl

  abbrev not_begun : GoError → GoError
  not_begun = wrapped "failed to initialize verification operation"

  -- `VerifySignature` on every branch: it fails, or its verdict is true and the token, on a key that a
  -- search for public keys of this label gave, accepted the signature of the hash, or its verdict is
  -- false and the token refused it as invalid.
  pub verify_signature-Verdict :
      (has_dispatcher : Bool) (w : World (Client W))
      → Verdict S label hash signature
          (softhsm_verify_signature S has_dispatcher label hash signature w).0
  unfolding softhsm_verify_signature audited_method verify_found verified_as concluded effect
      session_call ◌>>=◌
  verify_signature-Verdict has_dispatcher w =
      let found_key = find_by_label S public_key label w in
      through S label hash signature (on_error (no_such_key label) found_key.0) _ found_key.1
        (rethrown_ends found_key.0 (no_such_key label) (searched_ends S public_key label w))
        λ key hk.
          through S label hash signature (not_closed found_key.1).0 _ (not_closed found_key.1).1
            (closed_ends found_key.1)
            λ u hu.
              let w1 = (not_closed found_key.1).1 in
              let get = S.get_attribute_value key (a_class ∷ []) w1.env.behind in
              let w2 : World (Client W) = record {
                env = record w1.env { behind = get.1 };
                trace = w1.trace;
              } in
              let init = S.verify_init sha256_rsa_pkcs key get.1 in
              let w3 : World (Client W) = record {
                env = record w1.env { behind = init.1 };
                trace = w1.trace;
              } in
              let answered = S.verify hash signature init.1 in
              let w4 : World (Client W) = record {
                env = record w1.env { behind = answered.1 };
                trace = w1.trace;
              } in
              let not_accessible = about_label "public key with label '" label "' not accessible" in
              through S label hash signature (on_error not_accessible (answer get.0)) _ w2
                (rethrown_ends (answer get.0) not_accessible (answer_ends get.0))
                λ attrs ha.
                  through S label hash signature (on_error not_begun (effect_outcome init.0)) _ w3
                    (rethrown_ends (effect_outcome init.0) not_begun (unless_ends init.0))
                    λ v hv.
                      answered-Verdict key get.1 init.1 answered.0 w4
                        (find_by_label-IsFound S public_key label w key
                          (rethrown_returned (no_such_key label) found_key.0 key hk))
                        (ap (λ o. (o, init.1)) (unless_none not_begun init.0 v hv)) refl
