-- ===== src/Hsm/Context/Once.antt =====
-- pkcs11_context.go: sequences of calls on the shared context.
use hsm_service.Prelude.{
  ℕ, suc, ◌≤◌, ◌≡◌, refl, ap, sym, subst, String, true, false, Option, none, some, List, [], ◌∷◌,
  str_eq, eq_iff, if◌then◌else◌, arith, Bool-cases, Option-cases, inl, inr,
}
use hsm_service.Domain.Errors.{GoError}
use hsm_service.Hsm.Context.{
  Library, Call, loaded, initialized, finalized, Context, at_start, init_once, created, started,
  other_library, mismatch, get_or_init, finalize_context, finalize_shared, ended,
}

-- How often `Initialize` was called on the shared context.
unfoldable pub initializations : List Call → ℕ
initializations [] = 0
initializations (loaded path ∷ rest) = initializations rest
initializations (initialized r ∷ rest) = suc (initializations rest)
initializations (finalized r ∷ rest) = initializations rest

-- One call: `GetOrInitPKCS11Context` on a path, or `FinalizePKCS11Context`.
pub data Use : Type 0 where
  get : String → Use
  finish : Use

module _ {W H : Type 0} (C : Library W H) where
  abbrev pub apply : Use → Context W H → Context W H
  apply (get path) c = (get_or_init C path c).1
  apply finish c = (finalize_context C c).1

  abbrev pub run : List Use → Context W H → Context W H
  run [] c = c
  run (u ∷ rest) c = run rest (apply u c)

  -- A context that the `sync.Once` has not touched was never initialized, a shared context is
  -- initialized with no error, and no context is initialized twice.
  record IsOnce (c : Context W H) : Type 0 where
    at_most : initializations c.trace ≤ 1
    untouched : c.done ≡ false → initializations c.trace ≡ 0
    shared_done : (h : H) → c.shared ≡ some h → (c.done ≡ true) × (c.init_err ≡ none)

  started-IsOnce :
      (h : H) (r : Option GoError × W) (c : Context W H)
      → initializations c.trace ≡ 0
      → c.done ≡ true
      → IsOnce (started C h r c)
  unfolding started initializations
  started-IsOnce h (none, e) c n d = record {
    at_most = omega (arith, n);
    untouched = λ k. absurd (ground (arith, d, k));
    shared_done = λ h' k. (d, refl);
  }
  started-IsOnce h (some x, e) c n d = record {
    at_most = omega (arith, n);
    untouched = λ k. absurd (ground (arith, d, k));
    shared_done = λ h' k. absurd (ground (arith, k));
  }

  created-IsOnce :
      (path : String) (r : Option H × W) (c : Context W H)
      → initializations c.trace ≡ 0
      → c.done ≡ true
      → IsOnce (created C path r c)
  unfolding created initializations
  created-IsOnce path (none, e) c n d = record {
    at_most = omega (arith, n);
    untouched = λ k. absurd (ground (arith, d, k));
    shared_done = λ h' k. absurd (ground (arith, k));
  }
  created-IsOnce path (some h, e) c n d =
      started-IsOnce h (C.initialize h e) (record c { env = e; trace = loaded path ∷ c.trace }) n d

  init_once-IsOnce : (path : String) (c : Context W H) → IsOnce c → IsOnce (init_once C path c)
  unfolding init_once
  init_once-IsOnce path c i = elim (Bool-cases c.done) [
    | inl d ↦ subst IsOnce (ground (arith, d)) i
    | inr d ↦ subst IsOnce (ground (arith, d)) (
        created-IsOnce path (C.new path c.env) (record c { done = true; library_path = path })
          (i.untouched d) refl)
  ]

  get_or_init-IsOnce :
      (path : String) (c : Context W H) → IsOnce c → IsOnce (get_or_init C path c).1
  unfolding get_or_init
  get_or_init-IsOnce path c i = elim (Bool-cases (other_library C path c)) [
    | inl b ↦ subst IsOnce (ground (arith, b)) i
    | inr b ↦ subst IsOnce (ground (arith, b)) (init_once-IsOnce path c i)
  ]

  ended-IsOnce :
      (h : H) (r : Option GoError × W) (c : Context W H)
      → c.shared ≡ some h
      → IsOnce c
      → IsOnce (ended C h r c).1
  unfolding ended initializations
  ended-IsOnce h (some x, e) c k i = record {
    at_most = i.at_most;
    untouched = i.untouched;
    shared_done = i.shared_done;
  }
  ended-IsOnce h (none, e) c k i = record {
    at_most = i.at_most;
    untouched = i.untouched;
    shared_done = λ h' n. absurd (ground (arith, n));
  }

  finalize-IsOnce : (c : Context W H) → IsOnce c → IsOnce (finalize_context C c).1
  unfolding finalize_context finalize_shared
  finalize-IsOnce c i = elim (Option-cases c.shared) [
    | inl k ↦ subst IsOnce (ground (arith, k)) i
    | inr (h, k) ↦ subst IsOnce (ground (arith, k)) (ended-IsOnce h (C.finalize h c.env) c k i)
  ]

  run-IsOnce : (us : List Use) (c : Context W H) → IsOnce c → IsOnce (run us c)
  run-IsOnce [] c i = i
  run-IsOnce (get path ∷ rest) c i =
      run-IsOnce rest (get_or_init C path c).1 (get_or_init-IsOnce path c i)
  run-IsOnce (finish ∷ rest) c i = run-IsOnce rest (finalize_context C c).1 (finalize-IsOnce c i)

  at_start-IsOnce : (us : List Use) (e : W) → IsOnce (run us (at_start C e))
  unfolding at_start initializations
  at_start-IsOnce us e = run-IsOnce us (at_start C e) record {
    at_most = omega arith;
    untouched = λ k. refl;
    shared_done = λ h k. absurd (ground (arith, k));
  }

  -- Whatever calls of `GetOrInitPKCS11Context` and `FinalizePKCS11Context` follow each other from
  -- the start of the process, the library is initialized at most once.
  pub initialize_once : (us : List Use) (e : W) → initializations (run us (at_start C e)).trace ≤ 1
  initialize_once us e = (at_start-IsOnce us e).at_most

  started_path :
      (path : String) (h h' : H) (r : Option GoError × W) (c : Context W H)
      → (started C h r c).shared ≡ some h'
      → c.library_path ≡ path
      → (started C h r c).library_path ≡ path
  unfolding started
  started_path path h h' (none, e) c k l = l
  started_path path h h' (some x, e) c k l = absurd (ground (arith, k))

  created_path :
      (path : String) (h : H) (r : Option H × W) (c : Context W H)
      → (created C path r c).shared ≡ some h
      → c.library_path ≡ path
      → (created C path r c).library_path ≡ path
  unfolding created
  created_path path h (none, e) c k l = absurd (ground (arith, k))
  created_path path h (some h', e) c k l =
      started_path path h' h (C.initialize h' e)
        (record c { env = e; trace = loaded path ∷ c.trace }) k l

  -- A call that gave a context leaves it shared, under the path of the call.
  given :
      (path : String) (c : Context W H) (h : H)
      → (get_or_init C path c).0 ≡ (some h, none)
      → let c' = (get_or_init C path c).1 in (c'.shared ≡ some h) × (c'.library_path ≡ path)
  unfolding get_or_init init_once other_library
  given path c h k = elim (Bool-cases (other_library C path c)) [
    | inl b ↦ absurd (ground (arith, b, k))
    | inr b ↦ elim (Bool-cases c.done) [
      | inl d ↦ (ground (arith, b, d, k), ground (arith, b, d, k, eq_iff c.library_path path))
      | inr d ↦
          let made =
            created_path path h (C.new path c.env)
              (record c { done = true; library_path = path }) in
          (ground (arith, b, d, k), ground (arith, b, d, k, made))
    ]
  ]

  again :
      (path path' : String) (h : H) (c : Context W H)
      → c.shared ≡ some h
      → c.library_path ≡ path
      → c.done ≡ true
      → c.init_err ≡ none
      → get_or_init C path' c ≡ (
          if str_eq path path'
          then ((some h, none), c)
          else ((none, some (mismatch C path path')), c))
  unfolding get_or_init init_once other_library
  again path path' h c s l d n = ground (arith, s, l, d, n)

  -- Once a call gave a context and no error, every further call gives the same context for that
  -- path, and for another path an error and no context, and changes nothing.
  pub get_or_init_again :
      (us : List Use) (e : W) (path path' : String) (h : H)
      → (get_or_init C path (run us (at_start C e))).0 ≡ (some h, none)
      → let c = (get_or_init C path (run us (at_start C e))).1 in
        get_or_init C path' c ≡ (
          if str_eq path path'
          then ((some h, none), c)
          else ((none, some (mismatch C path path')), c))
  unfolding get_or_init init_once other_library
  get_or_init_again us e path path' h k =
      let c = (get_or_init C path (run us (at_start C e))).1 in
      let (s, l) = given path (run us (at_start C e)) h k in
      let i = get_or_init-IsOnce path (run us (at_start C e)) (at_start-IsOnce us e) in
      let (d, n) = i.shared_done h s in again path path' h c s l d n

  -- A context that was used up: no call brings it back.
  record IsSpent (c : Context W H) : Type 0 where
    gone : c.shared ≡ none
    was_done : c.done ≡ true
    no_error : c.init_err ≡ none

  spent_get :
      (path : String) (c : Context W H) → IsSpent c → get_or_init C path c ≡ ((none, none), c)
  unfolding get_or_init init_once other_library
  spent_get path c s = ground (arith, s.gone, s.was_done, s.no_error)

  spent_finalize : (c : Context W H) → IsSpent c → finalize_context C c ≡ (none, c)
  unfolding finalize_context finalize_shared
  spent_finalize c s = ground (arith, s.gone)

  run-IsSpent : (us : List Use) (c : Context W H) → IsSpent c → IsSpent (run us c)
  run-IsSpent [] c s = s
  run-IsSpent (get path ∷ rest) c s =
      run-IsSpent rest (get_or_init C path c).1
        (subst IsSpent (sym (ap (λ r. r.1) (spent_get path c s))) s)
  run-IsSpent (finish ∷ rest) c s =
      run-IsSpent rest (finalize_context C c).1
        (subst IsSpent (sym (ap (λ r. r.1) (spent_finalize c s))) s)

  ended-IsSpent :
      (h : H) (r : Option GoError × W) (c : Context W H)
      → c.done ≡ true
      → c.init_err ≡ none
      → (ended C h r c).0 ≡ none
      → IsSpent (ended C h r c).1
  unfolding ended
  ended-IsSpent h (some x, e) c d n k = absurd (ground (arith, k))
  ended-IsSpent h (none, e) c d n k = record { gone = refl; was_done = d; no_error = n }

  -- After a successful `FinalizePKCS11Context` on a live context, every later
  -- `GetOrInitPKCS11Context`, for any path, gives a nil context and a nil error.
  pub get_or_init_finalized :
      (us later : List Use) (e : W) (path : String) (h : H)
      → (run us (at_start C e)).shared ≡ some h
      → (finalize_context C (run us (at_start C e))).0 ≡ none
      → (get_or_init C path (run later (finalize_context C (run us (at_start C e))).1)).0
        ≡ (none, none)
  unfolding finalize_context finalize_shared
  get_or_init_finalized us later e path h k f =
      let c = run us (at_start C e) in
      let (d, n) = (at_start-IsOnce us e).shared_done h k in
      let spent : IsSpent (finalize_context C c).1 =
        rw k (ended-IsSpent h (C.finalize h c.env) c d n (rw k at f)) in
      ap (λ r. r.0)
        (spent_get path (run later (finalize_context C c).1)
          (run-IsSpent later (finalize_context C c).1 spent))
