-- ===== src/Hsm/Context.antt =====
-- internal/infrastructure/hsm/pkcs11_context.go: the process-wide PKCS#11 context. The library is
-- a parameter. The global variables are one record, and its trace lists the calls of `New`,
-- `Initialize` and `Finalize` on the shared context, newest first. The mutex makes each call one
-- step; `done` is the state of the `sync.Once`.
pub mod Once
mod Runs
use Prim.Native.String.{◌++◌ as cat}
use hsm_service.Prelude.{
  ℕ, zero, suc, String, Bool, true, false, not, Option, none, some, List, [], ◌∷◌, str_eq,
  if◌then◌else◌,
}
use hsm_service.Domain.Errors.{GoError, plain, wrapped}
use hsm_service.Exec.{Reply, ok, err, Outcome, returned, failed, panicked}

-- The part of `pkcs11` that this file calls: `new` gives nil when the library cannot be loaded.
-- `slot_list` is called on a context that may be nil.
pub record Library (W H : Type 0) : Type 0 where
  pub new : String → W → Option H × W
  pub initialize : H → W → Option GoError × W
  pub finalize : H → W → Option GoError × W
  pub destroy : H → W → W
  pub slot_list : Option H → W → Outcome (List ℕ) × W

pub data Call : Type 0 where
  loaded : String → Call
  initialized finalized : Option GoError → Call

pub record Context (W H : Type 0) : Type 0 where
  pub shared : Option H
  pub done : Bool
  pub init_err : Option GoError
  pub library_path : String
  pub env : W
  pub trace : List Call

module _ {W H : Type 0} (C : Library W H) where
  -- The values of the variables when the process starts.
  unfoldable pub at_start : W → Context W H
  at_start e = record {
    shared = none;
    done = false;
    init_err = none;
    library_path = "";
    env = e;
    trace = [];
  }

  unfoldable pub is_initialized : Context W H → Bool
  is_initialized c = elim c.shared [ none ↦ false | some h ↦ true ]

  unfoldable pub get_library_path : Context W H → String
  get_library_path c = c.library_path

  pub mismatch : String → String → GoError
  mismatch current requested = plain (
      cat "PKCS#11 already initialized with different library: "
        (cat current (cat " (requested: " (cat requested ")"))))

  -- What `Initialize` leaves behind.
  started : H → Option GoError × W → Context W H → Context W H
  started h (none, e) c = record c {
    shared = some h;
    init_err = none;
    env = e;
    trace = initialized none ∷ c.trace;
  }
  started h (some x, e) c = record c {
    shared = none;
    library_path = "";
    init_err = some (wrapped "failed to initialize PKCS#11" x);
    env = e;
    trace = initialized (some x) ∷ c.trace;
  }

  created : String → Option H × W → Context W H → Context W H
  unfolding started
  created path (none, e) c = record c {
    shared = none;
    init_err = some (plain (cat "failed to create PKCS#11 context from library: " path));
    env = e;
    trace = loaded path ∷ c.trace;
  }
  created path (some h, e) c =
      started h (C.initialize h e) (record c { env = e; trace = loaded path ∷ c.trace })

  -- The function that the `sync.Once` runs.
  unfoldable pub init_once : String → Context W H → Context W H
  unfolding created
  init_once path c =
      if c.done
      then c
      else created path (C.new path c.env) (record c { done = true; library_path = path })

  other_library : String → Context W H → Bool
  other_library path c = elim c.shared [ none ↦ false | some h ↦ not (str_eq c.library_path path) ]

  -- `GetOrInitPKCS11Context`: the pointer and the error that it returns.
  unfoldable pub get_or_init : String → Context W H → (Option H × Option GoError) × Context W H
  unfolding other_library mismatch init_once
  get_or_init path c =
      if other_library path c
      then ((none, some (mismatch c.library_path path)), c)
      else let c' = init_once path c in ((c'.shared, c'.init_err), c')

  ended : H → Option GoError × W → Context W H → Option GoError × Context W H
  ended h (some x, e) c = (
    some (wrapped "failed to finalize PKCS#11" x),
    record c { env = e; trace = finalized (some x) ∷ c.trace },
  )
  ended h (none, e) c = (
    none,
    record c { shared = none; library_path = ""; env = e; trace = finalized none ∷ c.trace },
  )

  finalize_shared : Option H → Context W H → Option GoError × Context W H
  unfolding ended
  finalize_shared none c = (none, c)
  finalize_shared (some h) c = ended h (C.finalize h c.env) c

  -- `FinalizePKCS11Context`
  unfoldable pub finalize_context : Context W H → Option GoError × Context W H
  unfolding finalize_shared
  finalize_context c = finalize_shared c.shared c

  slots_of : (Option H × Option GoError) × Context W H → Outcome (List ℕ) × Context W H
  slots_of ((h, some x), c) = (failed x, c)
  slots_of ((h, none), c) = let (o, e) = C.slot_list h c.env in (listed o, record c { env = e })
    where
      listed : Outcome (List ℕ) → Outcome (List ℕ)
      listed (returned slots) = returned slots
      listed (failed x) = failed (wrapped "failed to get slot list" x)
      listed panicked = panicked

  -- `GetFreshSlotList`
  unfoldable pub get_fresh_slot_list : String → Context W H → Outcome (List ℕ) × Context W H
  unfolding slots_of
  get_fresh_slot_list path c = slots_of (get_or_init path c)

  -- `GetFreshPKCS11Context`: a context of its own, destroyed when it cannot be initialized.
  ready : H → Option GoError × W → Reply H × W
  ready h (none, e) = (ok h, e)
  ready h (some x, e) = (err (wrapped "failed to initialize new PKCS#11 context" x), C.destroy h e)

  fresh : String → Option H × W → Reply H × W
  unfolding ready
  fresh path (none, e) =
      (err (plain (cat "failed to create new PKCS#11 context from library: " path)), e)
  fresh path (some h, e) = ready h (C.initialize h e)

  unfoldable pub get_fresh_context : String → W → Reply H × W
  unfolding fresh
  get_fresh_context path e = fresh path (C.new path e)

  -- `ClosePKCS11Context`
  closed : H → Option GoError × W → Option GoError × W
  closed h (some x, e) = (some (wrapped "failed to finalize PKCS#11 context" x), e)
  closed h (none, e) = (none, C.destroy h e)

  unfoldable pub close_context : Option H → W → Option GoError × W
  unfolding closed
  close_context none e = (none, e)
  close_context (some h) e = closed h (C.finalize h e)
