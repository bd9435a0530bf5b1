-- ===== src/Hsm/Context/Runs.antt =====
-- The theorems on the shared context at a concrete library, whose state counts the loads.
use hsm_service.Prelude.{ℕ, suc, ◌≤◌, ◌≡◌, refl, String, none, some, [], ◌∷◌}
use hsm_service.Exec.{returned}
use hsm_service.Hsm.Context.{Library, at_start, get_or_init, finalize_context}
use hsm_service.Hsm.Context.Once.{
  initializations, get, finish, run, initialize_once, get_or_init_finalized,
}

abbrev softhsm : Library ℕ ℕ
softhsm = record {
  new = λ path w. (some w, suc w);
  initialize = λ h w. (none, w);
  finalize = λ h w. (none, w);
  destroy = λ h w. w;
  slot_list = λ h w. (returned (7 ∷ []), w);
}

abbrev lib : String
lib = "/usr/lib/softhsm/libsofthsm2.so"

abbrev other_lib : String
other_lib = "/opt/other.so"

initialize_once_example :
    initializations (run softhsm (get lib ∷ finish ∷ get lib ∷ []) (at_start softhsm 5)).trace ≤ 1
initialize_once_example = initialize_once softhsm (get lib ∷ finish ∷ get lib ∷ []) 5

get_or_init_finalized_example :
    (get_or_init softhsm lib (
      run softhsm
        (get other_lib ∷ [])
        (finalize_context softhsm (run softhsm (get lib ∷ []) (at_start softhsm 5))).1)).0
    ≡ (none, none)
unfolding get_or_init at_start finalize_context
get_or_init_finalized_example =
    get_or_init_finalized softhsm (get lib ∷ []) (get other_lib ∷ []) 5 lib 5 refl refl
