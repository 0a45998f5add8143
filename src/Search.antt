-- ===== src/Search.antt =====
-- The C part of the library: the binary search of src/algorithms/binary_search, the settings of
-- src/core/dispatch.c, and the answers of the GPU backends, which are stubs. An array is the list of
-- its elements. A search keeps its `right` as `hi`, which is right + 1, so that -1 needs no sign;
-- a returned -1 is `none`. A read outside the array, and a loop that has not ended when its fuel has,
-- give the error `undefined`.
use speed_up.Common.{
  ℕ, zero, suc, ◌+◌, ◌-◌, ◌/◌, Bool, true, false, ◌&&◌, List, length, get_elem?, Option, none, some,
  ltb, if◌then◌else◌, Result, ok, err, undefined, ◌>>=◌,
}
use speed_up.Common.Int.{ℤ, pos, negsuc, eqz, ltz}
use speed_up.Index.{read}
pub mod Simd
pub mod Finds
pub mod Narrowing
pub mod Agrees
pub mod Verify

-- the number of elements that a `size` of int64_t admits
abbrev pub count_of : ℤ → ℕ
count_of (pos n) = n
count_of (negsuc n) = 0

-- the loop `while (left <= right)`
unfoldable pub search_loop : List ℤ → (key : ℤ) (fuel lo hi : ℕ) → Result (Option ℕ)
search_loop array key zero lo hi = err undefined
search_loop array key (suc fuel) lo hi =
    let mid = lo + (hi - 1 - lo) / 2 in
    if ltb lo hi
    then (read array mid >>= λ v.
        let rest =
          search_loop array key fuel (if ltz v key then mid + 1 else lo)
            (if ltz v key then hi else mid) in
        if eqz v key then ok (some mid) else rest)
    else ok none

-- speedup_binary_search_i64_ref
unfoldable pub binary_search_i64_ref : List ℤ → (key size : ℤ) → Result (Option ℕ)
unfolding search_loop
binary_search_i64_ref array key size = search_loop array key (suc (count_of size)) 0 (count_of size)

-- speedup_backend_pref_t
pub data BackendPref : Type 0 where
  auto force_cpu force_cuda force_opencl : BackendPref

-- speedup_cache_hint_t
pub record CacheHint : Type 0 where
  pub l1_bytes : ℕ
  pub l2_bytes : ℕ
  pub l3_bytes : ℕ
  pub cacheline_bytes : ℕ

-- the variables of dispatch.c
pub record Settings : Type 0 where
  pub threads : ℕ
  pub cache : CacheHint
  pub pref : BackendPref

unfoldable pub initial_settings : Settings
initial_settings = record {
  threads = 0;
  cache = record { l1_bytes = 32768; l2_bytes = 262144; l3_bytes = 8388608; cacheline_bytes = 64 };
  pref = auto;
}

unfoldable pub set_threads_hint : ℕ → Settings → Settings
set_threads_hint n s = record s { threads = n }

unfoldable pub set_cache_hint : CacheHint → Settings → Settings
set_cache_hint hint s = record s { cache = hint }

unfoldable pub set_backend_preference : BackendPref → Settings → Settings
set_backend_preference pref s = record s { pref = pref }

unfoldable pub get_threads_hint : Settings → ℕ
get_threads_hint s = s.threads

unfoldable pub get_cache_hint : Settings → CacheHint
get_cache_hint s = s.cache

unfoldable pub get_backend_preference : Settings → BackendPref
get_backend_preference s = s.pref

-- the stubs: no backend is available, and a stub's search fails with -1
unfoldable pub cuda_available : Bool
cuda_available = false

unfoldable pub opencl_available : Bool
opencl_available = false

-- `speedup_…_binary_search_stub() == 0`
unfoldable pub cuda_search_done : Bool
cuda_search_done = false

unfoldable pub opencl_search_done : Bool
opencl_search_done = false

-- speedup_binary_search_i64
unfoldable pub binary_search_i64 : Settings → List ℤ → (key size : ℤ) → Result (Option ℕ)
unfolding get_backend_preference cuda_available opencl_available cuda_search_done opencl_search_done
    binary_search_i64_ref
binary_search_i64 s array key size =
    let ref = binary_search_i64_ref array key size in
    let cuda = cuda_available && cuda_search_done in
    let opencl = opencl_available && opencl_search_done in
    elim (get_backend_preference s) [
      | force_cuda ↦ if cuda then ok none else ref
      | force_opencl ↦ if opencl then ok none else ref
      | force_cpu ↦ ref
      | auto ↦ if cuda then ok none else if opencl then ok none else ref
    ]
