-- ===== src/Layout.antt =====
-- include/speedup/bucketization/bucket_layout.hpp: class BucketLayout, the sampler, and the choice of
-- split positions. Where a comparator that is not consistent makes `estimate` read its sample past the
-- end, the model's result is `undefined`. The other indexes are in range in the code, and `get_or` only
-- needs a default to be total.
use Prim.Native.Nat.{Ordering, bit_xor}
use speed_up.Common.{
  ℕ, zero, suc, ◌+◌, ◌-◌, ◌*◌, ◌/◌, ◌%◌, ◌^◌, min, Bool, true, false, not, ◌&&◌, ◌||◌, List, [],
  ◌∷◌, ◌++◌, map, length, get_or, get_elem?, Option, none, some, ltb, leb, ◌==◌, if◌then◌else◌,
  Result, ok, read, ◌>>=◌,
}
use speed_up.Common.Doubles.{Doubles}
use speed_up.Plan.{BucketPlan, target_sizes, sub64}
use speed_up.SortKey.{SortKey, has_key, key_of, tie_break, order, is_negative}
use speed_up.Std.{bisect, upper_bound, lower_bound, stable_sort}
pub mod Sample
pub mod Splits
pub mod Buckets
pub mod Drawn
pub mod Desired
pub mod Within
pub mod Boundaries
pub mod Estimate

-- `a * b`, `a + b` on std::uint64_t
abbrev pub mul64 : ℕ → ℕ → ℕ
mul64 a b = a * b % 2 ^ 64

abbrev pub add64 : ℕ → ℕ → ℕ
add64 a b = (a + b) % 2 ^ 64

-- `SplitMix64::next`: the new state and the number drawn
unfoldable pub next : ℕ → ℕ × ℕ
next state =
    let state' = add64 state 0x9E3779B97F4A7C15 in
    let z = mul64 (bit_xor state' (state' / 2 ^ 30)) 0xBF58476D1CE4E5B9 in
    let z' = mul64 (bit_xor z (z / 2 ^ 27)) 0x94D049BB133111EB in (state', bit_xor z' (z' / 2 ^ 31))

-- `for (i = from; i < from + count; ++i) out[i] = i`
unfoldable pub indices_from : (from count : ℕ) → List ℕ
indices_from from zero = []
indices_from from (suc count) = from ∷ indices_from (suc from) count

-- the strides `[j * n / s, (j + 1) * n / s)` that are left, and the state of the generator
unfoldable pub sample_loop : (n s rounds j state : ℕ) → List ℕ
sample_loop n s zero j state = []
sample_loop n s (suc rounds) j state =
    let lo = mul64 j n / s in
    let hi = mul64 (j + 1) n / s in
    let drawn = next state in (lo + drawn.1 % (hi - lo)) ∷ sample_loop n s rounds (suc j) drawn.0

unfoldable pub sample_indices : (n sample_size seed : ℕ) → List ℕ
unfolding indices_from sample_loop
sample_indices n sample_size seed =
    let s = min n sample_size in if s == n then indices_from 0 n else sample_loop n s s 0 seed

-- one round of `choose_split_positions`: the position chosen, or 0
unfoldable pub best_split : (s previous q lo hi : ℕ) → ℕ
best_split s previous q lo hi =
    let best = if ltb previous lo then lo else 0 in
    if ltb hi s && ltb previous hi && (best == 0 || ltb (sub64 hi q) (sub64 q lo)) then hi else best

unfoldable pub choose_loop : (s : ℕ) (run_start run_end : ℕ → ℕ) (previous : ℕ) → List ℕ → List ℕ
unfolding best_split
choose_loop s run_start run_end previous [] = []
choose_loop s run_start run_end previous (q ∷ desired) =
    let best = best_split s previous q (run_start q) (run_end q) in
    let skipped = choose_loop s run_start run_end previous desired in
    let pushed = choose_loop s run_start run_end best desired in
    if best == 0 then skipped else best ∷ pushed

unfoldable pub choose_split_positions : List ℕ → (s : ℕ) (run_start run_end : ℕ → ℕ) → List ℕ
unfolding choose_loop
choose_split_positions desired s run_start run_end = choose_loop s run_start run_end 0 desired

-- the desired split positions: running sums of all targets but the last, scaled to the sample
unfoldable pub desired_positions : (n s cumulative : ℕ) → List ℕ → List ℕ
desired_positions n s cumulative [] = []
desired_positions n s cumulative (t ∷ []) = []
desired_positions n s cumulative (t ∷ u ∷ targets) =
    (mul64 (cumulative + t) s / n) ∷ desired_positions n s (cumulative + t) (u ∷ targets)

-- the expected sizes between the positions, the last of which is `s`
unfoldable pub expected_loop : (n s previous : ℕ) → List ℕ → List ℕ
expected_loop n s previous [] = (((s - previous) * n + s / 2) % 2 ^ 64 / s) ∷ []
expected_loop n s previous (p ∷ positions) =
    (((p - previous) * n + s / 2) % 2 ^ 64 / s) ∷ expected_loop n s p positions

module _ {F : Type 0} where
  -- The positions to lay out: the sample of all items, or of the subset.
  unfoldable pub sample_of : BucketPlan F → (n : ℕ) → Option (List ℕ) → List ℕ
  unfolding sample_indices
  sample_of plan n none = sample_indices n plan.sample_size plan.seed
  sample_of plan n (some subset) =
      map (λ i. get_or subset i 0) (sample_indices n plan.sample_size plan.seed)

-- `no_element` is `none`
pub record BucketLayout (T : Type 0) : Type 0 where
  pub boundaries : List ℕ
  pub split_element : List (Option ℕ)
  pub splitters : List T
  pub splitter_positions : List ℕ
  pub expected : List ℕ
  pub estimated_from : ℕ

module _ {T : Type 0} where
  unfoldable pub bucket_count : BucketLayout T → ℕ
  bucket_count layout = length layout.expected

  -- a single bucket holding everything
  unfoldable pub single_bucket : BucketLayout T
  single_bucket = record {
    boundaries = [];
    split_element = [];
    splitters = [];
    splitter_positions = [];
    expected = 0 ∷ [];
    estimated_from = 0;
  }

  -- `split_element_[mid] != no_element`
  abbrev pub stores_element : BucketLayout T → ℕ → Bool
  stores_element layout mid = elim (get_or layout.split_element mid none) [
    | none ↦ false
    | some e ↦ true
  ]

  unfoldable pub bucket_of_key : BucketLayout T → ℕ → ℕ
  unfolding bisect
  bucket_of_key layout key =
      bisect
        (λ mid.
          let boundary = get_or layout.boundaries mid 0 in
          not (ltb key boundary || (key == boundary && stores_element layout mid)))
        (length layout.boundaries)

  -- `key.tie_break(value, splitters_[split_element_[mid]]) < 0`
  unfoldable pub below_splitter : SortKey T → BucketLayout T → ℕ → T → Bool
  unfolding tie_break
  below_splitter key layout mid value = elim (get_or layout.split_element mid none) [
    | none ↦ false
    | some e ↦ elim (get_elem? layout.splitters e) [
      | none ↦ false
      | some split ↦ is_negative (tie_break key value split)
    ]
  ]

  -- the test of `bucket_of` at split point `mid`
  unfoldable pub is_below : SortKey T → BucketLayout T → T → ℕ → ℕ → Bool
  unfolding below_splitter
  is_below key layout value value_key mid =
      let boundary = get_or layout.boundaries mid 0 in
      if value_key == boundary && stores_element layout mid
      then below_splitter key layout mid value
      else ltb value_key boundary

  -- the overload of `bucket_of` for a known normalized key
  unfoldable pub bucket_of_keyed : SortKey T → BucketLayout T → T → ℕ → ℕ
  unfolding is_below bisect
  bucket_of_keyed key layout value value_key = elim layout.splitters [
    | [] ↦
        bisect (λ mid. not (ltb value_key (get_or layout.boundaries mid 0)))
          (length layout.boundaries)
    | split ∷ rest ↦
        bisect (λ mid. not (is_below key layout value value_key mid)) (length layout.boundaries)
  ]

  -- `key.compare(value, splitters_[mid]) < 0`
  unfoldable pub compares_below : SortKey T → BucketLayout T → T → ℕ → Bool
  unfolding order
  compares_below key layout value mid = elim (get_elem? layout.splitters mid) [
    | none ↦ false
    | some split ↦ is_negative (order key value split)
  ]

  unfoldable pub bucket_of : SortKey T → BucketLayout T → T → ℕ
  unfolding bucket_of_keyed compares_below key_of has_key bisect
  bucket_of key layout value =
      if has_key key
      then bucket_of_keyed key layout value (key_of key value)
      else bisect (λ mid. not (compares_below key layout value mid)) (length layout.splitters)

  -- Items `a` and `b` under the key: known normalized keys, then the tie-breaker; or the whole order.
  unfoldable pub compare_at : SortKey T → T → List T → List ℕ → ℕ → ℕ → Ordering
  unfolding tie_break order has_key
  compare_at key default items keys a b =
      let x = get_or items a default in
      let y = get_or items b default in
      let ka = get_or keys a 0 in
      let kb = get_or keys b 0 in
      if has_key key
      then (if ka == kb then tie_break key x y else if ltb ka kb then Ordering.lt else Ordering.gt)
      else order key x y

  -- `less` of `estimate`, on positions in `items`
  unfoldable pub less_at : SortKey T → List T → List ℕ → ℕ → ℕ → Bool
  unfolding compare_at
  less_at key [] keys a b = false
  less_at key (default ∷ rest) keys a b =
      is_negative (compare_at key default (default ∷ rest) keys a b)

  -- what the split position p adds to the layout, where `item` is `sorted[p]`
  unfoldable pub with_split :
      SortKey T → List T → List ℕ → List ℕ → BucketLayout T → (p item : ℕ) → BucketLayout T
  unfolding has_key
  with_split key items keys sorted layout p item =
      let needs_element =
        not (has_key key) || get_or keys (get_or sorted (p - 1) 0) 0 == get_or keys item 0 in
      record layout {
        boundaries =
            if has_key key then layout.boundaries ++ get_or keys item 0 ∷ [] else layout.boundaries;
        split_element =
            if has_key key
            then layout.split_element
              ++ (if needs_element then some (length layout.splitters) else none) ∷ []
            else layout.split_element;
        splitters =
            if needs_element
            then (elim (get_elem? items item) [
              | none ↦ layout.splitters
              | some x ↦ layout.splitters ++ x ∷ []
            ])
            else layout.splitters;
        splitter_positions =
            if needs_element
            then layout.splitter_positions ++ item ∷ []
            else layout.splitter_positions;
      }

  -- one round of the loop over the split positions
  unfoldable pub add_split :
      SortKey T → List T → List ℕ → List ℕ → BucketLayout T → ℕ → Result (BucketLayout T)
  unfolding with_split
  add_split key items keys sorted layout p =
      read sorted p >>= λ item. ok (with_split key items keys sorted layout p item)

  unfoldable pub add_splits :
      SortKey T → List T → List ℕ → List ℕ → BucketLayout T → List ℕ → Result (BucketLayout T)
  unfolding add_split
  add_splits key items keys sorted layout [] = ok layout
  add_splits key items keys sorted layout (p ∷ positions) =
      add_split key items keys sorted layout p >>= λ layout'.
      add_splits key items keys sorted layout' positions

module _ {T : Type 0} where
  -- `sorted[q]` of a desired position q, which is in the sample since no target is empty; a q beyond it,
  -- which the code does not come to, is taken as the start of the sample.
  unfoldable pub split_positions :
      SortKey T → List T → List ℕ → (sorted targets : List ℕ) (n : ℕ) → List ℕ
  unfolding choose_split_positions desired_positions less_at lower_bound upper_bound
  split_positions key items keys sorted targets n =
      let s = length sorted in
      let less = less_at key items keys in
      choose_split_positions (desired_positions n s 0 targets) s
        (λ q. lower_bound less 0 sorted (get_or sorted q (get_or sorted 0 0)))
        (λ q. upper_bound less 0 sorted (get_or sorted q (get_or sorted 0 0)))

module _ {T : Type 0} where
  abbrev pub laid_out : List T → Option (List ℕ) → ℕ
  laid_out items none = length items
  laid_out items (some positions) = length positions

module _ {F : Type 0} ⦃d : Doubles F⦄ {T : Type 0} where
  -- the sample in the exact order of the key
  unfoldable pub sorted_sample :
      SortKey T → List T → List ℕ → BucketPlan F → (n : ℕ) → Option (List ℕ) → List ℕ
  unfolding sample_of stable_sort less_at
  sorted_sample key items keys plan n subset =
      stable_sort (less_at key items keys) (sample_of plan n subset)

  unfoldable pub estimate :
      SortKey T → List T → List ℕ → BucketPlan F → Option (List ℕ) → Result (BucketLayout T)
  unfolding sorted_sample split_positions add_splits expected_loop single_bucket
  estimate key items keys plan subset =
      let n = laid_out items subset in
      let empty = record single_bucket { estimated_from = n } in
      let targets = target_sizes plan n in
      if leb (length targets) 1
      then ok (record empty { expected = n ∷ [] })
      else (let sorted = sorted_sample key items keys plan n subset in
          let positions = split_positions key items keys sorted targets n in
          add_splits key items keys sorted empty positions >>= λ splits.
          ok (record splits { expected = expected_loop n (length sorted) 0 positions }))
