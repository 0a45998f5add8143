-- ===== src/Search/Finds.antt =====
-- What the searches of an ascending array return: they end, read no element out of the array, and
-- find the key if it is there.
use speed_up.Common.{
  ℕ, zero, suc, ◌+◌, ◌-◌, ◌/◌, ◌<◌, ◌≤◌, ◌≡◌, ◌≢◌, refl, ap, ◌∙◌, true, false, List, [], ◌∷◌,
  length, get_or, Option, none, some, ltb, Result, ok, if◌then◌else◌, ◌>>=◌, Bool-cases, inl, inr,
  ltb→lt, arith, dec_lt, dec_le,
}
use speed_up.Common.Int.{ℤ, pos, ◌≤ℤ◌, eqz, ltz, eqz_same}
use speed_up.Index.{read}
use speed_up.Search.{
  search_loop, binary_search_i64_ref, binary_search_i64, Settings, BackendPref, auto, force_cpu,
  force_cuda, force_opencl, get_backend_preference,
}

-- `array[i]`
abbrev pub elem : List ℤ → ℕ → ℤ
elem array i = get_or array i (pos 0)

abbrev pub IsAscending : List ℤ → Type 0
IsAscending array = (i j : ℕ) → i ≤ j → j < length array → elem array i ≤ℤ elem array j

-- What a search must return: a position of the key, or nothing where there is none.
abbrev pub Finds : List ℤ → ℤ → Option ℕ → Type 0
Finds array key none = (i : ℕ) → i < length array → elem array i ≢ key
Finds array key (some i) = (i < length array) × (elem array i ≡ key)

-- The key stands at or behind `lo` and before `hi`, if it stands anywhere.
pub record Within (array : List ℤ) (key : ℤ) (lo hi : ℕ) : Type 0 where
  pub inside : hi ≤ length array
  pub only : (i : ℕ) → i < length array → elem array i ≡ key → (lo ≤ i) × (i < hi)

pub read-elem : (array : List ℤ) (i : ℕ) → i < length array → read array i ≡ ok (elem array i)
read-elem [] i h = absurd (omega arith)
read-elem (x ∷ array) zero h = refl
read-elem (x ∷ array) (suc i) h = read-elem array i (omega arith)

pub read-next :
    {A : Type 0} (array : List ℤ) (i : ℕ) (next : ℤ → Result A)
    → i < length array
    → read array i >>= next ≡ next (elem array i)
read-next array i next h = ap (λ r. r >>= next) (read-elem array i h)

not_below : (a b key : ℤ) → a ≤ℤ b → b ≡ key → ltz key a ≡ false
not_below a b key h e = rw (← e) (ground arith)

not_above : (a b key : ℤ) → a ≤ℤ b → a ≡ key → ltz b key ≡ false
not_above a b key h e = rw (← e) (ground arith)

ltz_total : (a b : ℤ) → eqz a b ≡ false → ltz a b ≡ false → ltz b a ≡ true
ltz_total a b e h = ground arith

module _ (array : List ℤ) (key : ℤ) (ascending : IsAscending array) where
  pub Within-up :
      (lo hi m : ℕ)
      → Within array key lo hi
      → m < length array
      → ltz (elem array m) key ≡ true
      → Within array key (m + 1) hi
  Within-up lo hi m w h less = record {
    inside = w.inside;
    only = λ i lt e. (
      elim (dec_le (m + 1) i) [
        | yes p ↦ p
        | no p ↦
            let high =
              not_above (elem array i) (elem array m) key (ascending i m (omega arith) h) e in
            absurd (cc)
      ],
      (w.only i lt e).1,
    );
  }

  pub Within-down :
      (lo hi m : ℕ)
      → Within array key lo hi
      → m < length array
      → eqz (elem array m) key ≡ false
      → ltz (elem array m) key ≡ false
      → Within array key lo m
  Within-down lo hi m w h differs least = record {
    inside = omega arith;
    only = λ i lt e. (
      (w.only i lt e).0,
      elim (dec_lt i m) [
        | yes p ↦ p
        | no p ↦
            let low =
              not_below (elem array m) (elem array i) key (ascending m i (omega arith) lt) e in
            let above = ltz_total (elem array m) key differs least in absurd (cc)
      ],
    );
  }

  pub Within-empty : (lo hi : ℕ) → hi ≤ lo → Within array key lo hi → Finds array key none
  Within-empty lo hi h w i lt e = let (p, q) = w.only i lt e in absurd (omega arith)

  -- The loop ends and finds the key.
  pub search_loop-Finds :
      (fuel lo hi : ℕ)
      → hi - lo < fuel
      → Within array key lo hi
      → (r : Option ℕ) × (search_loop array key fuel lo hi ≡ ok r) × Finds array key r
  unfolding search_loop
  search_loop-Finds zero lo hi f w = absurd (omega arith)
  search_loop-Finds (suc fuel) lo hi f w =
      let mid = lo + (hi - 1 - lo) / 2 in
      elim (Bool-cases (ltb lo hi)) [
        | inr e ↦ (none, rw e refl, Within-empty lo hi (ground arith) w)
        | inl e ↦
            let some_left : lo < hi = ltb→lt lo hi e in
            let at_mid : mid < length array = omega (arith, w.inside) in
            let v = elem array mid in
            let next : ℤ → Result (Option ℕ) = λ v.
              let rest =
                search_loop array key fuel (if ltz v key then mid + 1 else lo)
                  (if ltz v key then hi else mid) in
              if eqz v key then ok (some mid) else rest in
            let known = read-next array mid next at_mid in
            elim (Bool-cases (eqz v key)) [
              | inl same ↦ (some mid, rw e (known ∙ rw same refl), (at_mid, eqz_same v key same))
              | inr differs ↦ elim (Bool-cases (ltz v key)) [
                | inl less ↦
                    let (r, returned, finds) =
                      search_loop-Finds fuel (mid + 1) hi (omega arith)
                        (Within-up lo hi mid w at_mid less) in
                    (r, rw e (known ∙ rw (differs, less) returned), finds)
                | inr least ↦
                    let (r, returned, finds) =
                      search_loop-Finds fuel lo mid (omega arith)
                        (Within-down lo hi mid w at_mid differs least) in
                    (r, rw e (known ∙ rw (differs, least) returned), finds)
              ]
            ]
      ]

  pub Within-all : Within array key 0 (length array)
  Within-all = record { inside = omega arith; only = λ i lt e. (omega arith, lt) }

-- On an ascending array the reference search ends, reads no element out of the array, and returns a
-- position of the key, or -1 where the key does not stand in the array.
pub binary_search_i64_ref-Finds :
    (array : List ℤ) (key : ℤ)
    → IsAscending array
    → (r : Option ℕ) × (binary_search_i64_ref array key (pos (length array)) ≡ ok r)
      × Finds array key r
unfolding binary_search_i64_ref
binary_search_i64_ref-Finds array key ascending =
    search_loop-Finds array key ascending (suc (length array)) 0 (length array) (omega arith)
      (Within-all array key ascending)

-- No backend takes the search over.
dispatched :
    (s : Settings) (array : List ℤ) (key size : ℤ)
    → binary_search_i64 s array key size ≡ binary_search_i64_ref array key size
unfolding binary_search_i64 get_backend_preference
dispatched s array key size = by_pref s.pref
  where
    by_pref :
        (p : BackendPref)
        → elim p [
          | force_cuda ↦ binary_search_i64_ref array key size
          | force_opencl ↦ binary_search_i64_ref array key size
          | force_cpu ↦ binary_search_i64_ref array key size
          | auto ↦ binary_search_i64_ref array key size
        ]
          ≡ binary_search_i64_ref array key size
    by_pref auto = refl
    by_pref force_cpu = refl
    by_pref force_cuda = refl
    by_pref force_opencl = refl

-- Whatever the settings, on an ascending array the dispatched search ends, reads no element out of
-- the array, and returns a position of the key, or -1 where the key does not stand in the array.
pub binary_search_i64-Finds :
    (s : Settings) (array : List ℤ) (key : ℤ)
    → IsAscending array
    → (r : Option ℕ) × (binary_search_i64 s array key (pos (length array)) ≡ ok r)
      × Finds array key r
unfolding binary_search_i64 get_backend_preference
binary_search_i64-Finds s array key ascending =
    let (r, returned, finds) = binary_search_i64_ref-Finds array key ascending in
    (r, dispatched s array key (pos (length array)) ∙ returned, finds)
