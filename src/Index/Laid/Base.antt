-- ===== src/Index/Laid/Base.antt =====
-- What holds of the items' buckets depends on the keys, buckets, layouts and counts alone.
use mathlib.Core.Path.{subst}
use speed_up.Common.{ℕ, ◌≡◌, refl, sym, ap, ◌∙◌, List, [], ◌∷◌, length}
use speed_up.SortKey.{key_of}
use speed_up.Index.Values.{kept_keys}
use speed_up.Index.Relayout.Counts.{Counted}
use speed_up.Index.{KeyState, bucket_for, bucket_total}
use speed_up.Index.Laid.{PlacedIn, IsRanged, IsLaid, base}

module _ {T : Type 0} where
  PlacedIn-base :
      (state : KeyState T) (items : List T) (buckets : List ℕ)
      → PlacedIn state items buckets
      → PlacedIn (base state) items buckets
  unfolding bucket_for
  PlacedIn-base state [] [] h = h
  PlacedIn-base state (x ∷ items) (b ∷ buckets) h = (h.0, PlacedIn-base state items buckets h.1)
  PlacedIn-base state [] (b ∷ buckets) h = elim h [ ]
  PlacedIn-base state (x ∷ items) [] h = elim h [ ]

  PlacedIn-of_base :
      (state : KeyState T) (items : List T) (buckets : List ℕ)
      → PlacedIn (base state) items buckets
      → PlacedIn state items buckets
  unfolding bucket_for
  PlacedIn-of_base state [] [] h = h
  PlacedIn-of_base state (x ∷ items) (b ∷ buckets) h =
      (h.0, PlacedIn-of_base state items buckets h.1)
  PlacedIn-of_base state [] (b ∷ buckets) h = elim h [ ]
  PlacedIn-of_base state (x ∷ items) [] h = elim h [ ]

  to_base : (items : List T) (state : KeyState T) → IsLaid items state → IsLaid items (base state)
  unfolding bucket_for bucket_total
  to_base items state h = record {
    keyed = h.keyed;
    placed = PlacedIn-base state items state.buckets h.placed;
    counted = h.counted;
    ranged = record {
      small = h.ranged.small;
      limit = h.ranged.limit;
      formed = h.ranged.formed;
      offset = h.ranged.offset;
      below = h.ranged.below;
    };
  }

  of_base : (items : List T) (state : KeyState T) → IsLaid items (base state) → IsLaid items state
  unfolding bucket_for bucket_total
  of_base items state h = record {
    keyed = h.keyed;
    placed = PlacedIn-of_base state items state.buckets h.placed;
    counted = h.counted;
    ranged = record {
      small = h.ranged.small;
      limit = h.ranged.limit;
      formed = h.ranged.formed;
      offset = h.ranged.offset;
      below = h.ranged.below;
    };
  }

  pub IsLaid-base :
      (items : List T) (state state' : KeyState T)
      → base state' ≡ base state
      → IsLaid items state
      → IsLaid items state'
  IsLaid-base items state state' same h =
      of_base items state' (subst (IsLaid items) (sym same) (to_base items state h))

  -- The members that decide about the buckets of items.
  abbrev pub frame : KeyState T → KeyState T
  frame state = record (base state) { keys = []; buckets = []; counts = [] }

  PlacedIn-same :
      (state state' : KeyState T) (items : List T) (buckets : List ℕ)
      → state'.key ≡ state.key
      → ((x : T) (k : ℕ) → bucket_for state' x k ≡ bucket_for state x k)
      → PlacedIn state items buckets
      → PlacedIn state' items buckets
  PlacedIn-same state state' [] [] same to h = h
  PlacedIn-same state state' (x ∷ items) (b ∷ buckets) same to h = (
    to x (key_of state'.key x) ∙ ap (λ k. bucket_for state x (key_of k x)) same ∙ h.0,
    PlacedIn-same state state' items buckets same to h.1,
  )
  PlacedIn-same state state' [] (b ∷ buckets) same to h = elim h [ ]
  PlacedIn-same state state' (x ∷ items) [] same to h = elim h [ ]

  with_slots-IsLaid :
      (items : List T) (state : KeyState T) (keys buckets counts : List ℕ)
      → keys ≡ kept_keys state.key items
      → PlacedIn state items buckets
      → Counted (bucket_total state) (length items) buckets counts
      → IsRanged state
      → IsLaid items (record state { keys = keys; buckets = buckets; counts = counts })
  unfolding bucket_for bucket_total
  with_slots-IsLaid items state keys buckets counts keyed placed counted ranged =
      let state' = record state { keys = keys; buckets = buckets; counts = counts } in
      record {
        keyed = keyed;
        placed = PlacedIn-same state state' items buckets refl (λ x k. refl) placed;
        counted = counted;
        ranged = record {
          small = ranged.small;
          limit = ranged.limit;
          formed = ranged.formed;
          offset = ranged.offset;
          below = ranged.below;
        };
      }

  -- New keys, buckets and counts for new items, in a state that is otherwise the same.
  pub frame-IsLaid :
      (items : List T) (state state' : KeyState T)
      → frame state' ≡ frame state
      → state'.keys ≡ kept_keys state.key items
      → PlacedIn state items state'.buckets
      → Counted (bucket_total state) (length items) state'.buckets state'.counts
      → IsRanged state
      → IsLaid items state'
  frame-IsLaid items state state' same keyed placed counted ranged =
      let filled = λ (s : KeyState T). record s {
        keys = state'.keys;
        buckets = state'.buckets;
        counts = state'.counts;
      } in
      IsLaid-base items
        (record state { keys = state'.keys; buckets = state'.buckets; counts = state'.counts })
        state' (ap filled same)
        (with_slots-IsLaid items state state'.keys state'.buckets state'.counts keyed placed counted
          ranged)
