-- ===== src/Index/Laid.antt =====
-- What holds of every key state between the operations of bucket_index.hpp: the keys and buckets of
-- all items, as the layouts give them, and the counts.
use speed_up.Common.{
  ℕ, ◌+◌, ◌^◌, ◌<◌, ◌≤◌, ◌≡◌, refl, sym, ap, List, [], ◌∷◌, length, none, false, Result, ok,
}
use speed_up.SortKey.{SortKey, key_of}
use speed_up.Layout.{BucketLayout}
use speed_up.Index.{KeyState, bucket_for, bucket_total}
use speed_up.Index.Relayout.Counts.{Counted}
use speed_up.Index.Values.{kept_keys}
use speed_up.Index.Relayout.{offsets}
use speed_up.Index.Laid.Layouts.{AreLayouts}
pub mod Base
pub mod Layouts
pub mod Ranges
pub mod Relaid
pub mod Order
pub mod Changes
pub mod Keepers
pub mod Compact

module _ {T : Type 0} where
  -- Each item is in the bucket that `bucket_for` gives it.
  abbrev pub PlacedIn : KeyState T → (items : List T) (buckets : List ℕ) → Type 0
  PlacedIn state [] [] = Unit
  PlacedIn state (x ∷ items) (b ∷ buckets) =
      (bucket_for state x (key_of state.key x) ≡ ok b) × PlacedIn state items buckets
  PlacedIn state items buckets = ⊥

  -- The layouts are well formed, one for each group, their buckets are few enough for 16-bit numbers,
  -- and `bucket_for` gives no other.
  pub record IsRanged (state : KeyState T) : Type 0 where
    pub small : bucket_total state ≤ 2 ^ 16
    pub limit : ℕ
    pub formed : AreLayouts state.key limit state.layouts
    pub offset : state.group_offset ≡ offsets 0 state.layouts
    pub below :
        (x : T) (b : ℕ) → bucket_for state x (key_of state.key x) ≡ ok b → b < bucket_total state

  pub record IsLaid (items : List T) (state : KeyState T) : Type 0 where
    pub keyed : state.keys ≡ kept_keys state.key items
    pub placed : PlacedIn state items state.buckets
    pub counted : Counted (bucket_total state) (length items) state.buckets state.counts
    pub ranged : IsRanged state

  -- The members that this depends on; the others are put out.
  abbrev pub base : KeyState T → KeyState T
  base state = record state {
    expected = [];
    estimated_from = 0;
    churn = 0;
    stale_checked_at = none;
    splitter_slots = [];
    splitter_changed = false;
    has_order = false;
    order_stale = false;
    order = [];
    start = [];
    sorted_len = [];
    ordered_slots = 0;
    moved = [];
  }
