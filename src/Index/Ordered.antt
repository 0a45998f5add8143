-- ===== src/Index/Ordered.antt =====
-- What holds of the cached order of a key state of bucket_index.hpp between operations: it may be out of
-- date, but it says of every slot where it was, and its prefixes are sorted but for slots that moved.
use speed_up.Common.{ℕ, suc, ◌<◌, ◌≡◌, Bool, true, false, List, [], ◌∷◌, length, get_or, take}
use speed_up.Std.Sort.{IsSorted}
use speed_up.Index.{KeyState}
use speed_up.Index.Grouping.Passes.{has_moved, stayers}
use speed_up.Index.Grouping.Kept.{IsGrouped}
use speed_up.Index.Sorting.{slot_less}
pub mod Renewal
pub mod Ready
pub mod Slots
pub mod Changes
pub mod Prepared
pub mod Sorted
pub mod Renumber
pub mod Rounds
pub mod Removal
pub mod Compact
pub mod Filter

module _ {T : Type 0} where
  -- The sorted prefix of every block is sorted, but for slots that moved.
  abbrev pub StillSorted :
      (less : ℕ → ℕ → Bool) (state : KeyState T) (sorted_len : List ℕ) → List (List ℕ) → Type 0
  StillSorted less state [] [] = Unit
  StillSorted less state [] (q ∷ qs) = ⊥
  StillSorted less state (l ∷ ls) [] = ⊥
  StillSorted less state (l ∷ ls) (q ∷ qs) =
      IsSorted less (stayers state (take l q)) × StillSorted less state ls qs

  -- The cached order of a key state.
  pub record IsOrdered (items : List T) (state : KeyState T) : Type 0 where
    pub was : List ℕ
    pub blocks : List (List ℕ)
    pub grouped : IsGrouped state was blocks
    pub sorted : StillSorted (slot_less state.key items state.keys) state state.sorted_len blocks
    pub marks : length state.moved ≡ state.ordered_slots
    pub fresh :
        state.order_stale ≡ false
        → (state.ordered_slots ≡ length state.buckets) × ((s : ℕ) → has_moved state s ≡ false)
