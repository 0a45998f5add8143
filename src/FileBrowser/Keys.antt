-- ===== src/FileBrowser/Keys.antt =====
-- examples/bucketization/file_browser.cpp: the entries of a directory and the index that the example
-- makes of them. Listing the directory and printing are left out.
use Prim.Native.Nat.{Ordering}
use speed_up.Common.{ℕ, Bool, List, none, some, if◌then◌else◌, Result, ◌>>=◌}
use speed_up.Common.Doubles.{Doubles}
use speed_up.Common.Int.{ℤ}
use speed_up.Keys.{signed}
use speed_up.Plan.{defaults, with_page_size}
use speed_up.SortKey.{of_text, of_exact, of_comparator, with_groups}
use speed_up.Index.{BucketIndex}
use speed_up.Index.Names.{make_index, add_sort_key}
use speed_up.Index.Changes.{add_all}
use speed_up.FileBrowser.{natural_compare}

pub record Entry : Type 0 where
  pub name : List ℕ
  pub is_dir : Bool
  pub size : ℤ
  pub modified : ℤ

-- the comparator of the "natural" column, on the answer that natural_compare always gives
abbrev pub natural_names : Entry → Entry → Ordering
natural_names a b = elim (natural_compare a.name b.name) [ none ↦ Ordering.eq | some r ↦ r ]

module _ {F : Type 0} ⦃d : Doubles F⦄ where
  -- the index of `main` with its four columns, of which the last keeps folders first
  unfoldable pub browser_index : (rows : ℕ) → List Entry → Result (BucketIndex F Entry)
  unfolding natural_compare of_text of_exact of_comparator with_groups add_sort_key add_all
      make_index
  browser_index rows entries = do
    standard ← defaults
    plan ← with_page_size standard rows
    name ← of_text "name" (λ e. e.name)
    index ← add_sort_key name (make_index plan)
    natural ← of_comparator "natural" (some natural_names)
    index ← add_sort_key natural index
    size ← of_exact "size" (λ e. signed e.size)
    index ← add_sort_key size index
    modified ← of_exact "modified" (λ e. signed e.modified)
    grouped ← with_groups modified 2 (some (λ e. if e.is_dir then 0 else 1))
    index ← add_sort_key grouped index
    add_all entries index
