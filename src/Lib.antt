-- ===== src/Lib.antt =====
-- SpeedUp: lazily sorted lists by bucketization.
--
-- The program keeps a vector of elements sorted by one of several keys without sorting all of it.
-- A sort key maps an element to a 64-bit number (Keys) with an optional comparator that breaks
-- ties and optional groups (SortKey). A plan says how large the buckets should be (Plan). A layout
-- is estimated from a sample of the elements and assigns each element to a bucket (Layout). The
-- index keeps, for each key, the bucket of every slot, and on demand an order of the slots grouped
-- by bucket; a bucket is sorted when a read touches it (Index). The bucketed list is the class that
-- callers use: it forwards to the index.
--
-- Files, with the code they model, under include/speedup/bucketization where no directory is named:
--   Keys            keys.hpp: from_signed, from_double, from_bytes, normalize
--   SortKey         sort_key.hpp: the factories, groups, compare
--   Plan            bucket_plan.hpp: the factories, with_* methods, target_sizes
--   Layout          bucket_layout.hpp: sample_indices, choose_split_positions, estimate, bucket_of
--   Index           bucket_index.hpp: the state, find_state, to_ascending, bucket_for, is_stale
--   Index/Relayout  estimate_layouts, relayout, maybe_auto_rebalance
--   Index/Grouping  build_order, regroup
--   Index/Sorting   sort_bucket, prepare
--   Index/Names     add_sort_key, remove_sort_key, sort_by, set_plan and the like
--   Index/Changes   append, remove_if, update_if, clear, compact
--   Index/Reads     range, at, for_each, first_page, position_if; its child modules follow a window of
--                   buckets through the lazy sort
--   Index/Laid      what holds of each key state between operations: every item's key and bucket, and
--                   the counts; and the rounds of the operations for one key
--   Index/Consistent  what holds of an index between operations; Steps lists them, and Thrown is about
--                   the index that an append that throws leaves behind
--   Index/Ordered   what holds of a cached order between operations; its renewal by regroup, what prepare
--                   makes of it, the loops that compact filters it with, and (Rounds) what append,
--                   update_if and remove_if leave of it
--   Index/Values    from slots to the elements that they hold
--   Index/Ready     from a new sort key to its first read: the states that reads rely on
--   Index/Stats     stats, bucket_sizes, needs_rebalance and the cost estimates
--   BucketedList    bucketed_list.hpp: the interface, which the index implements
--   FileBrowser     the natural order and the columns of examples/bucketization/file_browser.cpp
--   Godot           the order of file names of benchmarks/godot_stack/godot_sort.h
--   Godot/Files     its FileInfo comparators and its linked list with the merge sort
--   Search          src/algorithms/binary_search and src/core/dispatch.c: the C search and its settings
--   Search/Simd     legacy/benchmark_win.c: the searches with AVX2 and their check
--   Std             std::stable_sort, std::inplace_merge, std::is_sorted and binary searches, by
--                   what the standard says of them; `finish` is the part of sort_bucket that calls
--                   them
--   Std/Commute     the stable sort does not depend on how a list was cut into blocks
--   Common          tests, lists, results, bits, integers, and what the code uses of `double`
--   Examples        runs on small inputs; Examples/Index, Reached and Thrown those of the index,
--                   Examples/Search those of the searches
-- The benchmarks compare the library with the sorting of other programs, of which Godot is one.
-- Direction and BucketStats of bucketed_list.hpp stand with the index's definitions.
--
-- The model:
--   * A vector is a list, an element type T a parameter, a string its list of bytes. std::size_t is
--     a natural number, with the wrap-around written out where the code can wrap (sub64, mul64,
--     add64, % 2 ^ 64). Counters that count slots stay below 2^32, since append throws
--     std::length_error above, and are plain numbers.
--   * npos, removed_slot and no_element are `none`. The int of a three-way comparison is an
--     Ordering. `order` is what `compare` returns for elements whose groups are in range; layouts
--     and buckets sort by it, so that a throw of `compare` inside a sort or a search, which a key
--     without a key function may cause there, is not modelled.
--   * `double` is a parameter F with the operations of Doubles; IsIeee lists the IEEE-754 laws
--     that proofs use, which hold beside a NaN (Examples has an instance with one). from_double works on the 64 bits of the number.
--   * An operation that throws returns `err`; the invariants speak of operations that returned.
--     The state that a throw leaves behind is modelled for append (append_thrown), which leaves
--     its element in the vector of items, and not for the others. Where the code may read its sample beyond the end, in
--     estimate with a comparator that is not consistent, the model's result is the error
--     `undefined`. Other reads out of range, which the code relies on not happening, give a
--     default value or `undefined`.
--   * User callbacks are total functions. Operations that sort lazily return the new index.
--   * Loops are structural recursion. geometric_loop recurs on the buckets still allowed, which is
--     the loop's own bound. The binary search recurs on fuel, the length of its range, since each
--     round halves the range. The merge sort of Godot recurs on fuel, the length of its list, since
--     each half is shorter. The scan of two file names and the search in caps_table have fuel for a
--     round for each character of the first name and each entry of the table.
--
-- natural_compare recurs on fuel, one more than the lengths of both names, of which every round takes
-- a byte each.
--
-- The C searches work on ascending arrays of std::int64_t. Their `right` is kept as right + 1, their
-- loops recur on fuel, one more than the size of the array, and the intrinsics of AVX2 are a
-- parameter (Avx2), with the masks that they are documented to give as a law (IsAvx2).
--
-- Not modelled: the assembly backends, timing and the loops of the benchmarks, the benchmark drivers
-- and their copies of the other programs' comparators, the directory listing and printing of the file
-- browser, the tests, and the ports to other languages.
mod Examples
pub mod Common
pub mod Keys
pub mod Plan
pub mod SortKey
pub mod Layout
pub mod Index
pub mod Std
pub mod Godot
pub mod Search
pub mod FileBrowser
pub mod BucketedList
