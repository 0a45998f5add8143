-- ===== src/Index/Ready.antt =====
-- From `relayout` to the grouping that `build_order` of bucket_index.hpp makes of it, for a key
-- without groups: the state in which the order is read.
pub mod Blocks
pub mod Fresh
pub mod Serving
pub mod Sorted
