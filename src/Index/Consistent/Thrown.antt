-- ===== src/Index/Consistent/Thrown.antt =====
-- What `append` of bucket_index.hpp leaves behind where it throws: the item is in the vector before the
-- bucket of the first sort key is asked for.
use speed_up.Common.Doubles.{Doubles}
