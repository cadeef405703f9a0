-- ===== src/Table.antt =====
-- An array of buckets, chosen by hash: what thread_safe_hash_map.hpp and the `threadsafe_lookup_table`
-- of dataStructures.hpp share. A bucket is its list of pairs; its lock makes each call one action.
-- The hash is a parameter. What a bucket's functions must satisfy is the interface `BucketLaws`.
mod Laws
unfoldable pub use Laws.*
