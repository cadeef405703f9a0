-- ===== src/ThreadSafeHashMap.antt =====
-- modern_cpp_core/data_structures/thread_safe_hash_map.hpp. A bucket is its `std::list` of pairs,
-- the buckets a function of the index; `std::hash` and `operator==` of the keys are parameters.
-- Each call holds the lock of its one bucket throughout, so a call is one action.
pub mod Laws
mod Tests
use emb_linux.Prelude.{
  ◌==◌, ◌>>=◌, ℕ, ◌%◌, List, [], ◌∷◌, Option, none, some, if◌then◌else◌, update,
}
use emb_linux.Table.{KeyEq, Bucket, Call, puts, gets, drops}

module _ {ℓ κ} {K : Type ℓ} {V : Type κ} (e : KeyEq K) where
  -- The loop of `insert`: the first pair with this key is given the value.
  pub insert_pair : K → V → Bucket K V → Bucket K V
  insert_pair key value [] = (key, value) ∷ []
  insert_pair key value ((k, v) ∷ rest) =
      if e.beq k key then (k, value) ∷ rest else (k, v) ∷ insert_pair key value rest

  pub get_pair : K → Bucket K V → Option V
  get_pair key [] = none
  get_pair key ((k, v) ∷ rest) = if e.beq k key then some v else get_pair key rest

  -- `remove_if` of `std::list`
  pub remove_pairs : K → Bucket K V → Bucket K V
  remove_pairs key [] = []
  remove_pairs key ((k, v) ∷ rest) =
      if e.beq k key then remove_pairs key rest else (k, v) ∷ remove_pairs key rest

module _ {ℓ} {K : Type ℓ} (hash : K → ℕ) (num_buckets : ℕ) where
  -- `none` is a remainder by zero, which is undefined.
  abbrev pub bucket_index : K → Option ℕ
  bucket_index key = if num_buckets == 0 then none else some (hash key % num_buckets)

module _ {ℓ κ} {K : Type ℓ} {V : Type κ} (e : KeyEq K) (hash : K → ℕ) (num_buckets : ℕ) where
  pub insert : K → V → (ℕ → Bucket K V) → Option (ℕ → Bucket K V)
  unfolding insert_pair
  insert key value buckets = do
    i ← bucket_index hash num_buckets key
    some (update buckets i (insert_pair e key value (buckets i)))

  pub get : K → (ℕ → Bucket K V) → Option (Option V)
  unfolding get_pair
  get key buckets = do i ← bucket_index hash num_buckets key; some (get_pair e key (buckets i))

  pub remove : K → (ℕ → Bucket K V) → Option (ℕ → Bucket K V)
  unfolding remove_pairs
  remove key buckets = do
    i ← bucket_index hash num_buckets key
    some (update buckets i (remove_pairs e key (buckets i)))

  -- A client's calls, with the reply of each `get`.
  pub run : List (Call K V) → (ℕ → Bucket K V) → Option (List (Option V))
  unfolding insert get remove
  run [] buckets = some []
  run (puts key value ∷ rest) buckets = do buckets' ← insert key value buckets; run rest buckets'
  run (gets key ∷ rest) buckets = do
    reply ← get key buckets
    replies ← run rest buckets
    some (reply ∷ replies)
  run (drops key ∷ rest) buckets = do buckets' ← remove key buckets; run rest buckets'
