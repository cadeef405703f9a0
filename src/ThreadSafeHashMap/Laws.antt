-- ===== src/ThreadSafeHashMap/Laws.antt =====
-- thread_safe_hash_map.hpp against a map from keys to values.
use emb_linux.Prelude.{
  ◌==◌, ◌>>=◌, ◌%◌, ◌<◌, false, ==-false, ℕ, List, [], ◌∷◌, none, some, ◌≡◌, refl, ap, ◌∙◌, arith,
  if◌then◌else◌,
}
use emb_linux.Table.{
  KeyEq, Bucket, BucketLaws, Call, puts, gets, drops, map_run, table_run, table_run_lem,
}
use emb_linux.ThreadSafeHashMap.{insert_pair, get_pair, remove_pairs, run}

module _ {ℓ κ} {K : Type ℓ} {V : Type κ} (e : KeyEq K) where
  get_pair-nil : (j : K) → get_pair {V = V} e j [] ≡ none
  unfolding get_pair
  get_pair-nil j = refl

  get_pair-insert_pair :
      (k j : K) (v : V) (b : Bucket K V)
      → get_pair e j (insert_pair e k v b) ≡ (if e.beq k j then some v else get_pair e j b)
  unfolding get_pair insert_pair
  get_pair-insert_pair k j v [] = refl
  get_pair-insert_pair k j v ((i, w) ∷ b) = grind (arith, e.beq_iff, get_pair-insert_pair k j v b)

  get_pair-remove_pairs :
      (k j : K) (b : Bucket K V)
      → get_pair e j (remove_pairs e k b) ≡ (if e.beq k j then none else get_pair e j b)
  unfolding get_pair remove_pairs
  get_pair-remove_pairs k j [] = ground arith
  get_pair-remove_pairs k j ((i, w) ∷ b) = grind (arith, e.beq_iff, get_pair-remove_pairs k j b)

  abbrev bucket_laws : BucketLaws K V e
  bucket_laws = record {
    lookup = get_pair e;
    write = insert_pair e;
    erase = remove_pairs e;
    Valid = λ b. Unit;
    lookup-nil = get_pair-nil;
    lookup-write = λ k j v b. get_pair-insert_pair k j v b;
    lookup-erase = λ k j b v. get_pair-remove_pairs k j b;
    nil-Valid = tt;
    write-Valid = λ k v b h. tt;
    erase-Valid = λ k b h. tt;
  }

module _ {ℓ κ} {K : Type ℓ} {V : Type κ} (e : KeyEq K) (hash : K → ℕ) (num_buckets : ℕ)
    (some_bucket : (num_buckets == 0) ≡ false) where
  run-eq-table_run :
      (calls : List (Call K V)) (buckets : ℕ → Bucket K V)
      → run e hash num_buckets calls buckets
        ≡ some (table_run (bucket_laws e) hash num_buckets calls buckets)
  unfolding run table_run
  run-eq-table_run [] buckets = refl
  run-eq-table_run (puts k v ∷ cs) buckets = rw some_bucket (run-eq-table_run cs _)
  run-eq-table_run (gets k ∷ cs) buckets = rw some_bucket (
      ap (λ o. o >>= λ replies. some (get_pair e k (buckets (hash k % num_buckets)) ∷ replies))
        (run-eq-table_run cs buckets))
  run-eq-table_run (drops k ∷ cs) buckets = rw some_bucket (run-eq-table_run cs _)

-- With one bucket or more, any sequence of `insert`, `get` and `remove` on a new map, over any hash, is
-- answered as by the map that is a function of the key and starts empty.
pub run_refines_map {ℓ κ} :
    {K : Type ℓ} {V : Type κ} (e : KeyEq K) (hash : K → ℕ) (num_buckets : ℕ)
    (calls : List (Call K V))
    → 0 < num_buckets
    → run e hash num_buckets calls (λ i. []) ≡ some (map_run e calls (λ k. none))
run_refines_map e hash num_buckets calls h =
    run-eq-table_run e hash num_buckets (==-false num_buckets 0 (λ z. omega (arith, z, h))) calls
      (λ i. [])
    ∙ ap some (
        table_run_lem (bucket_laws e) hash num_buckets calls (λ i. []) (λ k. none) (λ i. tt)
          (λ j. (bucket_laws e).lookup-nil j))
