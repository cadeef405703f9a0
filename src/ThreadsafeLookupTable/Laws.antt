-- ===== src/ThreadsafeLookupTable/Laws.antt =====
-- The `threadsafe_lookup_table` of dataStructures.hpp against a map from keys to values.
use emb_linux.Prelude.{
  ◌==◌, ◌>>=◌, ◌<◌, false, ==-false, ℕ, ◌%◌, List, [], ◌∷◌, Option, none, some, ◌≡◌, refl, ap, ◌∙◌,
  arith, if◌then◌else◌, map,
}
use emb_linux.Table.{
  KeyEq, Bucket, BucketLaws, Call, puts, gets, drops, map_run, table_run, table_run_lem,
}
use emb_linux.ThreadsafeLookupTable.{
  TableCall, adds, asks, removes, value_in, add_or_update_in, remove_in, run,
}

abbrev pub value_or {κ} : {V : Type κ} → V → Option V → V
value_or d none = d
value_or d (some v) = v

module _ {ℓ κ} {K : Type ℓ} {V : Type κ} (e : KeyEq K) where
  -- The value of the first pair with the key, and the bucket with its first pair written or left out.
  abbrev pub first_value : K → Bucket K V → Option V
  first_value key [] = none
  first_value key ((k, v) ∷ rest) = if e.beq k key then some v else first_value key rest

  abbrev write_first : K → V → Bucket K V → Bucket K V
  write_first key value [] = (key, value) ∷ []
  write_first key value ((k, v) ∷ rest) =
      if e.beq k key then (k, value) ∷ rest else (k, v) ∷ write_first key value rest

  abbrev erase_first : K → Bucket K V → Bucket K V
  erase_first key [] = []
  erase_first key ((k, v) ∷ rest) = if e.beq k key then rest else (k, v) ∷ erase_first key rest

  value_in-eq :
      (k : K) (d : V) (b : Bucket K V)
      → value_in e k d b ≡ elim (first_value k b) [ none ↦ d | some v ↦ v ]
  unfolding value_in
  value_in-eq k d [] = refl
  value_in-eq k d ((i, w) ∷ b) = ground (arith, value_in-eq k d b)

  add_or_update_in-eq :
      (k : K) (v : V) (b : Bucket K V) → add_or_update_in e k v b ≡ write_first k v b
  unfolding add_or_update_in
  add_or_update_in-eq k v [] = refl
  add_or_update_in-eq k v ((i, w) ∷ b) = ground (arith, add_or_update_in-eq k v b)

  remove_in-eq : (k : K) (b : Bucket K V) → remove_in e k b ≡ erase_first k b
  unfolding remove_in
  remove_in-eq k [] = refl
  remove_in-eq k ((i, w) ∷ b) = ground (arith, remove_in-eq k b)

  -- No key stands twice in a bucket.
  abbrev pub Distinct : Bucket K V → Type (ℓ ⊔ κ)
  Distinct [] = Unit
  Distinct ((k, v) ∷ rest) = (first_value k rest ≡ none) × Distinct rest

  first_value-write :
      (k j : K) (v : V) (b : Bucket K V)
      → first_value j (write_first k v b) ≡ (if e.beq k j then some v else first_value j b)
  first_value-write k j v [] = refl
  first_value-write k j v ((i, w) ∷ b) = grind (arith, e.beq_iff, first_value-write k j v b)

  first_value-erase :
      (k j : K) (b : Bucket K V)
      → Distinct b
      → first_value j (erase_first k b) ≡ (if e.beq k j then none else first_value j b)
  first_value-erase k j [] h = ground arith
  first_value-erase k j ((i, w) ∷ b) h = grind (arith, e.beq_iff, first_value-erase k j b)

  write_first-Distinct :
      (k : K) (v : V) (b : Bucket K V) → Distinct b → Distinct (write_first k v b)
  write_first-Distinct k v [] h = (refl, tt)
  write_first-Distinct k v ((i, w) ∷ b) h =
      grind (arith, e.beq_iff, write_first-Distinct k v b, first_value-write k i v b)

  erase_first-Distinct : (k : K) (b : Bucket K V) → Distinct b → Distinct (erase_first k b)
  erase_first-Distinct k [] h = tt
  erase_first-Distinct k ((i, w) ∷ b) h =
      grind (arith, e.beq_iff, erase_first-Distinct k b, first_value-erase k i b)

  abbrev bucket_laws : BucketLaws K V e
  bucket_laws = record {
    lookup = first_value;
    write = write_first;
    erase = erase_first;
    Valid = Distinct;
    lookup-nil = λ j. refl;
    lookup-write = first_value-write;
    lookup-erase = first_value-erase;
    nil-Valid = tt;
    write-Valid = write_first-Distinct;
    erase-Valid = erase_first-Distinct;
  }

-- The calls as those of a map, and the defaults of the calls that read.
abbrev pub plain {ℓ κ} : {K : Type ℓ} {V : Type κ} → TableCall K V → Call K V
plain (adds k v) = puts k v
plain (asks k d) = gets k
plain (removes k) = drops k

abbrev pub defaults {ℓ κ} : {K : Type ℓ} {V : Type κ} → List (TableCall K V) → List V
defaults [] = []
defaults (adds k v ∷ cs) = defaults cs
defaults (asks k d ∷ cs) = d ∷ defaults cs
defaults (removes k ∷ cs) = defaults cs

-- Each answer, or the default of its call where there is none.
abbrev pub with_defaults {κ} : {V : Type κ} → List V → List (Option V) → List V
with_defaults [] os = []
with_defaults (d ∷ ds) [] = []
with_defaults (d ∷ ds) (o ∷ os) = value_or d o ∷ with_defaults ds os

module _ {ℓ κ} {K : Type ℓ} {V : Type κ} (e : KeyEq K) (hasher : K → ℕ) (size : ℕ)
    (some_bucket : (size == 0) ≡ false) where
  run-eq-table_run :
      (calls : List (TableCall K V)) (buckets : ℕ → Bucket K V)
      → run e hasher size calls buckets
        ≡ some (
            with_defaults
              (defaults calls)
              (table_run (bucket_laws e) hasher size (map plain calls) buckets))
  unfolding run table_run
  run-eq-table_run [] buckets = refl
  run-eq-table_run (adds k v ∷ cs) buckets =
      rw (some_bucket, add_or_update_in-eq e k v (buckets (hasher k % size)))
        (run-eq-table_run cs _)
  run-eq-table_run (asks k d ∷ cs) buckets = rw some_bucket (
      ap (λ o. o >>= λ replies. some (value_in e k d (buckets (hasher k % size)) ∷ replies))
        (run-eq-table_run cs buckets)
      ∙ ap
          (λ v. some (
            v
            ∷ with_defaults (defaults cs) (
                table_run (bucket_laws {V = V} e) hasher size (map (plain {K = K} {V = V}) cs)
                  buckets)))
          (value_in-eq e k d (buckets (hasher k % size)) ∙ ground arith))
  run-eq-table_run (removes k ∷ cs) buckets =
      rw (some_bucket, remove_in-eq e k (buckets (hasher k % size))) (run-eq-table_run cs _)

-- With one bucket or more, any sequence of `add_or_update_mapping`, `value_for` and `remove_mapping` on a
-- new table, over any hash, is answered as by the map that is a function of the key and starts empty,
-- with the default of the call where that map has none.
pub run_refines_table {ℓ κ} :
    {K : Type ℓ} {V : Type κ} (e : KeyEq K) (hasher : K → ℕ) (size : ℕ)
    (calls : List (TableCall K V))
    → 0 < size
    → run e hasher size calls (λ i. [])
      ≡ some (with_defaults (defaults calls) (map_run e (map plain calls) (λ k. none)))
run_refines_table e hasher size calls h =
    run-eq-table_run e hasher size (==-false size 0 (λ z. omega (arith, z, h))) calls (λ i. [])
    ∙ ap (λ os. some (with_defaults (defaults calls) os))
        (table_run_lem (bucket_laws e) hasher size (map plain calls) (λ i. []) (λ k. none) (λ i. tt)
          (λ j. refl))
