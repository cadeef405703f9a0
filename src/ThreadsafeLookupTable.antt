-- ===== src/ThreadsafeLookupTable.antt =====
-- C++_ConcurrencyInAction/designLockBase/dataStructures.hpp: `threadsafe_lookup_table`. A bucket is
-- its `std::list` of pairs, an iterator into it the number of elements before, and `none` is
-- `data.end()`. Each call but `get_map` holds the lock of its one bucket, so it is one action.
pub mod Laws
mod Tests
use emb_linux.Prelude.{
  ◌==◌, ◌>>=◌, ℕ, zero, suc, ◌%◌, List, [], ◌∷◌, ◌++◌, Option, none, some, if◌then◌else◌, update,
}
use emb_linux.Table.{KeyEq, Bucket, Call, puts, gets, drops}

module _ {ℓ κ} {K : Type ℓ} {V : Type κ} where
  -- `second` through an iterator; the default stands for a read past the end.
  pub second_at : ℕ → Bucket K V → V → V
  second_at n [] d = d
  second_at zero ((k, v) ∷ rest) d = v
  second_at (suc n) (p ∷ rest) d = second_at n rest d

  pub assign_second : ℕ → V → Bucket K V → Bucket K V
  assign_second n value [] = []
  assign_second zero value ((k, v) ∷ rest) = (k, value) ∷ rest
  assign_second (suc n) value (p ∷ rest) = p ∷ assign_second n value rest

  pub erase_at : ℕ → Bucket K V → Bucket K V
  erase_at n [] = []
  erase_at zero (p ∷ rest) = rest
  erase_at (suc n) (p ∷ rest) = p ∷ erase_at n rest

abbrev next_place : Option ℕ → Option ℕ
next_place none = none
next_place (some n) = some (suc n)

module _ {ℓ κ} {K : Type ℓ} {V : Type κ} (e : KeyEq K) where
  pub find_entry_for : K → Bucket K V → Option ℕ
  find_entry_for key [] = none
  find_entry_for key ((k, v) ∷ rest) =
      if e.beq k key then some 0 else next_place (find_entry_for key rest)

  pub value_in : K → V → Bucket K V → V
  unfolding find_entry_for second_at
  value_in key default_value b = elim (find_entry_for key b) [
    | none ↦ default_value
    | some found ↦ second_at found b default_value
  ]

  pub add_or_update_in : K → V → Bucket K V → Bucket K V
  unfolding find_entry_for assign_second
  add_or_update_in key value b = elim (find_entry_for key b) [
    | none ↦ b ++ ((key, value) ∷ [])
    | some found ↦ assign_second found value b
  ]

  pub remove_in : K → Bucket K V → Bucket K V
  unfolding find_entry_for erase_at
  remove_in key b = elim (find_entry_for key b) [ none ↦ b | some found ↦ erase_at found b ]

-- The calls of a client; each `value_for` has a default of its own.
pub data TableCall {ℓ κ} (K : Type ℓ) (V : Type κ) : Type (ℓ ⊔ κ) where
  adds : K → V → TableCall K V
  asks : K → V → TableCall K V
  removes : K → TableCall K V

module _ {ℓ} {K : Type ℓ} (hasher : K → ℕ) (size : ℕ) where
  -- The index of the bucket. `none` is a remainder by zero, which is undefined.
  abbrev pub get_bucket : K → Option ℕ
  get_bucket key = if size == 0 then none else some (hasher key % size)

module _ {ℓ κ} {K : Type ℓ} {V : Type κ} (e : KeyEq K) (hasher : K → ℕ) (size : ℕ) where
  pub value_for : K → V → (ℕ → Bucket K V) → Option V
  unfolding value_in
  value_for key default_value buckets = do
    i ← get_bucket hasher size key
    some (value_in e key default_value (buckets i))

  pub add_or_update_mapping : K → V → (ℕ → Bucket K V) → Option (ℕ → Bucket K V)
  unfolding add_or_update_in
  add_or_update_mapping key value buckets = do
    i ← get_bucket hasher size key
    some (update buckets i (add_or_update_in e key value (buckets i)))

  pub remove_mapping : K → (ℕ → Bucket K V) → Option (ℕ → Bucket K V)
  unfolding remove_in
  remove_mapping key buckets = do
    i ← get_bucket hasher size key
    some (update buckets i (remove_in e key (buckets i)))

  -- A client's calls, with what each `value_for` returns.
  pub run : List (TableCall K V) → (ℕ → Bucket K V) → Option (List V)
  unfolding value_for add_or_update_mapping remove_mapping
  run [] buckets = some []
  run (adds key value ∷ rest) buckets = do
    buckets' ← add_or_update_mapping key value buckets
    run rest buckets'
  run (asks key default_value ∷ rest) buckets = do
    reply ← value_for key default_value buckets
    replies ← run rest buckets
    some (reply ∷ replies)
  run (removes key ∷ rest) buckets = do buckets' ← remove_mapping key buckets; run rest buckets'
