-- ===== src/Table/Laws.antt =====
-- Tables of buckets against the map from keys to values.
use emb_linux.Prelude.{
  update_eq, update_ne, subst, ◌≢◌, ℕ, ◌%◌, List, [], ◌∷◌, Option, none, some, Bool, true, false,
  ◌≡◌, ◌↔◌, refl, sym, ap, ap₂, ◌∙◌, inl, inr, arith, update, if◌then◌else◌, ◌==◌, Bool-cases,
  ==→eq,
}

-- `operator==` of the keys, which decides equality.
pub record KeyEq {ℓ} (K : Type ℓ) : Type ℓ where
  pub beq : K → K → Bool
  pub beq_iff : (a b : K) → (beq a b ≡ true) ↔ (a ≡ b)

pub beq_self {ℓ} : {K : Type ℓ} (e : KeyEq K) (k : K) → e.beq k k ≡ true
beq_self e k = (e.beq_iff k k).1 refl

abbrev pub Bucket {ℓ κ} : Type ℓ → Type κ → Type (ℓ ⊔ κ)
Bucket K V = List (K × V)

-- The functions of a bucket and what a table relies on.
pub record BucketLaws {ℓ κ} (K : Type ℓ) (V : Type κ) (e : KeyEq K) : Type ((ℓ ⊔ κ) + 1) where
  pub lookup : K → Bucket K V → Option V
  pub write : K → V → Bucket K V → Bucket K V
  pub erase : K → Bucket K V → Bucket K V
  pub Valid : Bucket K V → Type (ℓ ⊔ κ)
  pub lookup-nil : (j : K) → lookup j [] ≡ none
  pub lookup-write :
      (k j : K) (v : V) (b : Bucket K V)
      → lookup j (write k v b) ≡ (if e.beq k j then some v else lookup j b)
  pub lookup-erase :
      (k j : K) (b : Bucket K V)
      → Valid b
      → lookup j (erase k b) ≡ (if e.beq k j then none else lookup j b)
  pub nil-Valid : Valid []
  pub write-Valid : (k : K) (v : V) (b : Bucket K V) → Valid b → Valid (write k v b)
  pub erase-Valid : (k : K) (b : Bucket K V) → Valid b → Valid (erase k b)

-- The calls of a client, and the map that it should see.
pub data Call {ℓ κ} (K : Type ℓ) (V : Type κ) : Type (ℓ ⊔ κ) where
  puts : K → V → Call K V
  gets : K → Call K V
  drops : K → Call K V

module _ {ℓ κ} {K : Type ℓ} {V : Type κ} (e : KeyEq K) where
  -- The replies of a map that is just a function of the key.
  abbrev pub map_run : List (Call K V) → (K → Option V) → List (Option V)
  map_run [] m = []
  map_run (puts k v ∷ cs) m = map_run cs (λ j. if e.beq k j then some v else m j)
  map_run (gets k ∷ cs) m = m k ∷ map_run cs m
  map_run (drops k ∷ cs) m = map_run cs (λ j. if e.beq k j then none else m j)

module _ {ℓ κ} {K : Type ℓ} {V : Type κ} (hash : K → ℕ) (num_buckets : ℕ) where
  -- The table after a call on the bucket of `k`.
  abbrev pub modify_bucket : K → (Bucket K V → Bucket K V) → (ℕ → Bucket K V) → ℕ → Bucket K V
  modify_bucket k f table = update table (hash k % num_buckets) (f (table (hash k % num_buckets)))

module _ {ℓ κ} {K : Type ℓ} {V : Type κ} {e : KeyEq K} (laws : BucketLaws K V e) (hash : K → ℕ)
    (num_buckets : ℕ) where
  open laws use {lookup, write, erase, Valid}

  abbrev pub table_lookup : K → (ℕ → Bucket K V) → Option V
  table_lookup j table = lookup j (table (hash j % num_buckets))

  -- A change of one bucket that changes its lookups only at `k` changes the table's only there.
  pub lookup-modify :
      (k j : K) (f : Bucket K V → Bucket K V) (r : Option V) (table : ℕ → Bucket K V)
      → ((i : K)
          → lookup i (f (table (hash k % num_buckets)))
            ≡ (if e.beq k i then r else lookup i (table (hash k % num_buckets))))
      → table_lookup j (modify_bucket hash num_buckets k f table)
        ≡ (if e.beq k j then r else table_lookup j table)
  lookup-modify k j f r table h = elim (Bool-cases (hash k % num_buckets == hash j % num_buckets)) [
    | inl same ↦
        ap (lookup j) (update_eq table (at k) (at j) (f (table (at k))) (==→eq _ _ same))
        ∙ h j
        ∙ ap (λ i. if e.beq k j then r else lookup j (table i)) (==→eq _ _ same)
    | inr other ↦
        ap (lookup j) (update_ne table (at k) (at j) (f (table (at k))) (apart other))
        ∙ sym (ap (λ b. if b then r else lookup j (table (at j))) (keys_apart other))
  ]
    where
      at : K → ℕ
      at i = hash i % num_buckets

      apart : (hash k % num_buckets == hash j % num_buckets) ≡ false → at k ≢ at j
      apart other same = ground (arith, same)

      keys_apart : (hash k % num_buckets == hash j % num_buckets) ≡ false → e.beq k j ≡ false
      keys_apart other = elim (Bool-cases (e.beq k j)) [
        | inl same ↦ absurd (apart other (ap at ((e.beq_iff k j).0 same)))
        | inr differ ↦ differ
      ]

  abbrev pub AllValid : (ℕ → Bucket K V) → Type (ℓ ⊔ κ)
  AllValid table = (i : ℕ) → Valid (table i)

  pub modify-AllValid :
      (k : K) (f : Bucket K V → Bucket K V) (table : ℕ → Bucket K V)
      → AllValid table
      → Valid (f (table (hash k % num_buckets)))
      → AllValid (modify_bucket hash num_buckets k f table)
  modify-AllValid k f table all v i = elim (Bool-cases (hash k % num_buckets == i)) [
    | inl same ↦
        subst Valid (sym (update_eq table _ i (f (table (hash k % num_buckets))) (==→eq _ _ same)))
          v
    | inr other ↦
        subst Valid (sym (ap (λ b. if b then f (table (hash k % num_buckets)) else table i) other))
          (all i)
  ]

  -- The calls made one after the other on a table, with the reply of each `gets`.
  unfoldable pub table_run : List (Call K V) → (ℕ → Bucket K V) → List (Option V)
  table_run [] table = []
  table_run (puts k v ∷ cs) table =
      table_run cs (modify_bucket hash num_buckets k (write k v) table)
  table_run (gets k ∷ cs) table = table_lookup k table ∷ table_run cs table
  table_run (drops k ∷ cs) table = table_run cs (modify_bucket hash num_buckets k (erase k) table)

  pub table_run_lem :
      (cs : List (Call K V)) (table : ℕ → Bucket K V) (m : K → Option V)
      → AllValid table
      → ((j : K) → table_lookup j table ≡ m j)
      → table_run cs table ≡ map_run e cs m
  unfolding table_run
  table_run_lem [] table m all h = refl
  table_run_lem (puts k v ∷ cs) table m all h =
      table_run_lem cs (modify_bucket hash num_buckets k (write k v) table)
        (λ j. if e.beq k j then some v else m j)
        (modify-AllValid k (write k v) table all (laws.write-Valid k v _ (all _)))
        (λ j.
          lookup-modify k j (write k v) (some v) table (λ i. laws.lookup-write k i v _)
          ∙ ap (λ r. if e.beq k j then some v else r) (h j))
  table_run_lem (gets k ∷ cs) table m all h = ap₂ ◌∷◌ (h k) (table_run_lem cs table m all h)
  table_run_lem (drops k ∷ cs) table m all h =
      table_run_lem cs (modify_bucket hash num_buckets k (erase k) table)
        (λ j. if e.beq k j then none else m j)
        (modify-AllValid k (erase k) table all (laws.erase-Valid k _ (all _)))
        (λ j.
          lookup-modify k j (erase k) none table (λ i. laws.lookup-erase k i _ (all _))
          ∙ ap (λ r. if e.beq k j then none else r) (h j))
