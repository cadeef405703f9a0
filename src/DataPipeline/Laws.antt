-- ===== src/DataPipeline/Laws.antt =====
-- What data_pipeline.hpp returns, and each of its errors.
use emb_linux.Prelude.{
  ◌∙◌, sym, ◌⊎◌, ◌≡◌, ◌≢◌, ◌↔◌, inl, inr, refl, ap, List, [], ◌∷◌, map, true, false, arith,
  if◌then◌else◌, Bool-cases,
}
use emb_linux.DataPipeline.{
  Numeric, value, unexpected, invalid_scale_factor, empty_input, threshold_too_high,
  filtered_scaled, finish, process_sensor_data,
}

module _ {ℓ} {T : Type ℓ} (n : Numeric T) where
  -- The values that are not noise.
  abbrev pub signal : T → List T → List T
  signal threshold [] = []
  signal threshold (x ∷ xs) =
      if n.at_least x threshold then x ∷ signal threshold xs else signal threshold xs

  -- Every value is noise.
  abbrev pub AllNoise : T → List T → Type 0
  AllNoise threshold [] = Unit
  AllNoise threshold (x ∷ xs) = (n.at_least x threshold ≡ false) × AllNoise threshold xs

  filtered_scaled-eq-map :
      (threshold scale : T) (xs : List T)
      → filtered_scaled n threshold scale xs ≡ map (λ x. n.times x scale) (signal threshold xs)
  unfolding filtered_scaled
  filtered_scaled-eq-map threshold scale [] = refl
  filtered_scaled-eq-map threshold scale (x ∷ xs) = elim (Bool-cases (n.at_least x threshold)) [
    | inl e ↦ rw e (ap (◌∷◌ (n.times x scale)) (filtered_scaled-eq-map threshold scale xs))
    | inr e ↦ rw e (filtered_scaled-eq-map threshold scale xs)
  ]

  AllNoise-filtered_scaled :
      (threshold scale : T) (xs : List T)
      → AllNoise threshold xs
      → filtered_scaled n threshold scale xs ≡ []
  unfolding filtered_scaled
  AllNoise-filtered_scaled threshold scale [] h = refl
  AllNoise-filtered_scaled threshold scale (x ∷ xs) h =
      rw h.0 (AllNoise-filtered_scaled threshold scale xs h.1)

  filtered_scaled-AllNoise :
      (threshold scale : T) (xs : List T)
      → filtered_scaled n threshold scale xs ≡ []
      → AllNoise threshold xs
  unfolding filtered_scaled
  filtered_scaled-AllNoise threshold scale [] h = tt
  filtered_scaled-AllNoise threshold scale (x ∷ xs) h =
      ground (arith, filtered_scaled-AllNoise threshold scale xs)

  -- The errors mean what their names say: a scale factor of zero, and with any other factor an
  -- empty input, and an input that is not empty and all noise; each is returned exactly then.
  process_sensor_data_errors :
      (input : List T) (threshold scale : T)
      → ((process_sensor_data n input threshold scale ≡ unexpected invalid_scale_factor)
          ↔ (n.is_zero scale ≡ true))
        × ((process_sensor_data n input threshold scale ≡ unexpected empty_input)
            ↔ ((n.is_zero scale ≡ false) × (input ≡ [])))
        × ((process_sensor_data n input threshold scale ≡ unexpected threshold_too_high)
            ↔ ((n.is_zero scale ≡ false) × (input ≢ []) × AllNoise threshold input))
  unfolding process_sensor_data
  process_sensor_data_errors [] threshold scale = (
    (λ h. ground arith, λ h. ground arith),
    (λ h. ground arith, λ h. ground arith),
    (λ h. ground arith, λ h. ground arith),
  )
  process_sensor_data_errors (x ∷ xs) threshold scale = (
    (λ h. ground arith, λ h. ground arith),
    (λ h. ground arith, λ h. ground arith),
    (
      λ h. (
        ground arith,
        (λ e. cc),
        filtered_scaled-AllNoise threshold scale (x ∷ xs) (ground arith),
      ),
      λ h. ground (arith, AllNoise-filtered_scaled threshold scale (x ∷ xs)),
    ),
  )

  -- With a factor that is not zero and an input that is not all noise, the result is the signal of
  -- the input in its order, each value times the factor.
  process_sensor_data_value :
      (input : List T) (threshold scale : T)
      → n.is_zero scale ≡ false
      → signal threshold input ≢ []
      → process_sensor_data n input threshold scale
        ≡ value (map (λ x. n.times x scale) (signal threshold input))
  unfolding process_sensor_data
  process_sensor_data_value input threshold scale nonzero some_signal =
      rw (nonzero, filtered_scaled-eq-map threshold scale input)
        (finishes (signal threshold input) some_signal)
    where
      finishes :
          (ys : List T)
          → ys ≢ []
          → finish n (map (λ x. n.times x scale) ys) input ≡ value (map (λ x. n.times x scale) ys)
      finishes [] h = absurd (h refl)
      finishes (y ∷ ys) h = refl

  -- An input that is all noise has no value as its answer.
  no_signal :
      (input output : List T) (threshold scale : T)
      → signal threshold input ≡ []
      → process_sensor_data n input threshold scale ≢ value output
  unfolding process_sensor_data
  no_signal input output threshold scale e h = elim (Bool-cases (n.is_zero scale)) [
    | inl z ↦ ground arith
    | inr z ↦ empties input (
        sym (
          ap (λ ys. finish n ys input)
            (filtered_scaled-eq-map threshold scale input ∙ ap (map (λ x. n.times x scale)) e))
        ∙ ground arith)
  ]
    where
      empties : (xs : List T) → finish n [] xs ≢ value output
      empties [] k = cc
      empties (x ∷ xs) k = cc

  nil-cases : (xs : List T) → (xs ≡ []) ⊎ (xs ≢ [])
  nil-cases [] = inl refl
  nil-cases (x ∷ xs) = inr (λ e. cc)

  value_inj : (xs ys : List T) → value xs ≡ value ys → xs ≡ ys
  value_inj xs ys e = cc

  value-signal :
      (input output : List T) (threshold scale : T)
      → process_sensor_data n input threshold scale ≡ value output
      → (n.is_zero scale ≡ false)
        × (signal threshold input ≢ [])
        × (output ≡ map (λ x. n.times x scale) (signal threshold input))
  value-signal input output threshold scale e = elim (nil-cases (signal threshold input)) [
    | inl none_left ↦ absurd (no_signal input output threshold scale none_left e)
    | inr some_left ↦ elim (Bool-cases (n.is_zero scale)) [
      | inl z ↦
          absurd
            (unexpected-ne (sym ((process_sensor_data_errors input threshold scale).0.1 z) ∙ e))
      | inr z ↦ (
        z,
        some_left,
        value_inj output (map (λ x. n.times x scale) (signal threshold input))
            (sym e ∙ process_sensor_data_value input threshold scale z some_left),
      )
    ]
  ]
    where
      unexpected-ne : {xs : List T} → unexpected invalid_scale_factor ≢ value xs
      unexpected-ne k = cc

  -- Every answer, and exactly when it is given. A value: the scale factor is not zero and some value
  -- of the input is not noise; it is those values in their order, each times the factor. The errors: a
  -- scale factor of zero, and with any other factor an empty input, and an input that is not empty and
  -- all noise.
  pub process_sensor_data_answers :
      (input output : List T) (threshold scale : T)
      → ((process_sensor_data n input threshold scale ≡ value output) ↔ (
          (n.is_zero scale ≡ false)
          × (signal threshold input ≢ [])
          × (output ≡ map (λ x. n.times x scale) (signal threshold input))))
        × ((process_sensor_data n input threshold scale ≡ unexpected invalid_scale_factor)
            ↔ (n.is_zero scale ≡ true))
        × ((process_sensor_data n input threshold scale ≡ unexpected empty_input)
            ↔ ((n.is_zero scale ≡ false) × (input ≡ [])))
        × ((process_sensor_data n input threshold scale ≡ unexpected threshold_too_high)
            ↔ ((n.is_zero scale ≡ false) × (input ≢ []) × AllNoise threshold input))
  process_sensor_data_answers input output threshold scale =
      let (bad_scale, empty, noise) = process_sensor_data_errors input threshold scale in
      (
        (
          value-signal input output threshold scale,
          λ h.
              let (z, some_left, e) = h in
              process_sensor_data_value input threshold scale z some_left ∙ ap value (sym e),
        ),
        bad_scale,
        empty,
        noise,
      )
