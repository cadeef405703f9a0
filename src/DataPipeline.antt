-- ===== src/DataPipeline.antt =====
-- modern_cpp_core/patterns/data_pipeline.hpp. The value type of the range is a parameter with its
-- `>=`, its product and its test for zero, so every number type of the concept `numeric` is one.
pub mod Laws
mod Tests
use emb_linux.Prelude.{List, [], ◌∷◌, Bool, true, false, if◌then◌else◌}

pub data PipelineError : Type 0 where
  invalid_scale_factor : PipelineError
  empty_input : PipelineError
  threshold_too_high : PipelineError

-- `std::expected`
pub data Expected {ℓ} (A : Type ℓ) : Type ℓ where
  value : A → Expected A
  unexpected : PipelineError → Expected A

-- What `process_sensor_data` uses of the value type.
pub record Numeric {ℓ} (T : Type ℓ) : Type ℓ where
  pub at_least : T → T → Bool
  pub times : T → T → T
  pub is_zero : T → Bool

module _ {ℓ} {T : Type ℓ} (n : Numeric T) where
  -- The two views, taken value by value into `result`.
  pub filtered_scaled : T → T → List T → List T
  filtered_scaled noise_threshold scale_factor [] = []
  filtered_scaled noise_threshold scale_factor (x ∷ xs) =
      if n.at_least x noise_threshold
      then n.times x scale_factor ∷ filtered_scaled noise_threshold scale_factor xs
      else filtered_scaled noise_threshold scale_factor xs

  -- The answer for an empty result, by `std::ranges::empty(input)`.
  empty_result : List T → Expected (List T)
  empty_result [] = unexpected empty_input
  empty_result (x ∷ xs) = unexpected threshold_too_high

  finish : List T → List T → Expected (List T)
  unfolding empty_result
  finish [] input = empty_result input
  finish (y ∷ ys) input = value (y ∷ ys)

  pub process_sensor_data : List T → T → T → Expected (List T)
  unfolding filtered_scaled finish
  process_sensor_data input noise_threshold scale_factor =
      if n.is_zero scale_factor
      then unexpected invalid_scale_factor
      else finish (filtered_scaled noise_threshold scale_factor input) input
