-- ===== src/DataPipeline/Tests.antt =====
-- Runs of data_pipeline.hpp, and its theorem at concrete inputs.
use emb_linux.Prelude.{ℕ, ◌*◌, ◌≡◌, ◌≢◌, ◌↔◌, map, List, [], ◌∷◌, ◌==◌, leb, true, false}
use emb_linux.DataPipeline.{
  Numeric, value, unexpected, invalid_scale_factor, empty_input, threshold_too_high,
  process_sensor_data,
}
use emb_linux.DataPipeline.Laws.{AllNoise, signal, process_sensor_data_answers}

abbrev unsigned : Numeric ℕ
unsigned = record { at_least = λ a b. leb b a; times = ◌*◌; is_zero = λ a. a == 0 }

abbrev readings : List ℕ
readings = 1 ∷ 5 ∷ 2 ∷ 7 ∷ []

abbrev ten : ℕ
ten = 10

process_sensor_data_answers_example :
    ((process_sensor_data unsigned readings 3 ten ≡ value (50 ∷ 70 ∷ [])) ↔ (
      ((ten == 0) ≡ false)
      × (signal unsigned 3 readings ≢ [])
      × ((50 ∷ 70 ∷ []) ≡ map (λ x. x * ten) (signal unsigned 3 readings))))
    × ((process_sensor_data unsigned readings 3 ten ≡ unexpected invalid_scale_factor)
        ↔ ((ten == 0) ≡ true))
    × ((process_sensor_data unsigned readings 3 ten ≡ unexpected empty_input)
        ↔ (((ten == 0) ≡ false) × (readings ≡ [])))
    × ((process_sensor_data unsigned readings 3 ten ≡ unexpected threshold_too_high)
        ↔ (((ten == 0) ≡ false) × (readings ≢ []) × AllNoise unsigned 3 readings))
process_sensor_data_answers_example =
    process_sensor_data_answers unsigned readings (50 ∷ 70 ∷ []) 3 ten
