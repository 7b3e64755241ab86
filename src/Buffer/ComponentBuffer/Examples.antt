-- ===== src/Buffer/ComponentBuffer/Examples.antt =====
-- The theorems about component buffers at concrete ones.
use traact_core.Prelude.{ℕ, ◌≡◌, refl, [], ◌∷◌, true, arith, zero, suc, ◌<◌, ◌==◌, if◌then◌else◌}
use traact_core.Prelude.Int.{pos, ◌+ℤ◌}
use traact_core.Exceptions.{ok}
use traact_core.Buffer.TimeStepBuffer.{PortState}
use traact_core.Buffer.ComponentBuffer.{
  PortGroupConfig, ComponentBuffer, PortStates, is_input_valid, get_input_timestamp, get_output,
  is_input_group_valid,
}
use traact_core.Buffer.ComponentBuffer.Validity.{
  Reads, AnswersAll, get_output-is_input_valid, is_input_group_valid-first,
}

abbrev one_instance : PortGroupConfig
one_instance = record { group_offset = pos 0; group_port_count = 2; size = 1 }

abbrev camera : ComponentBuffer
camera = record {
  input_valid = [];
  input_timestamp = [];
  input_groups = [];
  output_valid = 3 ∷ [];
  output_timestamp = 3 ∷ [];
  output_groups = [];
}

abbrev tracker : ComponentBuffer
tracker = record {
  input_valid = 3 ∷ 4 ∷ [];
  input_timestamp = 3 ∷ 4 ∷ [];
  input_groups = one_instance ∷ [];
  output_valid = [];
  output_timestamp = [];
  output_groups = one_instance ∷ [];
}

-- Port 3 is valid, port 4 is not.
abbrev states : PortStates
states = record {
  buffer_valid = λ p. if p == 3 then PortState.port_valid else PortState.port_invalid;
  buffer_timestamp = λ p. pos 0;
}

get_output-is_input_valid_example :
    (t : PortStates) × (get_output 0 (pos 100) camera states ≡ ok t)
    × (is_input_valid 0 tracker t ≡ ok true)
    × (get_input_timestamp 0 tracker t ≡ ok (pos 100))
get_output-is_input_valid_example =
    get_output-is_input_valid camera tracker 0 0 3 3 (pos 100) states refl refl refl refl

first_read : (i : ℕ) → i < 1 → Reads one_instance 0 tracker i 3
unfolding ◌+ℤ◌
first_read zero h = (0, refl, refl)
first_read (suc i) h = absurd (omega arith)

-- The second port of the one instance is not valid.
is_input_group_valid-first_example :
    AnswersAll 1 (λ i. 3) states (is_input_group_valid 0 0 tracker states)
is_input_group_valid-first_example =
    is_input_group_valid-first 0 0 one_instance one_instance tracker states (λ i. 3) refl refl
      first_read
