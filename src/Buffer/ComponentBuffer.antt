-- ===== src/Buffer/ComponentBuffer.antt =====
-- src/traact/buffer/ComponentBuffer.cpp and include/traact/buffer/ComponentBuffer.h: how a component
-- sees its ports. The pointers of a component into the port states and timestamps of its time step
-- are the positions there; the values of the ports themselves are not modelled.
pub mod Validity
mod Examples
use traact_core.Prelude.{
  ℕ, zero, suc, ◌+◌, ◌*◌, List, [], ◌∷◌, Bool, true, false, ◌&&◌, ◌==◌, if◌then◌else◌, Option, none,
  some, get_elem?,
}
use traact_core.Prelude.Int.{ℤ, pos, negsuc, ◌+ℤ◌}
use traact_core.Exceptions.{Result, ok, throws, undefined_access, ◌>>=◌}
use traact_core.Datatypes.{Timestamp}
use traact_core.Buffer.TimeStepBuffer.{PortState, update}

pub record PortGroupConfig : Type 0 where
  pub group_offset : ℤ
  pub group_port_count : ℕ
  pub size : ℕ

pub record ComponentBuffer : Type 0 where
  pub input_valid : List ℕ
  pub input_timestamp : List ℕ
  pub input_groups : List PortGroupConfig
  pub output_valid : List ℕ
  pub output_timestamp : List ℕ
  pub output_groups : List PortGroupConfig

-- `buffer_valid_` and `buffer_timestamp_` of the time step.
pub record PortStates : Type 0 where
  pub buffer_valid : ℕ → PortState
  pub buffer_timestamp : ℕ → Timestamp

abbrev pub is_valid : PortState → Bool
is_valid PortState.port_valid = true
is_valid PortState.port_invalid = false

-- An element of a vector, read by `[]`.
abbrev pub checked : Option ℕ → Result ℕ
checked none = throws undefined_access
checked (some p) = ok p

abbrev pub read_at : List ℕ → ℕ → Result ℕ
read_at xs index = checked (get_elem? xs index)

unfoldable pub is_input_valid : ℕ → ComponentBuffer → PortStates → Result Bool
is_input_valid index b s = read_at b.input_valid index >>= λ p. ok (is_valid (s.buffer_valid p))

unfoldable pub get_input_timestamp : ℕ → ComponentBuffer → PortStates → Result Timestamp
get_input_timestamp index b s = read_at b.input_timestamp index >>= λ p. ok (s.buffer_timestamp p)

-- `getOutput(index, timestamp)`: what it does before it returns the value to write to.
unfoldable pub get_output : ℕ → Timestamp → ComponentBuffer → PortStates → Result PortStates
get_output index timestamp b s = read_at b.output_valid index >>= λ p.
    read_at b.output_timestamp index >>= λ q. ok (record s {
      buffer_valid = update s.buffer_valid p PortState.port_valid;
      buffer_timestamp = update s.buffer_timestamp q timestamp;
    })

unfoldable pub set_output_invalid : ℕ → ComponentBuffer → PortStates → Result PortStates
set_output_invalid index b s = read_at b.output_valid index >>= λ p.
    ok (record s { buffer_valid = update s.buffer_valid p PortState.port_invalid })

-- The loop of `isAllInputValid`.
unfoldable pub all_valid : List ℕ → PortStates → Bool
all_valid [] s = true
all_valid (p ∷ ps) s = let rest = all_valid ps s in is_valid (s.buffer_valid p) && rest

unfoldable pub is_all_input_valid : ComponentBuffer → PortStates → Bool
unfolding all_valid
is_all_input_valid b s = all_valid b.input_valid s

-- `result && isInputValid(kIndex)`; a negative index is out of range.
abbrev pub and_input_valid : Bool → ℤ → ComponentBuffer → PortStates → Result Bool
and_input_valid false index b s = ok false
and_input_valid true (pos index) b s = is_input_valid index b s
and_input_valid true (negsuc index) b s = throws undefined_access

-- The loop of `isInputGroupValid` from `port_index` on, with `k` rounds left, over the configuration
-- of the output group.
unfoldable pub group_loop :
    ℕ → ℕ → Bool → PortGroupConfig → ℕ → ComponentBuffer → PortStates → Result Bool
group_loop zero port_index result output instance_index b s = ok result
group_loop (suc k) port_index result output instance_index b s =
    and_input_valid result
      (output.group_offset +ℤ pos (output.group_port_count * instance_index + port_index)) b s
    >>= λ r. group_loop k (port_index + 1) r output instance_index b s

-- `isInputGroupValid`: as many rounds as the input group has instances. The configuration of the
-- output group is read in each round only.
unfoldable pub group_valid :
    Option PortGroupConfig → Option PortGroupConfig → ℕ → ComponentBuffer → PortStates → Result Bool
unfolding group_loop
group_valid (some input) (some output) instance_index b s =
    group_loop input.size 0 true output instance_index b s
group_valid (some input) none instance_index b s =
    if input.size == 0 then ok true else throws undefined_access
group_valid none output instance_index b s = throws undefined_access

unfoldable pub is_input_group_valid : ℕ → ℕ → ComponentBuffer → PortStates → Result Bool
unfolding group_valid
is_input_group_valid group_index instance_index b s =
    group_valid (get_elem? b.input_groups group_index) (get_elem? b.output_groups group_index)
      instance_index b s
