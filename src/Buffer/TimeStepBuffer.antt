-- ===== src/Buffer/TimeStepBuffer.antt =====
-- src/traact/buffer/TimeStepBuffer.cpp: the event of a time step and its source buffers.
-- `source_buffer_list_` and `buffer_valid_` are sized by the constructor and never resized: they
-- are functions of the index, with the number of entries beside them.
use Prim.Native.String.{String}
use traact_core.Prelude.{ℕ, zero, suc, ◌==◌, if◌then◌else◌, Bool}
use traact_core.Exceptions.{Result, ok, ◌>>=◌}
use traact_core.Datatypes.{Timestamp, EventType}
use traact_core.Buffer.SourceComponentBuffer.{SourceComponentBuffer, commit, cancel, reset_lock}

pub data PortState : Type 0 where
  port_invalid port_valid : PortState

pub record TimeStepBuffer : Type 0 where
  pub current_ts : Timestamp
  pub current_message : EventType
  pub changed_pattern_instance_id : String
  pub source_count : ℕ
  pub source_buffer : ℕ → SourceComponentBuffer
  pub port_count : ℕ
  pub buffer_valid : ℕ → PortState

-- A vector with entry `i` written.
abbrev pub update {ℓ} : {A : Type ℓ} → (ℕ → A) → ℕ → A → ℕ → A
update f i v j = if j == i then v else f j

-- `setEvent(timestamp, message_type)`.
unfoldable pub set_event : Timestamp → EventType → TimeStepBuffer → TimeStepBuffer
set_event ts type b = record b {
  current_ts = ts;
  current_message = type;
  changed_pattern_instance_id = "";
}

-- `setEvent(timestamp, message_type, changed_pattern)`.
unfoldable pub set_event_changed : Timestamp → EventType → String → TimeStepBuffer → TimeStepBuffer
set_event_changed ts type pattern b = record b {
  current_ts = ts;
  current_message = type;
  changed_pattern_instance_id = pattern;
}

-- The two loops of `resetNewEvent`: each runs over the first `k` entries.
unfoldable pub reset_locks : ℕ → (ℕ → SourceComponentBuffer) → ℕ → SourceComponentBuffer
reset_locks zero f = f
reset_locks (suc k) f = let g = reset_locks k f in update g k (reset_lock (g k))

unfoldable pub reset_ports : ℕ → (ℕ → PortState) → ℕ → PortState
reset_ports zero f = f
reset_ports (suc k) f = update (reset_ports k f) k PortState.port_invalid

unfoldable pub reset_new_event : TimeStepBuffer → TimeStepBuffer
unfolding reset_locks reset_ports
reset_new_event b = record b {
  source_buffer = reset_locks b.source_count b.source_buffer;
  buffer_valid = reset_ports b.port_count b.buffer_valid;
  changed_pattern_instance_id = "";
}

-- `getSourceComponentBuffer(i)->commit(valid)` and `->cancel()`.
unfoldable pub commit_source : ℕ → Bool → TimeStepBuffer → Result TimeStepBuffer
commit_source i valid b = commit valid (b.source_buffer i) >>= λ s.
    ok (record b { source_buffer = update b.source_buffer i s })

unfoldable pub cancel_source : ℕ → TimeStepBuffer → TimeStepBuffer
cancel_source i b = record b {
  source_buffer = update b.source_buffer i (cancel (b.source_buffer i));
}
