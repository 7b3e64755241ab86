-- ===== src/Buffer/SourceComponentBuffer.antt =====
-- src/traact/buffer/SourceComponentBuffer.cpp. `source_lock_`, a `std::promise<bool>`, is the value
-- that it was given and whether its future was taken.
use traact_core.Prelude.{Bool, true, false, Option, none, some}
use traact_core.Exceptions.{Result, ok, throws, promise_already_satisfied, future_already_retrieved}

pub record SourceComponentBuffer : Type 0 where
  pub lock_value : Option Bool
  pub lock_retrieved : Bool

abbrev pub fresh_lock : SourceComponentBuffer
fresh_lock = record { lock_value = none; lock_retrieved = false }

-- `set_value` throws if the promise has its value.
unfoldable pub commit : Bool → SourceComponentBuffer → Result SourceComponentBuffer
commit valid b = elim b.lock_value [
  | none ↦ ok (record b { lock_value = some valid })
  | some _ ↦ throws promise_already_satisfied
]

-- `cancel` commits true and logs the exception of a promise that has its value.
unfoldable pub cancel : SourceComponentBuffer → SourceComponentBuffer
cancel b = elim b.lock_value [ none ↦ record b { lock_value = some true } | some _ ↦ b ]

-- `get_future` throws if the future was taken.
unfoldable pub get_source_lock : SourceComponentBuffer → Result SourceComponentBuffer
get_source_lock b = elim b.lock_retrieved [
  | false ↦ ok (record b { lock_retrieved = true })
  | true ↦ throws future_already_retrieved
]

-- `source_lock_ = {}`.
unfoldable pub reset_lock : SourceComponentBuffer → SourceComponentBuffer
reset_lock b = fresh_lock
