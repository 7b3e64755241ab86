-- ===== src/Dataflow/Scheduler/Cancelled.antt =====
-- What cancelling older events changes, and what it makes fail.
use traact_core.Prelude.{
  ℕ, zero, suc, ◌≡◌, ◌≢◌, ◌<◌, ◌↔◌, ◌⊎◌, sym, false, refl, ap, ◌∙◌, List, [], ◌∷◌, ◌++◌, Bool, true,
  ◌&&◌, arith, ltb, ◌==◌, if◌then◌else◌, Bool-cases, inl, inr, append_assoc, ==_iff, Option-cases,
}
use traact_core.Prelude.Int.{◌+ℤ◌, ◌-ℤ◌, ◌<ℤ◌}
use traact_core.Exceptions.{Result, throws, promise_already_satisfied, ◌>>=◌}
use traact_core.Datatypes.{Timestamp}
use traact_core.Util.Semaphore.{notify_all}
use traact_core.Buffer.SourceComponentBuffer.{commit}
use traact_core.Buffer.TimeStepBuffer.{commit_source}
use traact_core.Dataflow.Scheduler.State.{Scheduler, ScheduledEvent, is_data, latest_index}
use traact_core.Dataflow.Scheduler.Slots.{commit_input, commit_invalid, commit_event}
use traact_core.Dataflow.Scheduler.Cancel.{
  is_outdated, cancel_in_time_step, cancel_in_time_steps, cancel_in_message,
}
use traact_core.Dataflow.Scheduler.Commit.{lock, commit_input-ok, input_committed}

-- `t` is `s` but for the inputs and the buffers of time steps.
record SameRun (s t : Scheduler) : Type 0 where
  same_config : t.config ≡ s.config
  same_running : t.running_taskflows ≡ s.running_taskflows
  same_stamps : t.running_timestamps ≡ s.running_timestamps
  same_queue : t.queued_messages ≡ s.queued_messages
  same_free : t.free_taskflows ≡ s.free_taskflows
  same_latest : t.time_step_latest ≡ s.time_step_latest

cancel_in_time_steps-SameRun :
    (k : ℕ) (ts : Timestamp) (c : ℕ) (s : Scheduler) → SameRun s (cancel_in_time_steps k ts c s)
unfolding cancel_in_time_steps cancel_in_time_step
cancel_in_time_steps-SameRun zero ts c s = record {
  same_config = refl;
  same_running = refl;
  same_stamps = refl;
  same_queue = refl;
  same_free = refl;
  same_latest = refl;
}
cancel_in_time_steps-SameRun (suc k) ts c s =
    let v = cancel_in_time_steps-SameRun k ts c s in
    record {
      same_config = ground (arith, v.same_config);
      same_running = ground (arith, v.same_running);
      same_stamps = ground (arith, v.same_stamps);
      same_queue = ground (arith, v.same_queue);
      same_free = ground (arith, v.same_free);
      same_latest = ground (arith, v.same_latest);
    }

-- One round, with the test shut.
input-cancel_in_time_step :
    (ts : Timestamp) (c k : ℕ) (s : Scheduler) (i j : ℕ)
    → (cancel_in_time_step ts c k s).source_set_input i j ≡ (
        if i == c
        then (if (j == k) && is_outdated ts c k s then true else s.source_set_input i j)
        else s.source_set_input i j)
unfolding cancel_in_time_step
input-cancel_in_time_step ts c k s i j = elim (Bool-cases (is_outdated ts c k s)) [
  | inl e ↦ rw (e, cancel_in_time_step) (ground arith)
  | inr e ↦ rw (e, cancel_in_time_step) (ground arith)
]

-- Only the input of the time step itself and what does not change enter the test.
is_outdated-same :
    (ts : Timestamp) (c k : ℕ) (s t : Scheduler)
    → SameRun s t
    → t.source_set_input c k ≡ s.source_set_input c k
    → is_outdated ts c k t ≡ is_outdated ts c k s
unfolding is_outdated
is_outdated-same ts c k s t v e =
    let run : t.running_taskflows k ≡ s.running_taskflows k =
      ap (λ (f : ℕ → Bool). f k) v.same_running in
    let stamp : t.running_timestamps k ≡ s.running_timestamps k =
      ap (λ (f : ℕ → Timestamp). f k) v.same_stamps in
    let offset = ap (λ g. g.max_offset) v.same_config in rw (e, run, stamp, offset)

abbrev marked : ℕ → Timestamp → ℕ → Scheduler → ℕ → ℕ → Bool
marked k ts c s i j =
    if i == c
    then (if ltb j k && is_outdated ts c j s then true else s.source_set_input i j)
    else s.source_set_input i j

marked_next :
    (k : ℕ) (ts : Timestamp) (c : ℕ) (s : Scheduler) (i j : ℕ)
    → (if i == c
        then (if (j == k) && is_outdated ts c k s then true else marked k ts c s i j)
        else marked k ts c s i j)
      ≡ marked (suc k) ts c s i j
marked_next k ts c s i j = elim (Bool-cases (j == k)) [
  | inl e ↦
      let same : is_outdated ts c j s ≡ is_outdated ts c k s =
        ap (λ x. is_outdated ts c x s) ((==_iff j k).0 e) in
      ground arith
  | inr e ↦ ground arith
]

marked-cancel_in_time_steps :
    (k : ℕ) (ts : Timestamp) (c : ℕ) (s : Scheduler) (i j : ℕ)
    → (cancel_in_time_steps k ts c s).source_set_input i j ≡ marked k ts c s i j
unfolding cancel_in_time_steps
marked-cancel_in_time_steps zero ts c s i j = ground arith
marked-cancel_in_time_steps (suc k) ts c s i j =
    let t = cancel_in_time_steps k ts c s in
    let untouched : t.source_set_input c k ≡ s.source_set_input c k =
      marked-cancel_in_time_steps k ts c s c k ∙ ground arith in
    input-cancel_in_time_step ts c k t i j
    ∙ rw
        (
          is_outdated-same ts c k s t (cancel_in_time_steps-SameRun k ts c s) untouched,
          marked-cancel_in_time_steps k ts c s i j,
        )
        (marked_next k ts c s i j)

-- Time step `j` runs for a timestamp that lies more than two offsets before the given one.
abbrev pub RunsBefore : Timestamp → ℕ → Scheduler → Type 0
RunsBefore ts j s =
    (s.running_taskflows j ≡ true)
    × (s.running_timestamps j +ℤ s.config.max_offset <ℤ ts -ℤ s.config.max_offset)

RunsBefore-is_outdated :
    (ts : Timestamp) (c j : ℕ) (s : Scheduler)
    → s.source_set_input c j ≡ false
    → (is_outdated ts c j s ≡ true) ↔ RunsBefore ts j s
unfolding is_outdated
RunsBefore-is_outdated ts c j s off =
    (λ h. (ground arith, ground arith), λ (on, before). rw (off, on) (ground arith))

marked_iff :
    (k : ℕ) (ts : Timestamp) (c : ℕ) (s : Scheduler) (j : ℕ)
    → (marked k ts c s c j ≡ true) ↔ ((s.source_set_input c j ≡ true) ⊎ (j < k) × RunsBefore ts j s)
marked_iff k ts c s j = elim (Bool-cases (s.source_set_input c j)) [
  | inl on ↦ (λ h. inl on, λ h. ground arith)
  | inr off ↦
      let outdated = RunsBefore-is_outdated ts c j s off in
      (
        λ h. inr (ground arith, outdated.0 (ground arith)),
        λ h. elim h [
          | inl on ↦ absurd (ground arith)
          | inr (less, before) ↦ let yes = outdated.1 before in ground arith
        ],
      )
]

-- After the older of the first `k` time steps are cancelled for a component, its input is set
-- exactly in those in which it was set before and in the running ones among them whose timestamp
-- plus the offset is below the given one less the offset; the inputs of all other components stay.
pub input-cancel_in_time_steps :
    (k : ℕ) (ts : Timestamp) (c : ℕ) (s : Scheduler) (j : ℕ)
    → (((cancel_in_time_steps k ts c s).source_set_input c j ≡ true)
        ↔ ((s.source_set_input c j ≡ true) ⊎ (j < k) × RunsBefore ts j s))
      × ((i : ℕ)
          → i ≢ c
          → (cancel_in_time_steps k ts c s).source_set_input i j ≡ s.source_set_input i j)
input-cancel_in_time_steps k ts c s j =
    let iff = marked_iff k ts c s j in
    let own = marked-cancel_in_time_steps k ts c s c j in
    (
      (λ h. iff.0 (sym own ∙ h), λ h. own ∙ iff.1 h),
      λ i ne. marked-cancel_in_time_steps k ts c s i j ∙ ground arith,
    )

-- A list that names a source twice cannot be committed: the second commit of its promise throws.
commit_invalid-twice :
    (is : List ℕ) (c slot : ℕ) (s : Scheduler)
    → commit_invalid (is ++ c ∷ c ∷ []) slot s ≡ throws promise_already_satisfied
unfolding commit_invalid commit_input commit_source commit
commit_invalid-twice [] c slot s = ground arith
commit_invalid-twice (i ∷ is) c slot s = elim (Option-cases (lock s slot i)) [
  | inl e ↦
      ap (λ (r : Result Scheduler). r >>= λ t. commit_invalid (is ++ c ∷ c ∷ []) slot t)
        (commit_input-ok i slot s e)
      ∙ commit_invalid-twice is c slot (input_committed i slot s)
  | inr (b, e) ↦ ground arith
]

cancel_in_message-outdated :
    (ts : Timestamp) (c : ℕ) (s : Scheduler) (e : ScheduledEvent)
    → is_data e.event_type ≡ true
    → e.timestamp +ℤ s.config.max_offset <ℤ ts -ℤ s.config.max_offset
    → cancel_in_message ts c s e ≡ record e { invalid_sources = e.invalid_sources ++ c ∷ [] }
unfolding cancel_in_message
cancel_in_message-outdated ts c s e d h = ground arith

-- An event of the queue that a component has cancelled twice, with two newer timestamps, can no
-- longer run: when its time step comes up, committing its sources throws.
pub cancelled_twice_throws :
    (e : ScheduledEvent) (ts later : Timestamp) (c : ℕ) (s t u : Scheduler)
    → is_data e.event_type ≡ true
    → e.timestamp +ℤ s.config.max_offset <ℤ ts -ℤ s.config.max_offset
    → e.timestamp +ℤ t.config.max_offset <ℤ later -ℤ t.config.max_offset
    → commit_event (cancel_in_message later c t (cancel_in_message ts c s e)) u
      ≡ throws promise_already_satisfied
unfolding commit_event
cancelled_twice_throws e ts later c s t u d h k =
    ap (λ m. commit_event (cancel_in_message later c t m) u)
      (cancel_in_message-outdated ts c s e d h)
    ∙ ap (λ m. commit_event m u)
        (cancel_in_message-outdated later c t
          (record e { invalid_sources = e.invalid_sources ++ c ∷ [] }) d k)
    ∙ rw (d, append_assoc)
        (commit_invalid-twice e.invalid_sources c (latest_index u)
          (record u { latest_running_ts = notify_all e.timestamp u.latest_running_ts }))
