-- ===== src/Dataflow/Scheduler/Commit.antt =====
-- What committing the sources of a time step does to the rest of the scheduler's state.
use traact_core.Prelude.{
  ℕ, zero, suc, ◌≤◌, ◌<◌, ◌≡◌, ◌≢◌, refl, ◌∙◌, List, [], ◌∷◌, Bool, true, none, some, arith, Option,
  Bool-cases, inl, inr,
}
use traact_core.Exceptions.{Result, ok}
use traact_core.Datatypes.{Timestamp}
use traact_core.Util.Semaphore.{notify_all}
use traact_core.Buffer.SourceComponentBuffer.{commit}
use traact_core.Buffer.TimeStepBuffer.{commit_source, update}
use traact_core.Dataflow.Scheduler.State.{
  Scheduler, ScheduledEvent, latest_index, is_data, store_input,
}
use traact_core.Dataflow.Scheduler.Slots.{commit_input, commit_invalid, commit_all, commit_event}

-- `t` is `s` but for the inputs, the last running timestamp and the buffer of time step `slot`.
pub record Frame (slot : ℕ) (s t : Scheduler) : Type 0 where
  pub same_config : t.config ≡ s.config
  pub same_sources : t.count_sources ≡ s.count_sources
  pub same_count : t.time_step_count ≡ s.time_step_count
  pub same_running : t.running_taskflows ≡ s.running_taskflows
  pub same_stamps : t.running_timestamps ≡ s.running_timestamps
  pub same_queue : t.queued_messages ≡ s.queued_messages
  pub same_latest : t.time_step_latest ≡ s.time_step_latest
  pub same_free : t.free_taskflows ≡ s.free_taskflows
  pub same_clock : t.time_domain_clock ≡ s.time_domain_clock
  pub same_event : (t.time_step slot).current_message ≡ (s.time_step slot).current_message
  pub same_time : (t.time_step slot).current_ts ≡ (s.time_step slot).current_ts
  pub same_width : (t.time_step slot).source_count ≡ (s.time_step slot).source_count
  pub other_slots : (j : ℕ) → j ≢ slot → t.time_step j ≡ s.time_step j

Frame-refl : (slot : ℕ) (s : Scheduler) → Frame slot s s
Frame-refl slot s = record {
  same_config = refl;
  same_sources = refl;
  same_count = refl;
  same_running = refl;
  same_stamps = refl;
  same_queue = refl;
  same_latest = refl;
  same_free = refl;
  same_clock = refl;
  same_event = refl;
  same_time = refl;
  same_width = refl;
  other_slots = λ j h. refl;
}

Frame-notified :
    (slot : ℕ) (ts : Timestamp) (s : Scheduler)
    → Frame slot s (record s { latest_running_ts = notify_all ts s.latest_running_ts })
Frame-notified slot ts s = record {
  same_config = refl;
  same_sources = refl;
  same_count = refl;
  same_running = refl;
  same_stamps = refl;
  same_queue = refl;
  same_latest = refl;
  same_free = refl;
  same_clock = refl;
  same_event = refl;
  same_time = refl;
  same_width = refl;
  other_slots = λ j h. refl;
}

Frame-trans : (slot : ℕ) {s t u : Scheduler} → Frame slot s t → Frame slot t u → Frame slot s u
Frame-trans slot f g = record {
  same_config = g.same_config ∙ f.same_config;
  same_sources = g.same_sources ∙ f.same_sources;
  same_count = g.same_count ∙ f.same_count;
  same_running = g.same_running ∙ f.same_running;
  same_stamps = g.same_stamps ∙ f.same_stamps;
  same_queue = g.same_queue ∙ f.same_queue;
  same_latest = g.same_latest ∙ f.same_latest;
  same_free = g.same_free ∙ f.same_free;
  same_clock = g.same_clock ∙ f.same_clock;
  same_event = g.same_event ∙ f.same_event;
  same_time = g.same_time ∙ f.same_time;
  same_width = g.same_width ∙ f.same_width;
  other_slots = λ j h. g.other_slots j h ∙ f.other_slots j h;
}

-- The promise of a source in a time step.
abbrev pub lock : Scheduler → ℕ → ℕ → Option Bool
lock s slot source = ((s.time_step slot).source_buffer source).lock_value

-- The call succeeds, within the frame, and leaves the promises of other sources alone.
abbrev Committed : ℕ → ℕ → Scheduler → Result Scheduler → Type 0
Committed source slot s r =
    (t : Scheduler) × (r ≡ ok t)
    × Frame slot s t
    × ((c : ℕ) → c ≢ source → lock t slot c ≡ lock s slot c)

abbrev pub input_committed : ℕ → ℕ → Scheduler → Scheduler
input_committed source slot s =
    let b = s.time_step slot in
    let locked = record (b.source_buffer source) { lock_value = some true } in
    record s {
      source_set_input = store_input source slot true s.source_set_input;
      time_step =
          update s.time_step slot
            (record b { source_buffer = update b.source_buffer source locked });
    }

pub commit_input-ok :
    (source slot : ℕ) (s : Scheduler)
    → lock s slot source ≡ none
    → commit_input source slot s ≡ ok (input_committed source slot s)
unfolding commit_input commit_source commit
commit_input-ok source slot s h = ground arith

input_committed-Frame :
    (source slot : ℕ) (s : Scheduler) → Frame slot s (input_committed source slot s)
input_committed-Frame source slot s = record {
  same_config = refl;
  same_sources = refl;
  same_count = refl;
  same_running = refl;
  same_stamps = refl;
  same_queue = refl;
  same_latest = refl;
  same_free = refl;
  same_clock = refl;
  same_event = ground arith;
  same_time = ground arith;
  same_width = ground arith;
  other_slots = λ j h. ground arith;
}

commit_input-Committed :
    (source slot : ℕ) (s : Scheduler)
    → lock s slot source ≡ none
    → Committed source slot s (commit_input source slot s)
commit_input-Committed source slot s h = (
  input_committed source slot s,
  commit_input-ok source slot s h,
  input_committed-Frame source slot s,
  λ c ne. ground arith,
)

abbrev pub All : (ℕ → Type 0) → List ℕ → Type 0
All P [] = Unit {0}
All P (x ∷ xs) = P x × All P xs

abbrev pub Distinct : List ℕ → Type 0
Distinct [] = Unit {0}
Distinct (x ∷ xs) = All (λ y. y ≢ x) xs × Distinct xs

-- The sources of a list have their promises open in a time step.
abbrev pub Open : Scheduler → ℕ → List ℕ → Type 0
Open s slot = All (λ i. lock s slot i ≡ none)

Open-other :
    (s t : Scheduler) (slot i : ℕ) (is : List ℕ)
    → ((c : ℕ) → c ≢ i → lock t slot c ≡ lock s slot c)
    → All (λ y. y ≢ i) is
    → Open s slot is
    → Open t slot is
Open-other s t slot i [] f d o = tt
Open-other s t slot i (x ∷ is) f d o = (f x d.0 ∙ o.0, Open-other s t slot i is f d.1 o.1)

abbrev pub Framed : ℕ → Scheduler → Result Scheduler → Type 0
Framed slot s r = (t : Scheduler) × (r ≡ ok t) × Frame slot s t

commit_invalid-Framed :
    (is : List ℕ) (slot : ℕ) (s : Scheduler)
    → Distinct is
    → Open s slot is
    → Framed slot s (commit_invalid is slot s)
unfolding commit_invalid
commit_invalid-Framed [] slot s d o = (s, refl, Frame-refl slot s)
commit_invalid-Framed (i ∷ is) slot s d o =
    let (t, e, f, g) = commit_input-Committed i slot s o.0 in
    let (u, e', f') = commit_invalid-Framed is slot t d.1 (Open-other s t slot i is g d.0 o.1) in
    (u, rw e e', Frame-trans slot f f')

commit_all-Framed :
    (k slot : ℕ) (s : Scheduler)
    → ((c : ℕ) → c < k → lock s slot c ≡ none)
    → (t : Scheduler) × (commit_all k slot s ≡ ok t)
      × Frame slot s t
      × ((c : ℕ) → k ≤ c → lock t slot c ≡ lock s slot c)
unfolding commit_all
commit_all-Framed zero slot s o = (s, refl, Frame-refl slot s, λ c h. refl)
commit_all-Framed (suc k) slot s o =
    let (t, e, f, g) = commit_all-Framed k slot s (λ c h. o c (omega arith)) in
    let (u, e', f', g') = commit_input-Committed k slot t (g k (omega arith) ∙ o k (omega arith)) in
    (u, rw e e', Frame-trans slot f f', λ c h. g' c (omega arith) ∙ g c (omega arith))

-- The invalid sources of a data event are distinct and there are such sources; other events have
-- no condition.
pub record IsPlaceable (count : ℕ) (e : ScheduledEvent) : Type 0 where
  pub distinct : Distinct e.invalid_sources
  pub known : All (λ i. i < count) e.invalid_sources

Open-known :
    (s : Scheduler) (slot : ℕ) (is : List ℕ)
    → ((c : ℕ) → c < s.count_sources → lock s slot c ≡ none)
    → All (λ i. i < s.count_sources) is
    → Open s slot is
Open-known s slot [] o k = tt
Open-known s slot (i ∷ is) o k = (o i k.0, Open-known s slot is o k.1)

-- Where the promises of the latest time step are open, committing an event with distinct invalid
-- sources succeeds, and changes no more than that time step, its inputs and the latest timestamp.
pub commit_event-Framed :
    (e : ScheduledEvent) (s : Scheduler)
    → IsPlaceable s.count_sources e
    → ((c : ℕ) → c < s.count_sources → lock s (latest_index s) c ≡ none)
    → Framed (latest_index s) s (commit_event e s)
unfolding commit_event
commit_event-Framed e s p o = elim (Bool-cases (is_data e.event_type)) [
  | inl d ↦ rw d (data_event)
  | inr d ↦
      rw d
        (let (t, e', f, _) = commit_all-Framed s.count_sources (latest_index s) s o in (t, e', f))
]
  where
    notified : Scheduler
    notified = record s { latest_running_ts = notify_all e.timestamp s.latest_running_ts }

    data_event :
        Framed (latest_index s) s (commit_invalid e.invalid_sources (latest_index s) notified)
    data_event =
        let (t, e', f) =
          commit_invalid-Framed e.invalid_sources (latest_index s) notified p.distinct
            (Open-known notified (latest_index s) e.invalid_sources o p.known) in
        (t, e', Frame-trans (latest_index s) (Frame-notified (latest_index s) e.timestamp s) f)
