-- ===== src/Dataflow/Scheduler/Invariant.antt =====
-- The invariant of the scheduler's ring of time steps, and that taking the next time step keeps it.
use traact_core.Prelude.{
  ℕ, suc, ◌+◌, ◌-◌, ◌%◌, ◌≤◌, ◌<◌, ◌≡◌, ◌≢◌, refl, sym, ap, ◌∙◌, inl, inr, Bool, true, false, none,
  arith, ltb, ◌==◌, if◌then◌else◌, Bool-cases, ==_iff, ==_refl,
}
use mathlib.Core.Path.{ap₂}
use traact_core.Datatypes.{Timestamp}
use traact_core.Buffer.SourceComponentBuffer.{SourceComponentBuffer}
use native.Mathlib.Nat.{mod-lt}
use traact_core.Prelude.Wrap.{rem_ℤ-succ}
use traact_core.Prelude.Int.{pos, negsuc, pos_part, neg_part, ◌+ℤ◌, ◌≤ℤ◌, rem_ℤ}
use traact_core.Exceptions.{ok}
use traact_core.Buffer.TimeStepBuffer.{TimeStepBuffer, set_event, set_event_changed}
use traact_core.Dataflow.Scheduler.State.{Scheduler, ScheduledEvent}
use traact_core.Dataflow.Scheduler.Slots.{place_event, commit_event, event_buffer}
use traact_core.Dataflow.Scheduler.Ring.{age, age-next}
use traact_core.Dataflow.Scheduler.Commit.{Frame, lock, IsPlaceable, commit_event-Framed}

-- The time step that is taken next.
abbrev pub next_slot : Scheduler → ℕ
next_slot s = pos_part (rem_ℤ (s.time_step_latest +ℤ pos 1) s.time_step_count)

-- The `r` time steps taken last are those that run, one after the other round the ring. A time step
-- that does not run has its promises open, and one that runs shows its timestamp.
pub record IsRing (s : Scheduler) (r : ℕ) : Type 0 where
  pub fits : r ≤ s.time_step_count
  pub some_steps : 0 < s.time_step_count
  pub placed : negsuc 0 ≤ℤ s.time_step_latest
  pub youngest :
      (j : ℕ)
      → j < s.time_step_count
      → s.running_taskflows j ≡ ltb (age s.time_step_count (next_slot s) j) r
  pub open_locks :
      (j : ℕ)
      → j < s.time_step_count
      → s.running_taskflows j ≡ false
      → (c : ℕ) → c < s.count_sources
      → lock s j c ≡ none
  pub stamped :
      (j : ℕ)
      → j < s.time_step_count
      → s.running_taskflows j ≡ true
      → (s.time_step j).current_ts ≡ s.running_timestamps j
  pub widths : (j : ℕ) → j < s.time_step_count → (s.time_step j).source_count ≡ s.count_sources

pub advanced :
    (s : Scheduler)
    → negsuc 0 ≤ℤ s.time_step_latest
    → rem_ℤ (s.time_step_latest +ℤ pos 1) s.time_step_count ≡ pos (next_slot s)
advanced s p = let e = rem_ℤ-succ s.time_step_latest s.time_step_count p in rw e

pub next_slot-lt :
    (s : Scheduler)
    → 0 < s.time_step_count
    → negsuc 0 ≤ℤ s.time_step_latest
    → next_slot s < s.time_step_count
next_slot-lt s h p =
    rw (rem_ℤ-succ s.time_step_latest s.time_step_count p)
      (mod-lt (pos_part s.time_step_latest + 1 - neg_part s.time_step_latest) h)

-- The time step after the one that is taken next.
next_slot-advanced :
    (s t : Scheduler)
    → negsuc 0 ≤ℤ s.time_step_latest
    → t.time_step_latest ≡ rem_ℤ (s.time_step_latest +ℤ pos 1) s.time_step_count
    → t.time_step_count ≡ s.time_step_count
    → next_slot t ≡ (next_slot s + 1) % s.time_step_count
next_slot-advanced s t p e c =
    rw (e, c, advanced s p)
      (rw (rem_ℤ-succ (pos (next_slot s)) s.time_step_count (omega arith))
        (ap (λ k. k % s.time_step_count) (omega arith)))

-- `t` is `s` after its next time step was taken for an event.
pub record Taken (s t : Scheduler) : Type 0 where
  pub latest : t.time_step_latest ≡ rem_ℤ (s.time_step_latest +ℤ pos 1) s.time_step_count
  pub count : t.time_step_count ≡ s.time_step_count
  pub sources : t.count_sources ≡ s.count_sources
  pub running :
      (j : ℕ) → t.running_taskflows j ≡ (if j == next_slot s then true else s.running_taskflows j)
  pub stamps : (j : ℕ) → j ≢ next_slot s → t.running_timestamps j ≡ s.running_timestamps j
  pub stamp : (t.time_step (next_slot s)).current_ts ≡ t.running_timestamps (next_slot s)
  pub width : (t.time_step (next_slot s)).source_count ≡ (s.time_step (next_slot s)).source_count
  pub others : (j : ℕ) → j ≢ next_slot s → t.time_step j ≡ s.time_step j

youngest_next :
    (s : Scheduler) (r : ℕ)
    → IsRing s r
    → r < s.time_step_count
    → (j : ℕ) → j < s.time_step_count
    → (if j == next_slot s then true else s.running_taskflows j)
      ≡ ltb (age s.time_step_count ((next_slot s + 1) % s.time_step_count) j) (suc r)
youngest_next s r v h j hj =
    rw (age-next s.time_step_count (next_slot s) j (next_slot-lt s v.some_steps v.placed) hj)
      (ground (arith, v.youngest j hj))

pub Taken-IsRing :
    (s t : Scheduler) (r : ℕ) → IsRing s r → r < s.time_step_count → Taken s t → IsRing t (suc r)
Taken-IsRing s t r v h k = record {
  fits = omega arith;
  some_steps = omega arith;
  placed = rw (k.latest, advanced s v.placed) (omega arith);
  youngest = λ j hj.
      let hj' : j < s.time_step_count = rw (← k.count) hj in
      k.running j
      ∙ youngest_next s r v h j hj'
      ∙ sym (
          ap₂ (λ n y. ltb (age n y j) (suc r)) k.count
            (next_slot-advanced s t v.placed k.latest k.count));
  open_locks = λ j hj off c hc.
      let off' = sym (k.running j) ∙ off in
      let ne : j ≢ next_slot s = ground arith in
      ap (λ b. (b.source_buffer c).lock_value) (k.others j ne)
      ∙ v.open_locks j (rw (← k.count) hj) (ground arith) c (rw (← k.sources) hc);
  stamped = λ j hj on. elim (Bool-cases (j == next_slot s)) [
    | inl e ↦ rw ((==_iff j (next_slot s)).0 e) k.stamp
    | inr e ↦
        let ne : j ≢ next_slot s = ground arith in
        ap (λ b. b.current_ts) (k.others j ne)
        ∙ v.stamped j (rw (← k.count) hj) (ground (arith, k.running j))
        ∙ sym (k.stamps j ne)
  ];
  widths = λ j hj. elim (Bool-cases (j == next_slot s)) [
    | inl e ↦
        rw ((==_iff j (next_slot s)).0 e) (k.width ∙ v.widths (next_slot s) x_lt ∙ sym k.sources)
    | inr e ↦
        let ne : j ≢ next_slot s = ground arith in
        ap (λ b. b.source_count) (k.others j ne) ∙ v.widths j (rw (← k.count) hj) ∙ sym k.sources
  ];
}
  where
    x_lt : next_slot s < s.time_step_count
    x_lt = next_slot-lt s v.some_steps v.placed

event_buffer_lem :
    (e : ScheduledEvent) (b : TimeStepBuffer)
    → ((event_buffer e b).current_ts ≡ e.timestamp)
      × ((event_buffer e b).current_message ≡ e.event_type)
      × ((event_buffer e b).source_count ≡ b.source_count)
      × ((event_buffer e b).source_buffer ≡ b.source_buffer)
unfolding event_buffer set_event set_event_changed
event_buffer_lem e b = (ground arith, ground arith, ground arith, ground arith)

place_event-Taken : (e : ScheduledEvent) (s : Scheduler) → Taken s (place_event e s)
unfolding place_event
place_event-Taken e s =
    let (a, _, c, _) = event_buffer_lem e (s.time_step (next_slot s)) in
    record {
      latest = refl;
      count = refl;
      sources = refl;
      running = λ j. refl;
      stamps = λ j ne. ground arith;
      stamp = rw (==_refl (next_slot s)) a;
      width = rw (==_refl (next_slot s)) c;
      others = λ j ne. ground arith;
    }

Taken-Frame : (s t u : Scheduler) → Taken s t → Frame (next_slot s) t u → Taken s u
Taken-Frame s t u k f = record {
  latest = f.same_latest ∙ k.latest;
  count = f.same_count ∙ k.count;
  sources = f.same_sources ∙ k.sources;
  running = λ j. ap (λ (g : ℕ → Bool). g j) f.same_running ∙ k.running j;
  stamps = λ j ne. ap (λ (g : ℕ → Timestamp). g j) f.same_stamps ∙ k.stamps j ne;
  stamp = f.same_time ∙ k.stamp ∙ sym (ap (λ (g : ℕ → Timestamp). g (next_slot s)) f.same_stamps);
  width = f.same_width ∙ k.width;
  others = λ j ne. f.other_slots j ne ∙ k.others j ne;
}

-- Time step `j` runs for the event: it shows the event's timestamp and type.
abbrev pub RunsEvent : ScheduledEvent → ℕ → Scheduler → Type 0
RunsEvent e j t =
    (t.running_taskflows j ≡ true)
    × (t.running_timestamps j ≡ e.timestamp)
    × ((t.time_step j).current_ts ≡ e.timestamp)
    × ((t.time_step j).current_message ≡ e.event_type)

place_event-RunsEvent :
    (e : ScheduledEvent) (s : Scheduler) → RunsEvent e (next_slot s) (place_event e s)
unfolding place_event
place_event-RunsEvent e s =
    let (ts, type, _, _) = event_buffer_lem e (s.time_step (next_slot s)) in
    (
      rw (==_refl (next_slot s)) refl,
      rw (==_refl (next_slot s)) refl,
      rw (==_refl (next_slot s)) ts,
      rw (==_refl (next_slot s)) type,
    )

RunsEvent-Frame :
    (e : ScheduledEvent) (j : ℕ) (t u : Scheduler) → RunsEvent e j t → Frame j t u → RunsEvent e j u
RunsEvent-Frame e j t u (on, stamp, ts, type) f = (
  ap (λ (g : ℕ → Bool). g j) f.same_running ∙ on,
  ap (λ (g : ℕ → Timestamp). g j) f.same_stamps ∙ stamp,
  f.same_time ∙ ts,
  f.same_event ∙ type,
)

-- The next time step is the oldest of the ring, so it does not run while one is free.
age_top :
    (s : Scheduler) (r : ℕ)
    → r < s.time_step_count
    → ltb (age s.time_step_count (next_slot s) (next_slot s)) r ≡ false
age_top s r h = ground arith

-- With the next time step not running, placing an event there and committing its sources succeeds
-- and makes it the youngest of those that run. The free time steps and the queue stay.
pub place-IsRing :
    (e : ScheduledEvent) (s : Scheduler) (r : ℕ)
    → IsRing s r
    → r < s.time_step_count
    → IsPlaceable s.count_sources e
    → (t : Scheduler) × (commit_event e (place_event e s) ≡ ok t)
      × IsRing t (suc r)
      × (t.free_taskflows ≡ s.free_taskflows)
      × (t.queued_messages ≡ s.queued_messages)
      × (t.time_step_count ≡ s.time_step_count)
      × (t.count_sources ≡ s.count_sources)
      × (t.time_domain_clock ≡ s.time_domain_clock)
      × (t.config ≡ s.config)
      × RunsEvent e (next_slot s) t
unfolding place_event
place-IsRing e s r v h p =
    let (t, done, f) = commit_event-Framed e (place_event e s) p locks_open in
    (
      t,
      done,
      Taken-IsRing s t r v h (Taken-Frame s (place_event e s) t (place_event-Taken e s) f),
      f.same_free,
      f.same_queue,
      f.same_count,
      f.same_sources,
      f.same_clock,
      f.same_config,
      RunsEvent-Frame e (next_slot s) (place_event e s) t (place_event-RunsEvent e s) f,
    )
  where
    x_lt : next_slot s < s.time_step_count
    x_lt = next_slot-lt s v.some_steps v.placed

    locks_open : (c : ℕ) → c < s.count_sources → lock (place_event e s) (next_slot s) c ≡ none
    locks_open c hc =
        rw (==_refl (next_slot s), lock)
          (ap (λ (f : ℕ → SourceComponentBuffer). (f c).lock_value)
              (event_buffer_lem e (s.time_step (next_slot s))).3
            ∙ v.open_locks (next_slot s) x_lt (v.youngest (next_slot s) x_lt ∙ age_top s r h) c hc)
