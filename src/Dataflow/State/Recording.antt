-- ===== src/Dataflow/State/Recording.antt =====
-- What the workers record with `taskStart` and `taskEnd` is what `getData` hands out, in
-- src/traact/dataflow/state/TimeDomainState.cpp.
use traact_core.Prelude.{
  ℕ, zero, suc, ◌<◌, ◌≡◌, refl, sym, ap, ◌∙◌, subst, inl, inr, List, [], ◌∷◌, ◌++◌, append_assoc,
  append-nil, some, length, get_elem?, get_or, set, replicate, length-set, length-replicate,
  get_or-set_self, get_or-set_ne, get_elem?-lt, get_elem?-in, Bool-cases, Option-cases, arith, ◌==◌,
  ==_iff, if◌then◌else◌,
}
use traact_core.Exceptions.{ok}
use traact_core.Dataflow.State.Tasks.{TaskStateData, TimeDomainState, init, emplace_event, get_data}

-- The state, with all that each worker recorded and all that was handed out of it so far.
pub record History : Type 0 where
  pub state : TimeDomainState
  pub recorded : ℕ → List TaskStateData
  pub collected : ℕ → List TaskStateData

abbrev pending : TimeDomainState → ℕ → List TaskStateData
pending s i = get_or s.task_data i []

-- `taskStart` and `taskEnd` of a worker, and `getData`, in any order.
pub data Step : History → History → Type 0 where
  records :
      (h : History) (event : TaskStateData) (worker_id : ℕ) (t : TimeDomainState)
      → emplace_event event worker_id h.state ≡ ok t
      → Step h (record h {
        state = t;
        recorded = λ i. if i == worker_id then h.recorded i ++ event ∷ [] else h.recorded i;
      })
  collects :
      (h : History)
      → Step h (record h {
        state = (get_data h.state).1;
        collected = λ i. h.collected i ++ get_or (get_data h.state).0 i [];
      })

pub data Reach (h : History) : History → Type 0 where
  here : Reach h h
  next : {b c : History} → Reach h b → Step b c → Reach h c

abbrev pub begin : ℕ → ℕ → TimeDomainState → History
begin worker_count time_step_count s = record {
  state = init worker_count time_step_count s;
  recorded = λ i. [];
  collected = λ i. [];
}

record IsConserved (n : ℕ) (h : History) : Type 0 where
  workers : length h.state.task_data ≡ n
  conserved : (i : ℕ) → h.recorded i ≡ h.collected i ++ pending h.state i

get_or-replicate : (n i : ℕ) → get_or {A = List TaskStateData} (replicate n []) i [] ≡ []
get_or-replicate zero i = refl
get_or-replicate (suc n) zero = refl
get_or-replicate (suc n) (suc i) = get_or-replicate n i

get_or-some :
    (xs : List (List TaskStateData)) (i : ℕ) (x : List TaskStateData)
    → get_elem? xs i ≡ some x
    → get_or xs i [] ≡ x
get_or-some [] i x h = cc
get_or-some (y ∷ xs) zero x h = cc
get_or-some (y ∷ xs) (suc i) x h = get_or-some xs i x h

-- What is pending after an event is recorded.
pending-emplace_event :
    (event : TaskStateData) (w : ℕ) (s t : TimeDomainState)
    → emplace_event event w s ≡ ok t
    → (length t.task_data ≡ length s.task_data)
      × ((i : ℕ) → pending t i ≡ (if i == w then pending s i ++ event ∷ [] else pending s i))
unfolding emplace_event
pending-emplace_event event w s t h = elim (Option-cases (get_elem? s.task_data w)) [
  | inl e ↦ absurd (ground (arith, e))
  | inr (events, e) ↦
      let new = set s.task_data w (events ++ event ∷ []) in
      let data_eq : t.task_data ≡ new = ground (arith, e) in
      let present = get_elem?-lt s.task_data w events e in
      (
        ap length data_eq ∙ length-set s.task_data w (events ++ event ∷ []),
        λ i. ap (λ d. get_or d i []) data_eq ∙ elim (Bool-cases (i == w)) [
          | inl same ↦
              rw (same, (==_iff i w).0 same, get_or-some s.task_data w events e)
                (get_or-set_self s.task_data w (events ++ event ∷ []) [] present)
          | inr other ↦
              rw other (get_or-set_ne s.task_data w i (events ++ event ∷ []) [] (ground arith))
        ],
      )
]

Step-IsConserved : (n : ℕ) {a b : History} → Step a b → IsConserved n a → IsConserved n b
unfolding get_data
Step-IsConserved n (records h event w t e) v =
    let (same, now) = pending-emplace_event event w h.state t e in
    record {
      workers = same ∙ v.workers;
      conserved = λ i. elim (Bool-cases (i == w)) [
        | inl at ↦ rw at (
            ap (λ xs. xs ++ event ∷ []) (v.conserved i)
            ∙ append_assoc (h.collected i) (pending h.state i) (event ∷ [])
            ∙ ap (λ xs. h.collected i ++ xs) (sym (now i ∙ rw at refl)))
        | inr other ↦
            rw other (v.conserved i ∙ ap (λ xs. h.collected i ++ xs) (sym (now i ∙ rw other refl)))
      ];
    }
Step-IsConserved n (collects h) v = record {
  workers = length-replicate (length h.state.task_data) [] ∙ v.workers;
  conserved = λ i.
      v.conserved i
      ∙ sym (append-nil (h.collected i ++ pending h.state i))
      ∙ ap (λ xs. (h.collected i ++ pending h.state i) ++ xs)
          (sym (get_or-replicate (length h.state.task_data) i));
}

Reach-IsConserved : (n : ℕ) {a b : History} → IsConserved n a → Reach a b → IsConserved n b
Reach-IsConserved n v here = v
Reach-IsConserved n v (next r s) = Step-IsConserved n s (Reach-IsConserved n v r)

emplace_event-total :
    (event : TaskStateData) (w : ℕ) (s : TimeDomainState)
    → w < length s.task_data
    → (t : TimeDomainState) × (emplace_event event w s ≡ ok t)
unfolding emplace_event
emplace_event-total event w s h =
    let (events, e) = get_elem?-in s.task_data w h in
    (record s { task_data = set s.task_data w (events ++ event ∷ []) }, rw (e, emplace_event) refl)

-- From `init` on, however workers record events and `getData` is called in between, each worker's
-- events are handed out in the order recorded, none lost and none twice: what was handed out and
-- then what is pending is all that the worker recorded. Recording never fails for a worker below
-- the number given to `init`.
pub events_conserved :
    (worker_count time_step_count : ℕ) (s : TimeDomainState) (h : History)
    → Reach (begin worker_count time_step_count s) h
    → ((i : ℕ) → h.recorded i ≡ h.collected i ++ get_or h.state.task_data i [])
      × ((event : TaskStateData) (w : ℕ)
          → w < worker_count
          → (t : TimeDomainState) × (emplace_event event w h.state ≡ ok t))
unfolding init
events_conserved n m s h r =
    let v =
      Reach-IsConserved n
        (record { workers = length-replicate n []; conserved = λ i. sym (get_or-replicate n i) })
        r in
    (
      v.conserved,
      λ event w l. emplace_event-total event w h.state (subst (λ k. w < k) (sym v.workers) l),
    )
