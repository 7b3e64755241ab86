-- ===== src/Dataflow/State/Sorting.antt =====
-- The order in which `TimeDomainStateProcessing::update` of
-- src/traact/dataflow/state/TimeDomainStateResult.cpp reads the events that the workers recorded.
use traact_core.Prelude.{
  ◌≡◌, refl, sym, ap, ◌∙◌, inl, inr, List, [], ◌∷◌, ◌++◌, append_assoc, append-nil, false,
  if◌then◌else◌, Bool-cases, arith,
}
use traact_core.Prelude.Int.{◌≤ℤ◌, leb_ℤ, leb_ℤ→le, eqb_ℤ}
use traact_core.Datatypes.{Timestamp}
use traact_core.Dataflow.State.Tasks.{TaskStateData}
use traact_core.Dataflow.State.Measurements.{emplace_sorted, time_sorted}

-- No event is before `t`, and the list goes on in the order of time.
abbrev pub IsSortedFrom : Timestamp → List TaskStateData → Type 0
IsSortedFrom t [] = Unit {0}
IsSortedFrom t (x ∷ xs) = (t ≤ℤ x.event_time) × IsSortedFrom x.event_time xs

abbrev pub IsSorted : List TaskStateData → Type 0
IsSorted [] = Unit {0}
IsSorted (x ∷ xs) = IsSortedFrom x.event_time xs

-- The events of one time.
abbrev pub at_time : Timestamp → List TaskStateData → List TaskStateData
at_time t [] = []
at_time t (x ∷ xs) = if eqb_ℤ x.event_time t then x ∷ at_time t xs else at_time t xs

emplace_sorted-from :
    (e : TaskStateData) (t : Timestamp) (xs : List TaskStateData)
    → t ≤ℤ e.event_time
    → IsSortedFrom t xs
    → IsSortedFrom t (emplace_sorted e xs)
unfolding emplace_sorted
emplace_sorted-from e t [] h s = (h, tt)
emplace_sorted-from e t (x ∷ xs) h s = elim (Bool-cases (leb_ℤ x.event_time e.event_time)) [
  | inl l ↦
      rw l (s.0, emplace_sorted-from e x.event_time xs (leb_ℤ→le x.event_time e.event_time l) s.1)
  | inr l ↦ rw l (h, (ground arith, s.1))
]

emplace_sorted-IsSorted :
    (e : TaskStateData) (xs : List TaskStateData) → IsSorted xs → IsSorted (emplace_sorted e xs)
unfolding emplace_sorted
emplace_sorted-IsSorted e [] s = tt
emplace_sorted-IsSorted e (x ∷ xs) s = elim (Bool-cases (leb_ℤ x.event_time e.event_time)) [
  | inl l ↦ rw l (emplace_sorted-from e x.event_time xs (leb_ℤ→le x.event_time e.event_time l) s)
  | inr l ↦ rw l (ground arith, s)
]

at_time-none :
    (t v : Timestamp) (xs : List TaskStateData)
    → IsSortedFrom v xs
    → leb_ℤ v t ≡ false
    → at_time t xs ≡ []
at_time-none t v [] s h = refl
at_time-none t v (x ∷ xs) s h =
    let other : eqb_ℤ x.event_time t ≡ false = ground arith in
    rw other (at_time-none t x.event_time xs s.1 (ground arith))

IsSorted-tail : (t : Timestamp) (xs : List TaskStateData) → IsSortedFrom t xs → IsSorted xs
IsSorted-tail t [] s = tt
IsSorted-tail t (x ∷ xs) s = s.1

at_time_cons :
    (t : Timestamp) (x : TaskStateData) (zs ys rest : List TaskStateData)
    → at_time t zs ≡ ys ++ rest
    → at_time t (x ∷ zs) ≡ (if eqb_ℤ x.event_time t then x ∷ ys else ys) ++ rest
at_time_cons t x zs ys rest h = elim (Bool-cases (eqb_ℤ x.event_time t)) [
  | inl m ↦ rw m (ap (λ l. x ∷ l) h)
  | inr m ↦ rw m h
]

at_time-emplace_sorted :
    (e : TaskStateData) (t : Timestamp) (xs : List TaskStateData)
    → IsSorted xs
    → at_time t (emplace_sorted e xs) ≡ at_time t xs ++ at_time t (e ∷ [])
unfolding emplace_sorted
at_time-emplace_sorted e t [] s = refl
at_time-emplace_sorted e t (x ∷ xs) s = elim (Bool-cases (leb_ℤ x.event_time e.event_time)) [
  | inl l ↦
      rw (l, emplace_sorted)
        (at_time_cons t x (emplace_sorted e xs) (at_time t xs) (at_time t (e ∷ []))
          (at_time-emplace_sorted e t xs (IsSorted-tail x.event_time xs s)))
  | inr l ↦
      rw (l, emplace_sorted)
        (elim (Bool-cases (eqb_ℤ e.event_time t)) [
          | inl m ↦
              let none = at_time-none t x.event_time (x ∷ xs) (omega arith, s) (ground arith) in
              rw m (ap (λ ys. e ∷ ys) none ∙ sym (ap (λ ys. ys ++ e ∷ []) none))
          | inr m ↦ rw m (sym (append-nil (at_time t (x ∷ xs))))
        ])
]

time_sorted-onto :
    (events sorted : List TaskStateData)
    → IsSorted sorted
    → IsSorted (time_sorted events sorted)
      × ((t : Timestamp)
          → at_time t (time_sorted events sorted) ≡ at_time t sorted ++ at_time t events)
unfolding time_sorted
time_sorted-onto [] sorted s = (s, λ t. sym (append-nil (at_time t sorted)))
time_sorted-onto (e ∷ events) sorted s =
    let (a, b) =
      time_sorted-onto events (emplace_sorted e sorted) (emplace_sorted-IsSorted e sorted s) in
    (
      a,
      λ t.
          b t
          ∙ ap (λ l. l ++ at_time t events) (at_time-emplace_sorted e t sorted s)
          ∙ append_assoc (at_time t sorted) (at_time t (e ∷ [])) (at_time t events)
          ∙ ap (λ l. at_time t sorted ++ l)
              (sym (at_time_cons t e events [] (at_time t events) refl)),
    )

-- The events are read in the order of their times, those of one time in the order in which the
-- workers' deques are gone through; each event is read once.
pub time_sorted-stable :
    (events : List TaskStateData)
    → IsSorted (time_sorted events [])
      × ((t : Timestamp) → at_time t (time_sorted events []) ≡ at_time t events)
time_sorted-stable events = time_sorted-onto events [] tt
