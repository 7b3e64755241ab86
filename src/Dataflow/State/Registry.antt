-- ===== src/Dataflow/State/Registry.antt =====
-- The register of tasks of `TimeDomainState`, which `addTask` of
-- src/traact/dataflow/state/TimeDomainState.cpp fills.
use traact_core.Prelude.{
  ℕ, ◌≡◌, ◌≢◌, refl, sym, ap, ◌∙◌, inl, inr, List, [], ◌∷◌, ◌++◌, false, none, some, String, eqb,
  eqb_iff, length, get_elem?, find_index?, find_index?-some, find_index?-none, get_elem?-append_one,
  get_elem?-lt, get_elem?-append_left, get_elem?-append_end, Option-cases,
}
use traact_core.Exceptions.{ok}
use traact_core.Dataflow.State.Tasks.{TaskInfo, TimeDomainState, add_task}

-- No two tasks have one id, and none has the empty one.
pub record IsRegister (infos : List TaskInfo) : Type 0 where
  pub distinct :
      (i j : ℕ) (a b : TaskInfo)
      → get_elem? infos i ≡ some a
      → get_elem? infos j ≡ some b
      → a.task_id ≡ b.task_id
      → i ≡ j
  pub named : (i : ℕ) (a : TaskInfo) → get_elem? infos i ≡ some a → eqb a.task_id "" ≡ false

append-IsRegister :
    (infos : List TaskInfo) (t : TaskInfo)
    → IsRegister infos
    → eqb t.task_id "" ≡ false
    → find_index? (λ item. eqb item.task_id t.task_id) infos ≡ none
    → IsRegister (infos ++ t ∷ [])
append-IsRegister infos t v e f = record {
  distinct = λ i j a b h k s. elim (get_elem?-append_one infos t a i h) [
    | inl h' ↦ elim (get_elem?-append_one infos t b j k) [
      | inl k' ↦ v.distinct i j a b h' k' s
      | inr (at, same) ↦ absurd (other a i h' (s ∙ ap (λ x. x.task_id) same))
    ]
    | inr (at, same) ↦ elim (get_elem?-append_one infos t b j k) [
      | inl k' ↦ absurd (other b j k' (sym s ∙ ap (λ x. x.task_id) same))
      | inr (at', _) ↦ at ∙ sym at'
    ]
  ];
  named = λ i a h. elim (get_elem?-append_one infos t a i h) [
    | inl h' ↦ v.named i a h'
    | inr (_, same) ↦ ap (λ x. eqb x.task_id "") same ∙ e
  ];
}
  where
    other : (a : TaskInfo) (i : ℕ) → get_elem? infos i ≡ some a → a.task_id ≢ t.task_id
    other a i h s =
        let found = (eqb_iff a.task_id t.task_id).1 s in
        let missed = find_index?-none (λ item. eqb item.task_id t.task_id) infos i a f h in cc

-- Adding a task with a name returns the one index under which a task of that id is registered from
-- then on; every task that was registered keeps its index, and ids stay distinct.
pub add_task-IsRegister :
    (task_id : String) (predecessors : List String) (s : TimeDomainState)
    → IsRegister s.task_info
    → eqb task_id "" ≡ false
    → (index : ℕ) × (t : TimeDomainState) × (add_task task_id predecessors s ≡ ok (index, t))
      × IsRegister t.task_info
      × ((a : TaskInfo) × (get_elem? t.task_info index ≡ some a) × (a.task_id ≡ task_id))
      × ((i : ℕ) (a : TaskInfo)
          → get_elem? s.task_info i ≡ some a
          → get_elem? t.task_info i ≡ some a)
unfolding add_task
add_task-IsRegister task_id predecessors s v e =
    elim (Option-cases (find_index? (λ item. eqb item.task_id task_id) s.task_info)) [
      | inl f ↦
          let new : TaskInfo = record { task_id = task_id; predecessors = predecessors } in
          (
            length s.task_info,
            record s { task_info = s.task_info ++ new ∷ [] },
            rw (e, f, add_task) refl,
            append-IsRegister s.task_info new v e f,
            (new, get_elem?-append_end s.task_info new, refl),
            λ i a h.
                get_elem?-append_left s.task_info (new ∷ []) i (get_elem?-lt s.task_info i a h) ∙ h,
          )
      | inr (i, f) ↦
          let (a, g, p) = find_index?-some (λ item. eqb item.task_id task_id) s.task_info i f in
          (i, s, rw (e, f, add_task) refl, v, (a, g, (eqb_iff a.task_id task_id).0 p), λ j b h. h)
    ]
