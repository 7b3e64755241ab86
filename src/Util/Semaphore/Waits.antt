-- ===== src/Util/Semaphore/Waits.antt =====
-- When the waits of include/traact/util/Semaphore.h return, and with what.
use traact_core.Prelude.{
  ◌≡◌, inl, inr, Bool, true, false, List, [], ◌∷◌, some, none, arith, Option-cases, Bool-cases, ◌⊎◌,
  map, if◌then◌else◌, refl,
}
use traact_core.Prelude.Int.{◌+ℤ◌, ◌-ℤ◌, ◌≤ℤ◌, ◌<ℤ◌, ltb_ℤ, +ℤ_parts, -ℤ_parts}
use traact_core.Datatypes.{Timestamp}
use traact_core.Util.Semaphore.{
  WaitForTimestamp, WaitForMasterTs, wait_while, wait_timestamp, wait_master, notify_all_master,
  wait_value, wait_exact, try_wait_exact, CvStatus, timeout, no_timeout,
}

-- All values of a list that starts with `x`.
abbrev pub All {ℓ κ} : {T : Type ℓ} → (T → Type κ) → List T → Type κ
All P [] = Unit
All P (x ∷ xs) = P x × All P xs

All-map {ℓ κ μ} :
    {T : Type ℓ} {P : T → Type κ} {Q : T → Type μ}
    → ((x : T) → P x → Q x)
    → (xs : List T) → All P xs
    → All Q xs
All-map f [] h = tt
All-map f (x ∷ xs) h = (f x h.0, All-map f xs h.1)

module _ {ℓ} {T : Type ℓ} (blocked : T → Bool) where
  pub wait_while-free :
      (wakes : List T) (v w : T) → wait_while blocked wakes v ≡ some w → blocked w ≡ false
  unfolding wait_while
  wait_while-free [] v w h = ground arith
  wait_while-free (x ∷ wakes) v w h = ground (arith, wait_while-free wakes x w)

  pub wait_while-blocked :
      (wakes : List T) (v : T)
      → wait_while blocked wakes v ≡ none
      → All (λ x. blocked x ≡ true) (v ∷ wakes)
  unfolding wait_while
  wait_while-blocked [] v h = ground arith
  wait_while-blocked (x ∷ wakes) v h = ground (arith, wait_while-blocked wakes x)

abbrev too_old : Timestamp → WaitForTimestamp → Timestamp → Bool
too_old value w v = ltb_ℤ v (value -ℤ (w.max_offset +ℤ w.max_offset))

-- `WaitForTimestamp::wait` returns only at a value that is not more than two offsets before the
-- one asked for, and it keeps the offset.
pub wait_timestamp-reached :
    (value : Timestamp) (wakes : List Timestamp) (w u : WaitForTimestamp)
    → wait_timestamp value wakes w ≡ some u
    → (value ≤ℤ u.current_value +ℤ (w.max_offset +ℤ w.max_offset)) × (u.max_offset ≡ w.max_offset)
unfolding wait_timestamp
wait_timestamp-reached value wakes w u h =
    elim (Option-cases (wait_while (too_old value w) wakes w.current_value)) [
      | inl e ↦ cc
      | inr (v, e) ↦ ground (
        arith,
        wait_while-free (too_old value w) wakes w.current_value v e,
        -ℤ_parts value (w.max_offset +ℤ w.max_offset),
        +ℤ_parts v (w.max_offset +ℤ w.max_offset),
      )
    ]

too_old_lem :
    (value : Timestamp) (w : WaitForTimestamp) (v : Timestamp)
    → too_old value w v ≡ true
    → v +ℤ (w.max_offset +ℤ w.max_offset) <ℤ value
too_old_lem value w v h = ground (
  arith,
  -ℤ_parts value (w.max_offset +ℤ w.max_offset),
  +ℤ_parts v (w.max_offset +ℤ w.max_offset),
)

-- `WaitForTimestamp::wait` is still blocked only if every value that it has seen, the first one
-- included, is more than two offsets before the one asked for.
pub wait_timestamp-blocked :
    (value : Timestamp) (wakes : List Timestamp) (w : WaitForTimestamp)
    → wait_timestamp value wakes w ≡ none
    → All (λ v. v +ℤ (w.max_offset +ℤ w.max_offset) <ℤ value) (w.current_value ∷ wakes)
unfolding wait_timestamp
wait_timestamp-blocked value wakes w h =
    All-map (too_old_lem value w) (w.current_value ∷ wakes)
      (wait_while-blocked (too_old value w) wakes w.current_value (ground arith))

-- `WaitForMasterTs::wait` returns only once the master's timestamp is not after the one asked for.
pub wait_master-reached :
    (ts : Timestamp) (wakes : List Timestamp) (w u : WaitForMasterTs)
    → wait_master ts wakes w ≡ some u
    → u.current_ts ≤ℤ ts
unfolding wait_master
wait_master-reached ts wakes w u h =
    elim (Option-cases (wait_while (λ v. ltb_ℤ ts v) wakes w.current_ts)) [
      | inl e ↦ cc
      | inr (v, e) ↦ ground (arith, wait_while-free (λ v. ltb_ℤ ts v) wakes w.current_ts v e)
    ]

-- `WaitForMasterTs`: after the master notified a timestamp that is not after the one asked for, a
-- wait returns at once, and while the last one notified is after it, the wait blocks.
pub wait_master-notify_all :
    (ts master : Timestamp) (w : WaitForMasterTs)
    → wait_master ts [] (notify_all_master master w)
      ≡ (if ltb_ℤ ts master then none else some (record { current_ts = master }))
unfolding wait_master notify_all_master wait_while
wait_master-notify_all ts master w = elim (Bool-cases (ltb_ℤ ts master)) [
  | inl e ↦ rw e refl
  | inr e ↦ rw e refl
]

module _ {ℓ} {T : Type ℓ} where
  -- Some value of a list that starts with `x`.
  abbrev pub Any : (T → Type 0) → List T → Type 0
  Any P [] = ⊥
  Any P (x ∷ xs) = P x ⊎ Any P xs

  -- `WaitForValue::wait` and `waitValue` return only at a value that is not below the one asked for,
  -- whatever the order is.
  pub wait_value-reached :
      (lt : T → T → Bool) (value : T) (wakes : List T) (current v : T)
      → wait_value lt value wakes current ≡ some v
      → lt v value ≡ false
  unfolding wait_value
  wait_value-reached lt value wakes current v h =
      wait_while-free (λ c. lt c value) wakes current v h

  pub wait_exact-reached :
      (ne : T → T → Bool) (value : T) (wakes : List T) (current v : T)
      → wait_exact ne value wakes current ≡ some v
      → ne v value ≡ false
  unfolding wait_exact
  wait_exact-reached ne value wakes current v h =
      wait_while-free (λ c. ne c value) wakes current v h

  -- `WaitForExactValue::try_wait` returns true only if the value asked for was seen, first or at a
  -- wake-up.
  pub try_wait_exact-seen :
      (ne : T → T → Bool) (value : T) (wakes : List (CvStatus × T)) (current : T)
      → try_wait_exact ne value wakes current ≡ some true
      → Any (λ v. ne v value ≡ false) (current ∷ map (λ w. w.1) wakes)
  unfolding try_wait_exact
  try_wait_exact-seen ne value [] current h = inl (ground arith)
  try_wait_exact-seen ne value ((timeout, v) ∷ wakes) current h = inl (ground arith)
  try_wait_exact-seen ne value ((no_timeout, v) ∷ wakes) current h =
      elim (Bool-cases (ne current value)) [
        | inl e ↦ inr (try_wait_exact-seen ne value wakes v (ground (arith, e)))
        | inr e ↦ inl e
      ]
