-- ===== src/Util/CircularBuffer/Window.antt =====
-- What a ring buffer of include/traact/util/CircularBuffer.h keeps of the values pushed into it.
use traact_core.Prelude.{
  ℕ, zero, suc, ◌+◌, ◌-◌, ◌%◌, ◌≤◌, ◌<◌, ◌≡◌, refl, sym, ap, ◌∙◌, min, List, [], ◌∷◌, true, false,
  arith, leb, ◌==◌, if◌then◌else◌, Bool-cases, inl, inr, length, get_elem?, some,
}
use traact_core.Prelude.Int.{
  ltb_ℤ, +ℤ_parts, -ℤ_parts, ℤ, ◌+ℤ◌, ◌-ℤ◌, pos, negsuc, pos_part, neg_part, ◌+ℤ◌, ◌-ℤ◌, -ℤ_parts,
  +ℤ_parts, ◌≤ℤ◌,
}
use traact_core.Prelude.Wrap.{rem_ℤ-succ}
use native.Mathlib.Nat.{mod-eq_of_lt, mod_self}
use traact_core.Util.CircularBuffer.{CircularBuffer, init, push_back, back, front}

-- The slot of the value that was pushed `i` values before the last, of `n` slots with the last
-- value in slot `k`.
abbrev pub slot_of : ℕ → ℕ → ℕ → ℕ
slot_of n k i = if leb i k then k - i else k + n - i

-- The number of slots behind the last value, counted from the first slot.
abbrev filled : ℤ → ℕ
filled z = pos_part z + 1 - neg_part z

wrap_lem : (m n : ℕ) → m ≤ n → 0 < n → m % n ≡ (if m == n then 0 else m)
wrap_lem m n h p = elim (Bool-cases (m == n)) [
  | inl e ↦ ground (arith, mod_self n)
  | inr e ↦ rw e (mod-eq_of_lt (ground arith))
]

module _ {ℓ} {T : Type ℓ} where
  -- The buffer holds the latest values of `pushed`, which lists the latest first.
  pub record IsWindow (b : CircularBuffer T) (pushed : List T) : Type ℓ where
    pub some_slots : 0 < b.capacity
    pub size : b.current_size ≡ min (length pushed) b.capacity
    pub placed : negsuc 0 ≤ℤ b.current_index
    pub index_lt : pos_part b.current_index < b.capacity
    pub unwrapped : length pushed ≤ b.capacity → filled b.current_index ≡ length pushed
    pub in_slot : 0 < length pushed → neg_part b.current_index ≡ 0
    pub kept :
        (i : ℕ)
        → i < b.current_size
        → get_elem? pushed i ≡ some (b.data_ (slot_of b.capacity (pos_part b.current_index) i))

  push_index :
      (v : T) (b : CircularBuffer T) (pushed : List T)
      → IsWindow b pushed
      → (push_back v b).current_index
        ≡ pos (if filled b.current_index == b.capacity then 0 else filled b.current_index)
  unfolding push_back
  push_index v b pushed w =
      rem_ℤ-succ b.current_index b.capacity w.placed
      ∙ ap pos
          (wrap_lem (filled b.current_index) b.capacity (omega (arith, w.index_lt)) w.some_slots)

  kept_next :
      (v : T) (b : CircularBuffer T) (pushed : List T) (k : ℕ)
      → IsWindow b pushed
      → k ≡ (if filled b.current_index == b.capacity then 0 else filled b.current_index)
      → (i : ℕ) → i < min (b.current_size + 1) b.capacity
      → get_elem? (v ∷ pushed) i
        ≡ some (if slot_of b.capacity k i == k then v else b.data_ (slot_of b.capacity k i))
  kept_next v b pushed k w e zero h =
      let first : (slot_of b.capacity k 0 == k) ≡ true = ground arith in rw first refl
  kept_next v b pushed k w e (suc i) h =
      let old = w.kept i (omega arith) in
      let same : slot_of b.capacity k (suc i) ≡ slot_of b.capacity (pos_part b.current_index) i =
        ground (arith, w.index_lt, w.size, w.unwrapped, w.in_slot) in
      let other : (slot_of b.capacity k (suc i) == k) ≡ false =
        ground (arith, w.index_lt, w.size) in
      rw (other, same) old

  pub push_back-IsWindow :
      (v : T) (b : CircularBuffer T) (pushed : List T)
      → IsWindow b pushed
      → IsWindow (push_back v b) (v ∷ pushed)
  unfolding push_back
  push_back-IsWindow v b pushed w =
      let e = push_index v b pushed w in
      let part : pos_part (push_back v b).current_index
          ≡ (if filled b.current_index == b.capacity then 0 else filled b.current_index) =
        ap pos_part e in
      let neg : neg_part (push_back v b).current_index ≡ 0 = ap neg_part e in
      record {
        some_slots = w.some_slots;
        size = ground (arith, w.size);
        placed = omega arith;
        index_lt = ground (arith, w.index_lt, w.some_slots);
        unwrapped = λ h. ground (arith, w.unwrapped, w.index_lt);
        in_slot = λ h. neg;
        kept = kept_next v b pushed (pos_part (push_back v b).current_index) w part;
      }

  pub init-IsWindow : (n : ℕ) (data_ : ℕ → T) → 0 < n → IsWindow (init n data_) []
  unfolding init
  init-IsWindow n data_ h = record {
    some_slots = h;
    size = omega arith;
    placed = omega arith;
    index_lt = h;
    unwrapped = λ _. refl;
    in_slot = λ l. absurd (omega arith);
    kept = λ i l. absurd (omega arith);
  }

  -- The buffer after the values of a list are pushed, its last one first.
  pub push_all : List T → CircularBuffer T → CircularBuffer T
  push_all [] b = b
  push_all (v ∷ vs) b = push_back v (push_all vs b)

  pub push_all-IsWindow :
      (n : ℕ) (data_ : ℕ → T) (vs : List T) → 0 < n → IsWindow (push_all vs (init n data_)) vs
  unfolding push_all
  push_all-IsWindow n data_ [] h = init-IsWindow n data_ h
  push_all-IsWindow n data_ (v ∷ vs) h =
      push_back-IsWindow v (push_all vs (init n data_)) vs (push_all-IsWindow n data_ vs h)

  -- `push_all` leaves the number of slots alone.
  pub push_all-capacity :
      (n : ℕ) (data_ : ℕ → T) (vs : List T) → (push_all vs (init n data_)).capacity ≡ n
  unfolding push_all init push_back
  push_all-capacity n data_ [] = refl
  push_all-capacity n data_ (v ∷ vs) = push_all-capacity n data_ vs

  -- The index that `front` forms.
  abbrev pub oldest : CircularBuffer T → ℤ
  oldest b = b.current_index -ℤ (pos b.current_size -ℤ pos 1)

  pub oldest_behind :
      (b : CircularBuffer T) (pushed : List T)
      → IsWindow b pushed
      → 0 < length pushed
      → ltb_ℤ (oldest b) (pos 0) ≡ true
      → pos_part (oldest b +ℤ pos b.current_size)
        ≡ slot_of b.capacity (pos_part b.current_index) (b.current_size - 1)
  oldest_behind b pushed w h e = ground (
    arith,
    w.size,
    w.index_lt,
    w.unwrapped,
    w.in_slot h,
    w.some_slots,
    +ℤ_parts (oldest b) (pos b.current_size),
    -ℤ_parts (pos b.current_size) (pos 1),
    -ℤ_parts b.current_index (pos b.current_size -ℤ pos 1),
  )

  pub oldest_ahead :
      (b : CircularBuffer T) (pushed : List T)
      → IsWindow b pushed
      → 0 < length pushed
      → ltb_ℤ (oldest b) (pos 0) ≡ false
      → pos_part (oldest b) ≡ slot_of b.capacity (pos_part b.current_index) (b.current_size - 1)
  oldest_ahead b pushed w h e = ground (
    arith,
    w.size,
    w.index_lt,
    w.unwrapped,
    w.in_slot h,
    w.some_slots,
    -ℤ_parts (pos b.current_size) (pos 1),
    -ℤ_parts b.current_index (pos b.current_size -ℤ pos 1),
  )

  front_slot :
      (b : CircularBuffer T) (pushed : List T)
      → IsWindow b pushed
      → 0 < length pushed
      → front b ≡ b.data_ (slot_of b.capacity (pos_part b.current_index) (b.current_size - 1))
  unfolding front
  front_slot b pushed w h = elim (Bool-cases (ltb_ℤ (oldest b) (pos 0))) [
    | inl e ↦ rw (e, front) (ap b.data_ (oldest_behind b pushed w h e))
    | inr e ↦ rw (e, front) (ap b.data_ (oldest_ahead b pushed w h e))
  ]

  back_slot :
      (b : CircularBuffer T) → back b ≡ b.data_ (slot_of b.capacity (pos_part b.current_index) 0)
  unfolding back
  back_slot b = ap b.data_ (ground arith)

  -- Whatever was pushed into a ring buffer of at least one slot, it holds as many values as fit;
  -- the value that was pushed `i` before the last stands `i` slots behind the last one, round the
  -- ring; `back` is the last value and `front` the oldest one that is left.
  pub push_all-window :
      (n : ℕ) (data_ : ℕ → T) (vs : List T)
      → 0 < n
      → 0 < length vs
      → let b = push_all vs (init n data_) in
        (b.current_size ≡ min (length vs) n)
        × ((i : ℕ)
            → i < b.current_size
            → get_elem? vs i ≡ some (b.data_ (slot_of n (pos_part b.current_index) i)))
        × (get_elem? vs 0 ≡ some (back b))
        × (get_elem? vs (b.current_size - 1) ≡ some (front b))
  push_all-window n data_ vs h l =
      let b = push_all vs (init n data_) in
      let w = push_all-IsWindow n data_ vs h in
      let c = push_all-capacity n data_ vs in
      let size = w.size ∙ ap (λ m. min (length vs) m) c in
      let kept = w.kept in
      let slots = λ (i : ℕ) (k : i < b.current_size).
        kept i k ∙ ap (λ m. some (b.data_ (slot_of m (pos_part b.current_index) i))) c in
      (
        size,
        slots,
        kept 0 (omega arith) ∙ ap some (sym (back_slot b)),
        kept (b.current_size - 1) (omega arith) ∙ ap some (sym (front_slot b vs w l)),
      )
