-- ===== src/Util/CircularBuffer/Iteration.antt =====
-- What a loop from `begin()` to `end()` visits, for the two ring buffers of
-- include/traact/util/CircularBuffer.h.
use traact_core.Prelude.{
  ℕ, zero, suc, ◌-◌, ◌<◌, ◌≡◌, refl, sym, ap, subst, ◌∙◌, ◌⊎◌, min, List, [], ◌∷◌, ◌++◌, arith,
  ◌==◌, Bool-cases, inl, inr, ==_iff, length, get_elem?, some, length-append, get_elem?-append_left,
  get_elem?-append_end,
}
use traact_core.Prelude.Int.{pos, pos_part, ltb_ℤ}
use traact_core.Util.CircularBuffer.{
  CircularBuffer, init, elements, range, dynamic_begin, dynamic_end,
}
use traact_core.Util.CircularBuffer.Window.{
  IsWindow, slot_of, push_all, push_all-IsWindow, push_all-capacity, oldest, oldest_behind,
  oldest_ahead,
}

module _ {ℓ} {T : Type ℓ} where
  length-elements : (k : ℕ) (b : CircularBuffer T) → length (elements k b) ≡ k
  unfolding elements
  length-elements zero b = refl
  length-elements (suc k) b =
      omega (arith, length-append (elements k b) (b.data_ k ∷ []), length-elements k b)

  get_elem?-elements :
      (k : ℕ) (b : CircularBuffer T) (i : ℕ) → i < k → get_elem? (elements k b) i ≡ some (b.data_ i)
  unfolding elements
  get_elem?-elements zero b i h = absurd (omega arith)
  get_elem?-elements (suc k) b i h = elim (Bool-cases (i == k)) [
    | inl e ↦ rw ((==_iff i k).0 e) (
        ap (λ m. get_elem? (elements k b ++ b.data_ k ∷ []) m) (sym (length-elements k b))
        ∙ get_elem?-append_end (elements k b) (b.data_ k))
    | inr e ↦
        let less : i < k = ground arith in
        get_elem?-append_left (elements k b) (b.data_ k ∷ []) i
          (subst (λ m. i < m) (sym (length-elements k b)) less)
        ∙ get_elem?-elements k b i less
  ]

  slot_lt :
      (b : CircularBuffer T) (vs : List T) (i : ℕ)
      → IsWindow b vs
      → i < b.current_size
      → slot_of b.capacity (pos_part b.current_index) i < b.current_size
  slot_lt b vs i w h = ground (arith, w.size, w.index_lt, w.unwrapped, w.in_slot)

  -- A loop over a `CircularBuffer` visits as many values as it holds, and among them each of the
  -- values that were pushed last, in the order of the slots.
  pub range-push_all :
      (n : ℕ) (data_ : ℕ → T) (vs : List T)
      → 0 < n
      → let b = push_all vs (init n data_) in
        (length (range b) ≡ min (length vs) n)
        × ((i : ℕ)
            → i < min (length vs) n
            → (slot_of n (pos_part b.current_index) i < min (length vs) n)
              × (get_elem? (range b) (slot_of n (pos_part b.current_index) i) ≡ get_elem? vs i))
  unfolding range
  range-push_all n data_ vs h =
      let b = push_all vs (init n data_) in
      let w = push_all-IsWindow n data_ vs h in
      let c = push_all-capacity n data_ vs in
      let size : b.current_size ≡ min (length vs) n = w.size ∙ ap (λ m. min (length vs) m) c in
      (
        length-elements b.current_size b ∙ size,
        λ i k.
            let inside : i < b.current_size = subst (λ m. i < m) (sym size) k in
            let slot = slot_lt b vs i w inside in
            let same = ap (λ m. slot_of m (pos_part b.current_index) i) c in
            (
              subst (λ m. slot_of m (pos_part b.current_index) i < min (length vs) n) c
                  (subst (λ m. slot_of b.capacity (pos_part b.current_index) i < m) size slot),
              ap (λ j. get_elem? (range b) j) (sym same)
                  ∙ get_elem?-elements b.current_size b
                      (slot_of b.capacity (pos_part b.current_index) i) slot
                  ∙ sym (w.kept i inside),
            ),
      )

  dynamic_begin_slot :
      (b : CircularBuffer T) (vs : List T)
      → IsWindow b vs
      → 0 < length vs
      → dynamic_begin b ≡ slot_of b.capacity (pos_part b.current_index) (b.current_size - 1)
  unfolding dynamic_begin
  dynamic_begin_slot b vs w h = elim (Bool-cases (ltb_ℤ (oldest b) (pos 0))) [
    | inl e ↦ rw (e, dynamic_begin) (oldest_behind b vs w h e)
    | inr e ↦ rw (e, dynamic_begin) (oldest_ahead b vs w h e)
  ]

  -- A loop over a `CircularDynamicBuffer` visits all slots in use while the last value stands in the
  -- last of them; otherwise it visits none, though the buffer is full.
  pub dynamic_range-push_all :
      (n : ℕ) (data_ : ℕ → T) (vs : List T)
      → 0 < n
      → 0 < length vs
      → let b = push_all vs (init n data_) in
        (dynamic_end b ≡ b.current_size) × (dynamic_begin b ≡ 0)
        ⊎ (dynamic_end b < n) × (b.current_size ≡ n) × (dynamic_begin b ≡ dynamic_end b)
  unfolding dynamic_end
  dynamic_range-push_all n data_ vs h l =
      let b = push_all vs (init n data_) in
      let w = push_all-IsWindow n data_ vs h in
      let c = push_all-capacity n data_ vs in
      let start = dynamic_begin_slot b vs w l in
      ground (arith, w.size, w.index_lt, w.unwrapped, w.in_slot)
