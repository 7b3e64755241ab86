-- ===== src/Util/CircularBuffer.antt =====
-- include/traact/util/CircularBuffer.h: the two ring buffers. `data_` is a function of the index; in
-- `CircularBuffer<T, N>` the field `capacity` is `N`, in `CircularDynamicBuffer<T>` it is
-- `data_.size()`. What `data_` holds before it is written is what the caller puts there.
pub mod Window
pub mod Iteration
use traact_core.Prelude.{
  ℕ, suc, ◌+◌, ◌-◌, min, List, [], ◌∷◌, ◌++◌, zero, ◌==◌, if◌then◌else◌, Option, none, some,
}
use traact_core.Prelude.Int.{ℤ, pos, negsuc, pos_part, ◌+ℤ◌, ◌-ℤ◌, rem_ℤ, ltb_ℤ}

pub record CircularBuffer {ℓ} (T : Type ℓ) : Type ℓ where
  pub capacity : ℕ
  pub data_ : ℕ → T
  pub current_size : ℕ
  pub current_index : ℤ

module _ {ℓ} {T : Type ℓ} where
  unfoldable pub init : ℕ → (ℕ → T) → CircularBuffer T
  init capacity data_ = record {
    capacity = capacity;
    data_ = data_;
    current_size = 0;
    current_index = negsuc 0;
  }

  unfoldable pub clear : CircularBuffer T → CircularBuffer T
  clear b = record b { current_size = 0; current_index = negsuc 0 }

  -- `emplace_back()`: the next slot, with what it holds.
  unfoldable pub emplace_back : CircularBuffer T → CircularBuffer T
  emplace_back b = record b {
    current_index = rem_ℤ (b.current_index +ℤ pos 1) b.capacity;
    current_size = min (b.current_size + 1) b.capacity;
  }

  unfoldable pub push_back : T → CircularBuffer T → CircularBuffer T
  unfolding emplace_back
  push_back value b =
      let c = emplace_back b in
      record c { data_ = λ i. if i == pos_part c.current_index then value else c.data_ i }

  unfoldable pub at : ℕ → CircularBuffer T → T
  at index b = b.data_ index

  unfoldable pub back : CircularBuffer T → T
  back b = b.data_ (pos_part b.current_index)

  -- The `const` overload of `front`.
  unfoldable pub front : CircularBuffer T → T
  front b =
      let index = b.current_index -ℤ (pos b.current_size -ℤ pos 1) in
      if ltb_ℤ index (pos 0)
      then b.data_ (pos_part (index +ℤ pos b.current_size))
      else b.data_ (pos_part index)

  -- The elements from `begin()` to `end()` of `CircularBuffer`: those of the first slots.
  unfoldable pub elements : ℕ → CircularBuffer T → List T
  elements zero b = []
  elements (suc k) b = elements k b ++ b.data_ k ∷ []

  unfoldable pub range : CircularBuffer T → List T
  unfolding elements
  range b = elements b.current_size b

  -- The indices of `begin()` and `end()` of a `CircularDynamicBuffer` that is not empty: `&front()`
  -- and `(&back()) + 1`.
  unfoldable pub dynamic_begin : CircularBuffer T → ℕ
  dynamic_begin b =
      let index = b.current_index -ℤ (pos b.current_size -ℤ pos 1) in
      if ltb_ℤ index (pos 0) then pos_part (index +ℤ pos b.current_size) else pos_part index

  unfoldable pub dynamic_end : CircularBuffer T → ℕ
  dynamic_end b = pos_part b.current_index + 1
