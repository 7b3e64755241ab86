-- ===== src/Buffer/ComponentBuffer/Validity.antt =====
-- Which ports count as valid, in src/traact/buffer/ComponentBuffer.cpp.
use traact_core.Prelude.{
  subst, Bool-cases, false, inl, inr, ℕ, zero, suc, ◌+◌, ◌*◌, ◌<◌, ◌≡◌, ◌↔◌, refl, sym, ap, ap₂,
  ◌∙◌, List, [], ◌∷◌, Bool, true, ◌&&◌, some, get_elem?, arith, ==_refl,
}
use traact_core.Prelude.Int.{pos, ◌+ℤ◌}
use traact_core.Exceptions.{Result, ok, ◌>>=◌}
use traact_core.Datatypes.{Timestamp}
use traact_core.Buffer.TimeStepBuffer.{PortState, update}
use traact_core.Buffer.ComponentBuffer.{
  PortGroupConfig, ComponentBuffer, PortStates, is_valid, is_input_valid, get_input_timestamp,
  get_output, checked, and_input_valid, all_valid, is_all_input_valid, group_loop,
  is_input_group_valid, group_valid,
}

all_places :
    (k : ℕ) (place : ℕ → ℕ) (s : PortStates)
    → s.buffer_valid (place 0) ≡ PortState.port_valid
    → ((i : ℕ) → i < k → s.buffer_valid (place (suc i)) ≡ PortState.port_valid)
    → (i : ℕ) → i < suc k
    → s.buffer_valid (place i) ≡ PortState.port_valid
all_places k place s first rest zero l = first
all_places k place s first rest (suc i) l = rest i (omega arith)

-- What a producer writes is seen by every consumer that shares the port's entries: after
-- `getOutput` its input is valid and shows the timestamp that was written.
pub get_output-is_input_valid :
    (producer consumer : ComponentBuffer) (i j p q : ℕ) (ts : Timestamp) (s : PortStates)
    → get_elem? producer.output_valid i ≡ some p
    → get_elem? producer.output_timestamp i ≡ some q
    → get_elem? consumer.input_valid j ≡ some p
    → get_elem? consumer.input_timestamp j ≡ some q
    → (t : PortStates) × (get_output i ts producer s ≡ ok t)
      × (is_input_valid j consumer t ≡ ok true)
      × (get_input_timestamp j consumer t ≡ ok ts)
unfolding get_output is_input_valid get_input_timestamp
get_output-is_input_valid producer consumer i j p q ts s a b c d = (
  record s {
    buffer_valid = update s.buffer_valid p PortState.port_valid;
    buffer_timestamp = update s.buffer_timestamp q ts;
  },
  ap₂
      (λ m n. m >>= λ p. n >>= λ q. ok (record s {
        buffer_valid = update s.buffer_valid p PortState.port_valid;
        buffer_timestamp = update s.buffer_timestamp q ts;
      }))
      (ap checked a) (ap checked b),
  ap (λ m. m >>= λ r. ok (is_valid (update s.buffer_valid p PortState.port_valid r))) (ap checked c)
      ∙ rw (==_refl p) refl,
  ap (λ m. m >>= λ r. ok (update s.buffer_timestamp q ts r)) (ap checked d) ∙ rw (==_refl q) refl,
)

is_valid_iff : (v : PortState) → (is_valid v ≡ true) ↔ (v ≡ PortState.port_valid)
is_valid_iff PortState.port_valid = (λ h. refl, λ h. refl)
is_valid_iff PortState.port_invalid = (λ h. cc, λ h. cc)

and_true : (a b : Bool) → (a && b) ≡ true → (a ≡ true) × (b ≡ true)
and_true a b h = (ground arith, ground arith)

all_valid-all :
    (ps : List ℕ) (s : PortStates) (i p : ℕ)
    → all_valid ps s ≡ true
    → get_elem? ps i ≡ some p
    → s.buffer_valid p ≡ PortState.port_valid
unfolding all_valid
all_valid-all [] s i p h g = cc
all_valid-all (x ∷ ps) s zero p h g =
    let same : x ≡ p = cc in
    ap s.buffer_valid (sym same)
    ∙ (is_valid_iff (s.buffer_valid x)).0
        (and_true (is_valid (s.buffer_valid x)) (all_valid ps s) h).0
all_valid-all (x ∷ ps) s (suc i) p h g =
    all_valid-all ps s i p (and_true (is_valid (s.buffer_valid x)) (all_valid ps s) h).1 g

all-all_valid :
    (ps : List ℕ) (s : PortStates)
    → ((i p : ℕ) → get_elem? ps i ≡ some p → s.buffer_valid p ≡ PortState.port_valid)
    → all_valid ps s ≡ true
unfolding all_valid
all-all_valid [] s f = refl
all-all_valid (x ∷ ps) s f =
    let first = (is_valid_iff (s.buffer_valid x)).1 (f 0 x refl) in
    rw first (all-all_valid ps s (λ i p g. f (suc i) p g))

-- `isAllInputValid` says yes exactly when the state of every input port is valid.
pub is_all_input_valid_iff :
    (b : ComponentBuffer) (s : PortStates)
    → (is_all_input_valid b s ≡ true)
      ↔ ((i p : ℕ) → get_elem? b.input_valid i ≡ some p → s.buffer_valid p ≡ PortState.port_valid)
unfolding is_all_input_valid
is_all_input_valid_iff b s =
    (λ h i p g. all_valid-all b.input_valid s i p h g, all-all_valid b.input_valid s)

group_loop-false :
    (k port_index : ℕ) (output : PortGroupConfig) (instance_index : ℕ) (b : ComponentBuffer)
    (s : PortStates)
    → group_loop k port_index false output instance_index b s ≡ ok false
unfolding group_loop
group_loop-false zero port_index output instance_index b s = refl
group_loop-false (suc k) port_index output instance_index b s =
    group_loop-false k (port_index + 1) output instance_index b s

-- The input port with the index that round `i` of the loop reads has its state at `place`.
abbrev pub Reads : PortGroupConfig → ℕ → ComponentBuffer → ℕ → ℕ → Type 0
Reads output instance_index b i place =
    (index : ℕ) × (output.group_offset +ℤ pos (output.group_port_count * instance_index + i)
      ≡ pos index)
    × (get_elem? b.input_valid index ≡ some place)

read_round :
    (output : PortGroupConfig) (instance_index : ℕ) (b : ComponentBuffer) (s : PortStates)
    (i place : ℕ)
    → Reads output instance_index b i place
    → and_input_valid true
        (output.group_offset +ℤ pos (output.group_port_count * instance_index + i))
        b
        s
      ≡ ok (is_valid (s.buffer_valid place))
unfolding is_input_valid
read_round output instance_index b s i place (index, at, read) =
    ap (λ z. and_input_valid true z b s) at
    ∙ ap (λ m. checked m >>= λ p. ok (is_valid (s.buffer_valid p))) read

-- The answer is yes exactly if all of the places are valid.
abbrev pub AnswersAll : ℕ → (ℕ → ℕ) → PortStates → Result Bool → Type 0
AnswersAll k place s r =
    (v : Bool) × (r ≡ ok v)
    × ((v ≡ true) ↔ ((i : ℕ) → i < k → s.buffer_valid (place i) ≡ PortState.port_valid))

group_loop_iff :
    (k port_index : ℕ) (output : PortGroupConfig) (instance_index : ℕ) (b : ComponentBuffer)
    (s : PortStates) (place : ℕ → ℕ)
    → ((i : ℕ) → i < k → Reads output instance_index b (port_index + i) (place i))
    → AnswersAll k place s (group_loop k port_index true output instance_index b s)
unfolding group_loop
group_loop_iff zero port_index output instance_index b s place f =
    (true, refl, (λ h i l. absurd (omega arith), λ h. refl))
group_loop_iff (suc k) port_index output instance_index b s place f =
    let next : Bool → Result Bool =
      λ v. group_loop k (port_index + 1) v output instance_index b s in
    let round =
      read_round output instance_index b s port_index (place 0) (
        subst (λ n. Reads output instance_index b n (place 0)) (omega arith) (f 0 (omega arith))) in
    elim (Bool-cases (is_valid (s.buffer_valid (place 0)))) [
      | inl valid ↦
          let (v, done, iff) =
            group_loop_iff k (port_index + 1) output instance_index b s (λ i. place (suc i))
              (λ i l.
                subst (λ n. Reads output instance_index b n (place (suc i))) (omega arith)
                  (f (suc i) (omega arith))) in
          (
            v,
            ap (λ r. r >>= next) (round ∙ ap ok valid) ∙ done,
            (
              λ h.
                  all_places k place s ((is_valid_iff (s.buffer_valid (place 0))).0 valid)
                    (iff.0 h),
              λ h. iff.1 (λ i l. h (suc i) (omega arith)),
            ),
          )
      | inr bad ↦ (
        false,
        ap (λ r. r >>= next) (round ∙ ap ok bad)
            ∙ group_loop-false k (port_index + 1) output instance_index b s,
        (λ h. cc, λ h. sym bad ∙ (is_valid_iff (s.buffer_valid (place 0))).1 (h 0 (omega arith))),
      )
    ]

-- For a group of both inputs and outputs, `isInputGroupValid` looks at as many input ports as the
-- input group has instances, those from the offset of the output group on: if these indices are in
-- range it returns, and says yes exactly if all of those ports are valid, whatever the other ports of
-- the instance are.
pub is_input_group_valid-first :
    (group_index instance_index : ℕ) (input output : PortGroupConfig) (b : ComponentBuffer)
    (s : PortStates) (place : ℕ → ℕ)
    → get_elem? b.input_groups group_index ≡ some input
    → get_elem? b.output_groups group_index ≡ some output
    → ((i : ℕ) → i < input.size → Reads output instance_index b i (place i))
    → AnswersAll input.size place s (is_input_group_valid group_index instance_index b s)
unfolding is_input_group_valid group_valid
is_input_group_valid-first group_index instance_index input output b s place h k f =
    let same = ap₂ (λ m n. group_valid m n instance_index b s) h k in
    subst (AnswersAll input.size place s) (sym same) (
      group_loop_iff input.size 0 output instance_index b s place
        (λ i l. subst (λ n. Reads output instance_index b n (place i)) (omega arith) (f i l)))
