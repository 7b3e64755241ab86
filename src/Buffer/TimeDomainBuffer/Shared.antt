-- ===== src/Buffer/TimeDomainBuffer/Shared.antt =====
-- src/traact/buffer/TimeDomainBuffer.cpp and TimeStepBuffer.cpp: a consumer reads the buffer that its
-- producer writes.
use Prim.Native.String.{String}
use mathlib.Core.List.{Memᴰ}
use traact_core.Prelude.{
  ℕ, zero, suc, ◌≡◌, refl, ap, subst, ◌∙◌, inl, inr, Bool, true, List, [], ◌∷◌, none, some, length,
  get_elem?,
}
use traact_core.Prelude.Int.{ℤ}
use traact_core.Exceptions.{ok_injective, ok, >>=-eq-ok}
use traact_core.Datatypes.{Timestamp}
use traact_core.Pattern.Instance.{Found, port_id, get_producer_ports, get_consumer_ports}
use traact_core.Pattern.Graph.{GraphInstance, Place, connected_to_ptr}
use traact_core.Component.{GraphComponent}
use traact_core.Buffer.ComponentBuffer.{
  ComponentBuffer, PortStates, get_output, is_input_valid, get_input_timestamp,
}
use traact_core.Buffer.ComponentBuffer.Validity.{get_output-is_input_valid}
use traact_core.Buffer.TimeDomainBuffer.{
  Typed, Gathered, BufferConfig, TimeDomainBuffer, index_or_zero, gather, create_local_buffer,
  create_component_buffer, create_component_buffers, buffer_configs, ordered_components,
  create_objects, init,
}
use traact_core.Buffer.TimeDomainBuffer.Indices.{Output, IsSingle, gather-HasIndex}
use traact_core.Buffer.TimeDomainBuffer.Local.{
  IsIndexed, create_local_buffer-at, create_component_buffers-at, buffer_to_port-IsCounted,
  buffer_to_port-at, buffer_config-outputs, buffer_config-inputs, buffer_configs-at,
}

-- The four vectors of a component buffer.
record IsLocal (n : ℕ) (config : BufferConfig) (b : ComponentBuffer) : Type 0 where
  inputs : create_local_buffer n config.buffer_to_port_input ≡ ok b.input_valid
  input_times : b.input_timestamp ≡ b.input_valid
  outputs : create_local_buffer n config.buffer_to_port_output ≡ ok b.output_valid
  output_times : b.output_timestamp ≡ b.output_valid

create_component_buffer-IsLocal :
    (n : ℕ) (config : BufferConfig) (b : ComponentBuffer)
    → create_component_buffer n config ≡ ok b
    → IsLocal n config b
unfolding create_component_buffer
create_component_buffer-IsLocal n config b e =
    let (inputs, one, e1) = >>=-eq-ok (create_local_buffer n config.buffer_to_port_input) _ e in
    let (outputs, two, e2) = >>=-eq-ok (create_local_buffer n config.buffer_to_port_output) _ e1 in
    subst (IsLocal n config) (ok_injective e2)
      (record { inputs = one; input_times = refl; outputs = two; output_times = refl })

module _ (format : String → ℕ → String → String) (graph : GraphInstance) (td : ℤ) where
  -- What `init` makes, in parts.
  record Made (ordered : List Typed) (b : TimeDomainBuffer) : Type 0 where
    gathered : Gathered
    count : ℕ
    collected :
        gather format graph td ordered
          (record { buffer_datatype = []; port_to_buffer_index = λ id. none })
        ≡ ok gathered
    configured :
        buffer_configs format graph td gathered.port_to_buffer_index ordered
        ≡ ok b.buffer_config_list
    created : create_component_buffers count b.buffer_config_list ≡ ok b.component_buffers

  init-Made :
      (known : String → Bool) (patterns : List GraphComponent) (ordered : List Typed)
      (b : TimeDomainBuffer)
      → ordered_components td patterns ≡ ok ordered
      → init format graph td known patterns ≡ ok b
      → Made ordered b
  unfolding init
  init-Made known patterns ordered b order e =
      let (others, order', e1) = >>=-eq-ok (ordered_components td patterns) _ e in
      let (s, one, e2) =
        >>=-eq-ok
          (gather format graph td others
            (record { buffer_datatype = []; port_to_buffer_index = λ id. none }))
          _ e1 in
      let (configs, two, e3) =
        >>=-eq-ok (buffer_configs format graph td s.port_to_buffer_index others) _ e2 in
      let (buffers, three, e4) =
        >>=-eq-ok
          (create_component_buffers (length (create_objects known s.buffer_datatype)) configs) _
          e3 in
      let same : others ≡ ordered = cc (order, order') in
      subst (λ l. Made l b) same
        (subst (Made others) (ok_injective e4) (record {
          gathered = s;
          count = length (create_objects known s.buffer_datatype);
          collected = one;
          configured = two;
          created = three;
        }))

  -- The component buffer at position `a` has the entry of `f` at its position `i`.
  module _ (ordered : List Typed) (b : TimeDomainBuffer) (made : Made ordered b) (a : ℕ) (x : Typed)
      (fs : List Found) (i : ℕ) (f : Found) (at : get_elem? ordered a ≡ some x)
      (indexed : IsIndexed 0 x.1 fs) (port : get_elem? fs i ≡ some f) where
    abbrev Entry : (ComponentBuffer → List ℕ) → (ComponentBuffer → List ℕ) → Type 0
    Entry valid time =
        (c : ComponentBuffer) × (get_elem? b.component_buffers a ≡ some c)
        × (get_elem? (valid c) i
            ≡ some (index_or_zero (made.gathered.port_to_buffer_index (port_id format x.1 f))))
        × (time c ≡ valid c)

    output-Entry :
        get_producer_ports td x.1 ≡ ok fs → Entry (λ c. c.output_valid) (λ c. c.output_timestamp)
    output-Entry listed =
        let m = made.gathered.port_to_buffer_index in
        let (config, at1, e1) =
          buffer_configs-at format graph td m ordered b.buffer_config_list a x made.configured at in
        let (c, at2, e2) =
          create_component_buffers-at made.count b.buffer_config_list b.component_buffers a config
            made.created at1 in
        let local = create_component_buffer-IsLocal made.count config c e2 in
        let pairs = buffer_config-outputs format graph td m x config fs e1 listed in
        let (p, at3) =
          buffer_to_port-at format graph td m x.1 fs config.buffer_to_port_output i f pairs port in
        let counted =
          buffer_to_port-IsCounted format graph td m x.1 0 fs config.buffer_to_port_output pairs
            indexed in
        (
          c,
          at2,
          create_local_buffer-at made.count i _ p config.buffer_to_port_output c.output_valid
              counted local.outputs at3,
          local.output_times,
        )

    input-Entry :
        get_consumer_ports td x.1 ≡ ok fs → Entry (λ c. c.input_valid) (λ c. c.input_timestamp)
    input-Entry listed =
        let m = made.gathered.port_to_buffer_index in
        let (config, at1, e1) =
          buffer_configs-at format graph td m ordered b.buffer_config_list a x made.configured at in
        let (c, at2, e2) =
          create_component_buffers-at made.count b.buffer_config_list b.component_buffers a config
            made.created at1 in
        let local = create_component_buffer-IsLocal made.count config c e2 in
        let pairs = buffer_config-inputs format graph td m x config fs e1 listed in
        let (p, at3) =
          buffer_to_port-at format graph td m x.1 fs config.buffer_to_port_input i f pairs port in
        let counted =
          buffer_to_port-IsCounted format graph td m x.1 0 fs config.buffer_to_port_input pairs
            indexed in
        (
          c,
          at2,
          create_local_buffer-at made.count i _ p config.buffer_to_port_input c.input_valid counted
              local.inputs at3,
          local.input_times,
        )

  get_elem?-mem : (xs : List Typed) (a : ℕ) (x : Typed) → get_elem? xs a ≡ some x → Memᴰ x xs
  get_elem?-mem [] a x e = cc
  get_elem?-mem (y ∷ xs) zero x e = let same : x ≡ y = cc in Memᴰ.head same
  get_elem?-mem (y ∷ xs) (suc a) x e = Memᴰ.tail (get_elem?-mem xs a x e)

  port-mem : (xs : List Found) (a : ℕ) (x : Found) → get_elem? xs a ≡ some x → Memᴰ x xs
  port-mem [] a x e = cc
  port-mem (y ∷ xs) zero x e = let same : x ≡ y = cc in Memᴰ.head same
  port-mem (y ∷ xs) (suc a) x e = Memᴰ.tail (port-mem xs a x e)

  -- After `init`, what a component writes by `getOutput` of its output at position `i` is valid, with
  -- its timestamp, at the input of each component that is connected to it, which that one reads at its
  -- position `j`; if no two outputs reach one input, and the ports of the two components are
  -- numbered by their positions.
  pub init-Shared :
      (known : String → Bool) (patterns : List GraphComponent) (ordered : List Typed)
      (b : TimeDomainBuffer) (a e i j : ℕ) (x y : Typed) (outputs inputs : List Found) (f h : Found)
      (places : List Place)
      → ordered_components td patterns ≡ ok ordered
      → init format graph td known patterns ≡ ok b
      → IsSingle format graph td (Output format graph td ordered)
      → get_elem? ordered a ≡ some x
      → get_elem? ordered e ≡ some y
      → get_producer_ports td x.1 ≡ ok outputs
      → get_consumer_ports td y.1 ≡ ok inputs
      → IsIndexed 0 x.1 outputs
      → IsIndexed 0 y.1 inputs
      → get_elem? outputs i ≡ some f
      → get_elem? inputs j ≡ some h
      → connected_to_ptr format (port_id format x.1 f) graph ≡ ok places
      → Memᴰ (y.1, h) places
      → (producer consumer : ComponentBuffer) × (get_elem? b.component_buffers a ≡ some producer)
        × (get_elem? b.component_buffers e ≡ some consumer)
        × ((ts : Timestamp) (s : PortStates)
            → (t : PortStates) × (get_output i ts producer s ≡ ok t)
              × (is_input_valid j consumer t ≡ ok true)
              × (get_input_timestamp j consumer t ≡ ok ts))
  init-Shared known patterns ordered b a e i j x y outputs inputs f h places order made single at_x
        at_y out inn indexed_x indexed_y at_f at_h connected reads =
      let m = init-Made known patterns ordered b order made in
      let (_, found) =
        gather-HasIndex format graph td (Output format graph td ordered) single ordered
          (record { buffer_datatype = []; port_to_buffer_index = λ id. none }) m.gathered
          m.collected (λ p o. o) in
      let s = port_id format x.1 f in
      let index =
        found s
          (x, outputs, f, get_elem?-mem ordered a x at_x, out, port-mem outputs i f at_f, refl) in
      let here = index.stored s (inl refl) in
      let there =
        index.stored (port_id format y.1 h) (inr (places, connected, ((y.1, h), reads, refl))) in
      let (producer, at1, entry1, time1) =
        output-Entry ordered b m a x outputs i f at_x indexed_x at_f out in
      let (consumer, at2, entry2, time2) =
        input-Entry ordered b m e y inputs j h at_y indexed_y at_h inn in
      let p = entry1 ∙ ap (λ o. some (index_or_zero o)) here in
      let q = entry2 ∙ ap (λ o. some (index_or_zero o)) there in
      (
        producer,
        consumer,
        at1,
        at2,
        λ ts st.
            get_output-is_input_valid producer consumer i j index.index index.index ts st p
              (ap (λ l. get_elem? l i) time1 ∙ p) q (ap (λ l. get_elem? l j) time2 ∙ q),
      )
