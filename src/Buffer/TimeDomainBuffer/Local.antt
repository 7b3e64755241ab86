-- ===== src/Buffer/TimeDomainBuffer/Local.antt =====
-- src/traact/buffer/TimeDomainBuffer.cpp and TimeStepBuffer.cpp: the position of a port in its component
-- buffer.
use Prim.Native.String.{String}
use traact_core.Prelude.{
  ℕ, zero, suc, ◌+◌, ◌<◌, ◌≡◌, sym, ap, subst, ◌∙◌, arith, List, [], ◌∷◌, some, length, set,
  replicate, get_elem?, get_elem?-set_self, get_elem?-set_ne,
}
use traact_core.Prelude.Int.{ℤ}
use traact_core.Exceptions.{ok, >>=-eq-ok}
use traact_core.Pattern.Port.{PortType}
use traact_core.Pattern.Instance.{
  PatternInstance, Found, port_id, get_producer_ports, get_consumer_ports, get_port_index,
}
use traact_core.Pattern.Graph.{GraphInstance}
use traact_core.Buffer.ComponentBuffer.{ComponentBuffer}
use traact_core.Buffer.TimeDomainBuffer.{
  Typed, Indices, BufferConfig, index_or_zero, fill_local, create_local_buffer,
  create_component_buffer, create_component_buffers, buffer_to_port, buffer_config, buffer_configs,
  pattern_group_configs,
}

-- The ports of the pairs are `k`, `k + 1`, and so on.
abbrev pub IsCounted : ℕ → List (ℕ × ℕ) → Type 0
IsCounted k [] = Unit {0}
IsCounted k ((b, p) ∷ pairs) = (p ≡ k) × IsCounted (suc k) pairs

fill_local-step :
    (buffers b p : ℕ) (pairs : List (ℕ × ℕ)) (local out : List ℕ)
    → fill_local buffers ((b, p) ∷ pairs) local ≡ ok out
    → (p < length local) × (fill_local buffers pairs (set local p b) ≡ ok out)
unfolding fill_local
fill_local-step buffers b p pairs local out e = (ground arith, ground arith)

fill_local-below :
    (buffers k n : ℕ) (pairs : List (ℕ × ℕ)) (local out : List ℕ)
    → IsCounted k pairs
    → fill_local buffers pairs local ≡ ok out
    → n < k
    → get_elem? out n ≡ get_elem? local n
unfolding fill_local
fill_local-below buffers k n [] local out c e h = ap (λ l. get_elem? l n) (cc e)
fill_local-below buffers k n ((b, p) ∷ pairs) local out c e h =
    let (_, rest) = fill_local-step buffers b p pairs local out e in
    let at = c.0 in
    fill_local-below buffers (suc k) n pairs (set local p b) out c.1 rest (omega arith)
    ∙ get_elem?-set_ne local p n b (λ s. absurd (omega arith))

fill_local-at :
    (buffers k i b p : ℕ) (pairs : List (ℕ × ℕ)) (local out : List ℕ)
    → IsCounted k pairs
    → fill_local buffers pairs local ≡ ok out
    → get_elem? pairs i ≡ some (b, p)
    → get_elem? out (k + i) ≡ some b
unfolding fill_local
fill_local-at buffers k i b p [] local out c e h = cc
fill_local-at buffers k zero b p ((b', p') ∷ pairs) local out c e h =
    let (bound, rest) = fill_local-step buffers b' p' pairs local out e in
    let at = c.0 in
    let same : b' ≡ b = cc in
    let place : p' ≡ k + 0 = omega arith in
    subst (λ n. get_elem? out n ≡ some b) place
      (fill_local-below buffers (suc k) p' pairs (set local p' b') out c.1 rest (omega arith)
        ∙ get_elem?-set_self local p' b' bound
        ∙ ap some same)
fill_local-at buffers k (suc i) b p ((b', p') ∷ pairs) local out c e h =
    let (_, rest) = fill_local-step buffers b' p' pairs local out e in
    let place : suc k + i ≡ k + suc i = omega arith in
    subst (λ n. get_elem? out n ≡ some b) place
      (fill_local-at buffers (suc k) i b p pairs (set local p' b') out c.1 rest h)

pub create_local_buffer-at :
    (buffers i b p : ℕ) (pairs : List (ℕ × ℕ)) (out : List ℕ)
    → IsCounted 0 pairs
    → create_local_buffer buffers pairs ≡ ok out
    → get_elem? pairs i ≡ some (b, p)
    → get_elem? out i ≡ some b
unfolding create_local_buffer
create_local_buffer-at buffers i b p pairs out c e h =
    let place : 0 + i ≡ i = omega arith in
    subst (λ n. get_elem? out n ≡ some b) place
      (fill_local-at buffers 0 i b p pairs (replicate (length pairs) 0) out c e h)

-- The ports of a list are numbered by their positions from `k` on.
abbrev pub IsIndexed : ℕ → PatternInstance → List Found → Type 0
IsIndexed k c [] = Unit {0}
IsIndexed k c ((g, p) ∷ fs) = (get_port_index c g p ≡ ok k) × IsIndexed (suc k) c fs

module _ (format : String → ℕ → String → String) (graph : GraphInstance) (td : ℤ) where
  buffer_to_port-step :
      (m : Indices) (c : PatternInstance) (f : Found) (fs : List Found) (out : List (ℕ × ℕ))
      → buffer_to_port format graph td m c (f ∷ fs) ≡ ok out
      → (k : ℕ) × (rest : List (ℕ × ℕ)) × (get_port_index c f.0 f.1 ≡ ok k)
        × (buffer_to_port format graph td m c fs ≡ ok rest)
        × (out ≡ (index_or_zero (m (port_id format c f)), k) ∷ rest)
  unfolding buffer_to_port
  buffer_to_port-step m c (g, p) fs out e =
      let (k, at, e1) = >>=-eq-ok (get_port_index c g p) _ e in
      let (rest, more, e2) = >>=-eq-ok (buffer_to_port format graph td m c fs) _ e1 in
      (k, rest, at, more, cc e2)

  pub buffer_to_port-IsCounted :
      (m : Indices) (c : PatternInstance) (k : ℕ) (fs : List Found) (out : List (ℕ × ℕ))
      → buffer_to_port format graph td m c fs ≡ ok out
      → IsIndexed k c fs
      → IsCounted k out
  unfolding buffer_to_port
  buffer_to_port-IsCounted m c k [] out e v =
      let none_left : [] ≡ out = cc in subst (IsCounted k) none_left tt
  buffer_to_port-IsCounted m c k (f ∷ fs) out e v =
      let (n, rest, at, more, same) = buffer_to_port-step m c f fs out e in
      let number = v.0 in
      subst (IsCounted k) (sym same)
        (cc (at, number), buffer_to_port-IsCounted m c (suc k) fs rest more v.1)

  pub buffer_to_port-at :
      (m : Indices) (c : PatternInstance) (fs : List Found) (out : List (ℕ × ℕ)) (i : ℕ) (f : Found)
      → buffer_to_port format graph td m c fs ≡ ok out
      → get_elem? fs i ≡ some f
      → (p : ℕ) × (get_elem? out i ≡ some (index_or_zero (m (port_id format c f)), p))
  buffer_to_port-at m c [] out i f e h = cc
  buffer_to_port-at m c (x ∷ fs) out zero f e h =
      let (n, rest, at, more, same) = buffer_to_port-step m c x fs out e in
      (
        n,
        ap (λ l. get_elem? l 0) same
            ∙ ap (λ y. some (index_or_zero (m (port_id format c y)), n)) (cc h),
      )
  buffer_to_port-at m c (x ∷ fs) out (suc i) f e h =
      let (n, rest, at, more, same) = buffer_to_port-step m c x fs out e in
      let (p, there) = buffer_to_port-at m c fs rest i f more h in
      (p, ap (λ l. get_elem? l (suc i)) same ∙ there)

  pub buffer_config-outputs :
      (m : Indices) (x : Typed) (config : BufferConfig) (fs : List Found)
      → buffer_config format graph td m x ≡ ok config
      → get_producer_ports td x.1 ≡ ok fs
      → buffer_to_port format graph td m x.1 fs ≡ ok config.buffer_to_port_output
  unfolding buffer_config
  buffer_config-outputs m (type, c) config fs e listed =
      let (outputs, a, e1) = >>=-eq-ok (get_producer_ports td c) _ e in
      let (output, b, e2) = >>=-eq-ok (buffer_to_port format graph td m c outputs) _ e1 in
      let (inputs, _, e3) = >>=-eq-ok (get_consumer_ports td c) _ e2 in
      let (input, _, e4) = >>=-eq-ok (buffer_to_port format graph td m c inputs) _ e3 in
      let (g1, _, e5) = >>=-eq-ok (pattern_group_configs PortType.consumer td c) _ e4 in
      let (g2, _, e6) = >>=-eq-ok (pattern_group_configs PortType.producer td c) _ e5 in
      let same : outputs ≡ fs = cc (a, listed) in
      let made : output ≡ config.buffer_to_port_output = ap_ok e6 in
      subst (λ l. buffer_to_port format graph td m c l ≡ ok config.buffer_to_port_output) same
        (b ∙ ap ok made)
    where
      ap_ok :
          {r : BufferConfig}
          → ok r ≡ ok config
          → r.buffer_to_port_output ≡ config.buffer_to_port_output
      ap_ok {r} h = let same : r ≡ config = cc in ap (λ b. b.buffer_to_port_output) same

  pub buffer_config-inputs :
      (m : Indices) (x : Typed) (config : BufferConfig) (fs : List Found)
      → buffer_config format graph td m x ≡ ok config
      → get_consumer_ports td x.1 ≡ ok fs
      → buffer_to_port format graph td m x.1 fs ≡ ok config.buffer_to_port_input
  unfolding buffer_config
  buffer_config-inputs m (type, c) config fs e listed =
      let (outputs, _, e1) = >>=-eq-ok (get_producer_ports td c) _ e in
      let (output, _, e2) = >>=-eq-ok (buffer_to_port format graph td m c outputs) _ e1 in
      let (inputs, a, e3) = >>=-eq-ok (get_consumer_ports td c) _ e2 in
      let (input, b, e4) = >>=-eq-ok (buffer_to_port format graph td m c inputs) _ e3 in
      let (g1, _, e5) = >>=-eq-ok (pattern_group_configs PortType.consumer td c) _ e4 in
      let (g2, _, e6) = >>=-eq-ok (pattern_group_configs PortType.producer td c) _ e5 in
      let same : inputs ≡ fs = cc (a, listed) in
      let made : input ≡ config.buffer_to_port_input = ap_ok e6 in
      subst (λ l. buffer_to_port format graph td m c l ≡ ok config.buffer_to_port_input) same
        (b ∙ ap ok made)
    where
      ap_ok :
          {r : BufferConfig}
          → ok r ≡ ok config
          → r.buffer_to_port_input ≡ config.buffer_to_port_input
      ap_ok {r} h = let same : r ≡ config = cc in ap (λ b. b.buffer_to_port_input) same

  pub buffer_configs-at :
      (m : Indices) (cs : List Typed) (configs : List BufferConfig) (a : ℕ) (x : Typed)
      → buffer_configs format graph td m cs ≡ ok configs
      → get_elem? cs a ≡ some x
      → (config : BufferConfig) × (get_elem? configs a ≡ some config)
        × (buffer_config format graph td m x ≡ ok config)
  unfolding buffer_configs
  buffer_configs-at m [] configs a x e h = cc
  buffer_configs-at m (c ∷ cs) configs zero x e h =
      let (config, one, e1) = >>=-eq-ok (buffer_config format graph td m c) _ e in
      let (rest, _, e2) = >>=-eq-ok (buffer_configs format graph td m cs) _ e1 in
      let list : config ∷ rest ≡ configs = cc in
      let same : c ≡ x = cc in
      (
        config,
        ap (λ l. get_elem? l 0) (sym list),
        subst (λ y. buffer_config format graph td m y ≡ ok config) same one,
      )
  buffer_configs-at m (c ∷ cs) configs (suc a) x e h =
      let (config, one, e1) = >>=-eq-ok (buffer_config format graph td m c) _ e in
      let (rest, more, e2) = >>=-eq-ok (buffer_configs format graph td m cs) _ e1 in
      let list : config ∷ rest ≡ configs = cc in
      let (found, at, made) = buffer_configs-at m cs rest a x more h in
      (found, ap (λ l. get_elem? l (suc a)) (sym list) ∙ at, made)

pub create_component_buffers-at :
    (n : ℕ) (configs : List BufferConfig) (buffers : List ComponentBuffer) (a : ℕ)
    (x : BufferConfig)
    → create_component_buffers n configs ≡ ok buffers
    → get_elem? configs a ≡ some x
    → (b : ComponentBuffer) × (get_elem? buffers a ≡ some b) × (create_component_buffer n x ≡ ok b)
unfolding create_component_buffers
create_component_buffers-at n [] buffers a x e h = cc
create_component_buffers-at n (c ∷ cs) buffers zero x e h =
    let (b, one, e1) = >>=-eq-ok (create_component_buffer n c) _ e in
    let (rest, _, e2) = >>=-eq-ok (create_component_buffers n cs) _ e1 in
    let list : b ∷ rest ≡ buffers = cc in
    let same : c ≡ x = cc in
    (
      b,
      ap (λ l. get_elem? l 0) (sym list),
      subst (λ y. create_component_buffer n y ≡ ok b) same one,
    )
create_component_buffers-at n (c ∷ cs) buffers (suc a) x e h =
    let (b, one, e1) = >>=-eq-ok (create_component_buffer n c) _ e in
    let (rest, more, e2) = >>=-eq-ok (create_component_buffers n cs) _ e1 in
    let list : b ∷ rest ≡ buffers = cc in
    let (found, at, made) = create_component_buffers-at n cs rest a x more h in
    (found, ap (λ l. get_elem? l (suc a)) (sym list) ∙ at, made)
