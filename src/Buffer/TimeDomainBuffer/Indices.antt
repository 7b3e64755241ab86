-- ===== src/Buffer/TimeDomainBuffer/Indices.antt =====
-- src/traact/buffer/TimeDomainBuffer.cpp: an output port and the inputs that are connected to it get
-- one buffer index.
use Prim.Native.String.{String}
use mathlib.Core.List.{Memᴰ}
use mathlib.Core.List.Memᴰ
use traact_core.Prelude.{
  ℕ, suc, ◌<◌, ◌≡◌, refl, sym, ap, subst, ◌∙◌, ◌⊎◌, inl, inr, arith, List, [], ◌∷◌, ◌++◌, some,
  Bool-cases, length, length-append,
}
use traact_core.Prelude.Int.{ℤ}
use traact_core.Exceptions.{ok, >>=-eq-ok}
use traact_core.Pattern.Instance.{PatternInstance, PortId, Found, port_id, get_producer_ports}
use traact_core.Pattern.Graph.{GraphInstance, Place, connected_to_ptr, eqb_id}
use traact_core.Pattern.Graph.Invariant.{eqb_id_iff}
use traact_core.Buffer.TimeDomainBuffer.{
  Typed, Indices, store_index, Gathered, store_inputs, gather_ports, gather,
}

module _ (format : String → ℕ → String → String) (graph : GraphInstance) (td : ℤ) where
  -- One of the places has this id.
  abbrev pub Among : List Place → PortId → Type 0
  Among places id = (place : Place) × Memᴰ place places × (port_id format place.0 place.1 ≡ id)

  -- A value at the port `s` reaches the port `id`: it is `s`, or an input that `s` is connected to.
  abbrev pub Reaches : PortId → PortId → Type 0
  Reaches s id =
      (id ≡ s)
      ⊎ (places : List Place) × (connected_to_ptr format s graph ≡ ok places) × Among places id

  -- `s` is an output port of one of the components.
  abbrev pub Output : List Typed → PortId → Type 0
  Output cs s =
      (c : Typed) × (ports : List Found) × (f : Found) × Memᴰ c cs
      × (get_producer_ports td c.1 ≡ ok ports)
      × Memᴰ f ports
      × (port_id format c.1 f ≡ s)

  -- The values of two different outputs reach apart common port.
  abbrev pub IsSingle : (PortId → Type 0) → Type 0
  IsSingle Q = (s t id : PortId) → Q s → Q t → Reaches s id → Reaches t id → s ≡ t

  -- The ports that `s` reaches have one index, below `n`.
  pub record HasIndex (n : ℕ) (m : Indices) (s : PortId) : Type 0 where
    pub index : ℕ
    pub bound : index < n
    pub stored : (id : PortId) → Reaches s id → m id ≡ some index

  store_inputs-cases :
      (index : ℕ) (places : List Place) (m : Indices) (id : PortId)
      → Among places id × (store_inputs format graph td index places m id ≡ some index)
        ⊎ ¬ Among places id × (store_inputs format graph td index places m id ≡ m id)
  unfolding store_inputs
  store_inputs-cases index [] m id = inr (λ a. Memᴰ.not-nil a.1, refl)
  store_inputs-cases index ((d, h) ∷ places) m id =
      let here = port_id format d h in
      elim (store_inputs-cases index places (store_index here index m) id) [
        | inl (a, e) ↦ inl ((a.0, Memᴰ.tail a.1, a.2), e)
        | inr (apart, e) ↦ elim (Bool-cases (eqb_id here id)) [
          | inl hit ↦ inl (((d, h), Memᴰ.head refl, (eqb_id_iff here id).0 hit), e ∙ rw hit refl)
          | inr miss ↦ inr (
            λ a. elim (Memᴰ.cases_cons a.1) [
              | inl same ↦
                  let at : here ≡ id = ap (λ p. port_id format p.0 p.1) (sym same) ∙ a.2 in
                  cc ((eqb_id_iff here id).1 at, miss)
              | inr later ↦ apart (a.0, later, a.2)
            ],
            e ∙ rw miss refl,
          )
        ]
      ]

  -- One round of the loop over ports.
  abbrev round : PortId → ℕ → List Place → Indices → Indices
  round s index places m = store_inputs format graph td index places (store_index s index m)

  round-cases :
      (s : PortId) (index : ℕ) (places : List Place) (m : Indices) (id : PortId)
      → connected_to_ptr format s graph ≡ ok places
      → Reaches s id × (round s index places m id ≡ some index)
        ⊎ ¬ Reaches s id × (round s index places m id ≡ m id)
  round-cases s index places m id connected =
      elim (store_inputs-cases index places (store_index s index m) id) [
        | inl (a, e) ↦ inl (inr (places, connected, a), e)
        | inr (apart, e) ↦ elim (Bool-cases (eqb_id s id)) [
          | inl hit ↦ inl (inl (sym ((eqb_id_iff s id).0 hit)), e ∙ rw hit refl)
          | inr miss ↦ inr (
            λ r. elim r [
              | inl same ↦ cc ((eqb_id_iff s id).1 (sym same), miss)
              | inr (others, connected', a) ↦
                  apart (subst (λ p. Among p id) (cc (connected, connected')) a)
            ],
            e ∙ rw miss refl,
          )
        ]
      ]

  round-HasIndex :
      (s : PortId) (index : ℕ) (places : List Place) (m : Indices)
      → connected_to_ptr format s graph ≡ ok places
      → HasIndex (suc index) (round s index places m) s
  round-HasIndex s index places m connected = record {
    index = index;
    bound = omega arith;
    stored = λ id r. elim (round-cases s index places m id connected) [
      | inl (_, e) ↦ e
      | inr (apart, _) ↦ absurd (apart r)
    ];
  }

  module _ (Q : PortId → Type 0) (single : IsSingle Q) where
    HasIndex-round :
        (s t : PortId) (n : ℕ) (places : List Place) (m : Indices)
        → Q s
        → Q t
        → connected_to_ptr format s graph ≡ ok places
        → HasIndex n m t
        → HasIndex (suc n) (round s n places m) t
    HasIndex-round s t n places m qs qt connected old =
        elim (round-cases s n places m t connected) [
          | inl (r, _) ↦
              subst (HasIndex (suc n) (round s n places m)) (single s t t qs qt r (inl refl))
                (round-HasIndex s n places m connected)
          | inr (apart, _) ↦ record {
            index = old.index;
            bound = let b = old.bound in omega arith;
            stored = λ id r. elim (round-cases s n places m id connected) [
              | inl (r', _) ↦ absurd (apart (inl (sym (single s t id qs qt r' r))))
              | inr (_, e) ↦ e ∙ old.stored id r
            ];
          }
        ]

    abbrev Kept : Gathered → Gathered → Type 0
    Kept s t =
        (p : PortId)
        → Q p
        → HasIndex (length s.buffer_datatype) s.port_to_buffer_index p
        → HasIndex (length t.buffer_datatype) t.port_to_buffer_index p

    gather_ports-HasIndex :
        (c : PatternInstance) (fs : List Found) (s t : Gathered)
        → gather_ports format graph td c fs s ≡ ok t
        → ((f : Found) → Memᴰ f fs → Q (port_id format c f))
        → Kept s t
          × ((f : Found)
              → Memᴰ f fs
              → HasIndex (length t.buffer_datatype) t.port_to_buffer_index (port_id format c f))
    unfolding gather_ports
    gather_ports-HasIndex c [] s t e q = (
      λ p qp old.
          subst (λ (r : Gathered). HasIndex (length r.buffer_datatype) r.port_to_buffer_index p)
            (cc e) old,
      λ f at. absurd (Memᴰ.not-nil at),
    )
    gather_ports-HasIndex c (f ∷ fs) s t e q =
        let id = port_id format c f in
        let n = length s.buffer_datatype in
        let (places, connected, rest) = >>=-eq-ok (connected_to_ptr format id graph) _ e in
        let next : Gathered = record {
          buffer_datatype = s.buffer_datatype ++ f.1.port.datatype ∷ [];
          port_to_buffer_index = round id n places s.port_to_buffer_index;
        } in
        let size : suc n ≡ length next.buffer_datatype =
          omega (arith, length-append s.buffer_datatype (f.1.port.datatype ∷ [])) in
        let (kept, found) = gather_ports-HasIndex c fs next t rest (λ g at. q g (Memᴰ.tail at)) in
        let mine = q f (Memᴰ.head refl) in
        let new = kept id mine (
          subst (λ k. HasIndex k next.port_to_buffer_index id) size
            (round-HasIndex id n places s.port_to_buffer_index connected)) in
        (
          λ p qp old. kept p qp (
              subst (λ k. HasIndex k next.port_to_buffer_index p) size
                (HasIndex-round id p n places s.port_to_buffer_index mine qp connected old)),
          λ g at. elim (Memᴰ.cases_cons at) [
            | inl same ↦
                subst
                  (λ h.
                    HasIndex (length t.buffer_datatype) t.port_to_buffer_index (port_id format c h))
                  (sym same) new
            | inr later ↦ found g later
          ],
        )

    pub gather-HasIndex :
        (cs : List Typed) (s t : Gathered)
        → gather format graph td cs s ≡ ok t
        → ((p : PortId) → Output cs p → Q p)
        → Kept s t
          × ((p : PortId)
              → Output cs p
              → HasIndex (length t.buffer_datatype) t.port_to_buffer_index p)
    unfolding gather
    gather-HasIndex [] s t e q = (
      λ p qp old.
          subst (λ (r : Gathered). HasIndex (length r.buffer_datatype) r.port_to_buffer_index p)
            (cc e) old,
      λ p o. absurd (Memᴰ.not-nil o.3),
    )
    gather-HasIndex ((type, c) ∷ cs) s t e q =
        let (ports, outputs, e1) = >>=-eq-ok (get_producer_ports td c) _ e in
        let (k, one, rest) = >>=-eq-ok (gather_ports format graph td c ports s) _ e1 in
        let (kept1, found1) = gather_ports-HasIndex c ports s k one (λ f at.
          q (port_id format c f) ((type, c), ports, f, Memᴰ.head refl, outputs, at, refl)) in
        let (kept2, found2) =
          gather-HasIndex cs k t rest (λ p o. q p (o.0, o.1, o.2, Memᴰ.tail o.3, o.4, o.5, o.6)) in
        (
          λ p qp old. kept2 p qp (kept1 p qp old),
          λ p o. elim (Memᴰ.cases_cons o.3) [
            | inr later ↦ found2 p (o.0, o.1, o.2, later, o.4, o.5, o.6)
            | inl same ↦
                let there = subst (λ d. get_producer_ports td d.1 ≡ ok o.1) same o.4 in
                let named = subst (λ d. port_id format d.1 o.2 ≡ p) same o.6 in
                let at = subst (Memᴰ o.2) (cc (there, outputs)) o.5 in
                kept2 p (q p o) (
                  subst (HasIndex (length k.buffer_datatype) k.port_to_buffer_index) named
                    (found1 o.2 at))
          ],
        )
