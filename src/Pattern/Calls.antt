-- ===== src/Pattern/Calls.antt =====
-- Whole sequences of calls that build a pattern with src/traact/pattern/Pattern.cpp.
use traact_core.Prelude.{
  ℕ, ◌+◌, ◌≡◌, refl, sym, ap, ◌∙◌, subst, inl, inr, List, [], ◌∷◌, ◌++◌, Bool, true, false, String,
  if◌then◌else◌, length, arith,
}
use traact_core.Prelude.Int.{ℤ, pos}
use traact_core.Datatypes.{Concurrency}
use traact_core.Exceptions.{Result, ok, ◌>>=◌, >>=-eq-ok}
use traact_core.Pattern.Port.{PortGroup, PortType, new_group}
use traact_core.Pattern.Build.{
  ComponentType, Pattern, new_pattern, add_port, on_front, on_back, add_to_group, add_producer_port,
  add_consumer_port, begin_port_group, end_port_group,
}
use traact_core.Pattern.Numbering.{IsGroup}
use traact_core.Pattern.Groups.{add_port-IsGroup}

-- The groups from position `k` on: each has its position as its index, and is a group.
abbrev pub AllGroups : ℕ → List PortGroup → Type 0
AllGroups k [] = Unit {0}
AllGroups k (g ∷ gs) = (g.group_index ≡ k) × IsGroup g × AllGroups (k + 1) gs

-- The calls that build a pattern; the templates that take a port's index from its type are not here.
pub data Call : Type 0 where
  producer_port consumer_port : String → String → ℤ → Call
  begin_group : String → ℤ → ℤ → Call
  end_group : Call

unfoldable pub call : Call → Pattern → Result Pattern
call (Call.producer_port name type td) p = add_producer_port name type td p
call (Call.consumer_port name type td) p = add_consumer_port name type td p
call (Call.begin_group name low high) p = ok (begin_port_group name low high p)
call Call.end_group p = ok (end_port_group p)

unfoldable pub calls : List Call → Pattern → Result Pattern
unfolding call
calls [] p = ok p
calls (c ∷ cs) p = call c p >>= λ q. calls cs q

add_port_index :
    (name : String) (td : ℤ) (t : PortType) (type : String) (g h : PortGroup)
    → IsGroup g
    → add_port name td t type g ≡ ok h
    → (h.group_index ≡ g.group_index) × IsGroup h
add_port_index name td t type g h v e = elim (add_port-IsGroup name td t type g v) [
  | inl (_, thrown) ↦ absurd (ground (arith, thrown))
  | inr (_, (k, done, group, index, _)) ↦
      let same : k ≡ h = ground (arith, done) in
      (subst (λ x. x.group_index ≡ g.group_index) same index, subst IsGroup same group)
]

abbrev KeepsGroup : (PortGroup → Result PortGroup) → Type 0
KeepsGroup f =
    (g h : PortGroup) → IsGroup g → f g ≡ ok h → (h.group_index ≡ g.group_index) × IsGroup h

on_front-AllGroups :
    (f : PortGroup → Result PortGroup) (k : ℕ) (gs hs : List PortGroup)
    → KeepsGroup f
    → AllGroups k gs
    → on_front f gs ≡ ok hs
    → AllGroups k hs
unfolding on_front
on_front-AllGroups f k [] hs keep v e = cc
on_front-AllGroups f k (g ∷ gs) hs keep v e =
    let (h, done, tail) = >>=-eq-ok (f g) (λ h. ok (h ∷ gs)) e in
    let (index, group) = keep g h v.1 done in
    let same : h ∷ gs ≡ hs = ground (arith, tail) in
    subst (AllGroups k) same (index ∙ v.0, group, v.2)

on_back-AllGroups :
    (f : PortGroup → Result PortGroup) (k : ℕ) (gs hs : List PortGroup)
    → KeepsGroup f
    → AllGroups k gs
    → on_back f gs ≡ ok hs
    → AllGroups k hs
unfolding on_back
on_back-AllGroups f k [] hs keep v e = cc
on_back-AllGroups f k (g ∷ []) hs keep v e =
    let (h, done, tail) = >>=-eq-ok (f g) (λ h. ok (h ∷ [])) e in
    let (index, group) = keep g h v.1 done in
    let same : h ∷ [] ≡ hs = ground (arith, tail) in
    subst (AllGroups k) same (index ∙ v.0, group, v.2)
on_back-AllGroups f k (g ∷ g' ∷ gs) hs keep v e =
    let (rest, done, tail) = >>=-eq-ok (on_back f (g' ∷ gs)) (λ h. ok (g ∷ h)) e in
    let same : g ∷ rest ≡ hs = ground (arith, tail) in
    subst (AllGroups k) same (v.0, v.1, on_back-AllGroups f (k + 1) (g' ∷ gs) rest keep v.2 done)

chosen-AllGroups :
    (f : PortGroup → Result PortGroup) (b : Bool) (gs hs : List PortGroup)
    → KeepsGroup f
    → AllGroups 0 gs
    → (if b then on_back f gs else on_front f gs) ≡ ok hs
    → AllGroups 0 hs
chosen-AllGroups f true gs hs keep v e = on_back-AllGroups f 0 gs hs keep v e
chosen-AllGroups f false gs hs keep v e = on_front-AllGroups f 0 gs hs keep v e

add_to_group-AllGroups :
    (f : PortGroup → Result PortGroup) (p q : Pattern)
    → KeepsGroup f
    → AllGroups 0 p.port_groups
    → add_to_group f p ≡ ok q
    → AllGroups 0 q.port_groups
unfolding add_to_group
add_to_group-AllGroups f p q keep v e =
    let (groups, chosen, done) =
      >>=-eq-ok (if p.is_group_port then on_back f p.port_groups else on_front f p.port_groups)
        (λ groups. ok (record p { port_groups = groups })) e in
    let same : groups ≡ q.port_groups = ground (arith, done) in
    subst (AllGroups 0) same (chosen-AllGroups f p.is_group_port p.port_groups groups keep v chosen)

append-AllGroups :
    (k : ℕ) (gs : List PortGroup) (g : PortGroup)
    → AllGroups k gs
    → g.group_index ≡ k + length gs
    → IsGroup g
    → AllGroups k (gs ++ g ∷ [])
append-AllGroups k [] g v e w = (e ∙ omega arith, w, tt)
append-AllGroups k (x ∷ gs) g v e w =
    (v.0, v.1, append-AllGroups (k + 1) gs g v.2 (e ∙ omega arith) w)

index-new_group :
    (name : String) (i : ℕ) (low high : ℤ) → (new_group name i low high).group_index ≡ i
unfolding new_group
index-new_group name i low high = refl

pub new_group-IsGroup : (name : String) (i : ℕ) (low high : ℤ) → IsGroup (new_group name i low high)
unfolding new_group
new_group-IsGroup name i low high = record {
  producers = λ j p h. cc;
  consumers = λ j p h. cc;
  producer_names = λ i j p q h k e. cc;
  consumer_names = λ i j p q h k e. cc;
  separate = λ i j p q h k e. cc;
}

call-AllGroups :
    (c : Call) (p q : Pattern)
    → AllGroups 0 p.port_groups
    → call c p ≡ ok q
    → AllGroups 0 q.port_groups
unfolding call add_producer_port add_consumer_port begin_port_group end_port_group
call-AllGroups (Call.producer_port name type td) p q v e =
    add_to_group-AllGroups (add_port name td PortType.producer type) p q
      (λ g h w k. add_port_index name td PortType.producer type g h w k) v e
call-AllGroups (Call.consumer_port name type td) p q v e =
    add_to_group-AllGroups (add_port name td PortType.consumer type) p q
      (λ g h w k. add_port_index name td PortType.consumer type g h w k) v e
call-AllGroups (Call.begin_group name low high) p q v e =
    let groups = p.port_groups ++ new_group name (length p.port_groups) low high ∷ [] in
    let same : groups ≡ q.port_groups = ground (arith, e) in
    subst (AllGroups 0) same (
      append-AllGroups 0 p.port_groups (new_group name (length p.port_groups) low high) v
        (index-new_group name (length p.port_groups) low high ∙ omega arith)
        (new_group-IsGroup name (length p.port_groups) low high))
call-AllGroups Call.end_group p q v e =
    let same : p.port_groups ≡ q.port_groups = ground (arith, e) in subst (AllGroups 0) same v

calls-AllGroups :
    (cs : List Call) (p q : Pattern)
    → AllGroups 0 p.port_groups
    → calls cs p ≡ ok q
    → AllGroups 0 q.port_groups
unfolding calls
calls-AllGroups [] p q v e =
    let same : p.port_groups ≡ q.port_groups = ground (arith, e) in subst (AllGroups 0) same v
calls-AllGroups (c ∷ cs) p q v e =
    let (r, first, rest) = >>=-eq-ok (call c p) (λ r. calls cs r) e in
    calls-AllGroups cs r q (call-AllGroups c p r v first) rest

abbrev groups_of : Result Pattern → List PortGroup
groups_of (ok p) = p.port_groups
groups_of _ = []

groups-new_pattern :
    (name : String) (k : Concurrency) (type : ComponentType) (p : Pattern)
    → new_pattern name k type ≡ ok p
    → p.port_groups ≡ new_group "Default" 0 (pos 1) (pos 1) ∷ []
unfolding new_pattern
groups-new_pattern name k ComponentType.invalid p e = cc
groups-new_pattern name k ComponentType.async_source p e = ap (λ r. groups_of r) (sym e)
groups-new_pattern name k ComponentType.internal_sync_source p e = ap (λ r. groups_of r) (sym e)
groups-new_pattern name k ComponentType.sync_source p e = ap (λ r. groups_of r) (sym e)
groups-new_pattern name k ComponentType.sync_functional p e = ap (λ r. groups_of r) (sym e)
groups-new_pattern name k ComponentType.async_functional p e = ap (λ r. groups_of r) (sym e)
groups-new_pattern name k ComponentType.sync_sink p e = ap (λ r. groups_of r) (sym e)
groups-new_pattern name k ComponentType.async_sink p e = ap (λ r. groups_of r) (sym e)

new_pattern-AllGroups :
    (name : String) (k : Concurrency) (type : ComponentType) (p : Pattern)
    → new_pattern name k type ≡ ok p
    → AllGroups 0 p.port_groups
unfolding new_pattern
new_pattern-AllGroups name k type p e =
    subst (AllGroups 0) (sym (groups-new_pattern name k type p e)) (
      index-new_group "Default" 0 (pos 1) (pos 1),
      new_group-IsGroup "Default" 0 (pos 1) (pos 1),
      tt,
    )

-- Whatever ports and groups `beginPortGroup`, `endPortGroup` and those of `addProducerPort` and
-- `addConsumerPort` that take the name of a data type add to a new pattern, as long as no call throws:
-- each group's index is its position, each port's index is the number of ports of its kind and its
-- time domain before it in its group, and no two ports of a group have one name. The templates
-- `addProducerPort<Port>` and `addConsumerPort<Port>`, which take the index from the type, are not
-- among the calls.
pub built-AllGroups :
    (name : String) (k : Concurrency) (type : ComponentType) (cs : List Call) (p : Pattern)
    → (new_pattern name k type >>= λ q. calls cs q) ≡ ok p
    → AllGroups 0 p.port_groups
built-AllGroups name k type cs p e =
    let (q, first, rest) = >>=-eq-ok (new_pattern name k type) (λ q. calls cs q) e in
    calls-AllGroups cs q p (new_pattern-AllGroups name k type q first) rest
