-- ===== src/Pattern/Instance/Examples.antt =====
-- The theorem about port indices at an instance with two groups.
use traact_core.Prelude.{
  ℕ, zero, suc, ◌≡◌, refl, [], ◌∷◌, false, List, String, some, get_elem?, map, subst, eqb, eqb_iff,
}
use traact_core.Prelude.Int.{ℤ, pos, eqb_ℤ}
use traact_core.Datatypes.{Concurrency}
use traact_core.Exceptions.{ok}
use traact_core.Pattern.Port.{Port, PortGroup, PortType}
use traact_core.Pattern.Build.{ComponentType}
use traact_core.Pattern.Numbering.{count_first}
use traact_core.Pattern.Instance.{
  PortInstance, PortGroupInstance, PatternInstance, new_port, get_port_list, get_port_index,
  get_time_domain, Found, ports_in_groups,
}
use traact_core.Pattern.Instance.Index.{get_port_index-position}
use traact_core.Pattern.Instance.Picked.{IsNumberedInstance, Groups}

abbrev output : String → ℕ → Port
output name index = record {
  name = name;
  datatype = "pose";
  port_type = PortType.producer;
  port_index = index;
  time_domain = pos 0;
}

abbrev group_of : String → ℕ → List Port → PortGroup
group_of name index ports = record {
  name = name;
  group_index = index;
  min_count = pos 0;
  max_count = pos 9;
  producer_ports = ports;
  consumer_ports = [];
}

abbrev default_group : PortGroup
default_group = group_of "Default" 0 (output "left" 0 ∷ output "right" 1 ∷ [])

abbrev pose_group : PortGroup
pose_group = group_of "Pose" 1 (output "pose" 0 ∷ [])

abbrev instance_of : PortGroup → ℕ → PortGroupInstance
instance_of group index = record {
  port_group = group;
  port_group_instance_index = index;
  producer_ports = map new_port group.producer_ports;
  consumer_ports = [];
}

abbrev stereo : PatternInstance
stereo = record {
  instance_id = "stereo";
  display_name = "stereo";
  local_pattern = record {
    name = "Stereo";
    display_name = "Stereo";
    description = "";
    tags = [];
    concurrency = Concurrency.serial ∷ [];
    time_domain_component_type = ComponentType.async_source ∷ [];
    port_groups = default_group ∷ pose_group ∷ [];
    is_group_port = false;
  };
  port_groups =
      (instance_of default_group 0 ∷ [])
      ∷ (instance_of pose_group 0 ∷ instance_of pose_group 1 ∷ [])
      ∷ [];
  port_group_name_to_index = ("Default", 0) ∷ ("Pose", 1) ∷ [];
  local_to_global_time_domain = pos 0 ∷ [];
}

abbrev outputs : PortGroupInstance → List PortInstance
outputs g = g.producer_ports

reads : (g : PortGroupInstance) → get_port_list PortType.producer g ≡ ok (outputs g)
unfolding get_port_list
reads g = refl

-- What holds of an output of these groups at the position `i`.
abbrev IsOutput : PortGroupInstance → ℕ → PortInstance → Type 0
IsOutput g i p =
    (p.port.port_type ≡ PortType.producer)
    × (p.port.port_index ≡ count_first p.port.time_domain i (map (λ q. q.port) g.producer_ports))
    × (d : ℤ) × (get_time_domain stereo p ≡ ok d)
    × (eqb_ℤ d (pos 0) ≡ eqb_ℤ p.port.time_domain (pos 0))

is_numbered :
    (g : PortGroupInstance)
    → ((i : ℕ) (p : PortInstance) → get_elem? g.producer_ports i ≡ some p → IsOutput g i p)
    → IsNumberedInstance PortType.producer outputs reads stereo (pos 0) (pos 0) g
is_numbered g f = record {
  typed = λ i p e. (f i p e).0;
  numbered = λ i p e. (f i p e).1;
  domains = λ i p e. let (a, b, d, t, s) = f i p e in (d, t, s);
}

default_outputs :
    (i : ℕ) (p : PortInstance)
    → get_elem? (outputs (instance_of default_group 0)) i ≡ some p
    → IsOutput (instance_of default_group 0) i p
unfolding get_time_domain
default_outputs zero p e =
    let same : new_port (output "left" 0) ≡ p = cc in
    subst (IsOutput (instance_of default_group 0) 0) same (refl, refl, pos 0, refl, refl)
default_outputs (suc zero) p e =
    let same : new_port (output "right" 1) ≡ p = cc in
    subst (IsOutput (instance_of default_group 0) 1) same (refl, refl, pos 0, refl, refl)
default_outputs (suc (suc i)) p e = cc

pose_outputs :
    (j i : ℕ) (p : PortInstance)
    → get_elem? (outputs (instance_of pose_group j)) i ≡ some p
    → IsOutput (instance_of pose_group j) i p
unfolding get_time_domain
pose_outputs j zero p e =
    let same : new_port (output "pose" 0) ≡ p = cc in
    subst (IsOutput (instance_of pose_group j) 0) same (refl, refl, pos 0, refl, refl)
pose_outputs j (suc i) p e = cc

abbrev stereo_outputs : List Found
stereo_outputs =
    (instance_of default_group 0, new_port (output "left" 0))
    ∷ (instance_of default_group 0, new_port (output "right" 1))
    ∷ (instance_of pose_group 0, new_port (output "pose" 0))
    ∷ (instance_of pose_group 1, new_port (output "pose" 0))
    ∷ []

stereo_listed : ports_in_groups outputs (pos 0) stereo stereo.port_groups ≡ ok stereo_outputs
unfolding ports_in_groups get_time_domain
stereo_listed = refl

names_differ : eqb "Pose" "Default" ≡ false
names_differ = refl

stereo-Groups :
    Groups PortType.producer outputs reads stereo
      (pos 0)
      (pos 0)
      (default_group ∷ pose_group ∷ [])
      stereo.port_groups
stereo-Groups = (
  (refl, refl, is_numbered (instance_of default_group 0) default_outputs, tt),
  (λ e. let hit = (eqb_iff "Pose" "Default").1 e in cc (hit, names_differ), tt),
  (
    (
      refl,
      refl,
      is_numbered (instance_of pose_group 0) (pose_outputs 0),
      (refl, refl, is_numbered (instance_of pose_group 1) (pose_outputs 1), tt),
    ),
    tt,
    tt,
  ),
)

get_port_index-position_example :
    get_port_index stereo (instance_of pose_group 1) (new_port (output "pose" 0)) ≡ ok 3
get_port_index-position_example =
    get_port_index-position PortType.producer outputs reads stereo (pos 0) (pos 0) stereo_outputs 3
      (instance_of pose_group 1) (new_port (output "pose" 0)) stereo-Groups refl stereo_listed refl
