-- ===== src/Pattern/Port.antt =====
-- src/traact/pattern/Port.cpp and the look-ups of include/traact/util/Utils.h by name.
use traact_core.Prelude.{
  ℕ, ◌+◌, List, [], ◌∷◌, Bool, true, false, Option, none, some, String, eqb, if◌then◌else◌,
}
use traact_core.Prelude.Int.{ℤ, eqb_ℤ}
use traact_core.Exceptions.{Result, ok, throws, invalid_argument}

-- `none_port` is `PortType::NONE`.
pub data PortType : Type 0 where
  none_port producer consumer : PortType

pub record Port : Type 0 where
  pub name : String
  pub datatype : String
  pub port_type : PortType
  pub port_index : ℕ
  pub time_domain : ℤ

pub record PortGroup : Type 0 where
  pub name : String
  pub group_index : ℕ
  pub min_count : ℤ
  pub max_count : ℤ
  pub producer_ports : List Port
  pub consumer_ports : List Port

-- The constructor.
unfoldable pub new_group : String → ℕ → ℤ → ℤ → PortGroup
new_group name group_index min_count max_count = record {
  name = name;
  group_index = group_index;
  min_count = min_count;
  max_count = max_count;
  producer_ports = [];
  consumer_ports = [];
}

-- The loops of `getPortCount`.
unfoldable pub count_ports : ℤ → List Port → ℕ
count_ports time_domain [] = 0
count_ports time_domain (port ∷ ports) =
    let result = count_ports time_domain ports in
    if eqb_ℤ port.time_domain time_domain then result + 1 else result

unfoldable pub get_port_count : PortType → ℤ → PortGroup → Result ℕ
unfolding count_ports
get_port_count PortType.producer time_domain group =
    ok (count_ports time_domain group.producer_ports)
get_port_count PortType.consumer time_domain group =
    ok (count_ports time_domain group.consumer_ports)
get_port_count PortType.none_port time_domain group = throws invalid_argument

-- `vectorContainsName` and `vectorGetForName`, over what `getName()` gives.
module _ {ℓ} {T : Type ℓ} (get_name : T → String) where
  unfoldable pub vector_contains_name : List T → String → Bool
  vector_contains_name [] name = false
  vector_contains_name (x ∷ xs) name =
      let rest = vector_contains_name xs name in if eqb (get_name x) name then true else rest

  unfoldable pub vector_get_for_name : List T → String → Option T
  vector_get_for_name [] name = none
  vector_get_for_name (x ∷ xs) name =
      let rest = vector_get_for_name xs name in if eqb (get_name x) name then some x else rest

  -- `containsName` searches from `begin` to `begin`, so it gives `begin`, which is `end` only for an
  -- empty container.
  unfoldable pub contains_name : List T → String → Bool
  contains_name [] name = false
  contains_name (x ∷ xs) name = true
