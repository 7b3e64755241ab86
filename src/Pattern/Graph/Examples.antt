-- ===== src/Pattern/Graph/Examples.antt =====
-- The theorems about graphs at one with a camera and a tracker.
use Prim.Native.String.{String}
use mathlib.Core.List.{Memᴰ}
use mathlib.Core.List.Memᴰ
use traact_core.Prelude.{
  ℕ, ◌+◌, ◌≡◌, ◌≢◌, refl, sym, ap, ◌∙◌, [], ◌∷◌, false, List, eqb, eqb_iff, subst,
}
use traact_core.Prelude.Int.{pos}
use traact_core.Prelude.Maps.{emplace, find_key}
use traact_core.Exceptions.{ok, out_of_fuel}
use traact_core.Pattern.Port.{Port, PortGroup, PortType, vector_get_for_name}
use traact_core.Pattern.Instance.{
  new_pattern_instance, get_producer_port, get_consumer_port, get_time_domain,
}
use traact_core.Pattern.Graph.{new_graph, add_pattern, would_connect_to_self, at_pattern}
use traact_core.Pattern.Graph.Connect.{connect}
use traact_core.Pattern.Graph.Invariant.{IsGraph}
use traact_core.Pattern.Graph.Acyclic.{IsRanked}
use traact_core.Pattern.Graph.Built.{built-IsRanked}
use traact_core.Pattern.Graph.Fresh.{IsPlain, Built}
use traact_core.Pattern.Graph.Returns.{connect_ends}
use traact_core.Pattern.Graph.Demo.{short_name, port_of, camera, tracker, graph_of, g1, g2, g3}

short_name-nonempty :
    (group : String) (index : ℕ) (name : String) → short_name group index name ≢ ""
short_name-nonempty group index name e = cc

g1-ok : g1 ≡ ok (graph_of g1)
unfolding add_pattern find_key new_graph new_pattern_instance
g1-ok = refl

g2-ok : g2 ≡ ok (graph_of g2)
unfolding add_pattern find_key new_graph new_pattern_instance emplace
g2-ok = refl

g3-ok : g3 ≡ ok (graph_of g3)
unfolding add_pattern connect find_key new_graph new_pattern_instance emplace get_producer_port
    vector_get_for_name get_consumer_port get_time_domain would_connect_to_self at_pattern
g3-ok = refl

other_name : eqb "image" (String.◌∷◌ "_" "image") ≡ false
other_name = refl

camera-IsPlain : IsPlain short_name camera
camera-IsPlain = record {
  typed = λ g gs p e m. camera_typed g gs p e m;
  plain = λ g gs p q e m n. camera_plain g gs p q e m n;
}
  where
    outputs :
        (g : PortGroup) (gs : List PortGroup)
        → camera.port_groups ≡ g ∷ gs
        → g.producer_ports ≡ port_of "image" PortType.producer ∷ []
    outputs g gs e = cc

    camera_port :
        (g : PortGroup) (gs : List PortGroup) (p : Port)
        → camera.port_groups ≡ g ∷ gs
        → Memᴰ p g.producer_ports
        → p ≡ port_of "image" PortType.producer
    camera_port g gs p e m = Memᴰ.eq_of_singleton (subst (Memᴰ p) (outputs g gs e) m)

    camera_typed :
        (g : PortGroup) (gs : List PortGroup) (p : Port)
        → camera.port_groups ≡ g ∷ gs
        → Memᴰ p g.producer_ports
        → p.port_type ≡ PortType.producer
    camera_typed g gs p e m = ap (λ x. x.port_type) (camera_port g gs p e m)

    camera_plain :
        (g : PortGroup) (gs : List PortGroup) (p q : Port)
        → camera.port_groups ≡ g ∷ gs
        → Memᴰ p g.producer_ports
        → Memᴰ q g.producer_ports
        → p.name ≢ short_name g.name 0 q.name
    camera_plain g gs p q e m n same =
        let here = ap (λ x. x.name) (camera_port g gs p e m) in
        let there = ap (λ x. x.name) (camera_port g gs q e n) in
        let both = sym here ∙ same ∙ ap (λ x. String.◌∷◌ "_" x) there in
        let hit = (eqb_iff "image" (String.◌∷◌ "_" "image")).1 both in cc (hit, other_name)

tracker-IsPlain : IsPlain short_name tracker
tracker-IsPlain = record {
  typed = λ g gs p e m. absurd (none' g gs p e m);
  plain = λ g gs p q e m n. absurd (none' g gs p e m);
}
  where
    none' :
        (g : PortGroup) (gs : List PortGroup) (p : Port)
        → tracker.port_groups ≡ g ∷ gs
        → ¬ Memᴰ p g.producer_ports
    none' g gs p e m =
        let empty : g.producer_ports ≡ [] = cc in Memᴰ.not-nil (subst (Memᴰ p) empty m)

built : Built short_name (graph_of g3)
built =
    Built.connected
      (Built.added (Built.added (Built.empty "demo") "cam" camera (pos 0) camera-IsPlain g1-ok)
        "track" tracker (pos 0) tracker-IsPlain g2-ok)
      3 "cam" "image" "track" "in" g3-ok

built-IsRanked_example :
    IsGraph short_name (graph_of g3) × (rank : String → ℕ) × IsRanked short_name (graph_of g3) rank
built-IsRanked_example = built-IsRanked short_name short_name-nonempty (graph_of g3) built

connect_ends_example :
    (depth : ℕ) × ((extra : ℕ)
      → connect short_name (depth + extra) "track" "out" "cam" "in" (graph_of g3) ≢ out_of_fuel)
connect_ends_example =
    connect_ends short_name short_name-nonempty (graph_of g3) "track" "out" "cam" "in" built
