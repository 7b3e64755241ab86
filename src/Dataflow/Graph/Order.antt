-- ===== src/Dataflow/Graph/Order.antt =====
-- src/traact/dataflow/graph/builder/ComponentGraphBuilder.cpp: `createDependencies` makes the links
-- that the connections, the synchronised sources and the serial components ask for.
use Prim.Native.String.{String}
use mathlib.Core.List.{Memᴰ}
use traact_core.Prelude.{ℕ, ◌≡◌, ◌≢◌, refl, sym, ap, subst, ◌∙◌, ◌⊎◌, inl, inr, List, [], ◌∷◌, some}
use traact_core.Prelude.Int.{ℤ}
use traact_core.Prelude.Maps.{find_key}
use traact_core.Exceptions.{ok, ◌>>=◌, >>=-eq-ok}
use traact_core.Datatypes.{Concurrency}
use traact_core.Pattern.Build.{ComponentType}
use traact_core.Pattern.Instance.{
  PatternInstance, Found, port_id, get_component_type, get_concurrency, get_producer_ports,
}
use traact_core.Pattern.Graph.{GraphInstance, Place, connected_to_ptr}
use traact_core.Dataflow.Graph.{Heap, succeed}
use traact_core.Dataflow.Graph.Grows.{
  Grows, Nothing, Grows-none, Grows-succeed, Grows-repeat, Grows-trans, Grows-map,
}
use traact_core.Component.{GraphComponent}
use traact_core.Dataflow.Graph.Components.{
  at_task, precede_inputs, find_sync_source_start_point, succeed_start, succeed_self, precede_ports,
  create_dependency, create_dependencies,
}
use traact_core.Dataflow.Graph.Dependencies.{
  All, None, loop_nil, loop_cons, Reads, precede_inputs-Grows, StartPoint,
  find_sync_source_start_point-StartPoint, FirstAsync-find_sync_source_start_point,
  at_task-find_key,
}

module _ (format : String → ℕ → String → String) (graph : GraphInstance) (td : ℤ) where
  -- An output of `c` is connected to an input, and `x` and `y` are the tasks of the two components.
  pub record Connects (tasks : List (String × ℕ)) (c : GraphComponent) (x y : ℕ) : Type 0 where
    pub ports : List Found
    pub outputs : get_producer_ports td c.pattern ≡ ok ports
    pub port : Found
    pub output : Memᴰ port ports
    pub inputs : List Place
    pub connected : connected_to_ptr format (port_id format c.pattern port) graph ≡ ok inputs
    pub place : Place
    pub input : Memᴰ place inputs
    pub producer : find_key c.pattern.instance_id tasks ≡ some x
    pub consumer : find_key place.0.instance_id tasks ≡ some y

  -- `c` is a synchronised source, `y` its task, and `x` that of the first asynchronous source.
  pub record Starts (all : List GraphComponent) (tasks : List (String × ℕ)) (c : GraphComponent)
      (x y : ℕ) : Type 0 where
    pub sync : get_component_type td c.pattern ≡ ok ComponentType.sync_source
    pub start : StartPoint td tasks all x
    pub started : find_key c.pattern.instance_id tasks ≡ some y

  -- `c` is serial, and `x` and `y` both are its task.
  pub record Repeats (tasks : List (String × ℕ)) (c : GraphComponent) (x y : ℕ) : Type 0 where
    pub serial : get_concurrency td c.pattern ≡ ok Concurrency.serial
    pub first : find_key c.pattern.instance_id tasks ≡ some x
    pub next : find_key c.pattern.instance_id tasks ≡ some y

  -- The task `current` of `c` leads to the inputs that a port is connected to.
  abbrev PortReads : List (String × ℕ) → PatternInstance → ℕ → Found → ℕ → ℕ → Type 0
  PortReads tasks c current f x y =
      (places : List Place) × (connected_to_ptr format (port_id format c f) graph ≡ ok places)
      × All (Reads tasks current) places x y

  precede_ports-Grows :
      (tasks : List (String × ℕ)) (c : PatternInstance) (current : ℕ) (fs : List Found) (h m : Heap)
      → precede_ports format graph td tasks c current fs h ≡ ok m
      → Grows h m (All (PortReads tasks c current) fs) (All None fs)
  unfolding precede_ports
  precede_ports-Grows tasks c current [] h m e = loop_nil (PortReads tasks c current) None (cc)
  precede_ports-Grows tasks c current (f ∷ fs) h m e =
      let (places, at, more) = >>=-eq-ok (connected_to_ptr format (port_id format c f) graph) _ e in
      let (k, one, rest) = >>=-eq-ok (precede_inputs tasks current places h) _ more in
      loop_cons (PortReads tasks c current) None f fs
        (Grows-map
          (λ x y. (
            λ r. (places, at, r),
            λ r. subst (λ ps. All (Reads tasks current) ps x y) (cc (at, r.1)) r.2,
          ))
          (λ x y. (λ s. s.2, λ n. absurd n)) (precede_inputs-Grows tasks current places h k one))
        (precede_ports-Grows tasks c current fs k m rest)

  module _ (all : List GraphComponent) (tasks : List (String × ℕ)) where
    abbrev pub Wanted : GraphComponent → ℕ → ℕ → Type 0
    Wanted c x y = Connects tasks c x y ⊎ Starts all tasks c x y

    sync-cases :
        (type : ComponentType)
        → (type ≡ ComponentType.sync_source)
          ⊎ (type ≢ ComponentType.sync_source)
            × ((current : ℕ) (h : Heap) → succeed_start td all tasks type current h ≡ ok h)
    unfolding succeed_start
    sync-cases ComponentType.sync_source = inl refl
    sync-cases ComponentType.invalid = inr (λ e. cc, λ current h. refl)
    sync-cases ComponentType.async_source = inr (λ e. cc, λ current h. refl)
    sync-cases ComponentType.internal_sync_source = inr (λ e. cc, λ current h. refl)
    sync-cases ComponentType.sync_functional = inr (λ e. cc, λ current h. refl)
    sync-cases ComponentType.async_functional = inr (λ e. cc, λ current h. refl)
    sync-cases ComponentType.sync_sink = inr (λ e. cc, λ current h. refl)
    sync-cases ComponentType.async_sink = inr (λ e. cc, λ current h. refl)

    succeed_start-sync :
        (current : ℕ) (h : Heap)
        → succeed_start td all tasks ComponentType.sync_source current h
          ≡ (find_sync_source_start_point td tasks all >>= λ start. ok (succeed current start h))
    unfolding succeed_start
    succeed_start-sync current h = refl

    succeed_start-Grows :
        (c : GraphComponent) (type : ComponentType) (current : ℕ) (h m : Heap)
        → get_component_type td c.pattern ≡ ok type
        → find_key c.pattern.instance_id tasks ≡ some current
        → succeed_start td all tasks type current h ≡ ok m
        → Grows h m (Starts all tasks c) Nothing
    succeed_start-Grows c type current h m typed named e = elim (sync-cases type) [
      | inr (other, skip) ↦
          subst (λ k. Grows h k (Starts all tasks c) Nothing) (cc (skip current h))
            (Grows-map (λ x y. (λ n. absurd n, λ s. absurd (other (cc (typed, s.sync)))))
              (λ x y. (λ n. n, λ n. n)) (Grows-none h))
      | inl s ↦
          let e' =
            sym (succeed_start-sync current h)
            ∙ ap (λ t. succeed_start td all tasks t current h) (sym s)
            ∙ e in
          let (start, found, last) = >>=-eq-ok (find_sync_source_start_point td tasks all) _ e' in
          let point = find_sync_source_start_point-StartPoint td tasks all start found in
          subst (λ k. Grows h k (Starts all tasks c) Nothing) (cc last)
            (Grows-map
              (λ x y. (
                λ j. record {
                  sync = typed ∙ ap ok s;
                  start = subst (StartPoint td tasks all) (sym j.0) point;
                  started = named ∙ ap some (sym j.1);
                },
                λ t.
                    let (a, first, at) = t.start in
                    let same = FirstAsync-find_sync_source_start_point tasks x first at in
                    let s = t.started in (cc (same, found), cc (s, named)),
              ))
              (λ x y. (λ n. n, λ n. n)) (Grows-succeed start current h))
    ]

    succeed_self-Grows :
        (c : GraphComponent) (concurrency : Concurrency) (current : ℕ) (h : Heap)
        → get_concurrency td c.pattern ≡ ok concurrency
        → find_key c.pattern.instance_id tasks ≡ some current
        → Grows h (succeed_self concurrency current h) Nothing (Repeats tasks c)
    unfolding succeed_self
    succeed_self-Grows c Concurrency.unlimited current h k named =
        Grows-map (λ x y. (λ n. n, λ n. n))
          (λ x y. (λ n. absurd n, λ r. let s = r.serial in cc (s, k))) (Grows-none h)
    succeed_self-Grows c Concurrency.serial current h k named =
        Grows-map (λ x y. (λ n. n, λ n. n))
          (λ x y. (
            λ j. record {
              serial = k;
              first = named ∙ ap some (sym j.0);
              next = named ∙ ap some (sym j.1);
            },
            λ r. let a = r.first in let b = r.next in (cc (a, named), cc (b, named)),
          ))
          (Grows-repeat current current h)

    create_dependency-Grows :
        (c : GraphComponent) (h m : Heap)
        → create_dependency format graph td all tasks c h ≡ ok m
        → Grows h m (Wanted c) (Repeats tasks c)
    unfolding create_dependency
    create_dependency-Grows c h m e =
        let (current, at, e1) = >>=-eq-ok (at_task c.pattern.instance_id tasks) _ e in
        let (ports, outputs, e2) = >>=-eq-ok (get_producer_ports td c.pattern) _ e1 in
        let (h1, one, e3) =
          >>=-eq-ok (precede_ports format graph td tasks c.pattern current ports h) _ e2 in
        let (type, typed, e4) = >>=-eq-ok (get_component_type td c.pattern) _ e3 in
        let (h2, two, e5) = >>=-eq-ok (succeed_start td all tasks type current h1) _ e4 in
        let (k, concurrent, e6) = >>=-eq-ok (get_concurrency td c.pattern) _ e5 in
        let named = (at_task-find_key c.pattern.instance_id tasks current).0 at in
        let grown =
          Grows-trans
            (Grows-trans (precede_ports-Grows tasks c.pattern current ports h h1 one)
              (succeed_start-Grows c type current h1 h2 typed named two))
            (succeed_self-Grows c k current h2 concurrent named) in
        subst (λ n. Grows h n (Wanted c) (Repeats tasks c)) (cc e6)
          (Grows-map
            (λ x y. (
              λ s. elim s [
                | inr n ↦ absurd n
                | inl (inr t) ↦ inr t
                | inl (inl (port, output, (inputs, connected, (place, input, (from, to))))) ↦
                    inl (record {
                      ports = ports;
                      outputs = outputs;
                      port = port;
                      output = output;
                      inputs = inputs;
                      connected = connected;
                      place = place;
                      input = input;
                      producer = named ∙ ap some (sym from);
                      consumer = to;
                    })
              ],
              λ s. elim s [
                | inr t ↦ inl (inr t)
                | inl w ↦
                    let p = w.producer in
                    let o = w.outputs in
                    inl (
                      inl (
                        w.port,
                        subst (Memᴰ w.port) (cc (o, outputs)) w.output,
                        (w.inputs, w.connected, (w.place, w.input, (cc (p, named), w.consumer))),
                      ))
              ],
            ))
            (λ x y. (
              λ s. elim s [ inl (inl n) ↦ absurd n.2 | inl (inr n) ↦ absurd n | inr r ↦ r ],
              λ r. inr r,
            ))
            grown)

    pub create_dependencies-Grows :
        (cs : List GraphComponent) (h m : Heap)
        → create_dependencies format graph td all tasks cs h ≡ ok m
        → Grows h m (All Wanted cs) (All (Repeats tasks) cs)
    unfolding create_dependencies
    create_dependencies-Grows [] h m e = loop_nil Wanted (Repeats tasks) (cc)
    create_dependencies-Grows (c ∷ cs) h m e =
        let (k, one, rest) = >>=-eq-ok (create_dependency format graph td all tasks c h) _ e in
        loop_cons Wanted (Repeats tasks) c cs (create_dependency-Grows c h k one)
          (create_dependencies-Grows cs k m rest)
