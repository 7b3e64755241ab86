-- ===== src/Component.antt =====
-- src/traact/component/ComponentGraph.cpp: the components of a dataflow graph. The set of pairs of
-- pointers is the list of its elements in order. The interface of a component is in
-- Dataflow.TaskFunctions.
use traact_core.Prelude.{List, [], ◌∷◌, Bool, true, Option, none, some, String, eqb, if◌then◌else◌}
use traact_core.Prelude.Int.{ℤ, eqb_ℤ, ltb_ℤ}
use traact_core.Exceptions.{Result, ok, throws, runtime_error, ◌>>=◌}
use traact_core.Pattern.Build.{ComponentType}
use traact_core.Pattern.Instance.{PatternInstance, get_component_type, is_in_time_domain}

-- A `PatternComponentPair`. Of a module component, `shared_module` is its `getModuleKey`, and
-- `useConstraints` of the module that its `instantiateModule` makes.
pub record GraphComponent : Type 0 where
  pub pattern : PatternInstance
  pub shared_module : Option (String × Bool)

-- `getComponent`, with `nullptr` as `none`.
unfoldable pub get_component : String → List GraphComponent → Option GraphComponent
get_component id [] = none
get_component id (c ∷ cs) =
    let rest = get_component id cs in if eqb c.pattern.instance_id id then some c else rest

-- The `switch` of `getPatternsForTimeDomain`.
unfoldable pub check_type : ComponentType → Result Bool
check_type type = elim type [ ComponentType.invalid ↦ throws runtime_error | _ ↦ ok true ]

unfoldable pub get_patterns_for_time_domain : ℤ → List GraphComponent → Result (List GraphComponent)
unfolding check_type
get_patterns_for_time_domain td [] = ok []
get_patterns_for_time_domain td (c ∷ cs) = get_component_type td c.pattern >>= λ type.
    check_type type >>= λ _. get_patterns_for_time_domain td cs >>= λ rest.
    ok (if is_in_time_domain td c.pattern then c ∷ rest else rest)

-- `all_domains.emplace`.
unfoldable pub emplace_domain : ℤ → List ℤ → List ℤ
emplace_domain d [] = d ∷ []
emplace_domain d (e ∷ es) =
    let rest = emplace_domain d es in
    if eqb_ℤ e d then e ∷ es else if ltb_ℤ d e then d ∷ e ∷ es else e ∷ rest

unfoldable pub emplace_domains : List ℤ → List ℤ → List ℤ
unfolding emplace_domain
emplace_domains [] all = all
emplace_domains (d ∷ ds) all = emplace_domains ds (emplace_domain d all)

-- The loops of `getTimeDomains`, with `all_domains` so far.
unfoldable pub get_time_domains : List GraphComponent → List ℤ → List ℤ
unfolding emplace_domains
get_time_domains [] all = all
get_time_domains (c ∷ cs) all =
    get_time_domains cs (emplace_domains c.pattern.local_to_global_time_domain all)
