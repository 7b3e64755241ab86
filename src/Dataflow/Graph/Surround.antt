-- ===== src/Dataflow/Graph/Surround.antt =====
-- src/traact/dataflow/graph/builder/ModuleGraphBuilder.cpp: where the task of a module stands among
-- those of its components.
use mathlib.Core.List.{Memᴰ}
use mathlib.Core.List.Memᴰ
use traact_core.Prelude.{
  ℕ, ◌≡◌, refl, sym, subst, inl, inr, arith, true, List, [], ◌∷◌, ◌==◌, Bool-cases, ==_iff,
}
use traact_core.Dataflow.Graph.{Heap, has, succeed, precede, succeed_inter_time_step}
use traact_core.Dataflow.Graph.Links.{links, links-precede, links-succeed}
use traact_core.Dataflow.Graph.Grows.{Linked, Linked-trans, links-repeat_same}
use traact_core.Dataflow.Graph.Modules.{precede_all, link_component, link_components}

-- A link stays.
pub Linked-links : {h k : Heap} → Linked h k → (x y : ℕ) → links h x y ≡ true → links k x y ≡ true
Linked-links Linked.unchanged x y l = l
Linked-links (Linked.preceded {k = k} p a b) x y l =
    ground (arith, links-precede a b k x y, Linked-links p x y l)
Linked-links (Linked.succeeded {k = k} p a b) x y l =
    ground (arith, links-succeed a b k x y, Linked-links p x y l)
Linked-links (Linked.repeated {k = k} p a b) x y l =
    ground (arith, links-repeat_same b a k x y, Linked-links p x y l)

pub Linked-kind : {h k : Heap} → Linked h k → (x : ℕ) → (k x).kind ≡ (h x).kind
unfolding succeed precede succeed_inter_time_step
Linked-kind Linked.unchanged x = refl
Linked-kind (Linked.preceded p a b) x =
    ground (arith, Linked-kind p x, Linked-kind p a, Linked-kind p b)
Linked-kind (Linked.succeeded p a b) x =
    ground (arith, Linked-kind p x, Linked-kind p a, Linked-kind p b)
Linked-kind (Linked.repeated p a b) x =
    ground (arith, Linked-kind p x, Linked-kind p a, Linked-kind p b)

precede-links : (a b : ℕ) (h : Heap) → links (precede a b h) a b ≡ true
precede-links a b h = ground (arith, links-precede a b h a b)

succeed-links : (a b : ℕ) (h : Heap) → links (succeed b a h) a b ≡ true
succeed-links a b h = ground (arith, links-succeed a b h a b)

precede_all-Linked : (last : ℕ) (xs : List ℕ) (h : Heap) → Linked h (precede_all last xs h)
unfolding precede_all
precede_all-Linked last [] h = Linked.unchanged
precede_all-Linked last (x ∷ xs) h =
    Linked-trans (Linked.preceded Linked.unchanged last x)
      (precede_all-Linked last xs (precede last x h))

precede_all-links :
    (last y : ℕ) (xs : List ℕ) (h : Heap)
    → has y xs ≡ true
    → links (precede_all last xs h) last y ≡ true
unfolding precede_all has
precede_all-links last y [] h e = cc
precede_all-links last y (x ∷ xs) h e = elim (Bool-cases (x == y)) [
  | inl hit ↦
      let same = (==_iff x y).0 hit in
      Linked-links (precede_all-Linked last xs (precede last x h)) last y
        (subst (λ z. links (precede last x h) last z ≡ true) same (precede-links last x h))
  | inr miss ↦ precede_all-links last y xs (precede last x h) (ground (arith, miss))
]

module _ (first last sub : ℕ) (h : Heap) where
  loop-Linked : Linked (succeed last sub (precede first sub h)) (link_component first last sub h)
  unfolding link_component
  loop-Linked =
      let k = succeed last sub (precede first sub h) in precede_all-Linked last (k sub).successors k

  link_component-Linked : Linked h (link_component first last sub h)
  link_component-Linked =
      Linked-trans (Linked.succeeded (Linked.preceded Linked.unchanged first sub) sub last)
        loop-Linked

  link_component-first : links (link_component first last sub h) first sub ≡ true
  link_component-first =
      Linked-links (Linked-trans (Linked.succeeded Linked.unchanged sub last) loop-Linked) first sub
        (precede-links first sub h)

  link_component-last : links (link_component first last sub h) sub last ≡ true
  link_component-last =
      Linked-links loop-Linked sub last (succeed-links sub last (precede first sub h))

  -- The task `last` is among the successors that the innermost loop runs over.
  link_component-itself : links (link_component first last sub h) last last ≡ true
  unfolding link_component links
  link_component-itself =
      precede_all-links last last _ _ (succeed-links sub last (precede first sub h))

  link_component-next :
      (s : ℕ) → links h sub s ≡ true → links (link_component first last sub h) last s ≡ true
  unfolding link_component links
  link_component-next s l = precede_all-links last s _ _ (
      Linked-links (Linked.succeeded (Linked.preceded Linked.unchanged first sub) sub last) sub s l)

pub link_components-Linked :
    (first last : ℕ) (subs : List ℕ) (h : Heap) → Linked h (link_components first last subs h)
unfolding link_components
link_components-Linked first last [] h = Linked.unchanged
link_components-Linked first last (sub ∷ subs) h =
    Linked-trans (link_component-Linked first last sub h)
      (link_components-Linked first last subs (link_component first last sub h))

-- `sub` stands between `first` and `last`, `last` before what `sub` was before, and before itself.
pub record Surrounds (first last sub : ℕ) (old new : Heap) : Type 0 where
  pub enters : links new first sub ≡ true
  pub leaves : links new sub last ≡ true
  pub goes_on : (s : ℕ) → links old sub s ≡ true → links new last s ≡ true
  pub itself : links new last last ≡ true

pub Surrounds-Linked :
    {first last sub : ℕ} {old h new m : Heap}
    → Linked old h
    → Surrounds first last sub h new
    → Linked new m
    → Surrounds first last sub old m
Surrounds-Linked p s q = record {
  enters = Linked-links q _ _ s.enters;
  leaves = Linked-links q _ _ s.leaves;
  goes_on = λ t l. Linked-links q _ t (s.goes_on t (Linked-links p _ t l));
  itself = Linked-links q _ _ s.itself;
}

pub link_components-Surrounds :
    (first last sub : ℕ) (subs : List ℕ) (h : Heap)
    → Memᴰ sub subs
    → Surrounds first last sub h (link_components first last subs h)
unfolding link_components
link_components-Surrounds first last sub [] h at = absurd (Memᴰ.not-nil at)
link_components-Surrounds first last sub (x ∷ subs) h at = elim (Memᴰ.cases_cons at) [
  | inl same ↦
      Surrounds-Linked Linked.unchanged
        (subst (λ z. Surrounds first last z h (link_component first last x h)) (sym same)
          (record {
            enters = link_component-first first last x h;
            leaves = link_component-last first last x h;
            goes_on = link_component-next first last x h;
            itself = link_component-itself first last x h;
          }))
        (link_components-Linked first last subs (link_component first last x h))
  | inr later ↦
      Surrounds-Linked (link_component-Linked first last x h)
        (link_components-Surrounds first last sub subs (link_component first last x h) later)
        Linked.unchanged
]
