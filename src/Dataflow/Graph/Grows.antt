-- ===== src/Dataflow/Graph/Grows.antt =====
-- src/traact/dataflow/graph/task/TraactTask.cpp: what a sequence of `succeed` and `precede` does to the
-- tasks.
use traact_core.Prelude.{
  ℕ, ◌≡◌, refl, sym, ◌∙◌, ap, ◌⊎◌, ◌↔◌, inl, inr, arith, Bool, true, Bool-cases,
}
use traact_core.Dataflow.Graph.{Heap, succeed, precede, succeed_inter_time_step}
use traact_core.Dataflow.Graph.Links.{
  links, links_back, links_inter, links_inter_back, linked, links-precede, links-succeed,
  links_back-precede, links_back-succeed, links_inter-succeed, links_inter_back-succeed,
}

-- Successors and predecessors say the same.
pub record IsConverse (h : Heap) : Type 0 where
  pub within : (x y : ℕ) → links h x y ≡ links_back h x y
  pub between : (x y : ℕ) → links_inter h x y ≡ links_inter_back h x y

-- The heaps that a builder makes out of `h`.
pub data Linked (h : Heap) : Heap → Type 0 where
  unchanged : Linked h h
  preceded : {k : Heap} → Linked h k → (a b : ℕ) → Linked h (precede a b k)
  succeeded : {k : Heap} → Linked h k → (a b : ℕ) → Linked h (succeed b a k)
  repeated : {k : Heap} → Linked h k → (a b : ℕ) → Linked h (succeed_inter_time_step b a k)

pub Linked-trans : {h k m : Heap} → Linked h k → Linked k m → Linked h m
Linked-trans p Linked.unchanged = p
Linked-trans p (Linked.preceded q a b) = Linked.preceded (Linked-trans p q) a b
Linked-trans p (Linked.succeeded q a b) = Linked.succeeded (Linked-trans p q) a b
Linked-trans p (Linked.repeated q a b) = Linked.repeated (Linked-trans p q) a b

-- The links within a time step and those between time steps are apart.
module _ (a b : ℕ) (h : Heap) (x y : ℕ) where
  pub links_inter-precede_same : links_inter (precede a b h) x y ≡ links_inter h x y
  unfolding links_inter precede
  links_inter-precede_same = ground arith

  pub links_inter-succeed_same : links_inter (succeed a b h) x y ≡ links_inter h x y
  unfolding links_inter succeed
  links_inter-succeed_same = ground arith

  links_inter_back-precede_same : links_inter_back (precede a b h) x y ≡ links_inter_back h x y
  unfolding links_inter_back precede
  links_inter_back-precede_same = ground arith

  links_inter_back-succeed_same : links_inter_back (succeed a b h) x y ≡ links_inter_back h x y
  unfolding links_inter_back succeed
  links_inter_back-succeed_same = ground arith

  pub links-repeat_same : links (succeed_inter_time_step a b h) x y ≡ links h x y
  unfolding links succeed_inter_time_step
  links-repeat_same = ground arith

  links_back-repeat_same : links_back (succeed_inter_time_step a b h) x y ≡ links_back h x y
  unfolding links_back succeed_inter_time_step
  links_back-repeat_same = ground arith

pub Linked-IsConverse : {h k : Heap} → Linked h k → IsConverse h → IsConverse k
Linked-IsConverse Linked.unchanged c = c
Linked-IsConverse (Linked.preceded {k = k} p a b) c =
    let old = Linked-IsConverse p c in
    record {
      within = λ x y.
          links-precede a b k x y
          ∙ ap (λ o. linked o a b x y) (old.within x y)
          ∙ sym (links_back-precede a b k x y);
      between = λ x y.
          links_inter-precede_same a b k x y
          ∙ old.between x y
          ∙ sym (links_inter_back-precede_same a b k x y);
    }
Linked-IsConverse (Linked.succeeded {k = k} p a b) c =
    let old = Linked-IsConverse p c in
    record {
      within = λ x y.
          links-succeed a b k x y
          ∙ ap (λ o. linked o a b x y) (old.within x y)
          ∙ sym (links_back-succeed a b k x y);
      between = λ x y.
          links_inter-succeed_same b a k x y
          ∙ old.between x y
          ∙ sym (links_inter_back-succeed_same b a k x y);
    }
Linked-IsConverse (Linked.repeated {k = k} p a b) c =
    let old = Linked-IsConverse p c in
    record {
      within = λ x y.
          links-repeat_same b a k x y ∙ old.within x y ∙ sym (links_back-repeat_same b a k x y);
      between = λ x y.
          links_inter-succeed a b k x y
          ∙ ap (λ o. linked o a b x y) (old.between x y)
          ∙ sym (links_inter_back-succeed a b k x y);
    }

-- The pairs that are linked after a step and were not before are those of `W`.
abbrev pub Adds : (ℕ → ℕ → Bool) → (ℕ → ℕ → Bool) → (ℕ → ℕ → Type 0) → Type 0
Adds old new W = (x y : ℕ) → (new x y ≡ true) ↔ (old x y ≡ true) ⊎ W x y

abbrev pub Nothing : ℕ → ℕ → Type 0
Nothing x y = ⊥

abbrev pub Either : (ℕ → ℕ → Type 0) → (ℕ → ℕ → Type 0) → ℕ → ℕ → Type 0
Either V W x y = V x y ⊎ W x y

abbrev pub Just : ℕ → ℕ → ℕ → ℕ → Type 0
Just a b x y = (x ≡ a) × (y ≡ b)

pub Adds-same : {old new : ℕ → ℕ → Bool} → ((x y : ℕ) → new x y ≡ old x y) → Adds old new Nothing
Adds-same e x y = (λ h. inl (sym (e x y) ∙ h), λ s. elim s [ inl h ↦ e x y ∙ h | inr n ↦ absurd n ])

pub Adds-link :
    (old new : ℕ → ℕ → Bool) (a b : ℕ)
    → ((x y : ℕ) → new x y ≡ linked (old x y) a b x y)
    → Adds old new (Just a b)
Adds-link old new a b e x y = (
  λ h. elim (Bool-cases (old x y)) [
    | inl o ↦ inl o
    | inr n ↦ inr (ground (arith, e x y), ground (arith, e x y))
  ],
  λ s. elim s [ inl o ↦ ground (arith, e x y) | inr (p, q) ↦ ground (arith, e x y) ],
)

pub Adds-trans :
    {old middle new : ℕ → ℕ → Bool} {V W : ℕ → ℕ → Type 0}
    → Adds old middle V
    → Adds middle new W
    → Adds old new (Either V W)
Adds-trans p q x y = (
  λ h. elim ((q x y).0 h) [
    | inr w ↦ inr (inr w)
    | inl m ↦ elim ((p x y).0 m) [ inl o ↦ inl o | inr v ↦ inr (inl v) ]
  ],
  λ s. elim s [
    | inl o ↦ (q x y).1 (inl ((p x y).1 (inl o)))
    | inr (inl v) ↦ (q x y).1 (inl ((p x y).1 (inr v)))
    | inr (inr w) ↦ (q x y).1 (inr w)
  ],
)

pub Adds-map :
    {old new : ℕ → ℕ → Bool} {V W : ℕ → ℕ → Type 0}
    → ((x y : ℕ) → V x y ↔ W x y)
    → Adds old new V
    → Adds old new W
Adds-map f p x y = (
  λ h. elim ((p x y).0 h) [ inl o ↦ inl o | inr v ↦ inr ((f x y).0 v) ],
  λ s. elim s [ inl o ↦ (p x y).1 (inl o) | inr w ↦ (p x y).1 (inr ((f x y).1 w)) ],
)

-- What a part of a builder does: its links within a time step, and between time steps.
pub record Grows (h k : Heap) (V W : ℕ → ℕ → Type 0) : Type 0 where
  pub path : Linked h k
  pub inside : Adds (links h) (links k) V
  pub across : Adds (links_inter h) (links_inter k) W

pub Grows-none : (h : Heap) → Grows h h Nothing Nothing
Grows-none h = record {
  path = Linked.unchanged;
  inside = Adds-same λ x y. refl;
  across = Adds-same λ x y. refl;
}

pub Grows-precede : (a b : ℕ) (h : Heap) → Grows h (precede a b h) (Just a b) Nothing
Grows-precede a b h = record {
  path = Linked.preceded Linked.unchanged a b;
  inside = Adds-link _ _ a b (links-precede a b h);
  across = Adds-same (links_inter-precede_same a b h);
}

pub Grows-succeed : (a b : ℕ) (h : Heap) → Grows h (succeed b a h) (Just a b) Nothing
Grows-succeed a b h = record {
  path = Linked.succeeded Linked.unchanged a b;
  inside = Adds-link _ _ a b (links-succeed a b h);
  across = Adds-same (links_inter-succeed_same b a h);
}

pub Grows-repeat : (a b : ℕ) (h : Heap) → Grows h (succeed_inter_time_step b a h) Nothing (Just a b)
Grows-repeat a b h = record {
  path = Linked.repeated Linked.unchanged a b;
  inside = Adds-same (links-repeat_same b a h);
  across = Adds-link _ _ a b (links_inter-succeed a b h);
}

module _ {h k m : Heap} {V W V' W' : ℕ → ℕ → Type 0} where
  pub Grows-trans : Grows h k V W → Grows k m V' W' → Grows h m (Either V V') (Either W W')
  Grows-trans p q = record {
    path = Linked-trans p.path q.path;
    inside = Adds-trans p.inside q.inside;
    across = Adds-trans p.across q.across;
  }

pub Grows-map :
    {h k : Heap} {V W V' W' : ℕ → ℕ → Type 0}
    → ((x y : ℕ) → V x y ↔ V' x y)
    → ((x y : ℕ) → W x y ↔ W' x y)
    → Grows h k V W
    → Grows h k V' W'
Grows-map f g p = record {
  path = p.path;
  inside = Adds-map f p.inside;
  across = Adds-map g p.across;
}
