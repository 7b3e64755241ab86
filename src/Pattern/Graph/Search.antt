-- ===== src/Pattern/Graph/Search.antt =====
-- The searches of src/traact/pattern/instance: what they find, and that they find it.
use mathlib.Core.List.{Memᴰ}
use mathlib.Core.List.Memᴰ
use traact_core.Prelude.{
  ℕ, ◌≡◌, ◌≢◌, refl, sym, ap, ap₂, ◌∙◌, inl, inr, List, [], ◌∷◌, Bool, true, false, Option, none,
  some, String, eqb, eqb_iff, Bool-cases, Option-cases, arith, subst,
}
use traact_core.Exceptions.{Result, ok, >>=-eq-ok}
use traact_core.Pattern.Port.{vector_get_for_name}
use traact_core.Pattern.Instance.{
  PortInstance, PortGroupInstance, Found, port_name, find_in_instances, find_in_groups,
}
use traact_core.Pattern.Graph.{any_of}

abbrev pub producers : PortGroupInstance → List PortInstance
producers g = g.producer_ports

abbrev pub consumers : PortGroupInstance → List PortInstance
consumers g = g.consumer_ports

-- `p` is a port of the instance `g` of a group in `groups`.
pub record IsPort (select : PortGroupInstance → List PortInstance)
    (groups : List (List PortGroupInstance)) (g : PortGroupInstance) (p : PortInstance)
    : Type 0 where
  pub group : List PortGroupInstance
  pub in_groups : Memᴰ group groups
  pub in_group : Memᴰ g group
  pub in_ports : Memᴰ p (select g)

module _ {ℓ} {A : Type ℓ} where
  -- If the test never throws on the list, the loop returns, and with true if any test did.
  pub any_of-total :
      (f : A → Result Bool) (xs : List A)
      → ((x : A) → Memᴰ x xs → (b : Bool) × (f x ≡ ok b))
      → (b : Bool) × (any_of f xs ≡ ok b) × ((x : A) → Memᴰ x xs → f x ≡ ok true → b ≡ true)
  unfolding any_of
  any_of-total f [] h = (false, refl, λ x m. absurd (Memᴰ.not-nil m))
  any_of-total f (x ∷ xs) h =
      let (b, e) = h x (Memᴰ.head refl) in
      let (r, rest, found) = any_of-total f xs (λ y m. h y (Memᴰ.tail m)) in
      elim (Bool-cases b) [
        | inl yes' ↦ (true, rw (e, yes') refl, λ y m k. refl)
        | inr no' ↦ (
          r,
          rw (e, no') rest,
          λ y m k. elim (Memᴰ.cases_cons m) [
            | inl same ↦ absurd (
                let k' : f x ≡ ok true = subst (λ z. f z ≡ ok true) same k in
                ground (arith, k', e, no'))
            | inr later ↦ found y later k
          ],
        )
      ]

  any_of_step :
      (f g : A → Result Bool) (x : A) (xs : List A) (r b : Bool)
      → g x ≡ ok b
      → (any_of f xs ≡ ok r → any_of g xs ≡ ok r)
      → (elim b as (λ _. Result Bool) [ true ↦ ok true | false ↦ any_of f xs ]) ≡ ok r
      → any_of g (x ∷ xs) ≡ ok r
  unfolding any_of
  any_of_step f g x xs r true first later tail = rw first tail
  any_of_step f g x xs r false first later tail = rw first (later tail)

  -- A test that returns the same wherever the other one returns.
  pub any_of_mono :
      (f g : A → Result Bool) (xs : List A) (r : Bool)
      → ((x : A) (b : Bool) → f x ≡ ok b → g x ≡ ok b)
      → any_of f xs ≡ ok r
      → any_of g xs ≡ ok r
  unfolding any_of
  any_of_mono f g [] r h e = e
  any_of_mono f g (x ∷ xs) r h e =
      let (b, first, tail) =
        >>=-eq-ok (f x) (λ b. elim b [ true ↦ ok true | false ↦ any_of f xs ]) e in
      any_of_step f g x xs r b (h x b first) (any_of_mono f g xs r h) tail

  pub vector_get_for_name-found :
      (get_name : A → String) (xs : List A) (name : String) (x : A)
      → Memᴰ x xs
      → get_name x ≡ name
      → (y : A) × (vector_get_for_name get_name xs name ≡ some y) × Memᴰ y xs × (get_name y ≡ name)
  unfolding vector_get_for_name
  vector_get_for_name-found get_name [] name x m e = absurd (Memᴰ.not-nil m)
  vector_get_for_name-found get_name (z ∷ xs) name x m e =
      elim (Bool-cases (eqb (get_name z) name)) [
        | inl hit ↦ (z, rw hit refl, Memᴰ.head refl, (eqb_iff (get_name z) name).0 hit)
        | inr miss ↦ elim (Memᴰ.cases_cons m) [
          | inl same ↦ absurd (
              let k = (eqb_iff (get_name z) name).1 (ap get_name (sym same) ∙ e) in
              ground (arith, k, miss))
          | inr later ↦
              let (y, found, at, named) = vector_get_for_name-found get_name xs name x later e in
              (y, rw miss found, Memᴰ.tail at, named)
        ]
      ]

  pub vector_get_for_name-none :
      (get_name : A → String) (xs : List A) (name : String)
      → ((x : A) → Memᴰ x xs → get_name x ≢ name)
      → vector_get_for_name get_name xs name ≡ none
  unfolding vector_get_for_name
  vector_get_for_name-none get_name [] name h = refl
  vector_get_for_name-none get_name (z ∷ xs) name h = elim (Bool-cases (eqb (get_name z) name)) [
    | inl hit ↦ absurd (h z (Memᴰ.head refl) ((eqb_iff (get_name z) name).0 hit))
    | inr miss ↦ rw miss (vector_get_for_name-none get_name xs name (λ x m. h x (Memᴰ.tail m)))
  ]

  pub vector_get_for_name-some :
      (get_name : A → String) (xs : List A) (name : String) (y : A)
      → vector_get_for_name get_name xs name ≡ some y
      → Memᴰ y xs × (get_name y ≡ name)
  unfolding vector_get_for_name
  vector_get_for_name-some get_name [] name y e = cc
  vector_get_for_name-some get_name (z ∷ xs) name y e = elim (Bool-cases (eqb (get_name z) name)) [
    | inl hit ↦
        let same : z ≡ y = ground (arith, hit) in
        (Memᴰ.head (sym same), ap get_name (sym same) ∙ (eqb_iff (get_name z) name).0 hit)
    | inr miss ↦
        let (m, named) = vector_get_for_name-some get_name xs name y (ground (arith, miss)) in
        (Memᴰ.tail m, named)
  ]

module _ (format : String → ℕ → String → String)
    (select : PortGroupInstance → List PortInstance) where
  abbrev HitInstance : List PortGroupInstance → String → Option Found → Type 0
  HitInstance gs name r =
      (g : PortGroupInstance) × (p : PortInstance) × (r ≡ some (g, p))
      × Memᴰ g gs
      × Memᴰ p (select g)
      × (port_name format g p ≡ name)

  abbrev HitPort : List (List PortGroupInstance) → String → Option Found → Type 0
  HitPort groups name r =
      (g : PortGroupInstance) × (p : PortInstance) × (r ≡ some (g, p))
      × IsPort select groups g p
      × (port_name format g p ≡ name)

  find_in_instances-found :
      (gs : List PortGroupInstance) (name : String) (g : PortGroupInstance) (p : PortInstance)
      → Memᴰ g gs
      → Memᴰ p (select g)
      → port_name format g p ≡ name
      → HitInstance gs name (find_in_instances format select name gs)
  unfolding find_in_instances
  find_in_instances-found [] name g p m k e = absurd (Memᴰ.not-nil m)
  find_in_instances-found (x ∷ gs) name g p m k e =
      elim (Option-cases (vector_get_for_name (port_name format x) (select x) name)) [
        | inr (q, hit) ↦
            let (at, named) = vector_get_for_name-some (port_name format x) (select x) name q hit in
            (x, q, rw (hit, find_in_instances) refl, Memᴰ.head refl, at, named)
        | inl miss ↦ elim (Memᴰ.cases_cons m) [
          | inl same ↦ absurd (
              let (q, hit, _, _) =
                vector_get_for_name-found (port_name format x) (select x) name p
                  (subst (λ y. Memᴰ p (select y)) same k)
                  (ap (λ y. port_name format y p) (sym same) ∙ e) in
              cc (miss, hit))
          | inr later ↦
              let (h, q, hit, at, q_at, named) = find_in_instances-found gs name g p later k e in
              (h, q, rw (miss, find_in_instances) hit, Memᴰ.tail at, q_at, named)
        ]
      ]

  find_in_instances-some :
      (gs : List PortGroupInstance) (name : String) (g : PortGroupInstance) (p : PortInstance)
      → find_in_instances format select name gs ≡ some (g, p)
      → Memᴰ g gs × Memᴰ p (select g) × (port_name format g p ≡ name)
  unfolding find_in_instances
  find_in_instances-some [] name g p e = cc
  find_in_instances-some (x ∷ gs) name g p e =
      elim (Option-cases (vector_get_for_name (port_name format x) (select x) name)) [
        | inr (q, hit) ↦
            let (at, named) = vector_get_for_name-some (port_name format x) (select x) name q hit in
            let group : x ≡ g = ground (arith, hit) in
            let port : q ≡ p = ground (arith, hit) in
            (
              Memᴰ.head (sym group),
              subst (λ y. Memᴰ y (select g)) port (subst (λ y. Memᴰ q (select y)) group at),
              ap₂ (port_name format) (sym group) (sym port) ∙ named,
            )
        | inl miss ↦
            let (at, q_at, named) = find_in_instances-some gs name g p (ground (arith, miss)) in
            (Memᴰ.tail at, q_at, named)
      ]

  pub find_in_groups-found :
      (groups : List (List PortGroupInstance)) (name : String) (g : PortGroupInstance)
      (p : PortInstance)
      → IsPort select groups g p
      → port_name format g p ≡ name
      → HitPort groups name (find_in_groups format select name groups)
  unfolding find_in_groups
  find_in_groups-found [] name g p m e = absurd (Memᴰ.not-nil m.in_groups)
  find_in_groups-found (gs ∷ groups) name g p m e =
      elim (Option-cases (find_in_instances format select name gs)) [
        | inr ((h, q), hit) ↦
            let (at, q_at, named) = find_in_instances-some gs name h q hit in
            (
              h,
              q,
              rw (hit, find_in_groups) refl,
              record { group = gs; in_groups = Memᴰ.head refl; in_group = at; in_ports = q_at },
              named,
            )
        | inl miss ↦ elim (Memᴰ.cases_cons m.in_groups) [
          | inl same ↦ absurd (
              let (h, q, hit, _, _, _) =
                find_in_instances-found gs name g p (subst (Memᴰ g) same m.in_group) m.in_ports e in
              cc (miss, hit))
          | inr later ↦
              let inner : IsPort select groups g p = record {
                group = m.group;
                in_groups = later;
                in_group = m.in_group;
                in_ports = m.in_ports;
              } in
              let (h, q, hit, at, named) = find_in_groups-found groups name g p inner e in
              (
                h,
                q,
                rw (miss, find_in_groups) hit,
                record {
                  group = at.group;
                  in_groups = Memᴰ.tail at.in_groups;
                  in_group = at.in_group;
                  in_ports = at.in_ports;
                },
                named,
              )
        ]
      ]
