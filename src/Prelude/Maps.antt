-- ===== src/Prelude/Maps.antt =====
-- `std::map` with text keys, as the list of its entries in the order of their keys.
use Prim.Native.Char.{code}
use Prim.Native.String.{String}
use Prim.Native.Nat.{ℕ}
use mathlib.Core.Path.{◌≡◌, refl, sym, ap, ap₂, subst, ◌∙◌}
use mathlib.Core.Logic.{◌≢◌, ◌⊎◌, inl, inr}
use mathlib.Core.List.{Memᴰ}
use mathlib.Core.List.Memᴰ
use mathlib.Core.Bool.{Bool, true, false}
use mathlib.Core.List.{List, [], ◌∷◌}
use mathlib.Core.Option.{Option, none, some}
use traact_core.Prelude.Tests.{ltb, ◌==◌, if◌then◌else◌, Bool-cases}
use traact_core.Prelude.Text.{eqb, eqb_iff}
use native.Mathlib.Omega.{arith}

-- `operator<` of `std::string`.
abbrev pub codes : String → List ℕ
codes String.[] = []
codes (String.◌∷◌ c s) = code c ∷ codes s

unfoldable pub less_codes : List ℕ → List ℕ → Bool
less_codes [] [] = false
less_codes [] (d ∷ ds) = true
less_codes (c ∷ cs) [] = false
less_codes (c ∷ cs) (d ∷ ds) =
    let rest = less_codes cs ds in if ltb c d then true else if c == d then rest else false

unfoldable pub less : String → String → Bool
unfolding less_codes
less s t = less_codes (codes s) (codes t)

module _ {ℓ} {V : Type ℓ} where
  -- `find`, and `at` where the caller throws on `none`.
  unfoldable pub find_key : String → List (String × V) → Option V
  find_key key [] = none
  find_key key ((k, v) ∷ m) = let rest = find_key key m in if eqb k key then some v else rest

  -- `emplace`: an entry that is there is kept.
  unfoldable pub emplace : String → V → List (String × V) → List (String × V)
  unfolding less
  emplace key value [] = (key, value) ∷ []
  emplace key value ((k, v) ∷ m) =
      let rest = emplace key value m in
      if eqb k key
      then (k, v) ∷ m
      else if less key k
      then (key, value) ∷ (k, v) ∷ m
      else (k, v) ∷ rest

  -- `at(key) = value` for a key that is there.
  unfoldable pub store_key : String → V → List (String × V) → List (String × V)
  store_key key value [] = []
  store_key key value ((k, v) ∷ m) =
      let rest = store_key key value m in if eqb k key then (k, value) ∷ m else (k, v) ∷ rest

  pub find_key-emplace :
      (key j : String) (value : V) (m : List (String × V))
      → find_key key m ≡ none
      → find_key j (emplace key value m) ≡ (if eqb key j then some value else find_key j m)
  unfolding find_key emplace
  find_key-emplace key j value [] h = refl
  find_key-emplace key j value ((k, v) ∷ m) h =
      ground (arith, eqb_iff k key, eqb_iff key j, eqb_iff k j, find_key-emplace key j value m)

  -- What is found after `emplace` is the new value or was there.
  pub find_key-emplace_cases :
      (key j : String) (value w : V) (m : List (String × V))
      → find_key j (emplace key value m) ≡ some w
      → (j ≡ key) × (w ≡ value) ⊎ (find_key j m ≡ some w)
  unfolding find_key emplace
  find_key-emplace_cases key j value w [] e = elim (Bool-cases (eqb key j)) [
    | inl hit ↦ inl (sym ((eqb_iff key j).0 hit), ground (arith, hit))
    | inr miss ↦ inr (ground (arith, miss))
  ]
  find_key-emplace_cases key j value w ((k, v) ∷ m) e = elim (Bool-cases (eqb k key)) [
    | inl hit ↦ inr (ground (arith, hit))
    | inr miss ↦ elim (Bool-cases (less key k)) [
      | inl before ↦ elim (Bool-cases (eqb key j)) [
        | inl same ↦ inl (sym ((eqb_iff key j).0 same), ground (arith, miss, before, same))
        | inr other ↦ inr (ground (arith, miss, before, other))
      ]
      | inr after ↦ elim (Bool-cases (eqb k j)) [
        | inl same ↦ inr (ground (arith, miss, after, same))
        | inr other ↦
            elim (find_key-emplace_cases key j value w m (ground (arith, miss, after, other))) [
              | inl new ↦ inl new
              | inr old ↦ inr (ground (arith, other, old))
            ]
      ]
    ]
  ]

  pub find_key-store_key :
      (key j : String) (value old : V) (m : List (String × V))
      → find_key key m ≡ some old
      → find_key j (store_key key value m) ≡ (if eqb key j then some value else find_key j m)
  unfolding find_key store_key
  find_key-store_key key j value old [] h = cc
  find_key-store_key key j value old ((k, v) ∷ m) h =
      ground
        (arith, eqb_iff k key, eqb_iff key j, eqb_iff k j, find_key-store_key key j value old m)

  -- No two entries have one key.
  abbrev pub Distinct : List (String × V) → Type ℓ
  Distinct [] = Unit
  Distinct ((k, v) ∷ m) = ((w : V) → ¬ Memᴰ (k, w) m) × Distinct m

  pub find_key-mem :
      (key : String) (value : V) (m : List (String × V))
      → find_key key m ≡ some value
      → Memᴰ (key, value) m
  unfolding find_key
  find_key-mem key value [] e = cc
  find_key-mem key value ((k, v) ∷ m) e = elim (Bool-cases (eqb k key)) [
    | inl hit ↦
        let same : v ≡ value = ground (arith, hit) in
        let named = (eqb_iff k key).0 hit in Memᴰ.head (ap₂ (λ a b. (a, b)) (sym named) (sym same))
    | inr miss ↦ Memᴰ.tail (find_key-mem key value m (ground (arith, miss)))
  ]

  pub find_key-Distinct :
      (key : String) (value : V) (m : List (String × V))
      → Distinct m
      → Memᴰ (key, value) m
      → find_key key m ≡ some value
  unfolding find_key
  find_key-Distinct key value [] u at = absurd (Memᴰ.not-nil at)
  find_key-Distinct key value ((k, v) ∷ m) u at = elim (Memᴰ.cases_cons at) [
    | inl same ↦
        let hit = (eqb_iff k key).1 (ap (λ e. e.0) (sym same)) in
        rw hit (ap (λ e. some e.1) (sym same))
    | inr later ↦ elim (Bool-cases (eqb k key)) [
      | inl hit ↦
          absurd (u.0 value (subst (λ j. Memᴰ (j, value) m) (sym ((eqb_iff k key).0 hit)) later))
      | inr miss ↦ rw miss (find_key-Distinct key value m u.1 later)
    ]
  ]

  pub mem-store_key :
      (key j : String) (value w : V) (m : List (String × V))
      → Distinct m
      → Memᴰ (j, w) (store_key key value m)
      → (j ≡ key) × (w ≡ value) ⊎ (j ≢ key) × Memᴰ (j, w) m
  unfolding store_key
  mem-store_key key j value w [] u at = absurd (Memᴰ.not-nil at)
  mem-store_key key j value w ((k, v) ∷ m) u at = elim (Bool-cases (eqb k key)) [
    | inl hit ↦
        let named = (eqb_iff k key).0 hit in
        elim (Memᴰ.cases_cons (rw (hit, store_key) at at)) [
          | inl same ↦ inl (ap (λ e. e.0) same ∙ named, ap (λ e. e.1) same)
          | inr later ↦
              inr (λ e. u.0 w (subst (λ i. Memᴰ (i, w) m) (e ∙ sym named) later), Memᴰ.tail later)
        ]
    | inr miss ↦ elim (Memᴰ.cases_cons (rw (miss, store_key) at at)) [
      | inl same ↦ inr (
        λ e. let hit = (eqb_iff k key).1 (ap (λ x. x.0) (sym same) ∙ e) in cc (hit, miss),
        Memᴰ.head same,
      )
      | inr later ↦ elim (mem-store_key key j value w m u.1 later) [
        | inl new ↦ inl new
        | inr (other, old) ↦ inr (other, Memᴰ.tail old)
      ]
    ]
  ]

  pub mem-store_key-kept :
      (key j : String) (value w : V) (m : List (String × V))
      → Memᴰ (j, w) m
      → (x : V) × Memᴰ (j, x) (store_key key value m)
  unfolding store_key
  mem-store_key-kept key j value w [] at = absurd (Memᴰ.not-nil at)
  mem-store_key-kept key j value w ((k, v) ∷ m) at = elim (Bool-cases (eqb k key)) [
    | inl hit ↦ elim (Memᴰ.cases_cons at) [
      | inl same ↦
          (value, rw (hit, store_key) (Memᴰ.head (ap (λ a. (a, value)) (ap (λ a. a.0) same))))
      | inr later ↦ (w, rw (hit, store_key) (Memᴰ.tail later))
    ]
    | inr miss ↦ elim (Memᴰ.cases_cons at) [
      | inl same ↦ (w, rw (miss, store_key) (Memᴰ.head same))
      | inr later ↦
          let (x, kept) = mem-store_key-kept key j value w m later in
          (x, rw (miss, store_key) (Memᴰ.tail kept))
    ]
  ]

  not-mem-store_key :
      (key k : String) (value w : V) (m : List (String × V))
      → ((x : V) → ¬ Memᴰ (k, x) m)
      → ¬ Memᴰ (k, w) (store_key key value m)
  unfolding store_key
  not-mem-store_key key k value w [] fresh at = Memᴰ.not-nil at
  not-mem-store_key key k value w ((i, x) ∷ m) fresh at =
      let old = λ (e : k ≡ i). fresh x (Memᴰ.head (ap (λ a. (a, x)) e)) in
      elim (Bool-cases (eqb i key)) [
        | inl hit ↦ elim (Memᴰ.cases_cons (rw (hit, store_key) at at)) [
          | inl same ↦ old (ap (λ a. a.0) same)
          | inr later ↦ fresh w (Memᴰ.tail later)
        ]
        | inr miss ↦ elim (Memᴰ.cases_cons (rw (miss, store_key) at at)) [
          | inl same ↦ old (ap (λ a. a.0) same)
          | inr later ↦ not-mem-store_key key k value w m (λ y n. fresh y (Memᴰ.tail n)) later
        ]
      ]

  pub Distinct-store_key :
      (key : String) (value : V) (m : List (String × V))
      → Distinct m
      → Distinct (store_key key value m)
  unfolding store_key
  Distinct-store_key key value [] u = u
  Distinct-store_key key value ((k, v) ∷ m) u = elim (Bool-cases (eqb k key)) [
    | inl hit ↦ rw (hit, store_key) u
    | inr miss ↦
        rw (miss, store_key)
          (λ w. not-mem-store_key key k value w m u.0, Distinct-store_key key value m u.1)
  ]

  pub mem-emplace :
      (key j : String) (value w : V) (m : List (String × V))
      → Memᴰ (j, w) (emplace key value m)
      → (j ≡ key) × (w ≡ value) ⊎ Memᴰ (j, w) m
  unfolding emplace
  mem-emplace key j value w [] at =
      let same = Memᴰ.eq_of_singleton at in inl (ap (λ a. a.0) same, ap (λ a. a.1) same)
  mem-emplace key j value w ((k, v) ∷ m) at = elim (Bool-cases (eqb k key)) [
    | inl hit ↦ inr (rw (hit, emplace) at at)
    | inr miss ↦ elim (Bool-cases (less key k)) [
      | inl before ↦ elim (Memᴰ.cases_cons (rw (miss, before, emplace) at at)) [
        | inl same ↦ inl (ap (λ a. a.0) same, ap (λ a. a.1) same)
        | inr later ↦ inr later
      ]
      | inr after ↦ elim (Memᴰ.cases_cons (rw (miss, after, emplace) at at)) [
        | inl same ↦ inr (Memᴰ.head same)
        | inr later ↦ elim (mem-emplace key j value w m later) [
          | inl new ↦ inl new
          | inr old ↦ inr (Memᴰ.tail old)
        ]
      ]
    ]
  ]

  pub mem-emplace-kept :
      (key j : String) (value w : V) (m : List (String × V))
      → Memᴰ (j, w) m
      → Memᴰ (j, w) (emplace key value m)
  unfolding emplace
  mem-emplace-kept key j value w [] at = absurd (Memᴰ.not-nil at)
  mem-emplace-kept key j value w ((k, v) ∷ m) at = elim (Bool-cases (eqb k key)) [
    | inl hit ↦ rw (hit, emplace) at
    | inr miss ↦ elim (Bool-cases (less key k)) [
      | inl before ↦ rw (miss, before, emplace) (Memᴰ.tail at)
      | inr after ↦ elim (Memᴰ.cases_cons at) [
        | inl same ↦ rw (miss, after, emplace) (Memᴰ.head same)
        | inr later ↦ rw (miss, after, emplace) (Memᴰ.tail (mem-emplace-kept key j value w m later))
      ]
    ]
  ]

  pub Distinct-emplace :
      (key : String) (value : V) (m : List (String × V))
      → find_key key m ≡ none
      → Distinct m
      → Distinct (emplace key value m)
  unfolding emplace find_key
  Distinct-emplace key value [] fresh u = (λ w. Memᴰ.not-nil, tt)
  Distinct-emplace key value ((k, v) ∷ m) fresh u = elim (Bool-cases (eqb k key)) [
    | inl hit ↦ rw (hit, emplace) u
    | inr miss ↦ elim (Bool-cases (less key k)) [
      | inl before ↦
          rw (miss, before, emplace)
            (λ w at. cc (find_key-Distinct key w ((k, v) ∷ m) u at, fresh), u)
      | inr after ↦
          rw (miss, after, emplace)
            (
              λ w at. elim (mem-emplace key k value w m at) [
                | inl (same, _) ↦ cc ((eqb_iff k key).1 same, miss)
                | inr old ↦ u.0 w old
              ],
              Distinct-emplace key value m (ground (arith, miss)) u.1,
            )
    ]
  ]
