-- ===== src/Prelude/Lists.antt =====
-- Lists measured and indexed by native numbers: C++ vectors, arrays and deques.
use Prim.Native.Nat.{ℕ, zero, suc, ◌+◌, ◌-◌, ◌<◌}
use mathlib.Core.Path.{◌≡◌, refl, ap, subst, sym, ◌∙◌}
use mathlib.Core.Logic.{◌≢◌}
use mathlib.Core.List.{List, [], ◌∷◌, ◌++◌}
use mathlib.Core.Option
use mathlib.Core.Option.{Option, none, some}
use mathlib.Core.Bool.{Bool, true, false}
use mathlib.Core.Logic.{inl, inr, ◌⊎◌}
use traact_core.Prelude.Tests.{if◌then◌else◌, Bool-cases, Option-cases}
use native.Mathlib.Omega.{arith}

module _ {ℓ} {A : Type ℓ} where
  abbrev pub length : List A → ℕ
  length [] = 0
  length (x ∷ xs) = suc (length xs)

  abbrev pub get_elem? : List A → ℕ → Option A
  get_elem? [] i = none
  get_elem? (x ∷ xs) zero = some x
  get_elem? (x ∷ xs) (suc i) = get_elem? xs i

  -- `d` stands for what a read out of range gives, which the C++ code leaves undefined.
  abbrev pub get_or : List A → ℕ → A → A
  get_or [] i d = d
  get_or (x ∷ xs) zero d = x
  get_or (x ∷ xs) (suc i) d = get_or xs i d

  -- A write out of bounds changes nothing.
  abbrev pub set : List A → ℕ → A → List A
  set [] i v = []
  set (x ∷ xs) zero v = v ∷ xs
  set (x ∷ xs) (suc i) v = x ∷ set xs i v

  abbrev pub drop : ℕ → List A → List A
  drop zero xs = xs
  drop (suc n) [] = []
  drop (suc n) (x ∷ xs) = drop n xs

  abbrev pub replicate : ℕ → A → List A
  replicate zero a = []
  replicate (suc n) a = a ∷ replicate n a

module _ {ℓ} {A : Type ℓ} where
  pub length-append : (xs ys : List A) → length (xs ++ ys) ≡ length xs + length ys
  length-append [] ys = omega arith
  length-append (x ∷ xs) ys = omega (arith, length-append xs ys)

  pub length-set : (xs : List A) (i : ℕ) (v : A) → length (set xs i v) ≡ length xs
  length-set [] i v = refl
  length-set (x ∷ xs) zero v = refl
  length-set (x ∷ xs) (suc i) v = ap suc (length-set xs i v)

  pub length-replicate : (n : ℕ) (a : A) → length (replicate n a) ≡ n
  length-replicate zero a = refl
  length-replicate (suc n) a = ap suc (length-replicate n a)

  pub length-drop : (n : ℕ) (xs : List A) → length (drop n xs) ≡ length xs - n
  length-drop zero xs = omega arith
  length-drop (suc n) [] = omega arith
  length-drop (suc n) (x ∷ xs) = omega (arith, length-drop n xs)

  pub get_or-set_self :
      (xs : List A) (i : ℕ) (v d : A) → i < length xs → get_or (set xs i v) i d ≡ v
  get_or-set_self [] i v d h = absurd (omega arith)
  get_or-set_self (x ∷ xs) zero v d h = refl
  get_or-set_self (x ∷ xs) (suc i) v d h = get_or-set_self xs i v d (omega arith)

  pub get_or-set_ne :
      (xs : List A) (i j : ℕ) (v d : A) → i ≢ j → get_or (set xs i v) j d ≡ get_or xs j d
  get_or-set_ne [] i j v d h = refl
  get_or-set_ne (x ∷ xs) zero zero v d h = absurd (h refl)
  get_or-set_ne (x ∷ xs) zero (suc j) v d h = refl
  get_or-set_ne (x ∷ xs) (suc i) zero v d h = refl
  get_or-set_ne (x ∷ xs) (suc i) (suc j) v d h = get_or-set_ne xs i j v d (λ e. h (ap suc e))

  pub get_elem?-set_self :
      (xs : List A) (i : ℕ) (v : A) → i < length xs → get_elem? (set xs i v) i ≡ some v
  get_elem?-set_self [] i v h = absurd (omega arith)
  get_elem?-set_self (x ∷ xs) zero v h = refl
  get_elem?-set_self (x ∷ xs) (suc i) v h = get_elem?-set_self xs i v (omega arith)

  pub get_elem?-set_ne :
      (xs : List A) (i j : ℕ) (v : A) → i ≢ j → get_elem? (set xs i v) j ≡ get_elem? xs j
  get_elem?-set_ne [] i j v h = refl
  get_elem?-set_ne (x ∷ xs) zero zero v h = absurd (h refl)
  get_elem?-set_ne (x ∷ xs) zero (suc j) v h = refl
  get_elem?-set_ne (x ∷ xs) (suc i) zero v h = refl
  get_elem?-set_ne (x ∷ xs) (suc i) (suc j) v h = get_elem?-set_ne xs i j v (λ e. h (ap suc e))

  pub get_elem?-append_left :
      (xs ys : List A) (i : ℕ) → i < length xs → get_elem? (xs ++ ys) i ≡ get_elem? xs i
  get_elem?-append_left [] ys i h = absurd (omega arith)
  get_elem?-append_left (x ∷ xs) ys zero h = refl
  get_elem?-append_left (x ∷ xs) ys (suc i) h = get_elem?-append_left xs ys i (omega arith)

  pub get_elem?-append_end : (xs : List A) (y : A) → get_elem? (xs ++ y ∷ []) (length xs) ≡ some y
  get_elem?-append_end [] y = refl
  get_elem?-append_end (x ∷ xs) y = get_elem?-append_end xs y

  -- `std::find_if`: the position of the first element that passes the test.
  abbrev pub find_index? : (A → Bool) → List A → Option ℕ
  find_index? p [] = none
  find_index? p (x ∷ xs) =
      let later = Option.map suc (find_index? p xs) in if p x then some 0 else later

  pub find_index?-some :
      (p : A → Bool) (xs : List A) (i : ℕ)
      → find_index? p xs ≡ some i
      → (x : A) × (get_elem? xs i ≡ some x) × (p x ≡ true)
  find_index?-some p [] i h = cc
  find_index?-some p (x ∷ xs) i h = elim (Bool-cases (p x)) [
    | inl e ↦
        let here : 0 ≡ i = ground (arith, e) in
        (x, subst (λ k. get_elem? (x ∷ xs) k ≡ some x) here refl, e)
    | inr e ↦ elim (Option-cases (find_index? p xs)) [
      | inl f ↦ absurd (ground (arith, e, f))
      | inr (j, f) ↦
          let (y, g, q) = find_index?-some p xs j f in
          let there : suc j ≡ i = ground (arith, e, f) in
          (y, subst (λ k. get_elem? (x ∷ xs) k ≡ some y) there g, q)
    ]
  ]

  find_index?-none_cons :
      (p : A → Bool) (y : A) (ys : List A)
      → find_index? p (y ∷ ys) ≡ none
      → (p y ≡ false) × (find_index? p ys ≡ none)
  find_index?-none_cons p y ys h = elim (Bool-cases (p y)) [
    | inl e ↦ absurd (ground (arith, e))
    | inr e ↦ elim (Option-cases (find_index? p ys)) [
      | inl f ↦ (e, f)
      | inr (j, f) ↦ absurd (ground (arith, e, f))
    ]
  ]

  pub find_index?-none :
      (p : A → Bool) (xs : List A) (i : ℕ) (x : A)
      → find_index? p xs ≡ none
      → get_elem? xs i ≡ some x
      → p x ≡ false
  find_index?-none p [] i x h g = cc
  find_index?-none p (y ∷ ys) zero x h g =
      let same : y ≡ x = cc in ap p (sym same) ∙ (find_index?-none_cons p y ys h).0
  find_index?-none p (y ∷ ys) (suc i) x h g =
      find_index?-none p ys i x (find_index?-none_cons p y ys h).1 g

  -- Reading an append: in the first list, or its one new element.
  pub get_elem?-append_one :
      (xs : List A) (y x : A) (i : ℕ)
      → get_elem? (xs ++ y ∷ []) i ≡ some x
      → (get_elem? xs i ≡ some x) ⊎ (i ≡ length xs) × (x ≡ y)
  get_elem?-append_one [] y x zero h = inr (refl, cc)
  get_elem?-append_one [] y x (suc i) h = cc
  get_elem?-append_one (z ∷ xs) y x zero h = inl h
  get_elem?-append_one (z ∷ xs) y x (suc i) h = elim (get_elem?-append_one xs y x i h) [
    | inl e ↦ inl e
    | inr (a, b) ↦ inr (ap suc a, b)
  ]

  pub get_elem?-lt : (xs : List A) (i : ℕ) (x : A) → get_elem? xs i ≡ some x → i < length xs
  get_elem?-lt [] i x h = cc
  get_elem?-lt (y ∷ xs) zero x h = omega arith
  get_elem?-lt (y ∷ xs) (suc i) x h = omega (arith, get_elem?-lt xs i x h)

  pub get_elem?-in : (xs : List A) (i : ℕ) → i < length xs → (x : A) × (get_elem? xs i ≡ some x)
  get_elem?-in [] i h = absurd (omega arith)
  get_elem?-in (x ∷ xs) zero h = (x, refl)
  get_elem?-in (x ∷ xs) (suc i) h = get_elem?-in xs i (omega arith)

  pub get_elem?-append_cases :
      (xs ys : List A) (n : ℕ) (a : A)
      → get_elem? (xs ++ ys) n ≡ some a
      → (get_elem? xs n ≡ some a) ⊎ (m : ℕ) × (n ≡ length xs + m) × (get_elem? ys m ≡ some a)
  get_elem?-append_cases [] ys n a h = inr (n, omega arith, h)
  get_elem?-append_cases (x ∷ xs) ys zero a h = inl h
  get_elem?-append_cases (x ∷ xs) ys (suc n) a h = elim (get_elem?-append_cases xs ys n a h) [
    | inl e ↦ inl e
    | inr (m, e, f) ↦ inr (m, omega arith, f)
  ]
