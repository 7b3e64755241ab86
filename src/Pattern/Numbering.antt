-- ===== src/Pattern/Numbering.antt =====
-- The port indices and names that src/traact/pattern/Pattern.cpp gives out.
use traact_core.Prelude.{
  ℕ, zero, suc, ◌+◌, ◌≤◌, ◌≡◌, ◌≢◌, refl, sym, ap, ◌∙◌, inl, inr, List, [], ◌∷◌, ◌++◌, Bool, true,
  false, some, String, eqb, eqb_iff, if◌then◌else◌, length, get_elem?, get_elem?-append_one,
  get_elem?-lt, arith, Bool-cases,
}
use traact_core.Prelude.Int.{ℤ, eqb_ℤ}
use traact_core.Pattern.Port.{Port, PortGroup, count_ports, vector_contains_name}

-- How many of the first `i` ports belong to a time domain.
abbrev pub count_first : ℤ → ℕ → List Port → ℕ
count_first td zero ps = 0
count_first td (suc i) [] = 0
count_first td (suc i) (p ∷ ps) =
    if eqb_ℤ p.time_domain td then count_first td i ps + 1 else count_first td i ps

-- Every port's index is the number of ports of its time domain before it.
abbrev pub IsNumbered : List Port → Type 0
IsNumbered ps =
    (i : ℕ) (p : Port) → get_elem? ps i ≡ some p → p.port_index ≡ count_first p.time_domain i ps

-- The ports of a group are numbered, producers and consumers by themselves, and no two ports of
-- the group have one name.
pub record IsGroup (g : PortGroup) : Type 0 where
  pub producers : IsNumbered g.producer_ports
  pub consumers : IsNumbered g.consumer_ports
  pub producer_names :
      (i j : ℕ) (p q : Port)
      → get_elem? g.producer_ports i ≡ some p
      → get_elem? g.producer_ports j ≡ some q
      → p.name ≡ q.name
      → i ≡ j
  pub consumer_names :
      (i j : ℕ) (p q : Port)
      → get_elem? g.consumer_ports i ≡ some p
      → get_elem? g.consumer_ports j ≡ some q
      → p.name ≡ q.name
      → i ≡ j
  pub separate :
      (i j : ℕ) (p q : Port)
      → get_elem? g.producer_ports i ≡ some p
      → get_elem? g.consumer_ports j ≡ some q
      → p.name ≢ q.name

count_first-append :
    (td : ℤ) (i : ℕ) (ps qs : List Port)
    → i ≤ length ps
    → count_first td i (ps ++ qs) ≡ count_first td i ps
count_first-append td zero ps qs h = refl
count_first-append td (suc i) [] qs h = absurd (omega arith)
count_first-append td (suc i) (p ∷ ps) qs h =
    ap (λ n. if eqb_ℤ p.time_domain td then n + 1 else n)
      (count_first-append td i ps qs (omega arith))

count_first-all : (td : ℤ) (ps : List Port) → count_first td (length ps) ps ≡ count_ports td ps
unfolding count_ports
count_first-all td [] = refl
count_first-all td (p ∷ ps) =
    ap (λ n. if eqb_ℤ p.time_domain td then n + 1 else n) (count_first-all td ps)

pub append-IsNumbered :
    (ps : List Port) (p : Port)
    → IsNumbered ps
    → p.port_index ≡ count_ports p.time_domain ps
    → IsNumbered (ps ++ p ∷ [])
append-IsNumbered ps p v e i q h = elim (get_elem?-append_one ps p q i h) [
  | inl k ↦
      v i q k
      ∙ sym (
          count_first-append q.time_domain i ps (p ∷ [])
            (let l = get_elem?-lt ps i q k in omega arith))
  | inr (at, same) ↦
      ap (λ x. x.port_index) same
      ∙ e
      ∙ sym (count_first-all p.time_domain ps)
      ∙ sym (count_first-append p.time_domain (length ps) ps (p ∷ []) (omega arith))
      ∙ ap (λ x. count_first x.time_domain (length ps) (ps ++ p ∷ [])) (sym same)
      ∙ ap (λ n. count_first q.time_domain n (ps ++ p ∷ [])) (sym at)
]

ite_false : (a b : Bool) → (if a then true else b) ≡ false → (a ≡ false) × (b ≡ false)
ite_false a b h = (ground arith, ground arith)

-- A name that is not found is no port's.
pub not_contained :
    (ps : List Port) (name : String) (i : ℕ) (p : Port)
    → vector_contains_name (λ (x : Port). x.name) ps name ≡ false
    → get_elem? ps i ≡ some p
    → p.name ≢ name
unfolding vector_contains_name
not_contained [] name i p h g = λ e. cc
not_contained (x ∷ xs) name zero p h g = λ e.
    let miss =
      (ite_false (eqb x.name name) (vector_contains_name (λ (y : Port). y.name) xs name) h).0 in
    let same : x ≡ p = cc in let hit = (eqb_iff x.name name).1 (ap (λ y. y.name) same ∙ e) in cc
not_contained (x ∷ xs) name (suc i) p h g =
    not_contained xs name i p
      (ite_false (eqb x.name name) (vector_contains_name (λ (y : Port). y.name) xs name) h).1 g

-- A name that is found is some port's.
pub contained :
    (ps : List Port) (name : String)
    → vector_contains_name (λ (x : Port). x.name) ps name ≡ true
    → (i : ℕ) × (p : Port) × (get_elem? ps i ≡ some p) × (p.name ≡ name)
unfolding vector_contains_name
contained [] name h = cc
contained (x ∷ xs) name h = elim (Bool-cases (eqb x.name name)) [
  | inl hit ↦ (0, x, refl, (eqb_iff x.name name).0 hit)
  | inr miss ↦ let (i, p, at, same) = contained xs name (ground arith) in (suc i, p, at, same)
]

pub append_names :
    (ps : List Port) (n : Port)
    → ((i j : ℕ) (p q : Port)
        → get_elem? ps i ≡ some p
        → get_elem? ps j ≡ some q
        → p.name ≡ q.name
        → i ≡ j)
    → vector_contains_name (λ (x : Port). x.name) ps n.name ≡ false
    → (i j : ℕ) (p q : Port) → get_elem? (ps ++ n ∷ []) i ≡ some p
    → get_elem? (ps ++ n ∷ []) j ≡ some q
    → p.name ≡ q.name
    → i ≡ j
append_names ps n v f i j p q h k s = elim (get_elem?-append_one ps n p i h) [
  | inl h' ↦ elim (get_elem?-append_one ps n q j k) [
    | inl k' ↦ v i j p q h' k' s
    | inr (at, same) ↦ absurd (not_contained ps n.name i p f h' (s ∙ ap (λ x. x.name) same))
  ]
  | inr (at, same) ↦ elim (get_elem?-append_one ps n q j k) [
    | inl k' ↦ absurd (not_contained ps n.name j q f k' (sym s ∙ ap (λ x. x.name) same))
    | inr (at', _) ↦ at ∙ sym at'
  ]
]
