-- ===== src/Queue/Cells.antt =====
-- Index arithmetic of a ring, and arrays of cells under reads and writes.
use native.Mathlib.Nat.{mod-eq_of_lt, mod-eq-sub-mod}
use native.Mathlib.Decide.{dec_lt}
use sleep_environment_monito.Prelude.{
  ℕ, zero, suc, ◌+◌, ◌-◌, ◌%◌, ◌≤◌, ◌<◌, ◌≡◌, ◌≢◌, refl, ap, ◌⊎◌, inl, inr, List, [], ◌∷◌, ◌++◌,
  none, some, arith, length, get_elem?, get_or, set,
}
use sleep_environment_monito.Queue.Fifo

-- One turn round the ring at most.
pub wrap :
    (h i n : ℕ)
    → h < n
    → i ≤ n
    → ((h + i < n) × ((h + i) % n ≡ h + i)) ⊎ ((n ≤ h + i) × ((h + i) % n + n ≡ h + i))
wrap h i n hh hi = elim (dec_lt (h + i) n) [
  | yes p ↦ inl (p, mod-eq_of_lt p)
  | no p ↦ inr (
    (omega arith),
    omega (
      arith,
      mod-eq-sub-mod {n = h + i} {m = n} (omega arith),
      wrap_once h i n hh hi (omega arith),
    ),
  )
]
  where
    wrap_once : (h i n : ℕ) → h < n → i ≤ n → n ≤ h + i → (h + i - n) % n ≡ h + i - n
    wrap_once h i n hh hi p = mod-eq_of_lt (omega arith)

module _ {ℓ} {A : Type ℓ} where
  pub get_or-set_self :
      (xs : List A) (i : ℕ) (v d : A) → i < length xs → get_or (set xs i v) i d ≡ v
  get_or-set_self [] i v d h = absurd (omega arith)
  get_or-set_self (x ∷ xs) zero v d h = refl
  get_or-set_self (x ∷ xs) (suc i) v d h = get_or-set_self xs i v d (omega arith)

  pub get_or-set_ne :
      (xs : List A) (i j : ℕ) (v d : A) → i ≢ j → get_or (set xs i v) j d ≡ get_or xs j d
  get_or-set_ne [] i j v d h = refl
  get_or-set_ne (x ∷ xs) zero zero v d h = absurd (h refl)
  get_or-set_ne (x ∷ xs) zero (suc j) v d h = refl
  get_or-set_ne (x ∷ xs) (suc i) zero v d h = refl
  get_or-set_ne (x ∷ xs) (suc i) (suc j) v d h = get_or-set_ne xs i j v d (λ e. h (ap suc e))

  pub get_elem?-append_left :
      (xs ys : List A) (i : ℕ) → i < length xs → get_elem? (xs ++ ys) i ≡ get_elem? xs i
  get_elem?-append_left [] ys i h = absurd (omega arith)
  get_elem?-append_left (x ∷ xs) ys zero h = refl
  get_elem?-append_left (x ∷ xs) ys (suc i) h = get_elem?-append_left xs ys i (omega arith)

  pub get_elem?-append_last :
      (xs : List A) (y : A) (i : ℕ) → i ≡ length xs → get_elem? (xs ++ y ∷ []) i ≡ some y
  get_elem?-append_last [] y zero h = refl
  get_elem?-append_last [] y (suc i) h = absurd (omega arith)
  get_elem?-append_last (x ∷ xs) y zero h = absurd (omega arith)
  get_elem?-append_last (x ∷ xs) y (suc i) h = get_elem?-append_last xs y i (omega arith)

  pub get_elem?-ge : (xs : List A) (i : ℕ) → length xs ≤ i → get_elem? xs i ≡ none
  get_elem?-ge [] i h = refl
  get_elem?-ge (x ∷ xs) zero h = absurd (omega arith)
  get_elem?-ge (x ∷ xs) (suc i) h = get_elem?-ge xs i (omega arith)

  pub get_elem?-rest : (xs : List A) (i : ℕ) → get_elem? (Fifo.rest xs) i ≡ get_elem? xs (i + 1)
  get_elem?-rest [] i = refl
  get_elem?-rest (x ∷ xs) i = ap (get_elem? (x ∷ xs)) {x = suc i} (omega arith)

  pub get_elem?-front : (xs : List A) → Fifo.front xs ≡ get_elem? xs 0
  get_elem?-front [] = refl
  get_elem?-front (x ∷ xs) = refl

  pub length-rest : (xs : List A) → length (Fifo.rest xs) ≡ length xs - 1
  length-rest [] = omega arith
  length-rest (x ∷ xs) = omega arith
