-- ===== src/Queue/Refine.antt =====
-- The ring of util/queue.rs against `Fifo`.
use native.Mathlib.Decide.{ℕ_discrete}
use sleep_environment_monito.Prelude.{
  ℕ, ◌+◌, ◌-◌, ◌%◌, ◌≤◌, ◌<◌, ◌≡◌, ◌≢◌, refl, ap, ap₂, sym, ◌∙◌, ◌⊎◌, inl, inr, List, [], ◌∷◌, ◌++◌,
  Option, none, some, arith, ◌==◌, leb, Bool-cases, ==_ne, ==_eq, eq_test, ne_test, leb→le, leb→lt,
  length, get_elem?, get_or, set, replicate, length-append, length-set, length-replicate,
}
use sleep_environment_monito.Queue.{DropOldestQueue, new, push, pop, front, get}
use sleep_environment_monito.Queue.Fifo
use sleep_environment_monito.Queue.Cells.{
  wrap, get_or-set_self, get_or-set_ne, get_elem?-append_left, get_elem?-append_last, get_elem?-ge,
  get_elem?-rest, get_elem?-front, length-rest,
}

-- The ring `q` of capacity `n` stores the items `xs`, oldest first.
pub record Stores {ℓ} {T : Type ℓ} (n : ℕ) (q : DropOldestQueue T) (xs : List T) : Type ℓ where
  pub size : length q.buf ≡ n
  pub head_in : (n ≡ 0) ⊎ (q.head < n)
  pub len_eq : q.len ≡ length xs
  pub len_in : q.len ≤ n
  pub cells : (i : ℕ) → i < q.len → get_or q.buf ((q.head + i) % n) none ≡ get_elem? xs i

-- Different places of the ring are different cells.
place_ne : (h i j n : ℕ) → h < n → i < n → j < n → i ≢ j → (h + i) % n ≢ (h + j) % n
place_ne h i j n hh hi hj d e =
    omega (arith, wrap h i n hh (omega arith), wrap h j n hh (omega arith))

-- The place `i` after a step of the head is the place `i + 1` before it.
place_next : (h i n : ℕ) → h < n → i < n → ((h + 1) % n + i) % n ≡ (h + (i + 1)) % n
place_next h i n hh hi = omega (
  arith,
  wrap h 1 n hh (omega arith),
  wrap ((h + 1) % n) i n (omega arith) (omega arith),
  wrap h (i + 1) n hh (omega arith),
)

place_zero : (h n : ℕ) → h < n → (h + 0) % n ≡ h
place_zero h n hh = omega (arith, wrap h 0 n hh (omega arith))

place-lt : (h i n : ℕ) → h < n → (h + i) % n < n
place-lt h i n hh = omega arith

module _ {ℓ} {T : Type ℓ} where
  get_or-replicate : (n i : ℕ) → get_or (replicate {A = Option T} n none) i none ≡ none
  get_or-replicate ℕ.zero i = refl
  get_or-replicate (ℕ.suc n) ℕ.zero = refl
  get_or-replicate (ℕ.suc n) (ℕ.suc i) = get_or-replicate n i

  pub Stores-new : (n : ℕ) → Stores n (new T n) []
  unfolding new
  Stores-new n = record {
    size = length-replicate n none;
    head_in = omega arith;
    len_eq = refl;
    len_in = omega arith;
    cells = λ i h. absurd (omega arith);
  }

  head_cell :
      (n : ℕ) (q : DropOldestQueue T) (xs : List T)
      → Stores n q xs
      → q.head < n
      → q.len ≢ 0
      → get_or q.buf q.head none ≡ Fifo.front xs
  head_cell n q xs v hh hl =
      ap (λ k. get_or q.buf k none) (sym (place_zero q.head n hh))
      ∙ v.cells 0 (omega arith)
      ∙ sym (get_elem?-front xs)

  nothing_stored : (xs : List T) → length xs ≡ 0 → xs ≡ []
  nothing_stored [] e = refl
  nothing_stored (x ∷ xs) e = absurd (omega arith)

  Stores-room :
      (n : ℕ) (q : DropOldestQueue T) (xs : List T) (x : T)
      → Stores n q xs
      → n ≢ 0
      → q.len ≢ n
      → Stores n
          (record q { buf = set q.buf ((q.head + q.len) % n) (some x); len = q.len + 1 })
          (xs ++ x ∷ [])
  Stores-room n q xs x v hn hl = record {
    size = length-set q.buf ((q.head + q.len) % n) (some x) ∙ v.size;
    head_in = v.head_in;
    len_eq = omega (arith, v.len_eq, length-append xs (x ∷ []));
    len_in = omega (arith, v.len_in);
    cells = λ i h. elim (ℕ_discrete i q.len) [
      | yes e ↦ rw e (
          get_or-set_self q.buf ((q.head + q.len) % n) (some x) none at_place
          ∙ sym (get_elem?-append_last xs x q.len v.len_eq))
      | no ne ↦
          get_or-set_ne q.buf ((q.head + q.len) % n) ((q.head + i) % n) (some x) none (
            place_ne q.head q.len i n hh (omega (arith, v.len_in)) (omega (arith, v.len_in))
              (λ e. ne (sym e)))
          ∙ v.cells i (omega arith)
          ∙ sym (get_elem?-append_left xs (x ∷ []) i (omega (arith, v.len_eq)))
    ];
  }
    where
      hh : q.head < n
      hh = omega (arith, v.head_in)

      at_place : (q.head + q.len) % n < length q.buf
      at_place = omega (arith, v.size)

  Stores-full :
      (n : ℕ) (q : DropOldestQueue T) (xs : List T) (x : T)
      → Stores n q xs
      → n ≢ 0
      → q.len ≡ n
      → Stores n
          (record q { buf = set q.buf q.head (some x); head = (q.head + 1) % n })
          (Fifo.rest xs ++ x ∷ [])
  Stores-full n q xs x v hn hl = record {
    size = length-set q.buf q.head (some x) ∙ v.size;
    head_in = inr (omega (arith, v.head_in));
    len_eq = omega (arith, v.len_eq, length-rest xs, length-append (Fifo.rest xs) (x ∷ []));
    len_in = v.len_in;
    cells = λ i h. elim (ℕ_discrete (i + 1) q.len) [
      | yes e ↦
          ap (λ k. get_or (set q.buf q.head (some x)) k none)
            (omega (
              arith,
              place_next q.head i n hh (omega arith),
              wrap q.head (i + 1) n hh (omega arith),
            ))
          ∙ get_or-set_self q.buf q.head (some x) none (omega (arith, v.size))
          ∙ sym (get_elem?-append_last (Fifo.rest xs) x i (omega (arith, v.len_eq, length-rest xs)))
      | no ne ↦
          ap (λ k. get_or (set q.buf q.head (some x)) k none)
            (place_next q.head i n hh (omega arith))
          ∙ get_or-set_ne q.buf q.head ((q.head + (i + 1)) % n) (some x) none (λ e.
            place_ne q.head 0 (i + 1) n hh (omega arith) (omega arith) (omega arith)
              (place_zero q.head n hh ∙ e))
          ∙ v.cells (i + 1) (omega arith)
          ∙ sym (get_elem?-rest xs i)
          ∙ sym (
              get_elem?-append_left (Fifo.rest xs) (x ∷ []) i
                (omega (arith, v.len_eq, length-rest xs)))
    ];
  }
    where
      hh : q.head < n
      hh = omega (arith, v.head_in)

  Stores-popped :
      (n : ℕ) (q : DropOldestQueue T) (xs : List T)
      → Stores n q xs
      → n ≢ 0
      → q.len ≢ 0
      → Stores n
          (record { buf = set q.buf q.head none; head = (q.head + 1) % n; len = q.len - 1 })
          (Fifo.rest xs)
  Stores-popped n q xs v hn hl = record {
    size = length-set q.buf q.head none ∙ v.size;
    head_in = inr (omega (arith, v.head_in));
    len_eq = omega (arith, v.len_eq, length-rest xs);
    len_in = omega (arith, v.len_in);
    cells = λ i h.
        ap (λ k. get_or (set q.buf q.head none) k none)
          (place_next q.head i n hh (omega (arith, v.len_in)))
        ∙ get_or-set_ne q.buf q.head ((q.head + (i + 1)) % n) none none (λ e.
          place_ne q.head 0 (i + 1) n hh (omega arith) (omega (arith, v.len_in)) (omega arith)
            (place_zero q.head n hh ∙ e))
        ∙ v.cells (i + 1) (omega arith)
        ∙ sym (get_elem?-rest xs i);
  }
    where
      hh : q.head < n
      hh = omega (arith, v.head_in)

  -- `push` gives back what the list gives back, and stores what the list then holds. At capacity
  -- 0 that is the item itself; at a full ring, the oldest item; otherwise nothing.
  pub push_refines :
      (n : ℕ) (q : DropOldestQueue T) (xs : List T) (x : T)
      → Stores n q xs
      → ((push n q x).0 ≡ (Fifo.push n xs x).0) × Stores n (push n q x).1 (Fifo.push n xs x).1
  unfolding push
  push_refines n q xs x v = elim (Bool-cases (n == 0)) [
    | inl z ↦ rw z (refl, v)
    | inr nz ↦
        let hn = ==_ne n 0 nz in
        elim (Bool-cases (q.len == n)) [
          | inl full ↦
              let hl = ==_eq q.len n full in
              rw (nz, full, eq_test (length xs) n (sym v.len_eq ∙ hl))
                (
                  head_cell n q xs v (omega (arith, v.head_in)) (omega arith),
                  Stores-full n q xs x v hn hl,
                )
          | inr room ↦
              let hl = ==_ne q.len n room in
              rw (nz, room, ne_test (length xs) n (omega (arith, v.len_eq)))
                (refl, Stores-room n q xs x v hn hl)
        ]
  ]

  -- `pop` takes the oldest item off, and nothing off an empty ring.
  pub pop_refines :
      (n : ℕ) (q : DropOldestQueue T) (xs : List T)
      → Stores n q xs
      → ((pop n q).0 ≡ (Fifo.pop xs).0) × Stores n (pop n q).1 (Fifo.pop xs).1
  unfolding pop
  pop_refines n q xs v = elim (Bool-cases (q.len == 0)) [
    | inl e ↦
        let none_left = nothing_stored xs (omega (arith, v.len_eq, ==_eq q.len 0 e)) in
        rw (e, none_left) (refl, rw none_left at v)
    | inr ne ↦
        let hl = ==_ne q.len 0 ne in
        let hn : n ≢ 0 = omega (arith, v.len_in) in
        rw (ne, ne_test n 0 hn)
          (head_cell n q xs v (omega (arith, v.head_in)) hl, Stores-popped n q xs v hn hl)
  ]

  -- `front` reads the oldest item of the list.
  pub front_refines :
      (n : ℕ) (q : DropOldestQueue T) (xs : List T) → Stores n q xs → front n q ≡ Fifo.front xs
  unfolding front
  front_refines n q xs v = elim (Bool-cases (q.len == 0)) [
    | inl e ↦ rw (e, nothing_stored xs (omega (arith, v.len_eq, ==_eq q.len 0 e))) refl
    | inr ne ↦
        let hl = ==_ne q.len 0 ne in
        let hn : n ≢ 0 = omega (arith, v.len_in) in
        rw (ne, ne_test n 0 hn) (head_cell n q xs v (omega (arith, v.head_in)) hl)
  ]

  -- `get` reads the item of the list at a place counted from the oldest, and nothing behind the
  -- last.
  pub get_refines :
      (n : ℕ) (q : DropOldestQueue T) (xs : List T) (i : ℕ)
      → Stores n q xs
      → get n q i ≡ get_elem? xs i
  unfolding get
  get_refines n q xs i v = elim (Bool-cases (leb q.len i)) [
    | inl out ↦ rw out (sym (get_elem?-ge xs i (omega (arith, v.len_eq, leb→le q.len i out))))
    | inr inside ↦
        let hi = leb→lt q.len i inside in
        rw (inside, ne_test n 0 (omega (arith, v.len_in))) (v.cells i hi)
  ]

-- What a client asks of a queue, and a run of such calls with what each gives back.
pub data Op {ℓ} (T : Type ℓ) : Type ℓ where
  put : T → Op T
  take_oldest : Op T

module _ {ℓ} {T : Type ℓ} where
  unfoldable pub run : ℕ → DropOldestQueue T → List (Op T) → List (Option T)
  run n q [] = []
  run n q (put x ∷ ops) = let (out, q') = push n q x in out ∷ run n q' ops
  run n q (take_oldest ∷ ops) = let (out, q') = pop n q in out ∷ run n q' ops

  unfoldable pub run_fifo : ℕ → List T → List (Op T) → List (Option T)
  run_fifo n xs [] = []
  run_fifo n xs (put x ∷ ops) = let (out, xs') = Fifo.push n xs x in out ∷ run_fifo n xs' ops
  run_fifo n xs (take_oldest ∷ ops) = let (out, xs') = Fifo.pop xs in out ∷ run_fifo n xs' ops

  run-Stores :
      (n : ℕ) (q : DropOldestQueue T) (xs : List T) (ops : List (Op T))
      → Stores n q xs
      → run n q ops ≡ run_fifo n xs ops
  unfolding run run_fifo
  run-Stores n q xs [] v = refl
  run-Stores n q xs (put x ∷ ops) v =
      let (out, v') = push_refines n q xs x v in
      ap₂ (λ a b. a ∷ b) out (run-Stores n (push n q x).1 (Fifo.push n xs x).1 ops v')
  run-Stores n q xs (take_oldest ∷ ops) v =
      let (out, v') = pop_refines n q xs v in
      ap₂ (λ a b. a ∷ b) out (run-Stores n (pop n q).1 (Fifo.pop xs).1 ops v')

  -- From a new ring, every sequence of calls of `push` and `pop` gives back what a list of at most
  -- `n` items gives back that drops its oldest to take another.
  pub run_refines : (n : ℕ) (ops : List (Op T)) → run n (new T n) ops ≡ run_fifo n [] ops
  run_refines n ops = run-Stores n (new T n) [] ops (Stores-new n)
