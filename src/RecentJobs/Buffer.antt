-- ===== src/RecentJobs/Buffer.antt =====
-- src/translator/downstream/downstream.rs, `CircularBuffer`, and the bounded queue that it is.
use native.Mathlib.Nat.{mod-eq_of_lt, mod-eq-sub-mod}
use demand_cli.Prelude.{
  ℕ, zero, suc, ◌+◌, ◌-◌, ◌%◌, ◌≤◌, ◌<◌, ◌≡◌, ◌≢◌, ◌⊎◌, inl, inr, refl, sym, ap, ◌∙◌, Option, none,
  some, List, [], ◌∷◌, ◌++◌, length, get_elem?, get_or, pop_front, ltb, if◌then◌else◌, arith,
  Bool-cases, length-append,
}

pub record CircularBuffer (T : Type 0) : Type 0 where
  pub buffer : List (Option T)
  pub len : ℕ
  pub start : ℕ

module _ {T : Type 0} where
  abbrev pub nones : ℕ → List (Option T)
  nones zero = []
  nones (suc n) = none ∷ nones n

  -- `CircularBuffer::new` at the size `N`.
  unfoldable pub empty : ℕ → CircularBuffer T
  empty n = record { buffer = nones n; len = 0; start = 0 }

  -- `buffer[i] = Some(value)`.
  abbrev pub set : List (Option T) → ℕ → Option T → List (Option T)
  set [] i v = []
  set (x ∷ xs) zero v = v ∷ xs
  set (x ∷ xs) (suc i) v = x ∷ set xs i v

  -- `N` is the length of the array.
  unfoldable pub push_back : CircularBuffer T → T → CircularBuffer T × Option T
  push_back b value =
      let n = length b.buffer in
      if ltb b.len n
      then (
        record b { buffer = set b.buffer ((b.start + b.len) % n) (some value); len = b.len + 1 },
        none,
      )
      else (
        record b { buffer = set b.buffer b.start (some value); start = (b.start + 1) % n },
        get_or b.buffer b.start none,
      )

  -- The first entry of a queue.
  abbrev pub front : List T → Option T
  front [] = none
  front (x ∷ xs) = some x

  -- What the buffer promises: a queue of at most `limit` entries that gives up its oldest.
  unfoldable pub push_bounded : ℕ → List T → T → List T × Option T
  push_bounded limit queue value =
      if ltb (length queue) limit
      then (queue ++ value ∷ [], none)
      else (pop_front queue ++ value ∷ [], front queue)

  -- The buffer holds the queue, from its start on and round its end.
  pub record Holds (b : CircularBuffer T) (queue : List T) : Type 0 where
    pub start_in : b.start < length b.buffer
    pub len_is : b.len ≡ length queue
    pub len_in : b.len ≤ length b.buffer
    pub entries :
        (i : ℕ)
        → i < b.len
        → get_or b.buffer ((b.start + i) % length b.buffer) none ≡ get_elem? queue i

  pub length-set : (xs : List (Option T)) (i : ℕ) (v : Option T) → length (set xs i v) ≡ length xs
  length-set [] i v = refl
  length-set (x ∷ xs) zero v = refl
  length-set (x ∷ xs) (suc i) v = ap suc (length-set xs i v)

  get_or-set_same :
      (xs : List (Option T)) (i : ℕ) (v : Option T) → i < length xs → get_or (set xs i v) i none ≡ v
  get_or-set_same [] i v h = absurd (omega (arith, h))
  get_or-set_same (x ∷ xs) zero v h = refl
  get_or-set_same (x ∷ xs) (suc i) v h = get_or-set_same xs i v (omega (arith, h))

  get_or-set_other :
      (xs : List (Option T)) (i j : ℕ) (v : Option T)
      → i ≢ j
      → get_or (set xs i v) j none ≡ get_or xs j none
  get_or-set_other [] i j v h = refl
  get_or-set_other (x ∷ xs) zero zero v h = absurd (h refl)
  get_or-set_other (x ∷ xs) zero (suc j) v h = refl
  get_or-set_other (x ∷ xs) (suc i) zero v h = refl
  get_or-set_other (x ∷ xs) (suc i) (suc j) v h = get_or-set_other xs i j v (λ e. h (ap suc e))

-- Once round at most.
wrap_cases : (n i : ℕ) → i < n + n → ((i < n) × (i % n ≡ i)) ⊎ ((n ≤ i) × (i % n ≡ i - n))
wrap_cases n i h = elim (Bool-cases (ltb i n)) [
  | inl e ↦ let l : (i < n) = ground (arith, e) in inl (l, mod-eq_of_lt l)
  | inr e ↦
      let l : (n ≤ i) = ground (arith, e) in
      inr (l, mod-eq-sub-mod l ∙ mod-eq_of_lt (omega (arith, l, h)))
]

module _ {T : Type 0} where
  get_elem?-append_left :
      (xs : List T) (x : T) (i : ℕ) → i < length xs → get_elem? (xs ++ x ∷ []) i ≡ get_elem? xs i
  get_elem?-append_left [] x i h = absurd (omega (arith, h))
  get_elem?-append_left (y ∷ ys) x zero h = refl
  get_elem?-append_left (y ∷ ys) x (suc i) h = get_elem?-append_left ys x i (omega (arith, h))

  get_elem?-append_end : (xs : List T) (x : T) → get_elem? (xs ++ x ∷ []) (length xs) ≡ some x
  get_elem?-append_end [] x = refl
  get_elem?-append_end (y ∷ ys) x = get_elem?-append_end ys x

  get_elem?-pop_front : (xs : List T) (i : ℕ) → get_elem? (pop_front xs) i ≡ get_elem? xs (suc i)
  get_elem?-pop_front [] i = refl
  get_elem?-pop_front (x ∷ xs) i = refl

  front-get_elem? : (xs : List T) → front xs ≡ get_elem? xs 0
  front-get_elem? [] = refl
  front-get_elem? (x ∷ xs) = refl

  pub length-pop_front : (xs : List T) → length (pop_front xs) ≡ length xs - 1
  length-pop_front [] = omega arith
  length-pop_front (x ∷ xs) = omega arith

-- Two places of the ring.
wrap_apart : (n start i j : ℕ) → start < n → i < j → j < n → (start + i) % n ≢ (start + j) % n
wrap_apart n start i j s l h e =
    ground (arith, wrap_cases n (start + i) (omega arith), wrap_cases n (start + j) (omega arith))

wrap_round : (n start : ℕ) → start < n → ((start + n) % n ≡ start) × (start % n ≡ start)
wrap_round n start s =
    ground (arith, wrap_cases n (start + n) (omega arith), wrap_cases n start (omega arith))

wrap_next : (n start i : ℕ) → start < n → i < n → ((start + 1) % n + i) % n ≡ (start + suc i) % n
wrap_next n start i s h = elim (wrap_cases n (start + 1) (omega (arith, s, h))) [
  | inl (l, e) ↦ rw e (ap (λ k. k % n) (omega arith))
  | inr (l, e) ↦ ground (
    arith,
    e,
    wrap_cases n i (omega (arith, h)),
    wrap_cases n (start + suc i) (omega (arith, s, h)),
  )
]

wrap_in : (n i : ℕ) → 0 < n → i % n < n
wrap_in n i h = omega arith

module _ {T : Type 0} (b : CircularBuffer T) (queue : List T) (value : T) (h : Holds b queue) where
  -- The place that a push writes to, and what stands there and elsewhere afterwards.
  abbrev room_end : ℕ
  room_end = (b.start + b.len) % length b.buffer

  push_back-room :
      b.len < length b.buffer
      → Holds
          (record b { buffer = set b.buffer room_end (some value); len = b.len + 1 })
          (queue ++ value ∷ [])
  push_back-room room =
      let l = length-set b.buffer room_end (some value) in
      record {
        start_in = rw l h.start_in;
        len_is = omega (arith, h.len_is, length-append queue (value ∷ []));
        len_in = rw l (omega (arith, room));
        entries = λ i below. rw l (elim (Bool-cases (ltb i b.len)) [
          | inl e ↦
              let l' : (i < b.len) = ground (arith, e) in
              get_or-set_other b.buffer room_end ((b.start + i) % length b.buffer) (some value)
                (λ same. wrap_apart (length b.buffer) b.start i b.len h.start_in l' room (sym same))
              ∙ h.entries i l'
              ∙ sym (get_elem?-append_left queue value i (rw (sym h.len_is) l'))
          | inr e ↦
              let i_is : (i ≡ b.len) = ground (arith, e, below) in
              rw i_is (
                get_or-set_same b.buffer room_end (some value)
                  (wrap_in (length b.buffer) (b.start + b.len) (omega (arith, room)))
                ∙ rw h.len_is (sym (get_elem?-append_end queue value)))
        ]);
      }

  push_back-full :
      b.len ≡ length b.buffer
      → Holds
          (record b {
            buffer = set b.buffer b.start (some value);
            start = (b.start + 1) % length b.buffer;
          })
          (pop_front queue ++ value ∷ [])
  push_back-full full =
      let l = length-set b.buffer b.start (some value) in
      record {
        start_in = rw l (wrap_in (length b.buffer) (b.start + 1) (omega (arith, h.start_in)));
        len_is = omega (
          arith,
          h.start_in,
          full,
          h.len_is,
          length-append (pop_front queue) (value ∷ []),
          length-pop_front queue,
        );
        len_in = rw l h.len_in;
        entries = λ i below. rw l (
            rw (wrap_next (length b.buffer) b.start i h.start_in (omega (arith, below, h.len_in)))
              (elim (Bool-cases (ltb (suc i) b.len)) [
                | inl e ↦
                    let l' : (suc i < b.len) = ground (arith, e) in
                    get_or-set_other b.buffer b.start ((b.start + suc i) % length b.buffer)
                      (some value)
                      (λ same. ground (
                        arith,
                        l',
                        wrap_apart (length b.buffer) b.start 0 (suc i) h.start_in (omega arith)
                            (omega (arith, l', full)),
                        (wrap_round (length b.buffer) b.start h.start_in).1,
                      ))
                    ∙ h.entries (suc i) l'
                    ∙ sym (
                        get_elem?-append_left (pop_front queue) value i
                          (omega (arith, l', h.len_is, length-pop_front queue))
                        ∙ get_elem?-pop_front queue i)
                | inr e ↦
                    let i_is : (suc i ≡ b.len) = ground (arith, e, below) in
                    let i_end : (i ≡ length (pop_front queue)) =
                      omega (arith, i_is, h.len_is, length-pop_front queue) in
                    ap (λ k. get_or (set b.buffer b.start (some value)) k none)
                      (rw (i_is ∙ full) (wrap_round (length b.buffer) b.start h.start_in).0)
                    ∙ get_or-set_same b.buffer b.start (some value) h.start_in
                    ∙ rw i_end (sym (get_elem?-append_end (pop_front queue) value))
              ]));
      }

module _ {T : Type 0} where
  -- A push to the ring of an array with room for some entry leaves a ring that holds the bounded
  -- queue after the push, and gives up what the queue gives up.
  pub push_back-Holds :
      (b : CircularBuffer T) (queue : List T) (value : T)
      → Holds b queue
      → Holds (push_back b value).0 (push_bounded (length b.buffer) queue value).0
        × ((push_back b value).1 ≡ (push_bounded (length b.buffer) queue value).1)
  unfolding push_back push_bounded
  push_back-Holds b queue value h =
      rw (sym h.len_is) (elim (Bool-cases (ltb b.len (length b.buffer))) [
        | inl e ↦ rw e (push_back-room b queue value h (ground (arith, e)), refl)
        | inr e ↦ rw e (
          push_back-full b queue value h (ground (arith, e, h.len_in)),
          ap (λ k. get_or b.buffer k none)
                (sym (
                  (ap (λ k. k % length b.buffer) (omega arith))
                  ∙ (wrap_round (length b.buffer) b.start h.start_in).1))
              ∙ h.entries 0 (ground (arith, e, h.start_in))
              ∙ sym (front-get_elem? queue),
        )
      ])
