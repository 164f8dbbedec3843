-- ===== src/Collect/Finish.antt =====
-- The runs of CollectAll of internal/cluster/collect.go, and where they stop.
use galera_doctor.Prelude.{
  ℕ, zero, suc, ◌+◌, ◌≤◌, ◌≡◌, refl, sym, ap, ◌∙◌, ◌⊎◌, inl, inr, Option, some, List, [], ◌∷◌, ◌++◌,
  arith, Memᴰ, map, length, length-append, list-cases,
}
use galera_doctor.Collect.All.{
  Progress, put_slot, empty_slots, started, Step, stores, receives, Reach, here, next,
}
use galera_doctor.Collect.Order.{
  at_index, taken_out, put_back, in_the_middle, goroutines-at_index, at_index-goroutines,
  length-goroutines, length-put_slot, put_slot-same, put_slot-other,
}

at_index_bound {ℓ} :
    {A : Type ℓ} (nodes : List A) (i : ℕ) (n : A) → at_index nodes i ≡ some n → suc i ≤ length nodes
at_index_bound [] i n h = absurd (ground (arith, h))
at_index_bound (a ∷ nodes) zero n h = omega arith
at_index_bound (a ∷ nodes) (suc i) n h = omega (arith, at_index_bound nodes i n h)

length-empty_slots {ℓ κ} :
    {A : Type ℓ} (B : Type κ) (nodes : List A) → length (empty_slots B nodes) ≡ length nodes
unfolding empty_slots
length-empty_slots B [] = refl
length-empty_slots B (n ∷ nodes) = ap suc (length-empty_slots B nodes)

module _ {ℓ κ} {A : Type ℓ} {B : Type κ} (x : A → B) where
  slots-map :
      (nodes : List A) (slots : List (Option B))
      → length slots ≡ length nodes
      → ((i : ℕ) (n : A) → at_index nodes i ≡ some n → at_index slots i ≡ some (some (x n)))
      → slots ≡ map (λ n. some (x n)) nodes
  slots-map [] [] e h = refl
  slots-map [] (s ∷ slots) e h = absurd (omega (arith, e))
  slots-map (n ∷ nodes) [] e h = absurd (omega (arith, e))
  slots-map (n ∷ nodes) (s ∷ slots) e h =
      let q : s ≡ some (x n) = from_some (h 0 n refl) in
      rw (q, slots-map nodes slots (omega (arith, e)) (λ i m. h (suc i) m)) refl
    where
      from_some : {C : Type κ} {a b : C} → some a ≡ some b → a ≡ b
      from_some p = cc

  -- at every moment: a goroutine that has not stored its snapshot runs, with the node of its index, and
  -- every slot of the others has their node's snapshot; the receives to come are those who have not been
  -- received
  record Underway (nodes : List A) (p : Progress A B) : Type (ℓ ⊔ κ) where
    sized : length p.slots ≡ length nodes
    counted : length p.running + length p.channel ≡ p.waiting
    own : (i : ℕ) (n : A) → Memᴰ (i, n) p.running → at_index nodes i ≡ some n
    filled :
        (i : ℕ) (n : A)
        → at_index nodes i ≡ some n
        → Memᴰ (i, n) p.running ⊎ (at_index p.slots i ≡ some (some (x n)))

  started-Underway : (nodes : List A) → Underway nodes (started B nodes)
  unfolding started
  started-Underway nodes = record {
    sized = length-empty_slots B nodes;
    counted = omega (arith, length-goroutines 0 nodes);
    own = λ i n m.
        let (k, e, h) = goroutines-at_index 0 i n nodes m in
        let q : i ≡ k = omega (arith, e) in rw q h;
    filled = λ i n h.
        let z : 0 + i ≡ i = omega arith in inl (rw z at (at_index-goroutines 0 i n nodes h));
  }

  -- a goroutine stores its snapshot in its own slot
  stores-filled :
      (nodes : List A) (slots : List (Option B)) (before after : List (ℕ × A)) (i : ℕ) (n : A)
      (j : ℕ) (m : A)
      → length slots ≡ length nodes
      → at_index nodes i ≡ some n
      → at_index nodes j ≡ some m
      → Memᴰ (j, m) (before ++ (i, n) ∷ after) ⊎ (at_index slots j ≡ some (some (x m)))
      → Memᴰ (j, m) (before ++ after) ⊎ (at_index (put_slot i (x n) slots) j ≡ some (some (x m)))
  stores-filled nodes slots before after i n j m s hi hj f = elim (put_slot-other i j (x n) slots) [
    | inl e ↦
        let here' : at_index nodes i ≡ some m = rw e hj in
        let same : n ≡ m = cc (hi, here') in
        let t = put_slot-same i (x n) slots (omega (arith, s, at_index_bound nodes i n hi)) in
        inr (rw (sym e, sym same) t)
    | inr e ↦ elim f [
      | inr g ↦ inr (e ∙ g)
      | inl k ↦ elim (taken_out (j, m) (i, n) before after k) [
        | inr k' ↦ inl k'
        | inl q ↦
            let qj : j ≡ i = ap (λ p. p.0) q in
            let qm : m ≡ n = ap (λ p. p.1) q in
            let t = put_slot-same i (x n) slots (omega (arith, s, at_index_bound nodes i n hi)) in
            inr (rw (qj, qm) t)
      ]
    ]
  ]

  Step-Underway :
      (nodes : List A) (p q : Progress A B) → Step x p q → Underway nodes p → Underway nodes q
  Step-Underway nodes p q (stores before after i n r e) u =
      let hi = u.own i n (rw r (in_the_middle (i, n) before after)) in
      let a = length-append before ((i, n) ∷ after) in
      let b = length-append before after in
      let c = length-append p.channel (i ∷ []) in
      let l : length p.running ≡ length (before ++ (i, n) ∷ after) = ap length r in
      let w = u.counted in
      rw e (record {
        sized = length-put_slot i (x n) p.slots ∙ u.sized;
        counted = omega (arith, a, b, c, l, w);
        own = λ j m k. u.own j m (rw r (put_back (j, m) (i, n) before after k));
        filled = λ j m h.
            stores-filled nodes p.slots before after i n j m u.sized hi h
              (rw r at (u.filled j m h));
      })
  Step-Underway nodes p q (receives i rest left c w e) u =
      let l : length p.channel ≡ suc (length rest) = ap length c in
      let t = u.counted in
      rw e (record {
        sized = u.sized;
        counted = omega (arith, l, t, w);
        own = u.own;
        filled = u.filled;
      })

  Reach-Underway :
      (nodes : List A) (p : Progress A B) → Reach x (started B nodes) p → Underway nodes p
  Reach-Underway nodes p here = started-Underway nodes
  Reach-Underway nodes p (next {q} r s) = Step-Underway nodes q p s (Reach-Underway nodes q r)

  -- how many steps were made
  abbrev pub steps : {p q : Progress A B} → Reach x p q → ℕ
  steps here = 0
  steps (next r s) = suc (steps r)

  Step_measure :
      (p q : Progress A B)
      → Step x p q
      → suc (length q.running + q.waiting) ≡ length p.running + p.waiting
  Step_measure p q (stores before after i n r e) =
      let a = length-append before ((i, n) ∷ after) in
      let b = length-append before after in
      let l : length p.running ≡ length (before ++ (i, n) ∷ after) = ap length r in
      rw e (omega (arith, a, b, l))
  Step_measure p q (receives i rest left c w e) = rw e (omega (arith, w))

  Reach_measure :
      (nodes : List A) (p : Progress A B) (r : Reach x (started B nodes) p)
      → steps r + length p.running + p.waiting ≡ length nodes + length nodes
  unfolding started
  Reach_measure nodes p here = omega (arith, length-goroutines 0 nodes)
  Reach_measure nodes p (next {q} r s) = omega (arith, Reach_measure nodes q r, Step_measure q p s)

  enabled :
      (nodes : List A) (p : Progress A B) (left : ℕ)
      → Underway nodes p
      → p.waiting ≡ suc left
      → (q : Progress A B) × Step x p q
  enabled nodes p left u w = elim (list-cases p.channel) [
    | inr (i, rest, c) ↦ (_, receives i rest left c w refl)
    | inl c ↦ elim (list-cases p.running) [
      | inr ((i, n), rest, r) ↦ (_, stores [] rest i n r refl)
      | inl r ↦
          let l : length p.channel ≡ 0 = ap length c in
          let k : length p.running ≡ 0 = ap length r in
          let t = u.counted in absurd (omega (arith, l, k, t, w))
    ]
  ]

  finished :
      (nodes : List A) (p : Progress A B)
      → Underway nodes p
      → p.waiting ≡ 0
      → p.slots ≡ map (λ n. some (x n)) nodes
  finished nodes p u w = slots-map nodes p.slots u.sized (λ i n h. stored i n (u.filled i n h))
    where
      stored :
          (i : ℕ) (n : A)
          → Memᴰ (i, n) p.running ⊎ (at_index p.slots i ≡ some (some (x n)))
          → at_index p.slots i ≡ some (some (x n))
      stored i n (inr h) = h
      stored i n (inl m) = elim (list-cases p.running) [
        | inl r ↦ elim (rw r at m) [ ]
        | inr (y, ys, r) ↦
            let k : length p.running ≡ suc (length ys) = ap length r in
            let t = u.counted in absurd (omega (arith, k, t, w))
      ]

  -- CollectAll, whatever its goroutines did so far: either the caller made all its receives, and the slots
  -- have every node's own snapshot in the order of the nodes, or another step can be made; and no run has
  -- more than two steps for each node.
  pub collect_all_ends :
      (nodes : List A) (p : Progress A B) (r : Reach x (started B nodes) p)
      → (((p.waiting ≡ 0) × (p.slots ≡ map (λ n. some (x n)) nodes))
          ⊎ ((q : Progress A B) × Step x p q))
        × (steps r ≤ length nodes + length nodes)
  collect_all_ends nodes p r =
      let u = Reach-Underway nodes p r in
      (go p.waiting refl u, omega (arith, Reach_measure nodes p r))
    where
      go :
          (w : ℕ)
          → p.waiting ≡ w
          → Underway nodes p
          → ((p.waiting ≡ 0) × (p.slots ≡ map (λ n. some (x n)) nodes))
            ⊎ ((q : Progress A B) × Step x p q)
      go zero e u = inl (e, finished nodes p u e)
      go (suc left) e u = inr (enabled nodes p left u e)
