-- ===== src/Collect/Order.antt =====
-- The indices, the slots and the goroutines of CollectAll of internal/cluster/collect.go.
use galera_doctor.Prelude.{
  ℕ, zero, suc, ◌+◌, ◌<◌, ◌≡◌, refl, sym, ap, ◌∙◌, ◌⊎◌, inl, inr, Option, none, some, List, [], ◌∷◌,
  ◌++◌, arith, Memᴰ, length,
}
use galera_doctor.Collect.All.{put_slot, goroutines}

module _ {ℓ} {A : Type ℓ} where
  -- the element at an index
  abbrev pub at_index : List A → ℕ → Option A
  at_index [] i = none
  at_index (a ∷ as_) zero = some a
  at_index (a ∷ as_) (suc i) = at_index as_ i

  pub taken_out :
      (y x : A) (before after : List A)
      → Memᴰ y (before ++ x ∷ after)
      → (y ≡ x) ⊎ Memᴰ y (before ++ after)
  taken_out y x [] after (Memᴰ.head q) = inl q
  taken_out y x [] after (Memᴰ.tail m) = inr m
  taken_out y x (z ∷ before) after (Memᴰ.head q) = inr (Memᴰ.head q)
  taken_out y x (z ∷ before) after (Memᴰ.tail m) = elim (taken_out y x before after m) [
    | inl e ↦ inl e
    | inr n ↦ inr (Memᴰ.tail n)
  ]

  pub put_back :
      (y x : A) (before after : List A) → Memᴰ y (before ++ after) → Memᴰ y (before ++ x ∷ after)
  put_back y x [] after m = Memᴰ.tail m
  put_back y x (z ∷ before) after (Memᴰ.head q) = Memᴰ.head q
  put_back y x (z ∷ before) after (Memᴰ.tail m) = Memᴰ.tail (put_back y x before after m)

  pub in_the_middle : (x : A) (before after : List A) → Memᴰ x (before ++ x ∷ after)
  in_the_middle x [] after = Memᴰ.head refl
  in_the_middle x (z ∷ before) after = Memᴰ.tail (in_the_middle x before after)

  -- a goroutine of the loop has the node of its index
  pub goroutines-at_index :
      (start i : ℕ) (n : A) (nodes : List A)
      → Memᴰ (i, n) (goroutines start nodes)
      → (k : ℕ) × (i ≡ start + k) × (at_index nodes k ≡ some n)
  unfolding goroutines
  goroutines-at_index start i n [] m = elim m [ ]
  goroutines-at_index start i n (a ∷ nodes) (Memᴰ.head q) =
      (0, ap (λ p. p.0) q ∙ omega arith, ap (λ p. some (p.1)) (sym q))
  goroutines-at_index start i n (a ∷ nodes) (Memᴰ.tail m) =
      let (k, e, h) = goroutines-at_index (suc start) i n nodes m in (suc k, omega (arith, e), h)

  pub at_index-goroutines :
      (start k : ℕ) (n : A) (nodes : List A)
      → at_index nodes k ≡ some n
      → Memᴰ (start + k, n) (goroutines start nodes)
  unfolding goroutines
  at_index-goroutines start k n [] h = absurd (ground (arith, h))
  at_index-goroutines start zero n (a ∷ nodes) h =
      let e : start + 0 ≡ start = omega arith in
      let q : a ≡ n = ground (arith, h) in Memᴰ.head (rw (e, q) refl)
  at_index-goroutines start (suc k) n (a ∷ nodes) h =
      let m = at_index-goroutines (suc start) k n nodes h in
      let e : start + suc k ≡ suc start + k = omega arith in Memᴰ.tail (rw e m)

  pub length-goroutines :
      (start : ℕ) (nodes : List A) → length (goroutines start nodes) ≡ length nodes
  unfolding goroutines
  length-goroutines start [] = refl
  length-goroutines start (n ∷ nodes) = ap suc (length-goroutines (suc start) nodes)

module _ {κ} {B : Type κ} where
  pub length-put_slot :
      (i : ℕ) (b : B) (slots : List (Option B)) → length (put_slot i b slots) ≡ length slots
  unfolding put_slot
  length-put_slot i b [] = refl
  length-put_slot zero b (s ∷ slots) = refl
  length-put_slot (suc i) b (s ∷ slots) = ap suc (length-put_slot i b slots)

  pub put_slot-same :
      (i : ℕ) (b : B) (slots : List (Option B))
      → i < length slots
      → at_index (put_slot i b slots) i ≡ some (some b)
  unfolding put_slot
  put_slot-same i b [] h = absurd (omega (arith, h))
  put_slot-same zero b (s ∷ slots) h = refl
  put_slot-same (suc i) b (s ∷ slots) h = put_slot-same i b slots (omega (arith, h))

  -- another index, or the same one
  pub put_slot-other :
      (i j : ℕ) (b : B) (slots : List (Option B))
      → (i ≡ j) ⊎ (at_index (put_slot i b slots) j ≡ at_index slots j)
  unfolding put_slot
  put_slot-other i j b [] = inr refl
  put_slot-other zero zero b (s ∷ slots) = inl refl
  put_slot-other zero (suc j) b (s ∷ slots) = inr refl
  put_slot-other (suc i) zero b (s ∷ slots) = inr refl
  put_slot-other (suc i) (suc j) b (s ∷ slots) = elim (put_slot-other i j b slots) [
    | inl e ↦ inl (ap suc e)
    | inr e ↦ inr e
  ]
