-- ===== src/Go/Sort/Laws.antt =====
-- A sort by a weak order is sorted, keeps the elements, and keeps the order of equal ones.
use mathlib.Core.List.{Perm}
use mathlib.Core.List.Perm
use galera_doctor.Prelude.{
  length, suc, Memᴰ, inl, inr, ◌≡◌, refl, ap, ◌∙◌, Bool, true, false, List, [], ◌∷◌, arith, filter,
  All, Bool-cases, inl, inr,
}
use galera_doctor.Go.Order.{IsWeakOrder}
use galera_doctor.Go.Sort.{insert_by, sort_by}

module _ {ℓ} {A : Type ℓ} where
  -- every element is followed by none that comes before it
  abbrev pub IsSorted : (A → A → Bool) → List A → Type 0
  IsSorted less [] = Unit
  IsSorted less (x ∷ xs) = All (λ y. less y x ≡ false) xs × IsSorted less xs

module _ {ℓ} {A : Type ℓ} (less : A → A → Bool) where
  insert_by-perm : (x : A) (xs : List A) → Perm (insert_by less x xs) (x ∷ xs)
  unfolding insert_by
  insert_by-perm x [] = Perm.refl _
  insert_by-perm x (y ∷ ys) = elim (Bool-cases (less y x)) [
    | inl e ↦ rw e (Perm.trans (Perm.cons y (insert_by-perm x ys)) (Perm.swap x y ys))
    | inr e ↦ rw e (Perm.refl _)
  ]

  insert_by-head : (y x : A) (xs : List A) → y ≡ x → Memᴰ y (insert_by less x xs)
  unfolding insert_by
  insert_by-head y x [] p = Memᴰ.head p
  insert_by-head y x (z ∷ zs) p = elim (Bool-cases (less z x)) [
    | inr e ↦ rw e (Memᴰ.head p)
    | inl e ↦ rw e (Memᴰ.tail (insert_by-head y x zs p))
  ]

  insert_by-tail : (y x : A) (xs : List A) → Memᴰ y xs → Memᴰ y (insert_by less x xs)
  unfolding insert_by
  insert_by-tail y x [] m = Memᴰ.tail m
  insert_by-tail y x (z ∷ zs) (Memᴰ.head p) = elim (Bool-cases (less z x)) [
    | inr e ↦ rw e (Memᴰ.tail (Memᴰ.head p))
    | inl e ↦ rw e (Memᴰ.head p)
  ]
  insert_by-tail y x (z ∷ zs) (Memᴰ.tail m) = elim (Bool-cases (less z x)) [
    | inr e ↦ rw e (Memᴰ.tail (Memᴰ.tail m))
    | inl e ↦ rw e (Memᴰ.tail (insert_by-tail y x zs m))
  ]

  -- nothing is lost
  pub sort_by-Mem : (y : A) (xs : List A) → Memᴰ y xs → Memᴰ y (sort_by less xs)
  unfolding sort_by
  sort_by-Mem y [] m = m
  sort_by-Mem y (x ∷ xs) (Memᴰ.head p) = insert_by-head y x (sort_by less xs) p
  sort_by-Mem y (x ∷ xs) (Memᴰ.tail m) = insert_by-tail y x (sort_by less xs) (sort_by-Mem y xs m)

  length-insert_by : (x : A) (xs : List A) → length (insert_by less x xs) ≡ suc (length xs)
  unfolding insert_by
  length-insert_by x [] = refl
  length-insert_by x (y ∷ ys) = ground (arith, length-insert_by x ys)

  pub length-sort_by : (xs : List A) → length (sort_by less xs) ≡ length xs
  unfolding sort_by
  length-sort_by [] = refl
  length-sort_by (x ∷ xs) = omega (arith, length-insert_by x (sort_by less xs), length-sort_by xs)

  pub sort_by-perm : (xs : List A) → Perm (sort_by less xs) xs
  unfolding sort_by
  sort_by-perm [] = Perm.refl _
  sort_by-perm (x ∷ xs) =
      Perm.trans (insert_by-perm x (sort_by less xs)) (Perm.cons x (sort_by-perm xs))

  All-insert_by :
      (P : A → Type 0) (x : A) (xs : List A) → P x → All P xs → All P (insert_by less x xs)
  unfolding insert_by
  All-insert_by P x [] p ps = (p, tt)
  All-insert_by P x (y ∷ ys) p (q, qs) = elim (Bool-cases (less y x)) [
    | inl e ↦ rw e (q, All-insert_by P x ys p qs)
    | inr e ↦ rw e (p, (q, qs))
  ]

  pub All-sort_by : (P : A → Type 0) (xs : List A) → All P xs → All P (sort_by less xs)
  unfolding sort_by
  All-sort_by P [] ps = tt
  All-sort_by P (x ∷ xs) (p, ps) = All-insert_by P x (sort_by less xs) p (All-sort_by P xs ps)

  All_mono : (P Q : A → Type 0) (xs : List A) → ((a : A) → P a → Q a) → All P xs → All Q xs
  All_mono P Q [] f ps = tt
  All_mono P Q (x ∷ xs) f (p, ps) = (f x p, All_mono P Q xs f ps)

  module _ (w : IsWeakOrder less) where
    insert_by-IsSorted :
        (x : A) (xs : List A) → IsSorted less xs → IsSorted less (insert_by less x xs)
    unfolding insert_by
    insert_by-IsSorted x [] s = (tt, tt)
    insert_by-IsSorted x (y ∷ ys) (a, s) = elim (Bool-cases (less y x)) [
      | inl e ↦
          rw e
            (All-insert_by (λ z. less z y ≡ false) x ys (w.asym y x e) a, insert_by-IsSorted x ys s)
      | inr e ↦ rw e (
        (
          e,
          All_mono (λ z. less z y ≡ false) (λ z. less z x ≡ false) ys (λ z h. w.neg_trans x y z e h)
              a,
        ),
        (a, s),
      )
    ]

    pub sort_by-IsSorted : (xs : List A) → IsSorted less (sort_by less xs)
    unfolding sort_by
    sort_by-IsSorted [] = tt
    sort_by-IsSorted (x ∷ xs) = insert_by-IsSorted x (sort_by less xs) (sort_by-IsSorted xs)

  -- `p` holds only of elements that `less` does not tell apart from `x`
  module _ (p : A → Bool) where
    filter-insert_by_out :
        (x : A) (xs : List A) → p x ≡ false → filter p (insert_by less x xs) ≡ filter p xs
    unfolding insert_by filter
    filter-insert_by_out x [] e = rw e
    filter-insert_by_out x (y ∷ ys) e = ground (arith, filter-insert_by_out x ys e)

    filter-insert_by_in :
        (x : A) (xs : List A)
        → p x ≡ true
        → All (λ y. p y ≡ true → less y x ≡ false) xs
        → filter p (insert_by less x xs) ≡ x ∷ filter p xs
    unfolding insert_by filter
    filter-insert_by_in x [] e a = rw e
    filter-insert_by_in x (y ∷ ys) e (a, rest) = ground (arith, filter-insert_by_in x ys e rest, a)

    -- The sort keeps the elements that pass `p` in their order.
    pub filter-sort_by :
        (xs : List A)
        → ((a b : A) → p a ≡ true → p b ≡ true → less a b ≡ false)
        → filter p (sort_by less xs) ≡ filter p xs
    unfolding sort_by filter
    filter-sort_by [] h = refl
    filter-sort_by (x ∷ xs) h = elim (Bool-cases (p x)) [
      | inl e ↦ rw e (
          filter-insert_by_in x (sort_by less xs) e (All-sort_by _ xs (everywhere xs x e))
          ∙ ap (◌∷◌ x) (filter-sort_by xs h))
      | inr e ↦ rw e (filter-insert_by_out x (sort_by less xs) e ∙ filter-sort_by xs h)
    ]
      where
        everywhere :
            (ys : List A) (z : A) → p z ≡ true → All (λ y. p y ≡ true → less y z ≡ false) ys
        everywhere [] z e = tt
        everywhere (y ∷ ys) z e = ((λ k. h y z k e), everywhere ys z e)
