-- ===== src/Prelude/Lists.antt =====
-- Lists measured by native numbers and filtered by Boolean tests, under the library's names.
use Prim.Native.Nat.{ℕ, zero, suc, ◌+◌, ◌≤◌}
use mathlib.Core.Path.{◌≡◌, refl, sym}
use mathlib.Core.Logic.{◌⊎◌, inl, inr, ◌↔◌, ◌≢◌}
use mathlib.Core.Bool.{Bool, true, false, ◌||◌}
use mathlib.Core.List.{List, [], ◌∷◌, ◌++◌, Memᴰ}
use native.Mathlib.Omega.{arith}
use galera_doctor.Prelude.Tests.{if◌then◌else◌, Bool-cases}

module _ {ℓ} {A : Type ℓ} where
  abbrev pub length : List A → ℕ
  length [] = 0
  length (x ∷ xs) = suc (length xs)

  abbrev pub take : ℕ → List A → List A
  take zero xs = []
  take (suc n) [] = []
  take (suc n) (x ∷ xs) = x ∷ take n xs

  -- Go's `append` under a test: the elements that pass, in order.
  unfoldable pub filter : (A → Bool) → List A → List A
  filter p [] = []
  filter p (x ∷ xs) = let rest = filter p xs in if p x then x ∷ rest else rest

  unfoldable pub any : (A → Bool) → List A → Bool
  any p [] = false
  any p (x ∷ xs) = p x || any p xs

  -- A statement of every element; it computes to a tuple.
  abbrev pub All {κ} : (A → Type κ) → List A → Type κ
  All P [] = Unit
  All P (x ∷ xs) = P x × All P xs

  pub length-append : (xs ys : List A) → length (xs ++ ys) ≡ length xs + length ys
  length-append [] ys = omega arith
  length-append (x ∷ xs) ys = omega (arith, length-append xs ys)

  pub All-append {κ} : (P : A → Type κ) (xs ys : List A) → All P xs → All P ys → All P (xs ++ ys)
  All-append P [] ys _ q = q
  All-append P (x ∷ xs) ys (p, ps) q = (p, All-append P xs ys ps q)

  pub length-filter-le : (p : A → Bool) (xs : List A) → length (filter p xs) ≤ length xs
  unfolding filter
  length-filter-le p [] = omega arith
  length-filter-le p (x ∷ xs) = ground (arith, length-filter-le p xs)

  pub list-cases : (xs : List A) → (xs ≡ []) ⊎ ((x : A) × (ys : List A) × (xs ≡ x ∷ ys))
  list-cases [] = inl refl
  list-cases (x ∷ xs) = inr (x, xs, refl)

  pub append-nil_iff : (xs ys : List A) → (xs ++ ys ≡ []) ↔ ((xs ≡ []) × (ys ≡ []))
  append-nil_iff [] ys = ((λ h. (refl, h)), (λ h. h.1))
  append-nil_iff (x ∷ xs) ys = ((λ h. ground (arith, h)), (λ h. ground (arith, h)))

-- what holds of every element holds of one
pub All-Mem {ℓ} : {A : Type ℓ} (P : A → Type 0) (x : A) (xs : List A) → Memᴰ x xs → All P xs → P x
All-Mem P x [] m _ = elim m [ ]
All-Mem P x (y ∷ ys) (Memᴰ.head p) (h, a) = rw p h
All-Mem P x (y ∷ ys) (Memᴰ.tail m) (h, a) = All-Mem P x ys m a

pub Mem-All {ℓ κ} :
    {A : Type ℓ} (P : A → Type κ) (xs : List A) → ((x : A) → Memᴰ x xs → P x) → All P xs
Mem-All P [] h = tt
Mem-All P (x ∷ xs) h = (h x (Memᴰ.head refl), Mem-All P xs (λ y m. h y (Memᴰ.tail m)))

module _ {ℓ} {A : Type ℓ} (p : A → Bool) where
  any-some : (xs : List A) → any p xs ≡ true → (x : A) × Memᴰ x xs × (p x ≡ true)
  unfolding any
  any-some [] h = absurd (ground (arith, h))
  any-some (x ∷ xs) h = elim (Bool-cases (p x)) [
    | inl e ↦ (x, Memᴰ.head refl, e)
    | inr e ↦ let (y, m, q) = any-some xs (ground (arith, h, e)) in (y, Memᴰ.tail m, q)
  ]

  some-any : (x : A) (xs : List A) → Memᴰ x xs → p x ≡ true → any p xs ≡ true
  unfolding any
  some-any x [] m e = elim m [ ]
  some-any x (y ∷ ys) (Memᴰ.head q) e = let r : p y ≡ true = rw (sym q) e in rw r refl
  some-any x (y ∷ ys) (Memᴰ.tail m) e = let r = some-any x ys m e in ground (arith, r)

  pub any_iff : (xs : List A) → (any p xs ≡ true) ↔ ((x : A) × Memᴰ x xs × (p x ≡ true))
  any_iff xs = (any-some xs, (λ (x, m, e). some-any x xs m e))

  filter-some : (xs : List A) → filter p xs ≢ [] → (x : A) × Memᴰ x xs × (p x ≡ true)
  unfolding filter
  filter-some [] h = absurd (h refl)
  filter-some (x ∷ xs) h = elim (Bool-cases (p x)) [
    | inl e ↦ (x, Memᴰ.head refl, e)
    | inr e ↦ let (y, m, q) = filter-some xs (λ z. h (rw (filter, e) z)) in (y, Memᴰ.tail m, q)
  ]

  some-filter : (x : A) (xs : List A) → Memᴰ x xs → p x ≡ true → filter p xs ≢ []
  unfolding filter
  some-filter x [] m e = elim m [ ]
  some-filter x (y ∷ ys) (Memᴰ.head q) e =
      let r : p y ≡ true = rw (sym q) e in λ z. ground (arith, r, z)
  some-filter x (y ∷ ys) (Memᴰ.tail m) e = let r = some-filter x ys m e in λ z. ground (arith, r, z)

  pub filter-some_iff : (xs : List A) → (filter p xs ≢ []) ↔ ((x : A) × Memᴰ x xs × (p x ≡ true))
  filter-some_iff xs = (filter-some xs, (λ (x, m, e). some-filter x xs m e))

  pub filter-Mem : (x : A) (xs : List A) → Memᴰ x (filter p xs) → Memᴰ x xs × (p x ≡ true)
  unfolding filter
  filter-Mem x [] m = elim m [ ]
  filter-Mem x (y ∷ ys) m = go (filter-Mem x ys) (p y) refl m
    where
      go :
          (Memᴰ x (filter p ys) → Memᴰ x ys × (p x ≡ true))
          → (b : Bool) → p y ≡ b
          → Memᴰ x (if b then y ∷ filter p ys else filter p ys)
          → Memᴰ x (y ∷ ys) × (p x ≡ true)
      go f true e (Memᴰ.head q) = (Memᴰ.head q, rw q e)
      go f true e (Memᴰ.tail k) = let (n, r) = f k in (Memᴰ.tail n, r)
      go f false e k = let (n, r) = f k in (Memᴰ.tail n, r)

  pub Mem-filter : (x : A) (xs : List A) → Memᴰ x xs → p x ≡ true → Memᴰ x (filter p xs)
  unfolding filter
  Mem-filter x [] m e = elim m [ ]
  Mem-filter x (y ∷ ys) (Memᴰ.head q) e = let r : p y ≡ true = rw (sym q) e in rw r (Memᴰ.head q)
  Mem-filter x (y ∷ ys) (Memᴰ.tail m) e = elim (Bool-cases (p y)) [
    | inl b ↦ rw b (Memᴰ.tail (Mem-filter x ys m e))
    | inr b ↦ rw b (Mem-filter x ys m e)
  ]

  pub filter-keep : (xs : List A) → All (λ x. p x ≡ true) xs → filter p xs ≡ xs
  unfolding filter
  filter-keep [] h = refl
  filter-keep (x ∷ xs) (e, h) = rw (e, filter-keep xs h) refl

  pub filter-drop : (xs : List A) → All (λ x. p x ≡ false) xs → filter p xs ≡ []
  unfolding filter
  filter-drop [] h = refl
  filter-drop (x ∷ xs) (e, h) = rw e (filter-drop xs h)

  pub filter-append : (xs ys : List A) → filter p (xs ++ ys) ≡ filter p xs ++ filter p ys
  unfolding filter
  filter-append [] ys = refl
  filter-append (x ∷ xs) ys = ground (arith, filter-append xs ys)

pub Mem-append {ℓ} : {A : Type ℓ} (x : A) (xs ys : List A) → Memᴰ x xs → Memᴰ x (xs ++ ys)
Mem-append x [] ys m = elim m [ ]
Mem-append x (y ∷ xs) ys (Memᴰ.head q) = Memᴰ.head q
Mem-append x (y ∷ xs) ys (Memᴰ.tail m) = Memᴰ.tail (Mem-append x xs ys m)

pub Mem-last {ℓ} : {A : Type ℓ} (x : A) (xs : List A) → Memᴰ x (xs ++ x ∷ [])
Mem-last x [] = Memᴰ.head refl
Mem-last x (y ∷ xs) = Memᴰ.tail (Mem-last x xs)
