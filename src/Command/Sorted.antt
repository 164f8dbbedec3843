-- ===== src/Command/Sorted.antt =====
-- sortedKeys of cmd/galera-doctor/main.go against sort.Strings: the sort by exchanges is the library's.
use mathlib.Core.List.{Permᴰ}
use mathlib.Core.List.Permᴰ
use galera_doctor.Prelude.{
  ℕ, zero, suc, ◌≤◌, String, ◌≡◌, refl, sym, ap, ◌∙◌, true, false, List, [], ◌∷◌, arith, length,
  All, Bool-cases, inl, inr,
}
use galera_doctor.Go.Text.{str_lt}
use galera_doctor.Go.Map.{Map, keys}
use galera_doctor.Go.Order.{str_lt-IsWeakOrder, str_lt-total}
use galera_doctor.Go.Sort.{insert_by, sort_by, sort_strings}
use galera_doctor.Go.Sort.Laws.{All-sort_by}
use galera_doctor.Config.{ClusterConfig}
use galera_doctor.Command.Flags.{exchange, exchange_sort, sorted_keys}
open str_lt-IsWeakOrder use {asym, neg_trans}

-- what stands before x in the order does not come back
exchange-low :
    (z x : String) (ys : List String) → str_lt z x ≡ false → str_lt z ((exchange x ys).0) ≡ false
unfolding exchange
exchange-low z x [] h = h
exchange-low z x (y ∷ ys) h = elim (Bool-cases (str_lt y x)) [
  | inl e ↦ rw e (exchange-low z y ys (neg_trans y x z (asym y x e) h))
  | inr e ↦ rw e (exchange-low z x ys h)
]

exchange-true :
    (x y : String) (ys : List String)
    → str_lt y x ≡ true
    → exchange x (y ∷ ys) ≡ ((exchange y ys).0, x ∷ (exchange y ys).1)
unfolding exchange
exchange-true x y ys e = rw e refl

exchange-false :
    (x y : String) (ys : List String)
    → str_lt y x ≡ false
    → exchange x (y ∷ ys) ≡ ((exchange x ys).0, y ∷ (exchange x ys).1)
unfolding exchange
exchange-false x y ys e = rw e refl

exchange-least :
    (x : String) (ys : List String)
    → All (λ z. str_lt z ((exchange x ys).0) ≡ false) ((exchange x ys).1)
exchange-least x [] = unfold exchange in tt
exchange-least x (y ∷ ys) = elim (Bool-cases (str_lt y x)) [
  | inl e ↦ rw (exchange-true x y ys e) (exchange-low x y ys (asym y x e), exchange-least y ys)
  | inr e ↦ rw (exchange-false x y ys e) (exchange-low y x ys e, exchange-least x ys)
]

exchange-perm :
    (x : String) (ys : List String) → Permᴰ ((exchange x ys).0 ∷ (exchange x ys).1) (x ∷ ys)
exchange-perm x [] = unfold exchange in Permᴰ.refl _
exchange-perm x (y ∷ ys) = elim (Bool-cases (str_lt y x)) [
  | inl e ↦
      rw (exchange-true x y ys e)
        (Permᴰ.trans (Permᴰ.swap refl refl) (Permᴰ.cons refl (exchange-perm y ys)))
  | inr e ↦ rw (exchange-false x y ys e) (
      Permᴰ.trans (Permᴰ.swap refl refl)
        (Permᴰ.trans (Permᴰ.cons refl (exchange-perm x ys)) (Permᴰ.swap refl refl)))
]

length-exchange : (x : String) (ys : List String) → length ((exchange x ys).1) ≡ length ys
length-exchange x [] = unfold exchange in refl
length-exchange x (y ∷ ys) = elim (Bool-cases (str_lt y x)) [
  | inl e ↦ rw (exchange-true x y ys e) (omega (arith, length-exchange y ys))
  | inr e ↦ rw (exchange-false x y ys e) (omega (arith, length-exchange x ys))
]

insert_by_comm :
    (x y : String) (zs : List String)
    → insert_by str_lt x (insert_by str_lt y zs) ≡ insert_by str_lt y (insert_by str_lt x zs)
unfolding insert_by
insert_by_comm x y [] = ground (arith, str_lt-total x y, asym x y)
insert_by_comm x y (z ∷ zs) = ground (
  arith,
  insert_by_comm x y zs,
  str_lt-total x y,
  asym x y,
  asym z x,
  asym z y,
  neg_trans x z y,
  neg_trans y z x,
)

sort_by-perm : (xs ys : List String) → Permᴰ xs ys → sort_by str_lt xs ≡ sort_by str_lt ys
unfolding sort_by
sort_by-perm [] [] Permᴰ.nil = refl
sort_by-perm (x ∷ xs) (y ∷ ys) (Permᴰ.cons e p) = cc (e, sort_by-perm xs ys p)
sort_by-perm (x ∷ y ∷ xs) (y' ∷ x' ∷ ys) (Permᴰ.swap e f) =
    cc (e, f, insert_by_comm x y (sort_by str_lt xs))
sort_by-perm xs zs (Permᴰ.trans {l₂ = ys} p q) = sort_by-perm xs ys p ∙ sort_by-perm ys zs q

insert_by-least :
    (x : String) (xs : List String)
    → All (λ z. str_lt z x ≡ false) xs
    → insert_by str_lt x xs ≡ x ∷ xs
unfolding insert_by
insert_by-least x [] a = refl
insert_by-least x (y ∷ ys) (h, a) = ground (arith, h)

exchange_sort-sort_by :
    (n : ℕ) (xs : List String) → length xs ≤ n → exchange_sort n xs ≡ sort_by str_lt xs
unfolding exchange_sort
exchange_sort-sort_by zero [] h = unfold sort_by in refl
exchange_sort-sort_by zero (x ∷ xs) h = absurd (omega (arith, h))
exchange_sort-sort_by (suc n) [] h = unfold sort_by in refl
exchange_sort-sort_by (suc n) (x ∷ xs) h =
    let m = (exchange x xs).0 in
    let r = (exchange x xs).1 in
    ap (◌∷◌ m) (exchange_sort-sort_by n r (omega (arith, h, length-exchange x xs)))
    ∙ sym (
        insert_by-least m (sort_by str_lt r)
          (All-sort_by str_lt (λ z. str_lt z m ≡ false) r (exchange-least x xs)))
    ∙ unfold sort_by in sort_by-perm (m ∷ r) (x ∷ xs) (exchange-perm x xs)

length-keys {ℓ} : {V : Type ℓ} (m : Map V) → length (keys m) ≡ length m
unfolding keys
length-keys [] = refl
length-keys ((k, v) ∷ m) = omega (arith, length-keys m)

-- sortedKeys gives the names of the targets in the order of sort.Strings.
pub sorted_keys-sort_strings : (m : Map ClusterConfig) → sorted_keys m ≡ sort_strings (keys m)
unfolding sorted_keys sort_strings
sorted_keys-sort_strings m =
    exchange_sort-sort_by (length m) (keys m) (omega (arith, length-keys m))
