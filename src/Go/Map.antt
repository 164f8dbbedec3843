-- ===== src/Go/Map.antt =====
-- map[string]V as an association list without repeated keys, in the order of insertion. Go ranges
-- over a map in no fixed order; the program sorts what it collects from one.
use text.Mathlib.TextPositions.{eq_refl}
use galera_doctor.Prelude.{
  String, ◌≡◌, refl, sym, ap, ◌≢◌, Memᴰ, Bool-cases, inl, inr, Option, none, some, List, [], ◌∷◌,
  arith, if◌then◌else◌, ◌==◌, eq_iff,
}

abbrev pub Map {ℓ} : Type ℓ → Type ℓ
Map V = List (String × V)

module _ {ℓ} {V : Type ℓ} where
  -- v, ok := m[k]
  unfoldable pub get : String → Map V → Option V
  get k [] = none
  get k ((j, v) ∷ m) = let rest = get k m in if j == k then some v else rest

  -- m[k] = v
  unfoldable pub put : String → V → Map V → Map V
  put k v [] = (k, v) ∷ []
  put k v ((j, w) ∷ m) = let rest = put k v m in if j == k then (j, v) ∷ m else (j, w) ∷ rest

  unfoldable pub get_or : String → V → Map V → V
  unfolding get
  get_or k d m = elim (get k m) [ none ↦ d | some v ↦ v ]

  unfoldable pub keys : Map V → List String
  keys [] = []
  keys ((k, v) ∷ m) = k ∷ keys m

  -- delete(m, k)
  unfoldable pub delete : String → Map V → Map V
  delete k [] = []
  delete k ((j, w) ∷ m) = let rest = delete k m in if j == k then rest else (j, w) ∷ rest

  pub get-put :
      (k j : String) (v : V) (m : Map V) → get j (put k v m) ≡ (if k == j then some v else get j m)
  unfolding get put
  get-put k j v [] = refl
  get-put k j v ((i, w) ∷ m) = ground (arith, eq_iff k j, eq_iff i k, eq_iff i j, get-put k j v m)

  pub get-put_self : (k : String) (v : V) (m : Map V) → get k (put k v m) ≡ some v
  get-put_self k v m = simp (get-put, eq_refl)

-- the keys of a map do not repeat
abbrev pub IsMap {ℓ} : {V : Type ℓ} → Map V → Type ℓ
IsMap [] = Unit
IsMap ((k, v) ∷ m) = (get k m ≡ none) × IsMap m

module _ {ℓ} {V : Type ℓ} where
  get-put-none :
      (k j : String) (v : V) (m : Map V) → j ≢ k → get j m ≡ none → get j (put k v m) ≡ none
  get-put-none k j v m h e = rw get-put (ground (arith, eq_iff k j, e))

  pub put-IsMap : (k : String) (v : V) (m : Map V) → IsMap m → IsMap (put k v m)
  unfolding put get
  put-IsMap k v [] h = (refl, tt)
  put-IsMap k v ((j, w) ∷ m) (h, hs) = elim (Bool-cases (j == k)) [
    | inl e ↦ rw e (h, hs)
    | inr e ↦ rw e (
      unfold get put in get-put-none k j v m (λ p. ground (arith, eq_iff j k)) h,
      put-IsMap k v m hs,
    )
  ]

  -- an entry of a map without repeated keys is what the map gives
  pub get-Mem : (m : Map V) (k : String) (v : V) → IsMap m → Memᴰ (k, v) m → get k m ≡ some v
  unfolding get
  get-Mem [] k v h m = elim m [ ]
  get-Mem ((j, w) ∷ m) k v (h, hs) (Memᴰ.head p) =
      let e : k ≡ j = ap (λ x. x.0) p in
      let q : v ≡ w = ap (λ x. x.1) p in rw (e, q, eq_refl j) refl
  get-Mem ((j, w) ∷ m) k v (h, hs) (Memᴰ.tail n) = ground (arith, get-Mem m k v hs n, eq_iff j k, h)

  -- what a map gives is an entry
  pub Mem-get : (k : String) (v : V) (m : Map V) → get k m ≡ some v → Memᴰ (k, v) m
  unfolding get
  Mem-get k v [] e = absurd (ground arith)
  Mem-get k v ((j, w) ∷ m) e = elim (Bool-cases (j == k)) [
    | inl p ↦
        let a : k ≡ j = sym ((eq_iff j k).0 p) in
        let b : v ≡ w = ground (arith, e, p) in Memᴰ.head (cc (a, b))
    | inr p ↦ Memᴰ.tail (Mem-get k v m (ground arith))
  ]

  pub keys-Mem : (k : String) (v : V) (m : Map V) → get k m ≡ some v → Memᴰ k (keys m)
  unfolding get keys
  keys-Mem k v [] e = absurd (ground arith)
  keys-Mem k v ((j, w) ∷ m) e = elim (Bool-cases (j == k)) [
    | inl p ↦ Memᴰ.head (sym ((eq_iff j k).0 p))
    | inr p ↦ Memᴰ.tail (keys-Mem k v m (ground arith))
  ]
