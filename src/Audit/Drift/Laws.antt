-- ===== src/Audit/Drift/Laws.antt =====
-- The drift checks of internal/audit/audit.go find every difference between two nodes' definitions.
use galera_doctor.Prelude.{
  String, ◌≡◌, refl, sym, ap, ◌∙◌, ◌≢◌, ◌↔◌, inl, inr, Bool, true, false, none, List, [], ◌∷◌, Memᴰ,
  arith, length, filter, All, ◌==◌, eq_iff, Bool-cases, Option-cases, leb, eqb,
}
use galera_doctor.Go.Map.{Map, get, get_or, put, keys, get-put}
use galera_doctor.Go.Sort.{sort_strings}
use galera_doctor.Go.Sort.Laws.{sort_by-Mem}
use galera_doctor.Go.Text.{str_lt}
use galera_doctor.Go.Float.{Float}
use galera_doctor.Finding.{Finding, ok, bad}
use galera_doctor.Audit.Groups.Laws.{Differ, gather-Differ}
use galera_doctor.Audit.Drift.{
  Audited, add_names, all_names, table_names, definition_of, definitions, differs,
  drifted_sys_table, sys_drift, drifted_table, app_drift, max_drifted_listed,
}

-- two nodes have different definitions of a table, a missing one counted as a definition
abbrev pub Drifts : List Audited → String → Type 0
Drifts audited table = Differ (definition_of table) (λ a. a.node) audited

differs_iff :
    (audited : List Audited) (table : String)
    → (differs audited table ≡ true) ↔ Drifts audited table
unfolding differs definitions
differs_iff audited table =
    let g = gather-Differ (definition_of table) (λ a. a.node) audited in
    ((λ h. g.0 (ground arith)), (λ d. ground (arith, g.1 d)))

keys-Mem : {V : Type 0} (t : String) (m : Map V) → get t m ≢ none → Memᴰ t (keys m)
unfolding get keys
keys-Mem t [] h = absurd (h refl)
keys-Mem t ((j, v) ∷ m) h = elim (Bool-cases (j == t)) [
  | inl e ↦ Memᴰ.head (sym ((eq_iff j t).0 e))
  | inr e ↦ Memᴰ.tail (keys-Mem t m (λ p. h (rw e p)))
]

keep-add_names :
    (t : String) (out : Map Bool) (ts : List String)
    → get t out ≢ none
    → get t (add_names out ts) ≢ none
unfolding add_names
keep-add_names t out [] h = h
keep-add_names t out (s ∷ ts) h =
    keep-add_names t (put s true out) ts (λ e. ground (arith, get-put s t true out, e, h))

add_names-Mem :
    (t : String) (out : Map Bool) (ts : List String) → Memᴰ t ts → get t (add_names out ts) ≢ none
unfolding add_names
add_names-Mem t out [] m = elim m [ ]
add_names-Mem t out (s ∷ ts) (Memᴰ.head p) =
    keep-add_names t (put s true out) ts
      (λ e. ground (arith, get-put s t true out, e, eq_iff s t, sym p))
add_names-Mem t out (s ∷ ts) (Memᴰ.tail m) = add_names-Mem t (put s true out) ts m

keep-all_names :
    (t : String) (out : Map Bool) (audited : List Audited)
    → get t out ≢ none
    → get t (all_names out audited) ≢ none
unfolding all_names
keep-all_names t out [] h = h
keep-all_names t out (a ∷ as') h =
    keep-all_names t (add_names out (keys a.tables)) as' (keep-add_names t out (keys a.tables) h)

all_names-Mem :
    (t : String) (a : Audited) (out : Map Bool) (audited : List Audited)
    → Memᴰ a audited
    → get t a.tables ≢ none
    → get t (all_names out audited) ≢ none
unfolding all_names
all_names-Mem t a out [] m h = elim m [ ]
all_names-Mem t a out (b ∷ bs) (Memᴰ.head p) h =
    keep-all_names t (add_names out (keys b.tables)) bs
      (add_names-Mem t out (keys b.tables) (keys-Mem t b.tables (rw (sym p) h)))
all_names-Mem t a out (b ∷ bs) (Memᴰ.tail m) h =
    all_names-Mem t a (add_names out (keys b.tables)) bs m h

-- a table that two nodes disagree about is a table of one of them
Drifts-table :
    (t : String) (audited : List Audited)
    → Drifts audited t
    → (a : Audited) × Memᴰ a audited × (get t a.tables ≢ none)
unfolding definition_of get_or
Drifts-table t audited (a, b, m, n, apart) = elim (Option-cases (get t a.tables)) [
  | inr (v, e) ↦ (a, m, λ h. ground (arith, e, h))
  | inl e ↦ elim (Option-cases (get t b.tables)) [
    | inr (v, e') ↦ (b, n, λ h. ground (arith, e', h))
    | inl e' ↦ absurd (apart (rw (definition_of, get_or, e, e') refl))
  ]
]

table_names-Mem :
    (t : String) (audited : List Audited) → Drifts audited t → Memᴰ t (table_names audited)
unfolding table_names sort_strings
table_names-Mem t audited d =
    let (a, m, h) = Drifts-table t audited d in
    sort_by-Mem str_lt t (keys (all_names [] audited))
      (keys-Mem t (all_names [] audited) (all_names-Mem t a [] audited m h))

filter-some {ℓ} :
    {A : Type ℓ} (p : A → Bool) (x : A) (xs : List A) → Memᴰ x xs → p x ≡ true → filter p xs ≢ []
unfolding filter
filter-some p x [] m h = elim m [ ]
filter-some p x (y ∷ ys) (Memᴰ.head q) h =
    let k : p y ≡ true = ap p (sym q) ∙ h in ground (arith, k)
filter-some p x (y ∷ ys) (Memᴰ.tail m) h = ground (arith, filter-some p x ys m h)

filter-none {ℓ} :
    {A : Type ℓ} (p : A → Bool) (xs : List A) → ((x : A) → p x ≡ false) → filter p xs ≡ []
unfolding filter
filter-none p [] h = refl
filter-none p (x ∷ xs) h = rw (h x) (filter-none p xs h)

no_drift :
    (audited : List Audited)
    → ((t : String) → ¬ (Drifts audited t))
    → filter (differs audited) (table_names audited) ≡ []
no_drift audited h = filter-none (differs audited) (table_names audited) (λ t.
    elim (Bool-cases (differs audited t)) [
      | inl e ↦ absurd (h t ((differs_iff audited t).0 e))
      | inr e ↦ e
    ])

some_drift :
    (t : String) (audited : List Audited)
    → Drifts audited t
    → filter (differs audited) (table_names audited) ≢ []
some_drift t audited d =
    filter-some (differs audited) t (table_names audited) (table_names-Mem t audited d)
      ((differs_iff audited t).1 d)

list-cases {ℓ} : {A : Type ℓ} (xs : List A) → xs ≢ [] → (x : A) × (ys : List A) × (xs ≡ x ∷ ys)
list-cases [] h = absurd (h refl)
list-cases (x ∷ xs) h = (x, xs, refl)

module _ {ℓ} (F : Type ℓ) ⦃fl : Float F⦄ where
  abbrev pub AllOk : List (Finding F) → Type 0
  AllOk fs = All (λ f. f.status ≡ ok) fs

  -- the first finding is BAD
  abbrev BadFirst : List (Finding F) → Type ℓ
  BadFirst fs = (f : Finding F) × (rest : List (Finding F)) × (fs ≡ f ∷ rest) × (f.status ≡ bad)

  BadFirst-AllOk : (fs : List (Finding F)) → BadFirst fs → ¬ (AllOk fs)
  BadFirst-AllOk [] (f, rest, p, e) h = ground (arith, p)
  BadFirst-AllOk (g ∷ gs) (f, rest, p, e) (k, ks) = ground (arith, p, e, k, eq_iff bad ok)

  app_drift-BadFirst :
      (name : String) (audited : List Audited)
      → filter (differs audited) (table_names audited) ≢ []
      → BadFirst (app_drift name audited)
  unfolding app_drift drifted_table
  app_drift-BadFirst name audited h =
      let drifted = filter (differs audited) (table_names audited) in
      let (t, ts, e) = list-cases drifted h in
      let some_tables : eqb (length (t ∷ ts)) 0 ≡ false = ground arith in
      elim (Bool-cases (leb (length (t ∷ ts)) max_drifted_listed)) [
        | inl k ↦ rw (app_drift, e, some_tables, k) (_, _, refl, refl)
        | inr k ↦ rw (app_drift, e, some_tables, k) (_, _, refl, refl)
      ]

  sys_drift-BadFirst :
      (name : String) (audited : List Audited)
      → filter (differs audited) (table_names audited) ≢ []
      → BadFirst (sys_drift name audited)
  unfolding sys_drift drifted_sys_table
  sys_drift-BadFirst name audited h =
      let drifted = filter (differs audited) (table_names audited) in
      let (t, ts, e) = list-cases drifted h in rw (sys_drift, e) (_, _, refl, refl)

  -- The schema comparison is OK exactly when no two nodes have different definitions of any table: a
  -- table that only one of them has is found too.
  pub app_drift_iff :
      (name : String) (audited : List Audited)
      → AllOk (app_drift name audited) ↔ ((t : String) → ¬ (Drifts audited t))
  unfolding app_drift
  app_drift_iff name audited = (
    (λ h t d. BadFirst-AllOk _ (app_drift-BadFirst name audited (some_drift t audited d)) h),
    (λ h. rw (app_drift, no_drift audited h) (refl, tt)),
  )

  -- So is the comparison of the system tables OK exactly when no two nodes have different definitions
  -- of any of them.
  pub sys_drift_iff :
      (name : String) (audited : List Audited)
      → AllOk (sys_drift name audited) ↔ ((t : String) → ¬ (Drifts audited t))
  unfolding sys_drift
  sys_drift_iff name audited = (
    (λ h t d. BadFirst-AllOk _ (sys_drift-BadFirst name audited (some_drift t audited d)) h),
    (λ h. rw (sys_drift, no_drift audited h) (refl, tt)),
  )
