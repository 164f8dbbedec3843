-- ===== src/State/File/Laws.antt =====
-- What an interruption of Save of internal/state/state.go leaves, and what Load makes of it.
use Prim.Native.String.append as clauses
use galera_doctor.Prelude.{
  String, ◌≡◌, refl, sym, ap, ◌∙◌, ◌≢◌, ◌⊎◌, inl, inr, false, Bool-cases, Option, none, some, List,
  [], ◌∷◌, ◌++◌, arith, All, All-append, map, ◌==◌, ◌<>◌, eq_iff,
}
use galera_doctor.Config.Expand.{Result, done, fail}
use galera_doctor.State.{State, version}
use galera_doctor.State.File.{Disk, set, rename, Calls, write_file, last_disk, save, load}

abbrev tail : String → String
tail String.[] = ""
tail (String.◌∷◌ c s) = s

-- the temporary file is another one
append-longer : (s t : String) → t ≢ "" → s <> t ≢ s
append-longer String.[] t h e = h (sym (clauses.nil t) ∙ e)
append-longer (String.◌∷◌ c s) t h e = append-longer s t h (ap tail (sym (clauses.cons c s t) ∙ e))

tmp_other : (path : String) → path <> ".tmp" ≢ path
tmp_other path = append-longer path ".tmp" (λ e. ground (arith, eq_iff ".tmp" "", e))

set-other : (p q : String) (c : Option String) (d : Disk) → p ≢ q → set p c d q ≡ d q
unfolding set
set-other p q c d h = ground (arith, eq_iff q p, h)

set-same : (p : String) (c : Option String) (d : Disk) → set p c d p ≡ c
unfolding set
set-same p c d = ground (arith, eq_iff p p)

rename-renamed : (p q : String) (d : Disk) → rename p q d q ≡ d p
unfolding rename
rename-renamed p q d = set-same q (d p) (set p none d)

-- the contents before or after
abbrev Whole : String → String → Disk → Disk → Type 0
Whole path content disk d = (d path ≡ disk path) ⊎ (d path ≡ some content)

begun-Whole :
    (path content : String) (disk : Disk) (parts : List String)
    → All (Whole path content disk) (map (λ c. set (path <> ".tmp") (some c) disk) parts)
begun-Whole path content disk [] = tt
begun-Whole path content disk (c ∷ cs) = (
  inl (set-other (path <> ".tmp") path (some c) disk (tmp_other path)),
  begun-Whole path content disk cs,
)

write_file-Whole :
    (calls : Calls) (path content : String) (disk : Disk)
    → All (Whole path content disk) ((write_file calls path content disk).0)
unfolding write_file
write_file-Whole calls path content disk = elim (Bool-cases (calls.dir_error == "")) [
  | inr e ↦ rw e tt
  | inl e ↦ elim (Bool-cases (calls.write_error == "")) [
    | inr f ↦ rw (e, f) begun
    | inl f ↦ elim (Bool-cases (calls.rename_error == "")) [
      | inr g ↦ rw (e, f, g) (All-append (Whole path content disk) _ _ begun (kept, tt))
      | inl g ↦
          rw (e, f, g) (All-append (Whole path content disk) _ _ begun (kept, (inr moved, tt)))
    ]
  ]
]
  where
    full : Disk
    full = set (path <> ".tmp") (some content) disk

    begun :
        All (Whole path content disk) (map (λ c. set (path <> ".tmp") (some c) disk) calls.partial)
    begun = begun-Whole path content disk calls.partial

    kept : Whole path content disk full
    kept = inl (set-other (path <> ".tmp") path (some content) disk (tmp_other path))

    moved : rename (path <> ".tmp") path full path ≡ some content
    moved =
        rename-renamed (path <> ".tmp") path full ∙ set-same (path <> ".tmp") (some content) disk

last_disk-append : (d e : Disk) (xs : List Disk) → last_disk d (xs ++ e ∷ []) ≡ e
unfolding last_disk
last_disk-append d e [] = refl
last_disk-append d e (x ∷ xs) = last_disk-append x e xs

weaken {ℓ} :
    {P : Disk → Type 0} {Q : Disk → Type ℓ} (ds : List Disk)
    → ((d : Disk) → P d → Q d)
    → All P ds
    → All Q ds
weaken [] h a = tt
weaken (d ∷ ds) h (p, a) = (h d p, weaken ds h a)

nonempty : (path : String) → path ≢ "" → path == "" ≡ false
nonempty path h = ground (arith, eq_iff path "", h)

module _ {ℓ} {F : Type ℓ} (encode : State F → Result String) (decode : String → Result (State F))
    (path : String) (st : State F) where
  load-some :
      (b : String) (d : Disk)
      → path ≢ ""
      → decode b ≡ done st
      → st.version ≡ version
      → d path ≡ some b
      → load decode "" path d ≡ done (some st)
  unfolding load
  load-some b d h j v e = rw (nonempty path h, e, j, v) refl

  load-same :
      (d disk : Disk) → d path ≡ disk path → load decode "" path d ≡ load decode "" path disk
  unfolding load
  load-same d disk e = rw e refl

  -- Wherever Save is interrupted, or fails, the file loads as it did before or as the state that was to be
  -- saved, provided that the encoded state decodes to itself and has this version.
  pub load-save_interrupted :
      (calls : Calls) (disk : Disk)
      → ((b : String) → encode st ≡ done b → decode (b <> "\n") ≡ done st)
      → st.version ≡ version
      → path ≢ ""
      → All
          (λ (d : Disk).
            (load decode "" path d ≡ load decode "" path disk)
            ⊎ (load decode "" path d ≡ done (some st)))
          ((save encode calls path st disk).0)
  unfolding save
  load-save_interrupted calls disk j v h = rw (nonempty path h) (go (encode st) refl)
    where
      go :
          (r : Result String)
          → encode st ≡ r
          → All
              (λ (d : Disk).
                (load decode "" path d ≡ load decode "" path disk)
                ⊎ (load decode "" path d ≡ done (some st)))
              ((elim r as (λ x. List Disk × String) [
                | fail e ↦ ([], e)
                | done b ↦ write_file calls path (b <> "\n") disk
              ]).0)
      go (fail e) p = tt
      go (done b) p =
          weaken _
            (λ d. elim [
              | inl q ↦ inl (load-same d disk q)
              | inr q ↦ inr (load-some (b <> "\n") d h (j b p) v q)
            ])
            (write_file-Whole calls path (b <> "\n") disk)
