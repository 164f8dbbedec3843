-- ===== src/State/Scope.antt =====
-- One state file for several clusters: Merge and Scope of internal/state/state.go give each cluster its
-- own keys back.
use Prim.Native.Char.{Char, code}
use Prim.Native.String.append as clauses
use text.Mathlib.TextEquality.{Char-path}
use text.Mathlib.TextLemmas.{append_cancel_left, append_assoc}
use galera_doctor.Prelude.{
  String, ◌≡◌, refl, ◌≢◌, Option, none, some, [], ◌∷◌, arith, eqb, if◌then◌else◌, ◌<>◌, eq_iff,
  Bool-cases, Option-cases, inl, inr, eqb_iff,
}
use galera_doctor.Go.Text.{strip_prefix}
use galera_doctor.Go.Map.{Map, get, put, get-put, IsMap, put-IsMap}
use galera_doctor.State.{NodeState, State, trim_prefix, merge_from, scope_from, merge, scope}

pub strip_prefix-append : (p s : String) → strip_prefix p (p <> s) ≡ some s
unfolding strip_prefix
strip_prefix-append String.[] s = rw clauses.nil
strip_prefix-append (String.◌∷◌ c p) s =
    rw (clauses.cons c p s) (ground (arith, strip_prefix-append p s))

pub strip_prefix-some : (p s r : String) → strip_prefix p s ≡ some r → s ≡ p <> r
unfolding strip_prefix
strip_prefix-some String.[] s r h = rw clauses.nil (ground arith)
strip_prefix-some (String.◌∷◌ c p) String.[] r h = absurd (ground arith)
strip_prefix-some (String.◌∷◌ c p) (String.◌∷◌ d s) r h =
    rw (clauses.cons c p r) (elim (Bool-cases (eqb (code c) (code d))) [
      | inl e ↦
          cc (
            Char-path c d ((eqb_iff (code c) (code d)).0 e),
            strip_prefix-some p s r (ground arith),
          )
      | inr e ↦ absurd (ground arith)
    ])

abbrev pub or_else {ℓ} : {V : Type ℓ} → Option V → Option V → Option V
or_else none o = o
or_else (some v) o = some v

-- the key of a name in a cluster
abbrev pub in_cluster : String → String → String
in_cluster c n = c <> "/" <> n

in_cluster-eq : (c n m : String) → in_cluster c n ≡ in_cluster c m → n ≡ m
in_cluster-eq c n m h = append_cancel_left "/" n m (append_cancel_left c ("/" <> n) ("/" <> m) h)

trim_prefix-append : (p n : String) → n ≢ "" → trim_prefix (p <> n) p ≡ some n
unfolding trim_prefix
trim_prefix-append p n h = ground (arith, strip_prefix-append p n, eq_iff n "")

trim_prefix-some : (s p r : String) → trim_prefix s p ≡ some r → s ≡ p <> r
unfolding trim_prefix
trim_prefix-some s p r h = elim (Option-cases (strip_prefix p s)) [
  | inl e ↦ absurd (ground arith)
  | inr (q, e) ↦ ground (arith, strip_prefix-some p s q e)
]

module _ {ℓ} {V : Type ℓ} where
  merge_from-IsMap : (c : String) (out m : Map V) → IsMap out → IsMap (merge_from c out m)
  unfolding merge_from
  merge_from-IsMap c out [] h = h
  merge_from-IsMap c out ((k, v) ∷ m) h =
      merge_from-IsMap c (put (in_cluster c k) v out) m (put-IsMap (in_cluster c k) v out h)

  pub get-merge_from :
      (c n : String) (out m : Map V)
      → IsMap m
      → get (in_cluster c n) (merge_from c out m) ≡ or_else (get n m) (get (in_cluster c n) out)
  unfolding merge_from get
  get-merge_from c n out [] h = refl
  get-merge_from c n out ((k, v) ∷ m) (h, hs) = ground (
    arith,
    get-merge_from c n (put (in_cluster c k) v out) m hs,
    get-put (in_cluster c k) (in_cluster c n) v out,
    eq_iff k n,
    eq_iff (in_cluster c k) (in_cluster c n),
    in_cluster-eq c k n,
  )

  -- a key that the cluster does not write
  pub get-merge_from_other :
      (c j : String) (out m : Map V)
      → ((n : String) → in_cluster c n ≢ j)
      → get j (merge_from c out m) ≡ get j out
  unfolding merge_from
  get-merge_from_other c j out [] h = refl
  get-merge_from_other c j out ((k, v) ∷ m) h = ground (
    arith,
    get-merge_from_other c j (put (in_cluster c k) v out) m h,
    get-put (in_cluster c k) j v out,
    eq_iff (in_cluster c k) j,
    h k,
  )

  pub get-scope_from :
      (p n : String) (out m : Map V)
      → n ≢ ""
      → IsMap m
      → get n (scope_from p out m) ≡ or_else (get (p <> n) m) (get n out)
  unfolding scope_from get
  get-scope_from p n out [] e h = refl
  get-scope_from p n out ((k, v) ∷ m) e (h, hs) = elim (Option-cases (trim_prefix k p)) [
    | inl t ↦
        ground
          (arith, get-scope_from p n out m e hs, eq_iff k (p <> n), trim_prefix-append p n e, t)
    | inr (r, t) ↦ ground (
      arith,
      get-scope_from p n (put r v out) m e hs,
      get-put r n v out,
      eq_iff r n,
      eq_iff k (p <> n),
      trim_prefix-append p n e,
      trim_prefix-some k p r t,
      t,
    )
  ]

-- no character of a name is the separator
abbrev pub NoSlash : String → Type 0
NoSlash String.[] = Unit
NoSlash (String.◌∷◌ c s) = (code c ≢ b'/') × NoSlash s

before_slash : String → String
before_slash String.[] = ""
before_slash (String.◌∷◌ c s) =
    let rest = before_slash s in if eqb (code c) b'/' then "" else String.◌∷◌ c rest

before_slash-in_cluster : (c n : String) → NoSlash c → before_slash (in_cluster c n) ≡ c
unfolding before_slash
before_slash-in_cluster String.[] n h =
    let slash : Char = "/" in rw (clauses.nil ("/" <> n)) (rw (clauses.cons slash "" n) refl)
before_slash-in_cluster (String.◌∷◌ a c) n (h, hs) =
    rw (clauses.cons a c ("/" <> n))
      (ground (arith, before_slash-in_cluster c n hs, eqb_iff (code a) b'/'))

in_cluster-disjoint :
    (c d n m : String) → NoSlash c → NoSlash d → in_cluster c n ≡ in_cluster d m → c ≡ d
in_cluster-disjoint c d n m x y h =
    cc (before_slash-in_cluster c n x, before_slash-in_cluster d m y)

module _ {ℓ} {V : Type ℓ} where
  pub get-scope_merge :
      (c n : String) (out m : Map V)
      → n ≢ ""
      → IsMap out
      → IsMap m
      → get n (scope_from (c <> "/") [] (merge_from c out m))
        ≡ or_else (get n m) (get n (scope_from (c <> "/") [] out))
  unfolding get
  get-scope_merge c n out m e a b = ground (
    arith,
    get-scope_from (c <> "/") n [] (merge_from c out m) e (merge_from-IsMap c out m a),
    get-scope_from (c <> "/") n [] out e a,
    get-merge_from c n out m b,
    append_assoc c "/" n,
  )

  pub get-scope_merge_other :
      (c d n : String) (out m : Map V)
      → n ≢ ""
      → IsMap out
      → NoSlash c
      → NoSlash d
      → c ≢ d
      → get n (scope_from (d <> "/") [] (merge_from c out m)) ≡ get n (scope_from (d <> "/") [] out)
  unfolding get
  get-scope_merge_other c d n out m e a x y apart = ground (
    arith,
    get-scope_from (d <> "/") n [] (merge_from c out m) e (merge_from-IsMap c out m a),
    get-scope_from (d <> "/") n [] out e a,
    get-merge_from_other c (in_cluster d n) out m
        (λ k h. apart (in_cluster-disjoint c d k n x y h)),
    append_assoc d "/" n,
  )

module _ {ℓ} {F : Type ℓ} where
  -- what a scoped state has under a node's name, and under a finding's key
  abbrev pub node_in : Option (State F) → String → Option (NodeState F)
  node_in none n = none
  node_in (some s) n = get n s.nodes

  abbrev pub finding_in : Option (State F) → String → Option String
  finding_in none n = none
  finding_in (some s) n = get n s.findings

  abbrev pub IsFile : State F → Type ℓ
  IsFile s = IsMap s.nodes × IsMap s.findings

  -- a state after Merge still has one entry a key
  pub merge-IsFile :
      (s : State F) (c : String) (from : State F) → IsFile s → IsFile (merge s c from)
  unfolding merge
  merge-IsFile s c from (h, k) =
      (merge_from-IsMap c s.nodes from.nodes h, merge_from-IsMap c s.findings from.findings k)

  -- What a cluster merged into a file is what it reads back, for every node and finding with a name;
  -- what it did not write is as it was in the file.
  pub scope-merge :
      (s from : State F) (c n : String)
      → IsFile s
      → IsFile from
      → n ≢ ""
      → (node_in (scope (some (merge s c from)) c) n
          ≡ or_else (get n from.nodes) (node_in (scope (some s) c) n))
        × (finding_in (scope (some (merge s c from)) c) n
            ≡ or_else (get n from.findings) (finding_in (scope (some s) c) n))
  unfolding scope merge
  scope-merge s from c n (h, k) (h', k') e = (
    get-scope_merge c n s.nodes from.nodes e h h',
    get-scope_merge c n s.findings from.findings e k k',
  )

  -- What a cluster merged leaves every other cluster's view as it was, where neither name has a
  -- slash.
  pub scope-merge_other :
      (s from : State F) (c d n : String)
      → IsFile s
      → NoSlash c
      → NoSlash d
      → c ≢ d
      → n ≢ ""
      → (node_in (scope (some (merge s c from)) d) n ≡ node_in (scope (some s) d) n)
        × (finding_in (scope (some (merge s c from)) d) n ≡ finding_in (scope (some s) d) n)
  unfolding scope merge
  scope-merge_other s from c d n (h, k) x y apart e = (
    get-scope_merge_other c d n s.nodes from.nodes e h x y apart,
    get-scope_merge_other c d n s.findings from.findings e k x y apart,
  )

  -- A cluster whose name is another's, a slash and more reads back under the other's name too: the
  -- key of node n of cluster c/d is the key of node d/n of cluster c.
  pub scope-merge_leak :
      (s from : State F) (c d n : String) {ns : NodeState F}
      → IsFile s
      → IsFile from
      → get n from.nodes ≡ some ns
      → in_cluster d n ≢ ""
      → node_in (scope (some (merge s (in_cluster c d) from)) c) (in_cluster d n) ≡ some ns
  unfolding scope merge get
  scope-merge_leak s from c d n (h, k) (h', k') found e = ground (
    arith,
    get-scope_from (c <> "/") (in_cluster d n) [] (merge_from (in_cluster c d) s.nodes from.nodes) e
        (merge_from-IsMap (in_cluster c d) s.nodes from.nodes h),
    get-merge_from (in_cluster c d) n s.nodes from.nodes h',
    append_assoc c "/" (in_cluster d n),
    append_assoc c ("/" <> d) ("/" <> n),
    append_assoc "/" d ("/" <> n),
  )
