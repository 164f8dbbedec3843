-- ===== src/Finding/Laws.antt =====
-- The worst-first sort, the worst status and the summary of internal/finding/finding.go.
use mathlib.Core.List.{Perm}
use galera_doctor.Prelude.{
  ℕ, suc, ◌+◌, ◌≤◌, ◌<◌, ◌≡◌, refl, sym, ◌∙◌, Bool, true, false, ◌&&◌, ◌⊎◌, inl, inr, Bool-cases,
  leb, List, [], ◌∷◌, Memᴰ, arith, length, filter, All, eqb, ltb, ◌==◌, eq_iff, if◌then◌else◌,
}
use galera_doctor.Go.Order.{
  IsWeakOrder, str_lt-IsWeakOrder, str_lt-total, str_lt_irrefl, lex-IsWeakOrder,
}
use galera_doctor.Go.Text.{str_lt}
use galera_doctor.Go.Sort.Laws.{IsSorted, sort_by-IsSorted, sort_by-perm, filter-sort_by}
use galera_doctor.Go.Map.{Map, get_or, put, get, get-put}
use galera_doctor.Finding.{
  Finding, Status, ok, warn, bad, error, severity, at_least, summarize_from, summarize, worst_from,
  worst, before, sort_worst_first,
}

get_or-start :
    (s : Status) → get_or {V = ℕ} s 0 ((ok, 0) ∷ (warn, 0) ∷ (bad, 0) ∷ (error, 0) ∷ []) ≡ 0
unfolding get_or get
get_or-start s = ground (arith, eq_iff ok s, eq_iff warn s, eq_iff bad s, eq_iff error s)

module _ {ℓ} {F : Type ℓ} where
  by_target : IsWeakOrder (λ (a b : Finding F). str_lt a.target b.target)
  by_target = record {
    asym = λ a b. str_lt-IsWeakOrder.asym a.target b.target;
    neg_trans = λ a b c. str_lt-IsWeakOrder.neg_trans a.target b.target c.target;
  }

  by_check : IsWeakOrder (λ (a b : Finding F). str_lt a.check b.check)
  by_check = record {
    asym = λ a b. str_lt-IsWeakOrder.asym a.check b.check;
    neg_trans = λ a b c. str_lt-IsWeakOrder.neg_trans a.check b.check c.check;
  }

  by_severity : IsWeakOrder (λ (a b : Finding F). ltb (severity b.status) (severity a.status))
  by_severity = record { asym = λ a b h. ground arith; neg_trans = λ a b c h k. ground arith }

  same_check_apart :
      (a b : Finding F)
      → (a.check == b.check) ≡ true
      → (str_lt a.check b.check ≡ false) × (str_lt b.check a.check ≡ false)
  same_check_apart a b h =
      ground (arith, eq_iff a.check b.check, str_lt_irrefl a.check, str_lt_irrefl b.check)

  pub before-IsWeakOrder : IsWeakOrder (before {F = F})
  unfolding before
  before-IsWeakOrder =
      lex-IsWeakOrder _ _ _ by_severity
        (lex-IsWeakOrder _ _ _ by_check by_target same_check_apart
          (λ a b h k. (eq_iff a.check b.check).1 (str_lt-total a.check b.check h k)))
        (λ a b h. ground arith) (λ a b h k. ground arith)

  -- no finding stands after one that it comes before
  sort_worst_first-IsSorted : (fs : List (Finding F)) → IsSorted before (sort_worst_first fs)
  unfolding sort_worst_first
  sort_worst_first-IsSorted fs = sort_by-IsSorted before before-IsWeakOrder fs

  -- The sort keeps every finding, as often as it is there.
  pub sort_worst_first-perm : (fs : List (Finding F)) → Perm (sort_worst_first fs) fs
  unfolding sort_worst_first
  sort_worst_first-perm fs = sort_by-perm before fs

  abbrev pub same_place : Finding F → Finding F → Bool
  same_place a b =
      eqb (severity a.status) (severity b.status) && (a.check == b.check) && (a.target == b.target)

  same_place-eq :
      (a b : Finding F)
      → same_place a b ≡ true
      → (severity a.status ≡ severity b.status) × (a.check ≡ b.check) × (a.target ≡ b.target)
  same_place-eq a b h = ground (arith, eq_iff a.check b.check, eq_iff a.target b.target)

  before-eq_place :
      (a b : Finding F)
      → severity a.status ≡ severity b.status
      → a.check ≡ b.check
      → a.target ≡ b.target
      → before a b ≡ false
  unfolding before
  before-eq_place a b p q r =
      ground (arith, eq_iff a.check b.check, rw r at (str_lt_irrefl a.target))

  same_place-before :
      (x a b : Finding F) → same_place x a ≡ true → same_place x b ≡ true → before a b ≡ false
  same_place-before x a b h k =
      let (p, q, r) = same_place-eq x a h in
      let (p', q', r') = same_place-eq x b k in
      before-eq_place a b (sym p ∙ p') (sym q ∙ q') (sym r ∙ r')

  -- what may stand before another finding in a report
  abbrev pub WorstFirst : Finding F → Finding F → Type 0
  WorstFirst a b =
      (severity b.status < severity a.status)
      ⊎ ((severity a.status ≡ severity b.status)
          × ((str_lt a.check b.check ≡ true)
              ⊎ ((a.check ≡ b.check) × (str_lt b.target a.target ≡ false))))

  abbrev pub IsWorstFirst : List (Finding F) → Type 0
  IsWorstFirst [] = Unit
  IsWorstFirst (x ∷ xs) = All (WorstFirst x) xs × IsWorstFirst xs

  before-WorstFirst : (a b : Finding F) → before b a ≡ false → WorstFirst a b
  unfolding before
  before-WorstFirst a b h = elim (Bool-cases (ltb (severity b.status) (severity a.status))) [
    | inl e ↦ inl (ground (arith, e))
    | inr e ↦
        let s : severity a.status ≡ severity b.status = ground (arith, h, e) in
        inr (
          s,
          elim (Bool-cases (b.check == a.check)) [
            | inl c ↦ inr (sym ((eq_iff b.check a.check).0 c), ground (arith, h, s, c))
            | inr c ↦ elim (Bool-cases (str_lt a.check b.check)) [
              | inl l ↦ inl l
              | inr l ↦
                  let k : str_lt b.check a.check ≡ false = ground (arith, h, s, c) in
                  absurd
                    (ground (arith, c, eq_iff b.check a.check, str_lt-total b.check a.check k l))
            ]
          ],
        )
  ]

  IsSorted-IsWorstFirst : (fs : List (Finding F)) → IsSorted before fs → IsWorstFirst fs
  IsSorted-IsWorstFirst [] h = tt
  IsSorted-IsWorstFirst (x ∷ xs) (h, k) = (go xs h, IsSorted-IsWorstFirst xs k)
    where
      go : (ys : List (Finding F)) → All (λ y. before y x ≡ false) ys → All (WorstFirst x) ys
      go [] t = tt
      go (y ∷ ys) (t, ts) = (before-WorstFirst x y t, go ys ts)

  -- The sort is stable: findings of one severity, check and target keep their order.
  pub sort_worst_first_stable :
      (x : Finding F) (fs : List (Finding F))
      → filter (same_place x) (sort_worst_first fs) ≡ filter (same_place x) fs
  unfolding sort_worst_first
  sort_worst_first_stable x fs =
      filter-sort_by before (same_place x) fs (λ a b. same_place-before x a b)

  -- The sort keeps every finding, as often as it is there; no finding stands after a less severe one,
  -- and of one severity they go by check, then by target; those that share all three keep their order.
  pub sort_worst_first-IsWorstFirst :
      (x : Finding F) (fs : List (Finding F))
      → Perm (sort_worst_first fs) fs
        × IsWorstFirst (sort_worst_first fs)
        × (filter (same_place x) (sort_worst_first fs) ≡ filter (same_place x) fs)
  sort_worst_first-IsWorstFirst x fs = (
    sort_worst_first-perm fs,
    IsSorted-IsWorstFirst (sort_worst_first fs) (sort_worst_first-IsSorted fs),
    sort_worst_first_stable x fs,
  )

  severity-worst_from :
      (w : Status) (fs : List (Finding F)) → severity w ≤ severity (worst_from w fs)
  unfolding worst_from at_least
  severity-worst_from w [] = omega arith
  severity-worst_from w (f ∷ fs) =
      ground (arith, severity-worst_from f.status fs, severity-worst_from w fs)

  worst_from_bound :
      (w : Status) (fs : List (Finding F))
      → All (λ f. severity f.status ≤ severity (worst_from w fs)) fs
  unfolding worst_from at_least
  worst_from_bound w [] = tt
  worst_from_bound w (f ∷ fs) =
      let w' = if leb (severity w) (severity f.status) then f.status else w in
      (ground (arith, severity-worst_from w' fs), worst_from_bound w' fs)

  worst_from_attained :
      (w : Status) (fs : List (Finding F))
      → (worst_from w fs ≡ w) ⊎ ((f : Finding F) × Memᴰ f fs × (f.status ≡ worst_from w fs))
  unfolding worst_from at_least
  worst_from_attained w [] = inl refl
  worst_from_attained w (f ∷ fs) = elim (Bool-cases (leb (severity w) (severity f.status))) [
    | inl e ↦ rw e (elim (worst_from_attained f.status fs) [
      | inl p ↦ inr (f, Memᴰ.head refl, sym p)
      | inr (g, m, p) ↦ inr (g, Memᴰ.tail m, p)
    ])
    | inr e ↦ rw e (elim (worst_from_attained w fs) [
      | inl p ↦ inl p
      | inr (g, m, p) ↦ inr (g, Memᴰ.tail m, p)
    ])
  ]

  to_at_least :
      (w : Status) (gs : List (Finding F))
      → All (λ f. severity f.status ≤ severity w) gs
      → All (λ f. at_least w f.status ≡ true) gs
  unfolding at_least
  to_at_least w [] h = tt
  to_at_least w (g ∷ gs) (h, hs) = (ground arith, to_at_least w gs hs)

  attained :
      (fs : List (Finding F))
      → ((fs ≡ []) × (worst fs ≡ ok)) ⊎ ((f : Finding F) × Memᴰ f fs × (f.status ≡ worst fs))
  unfolding worst worst_from
  attained [] = inl (refl, refl)
  attained (f ∷ fs) =
      let first : (if at_least f.status ok then f.status else ok) ≡ f.status =
        (unfold at_least severity in ground arith) in
      rw first (elim (worst_from_attained f.status fs) [
        | inl p ↦ inr (f, Memᴰ.head refl, sym p)
        | inr (g, m, p) ↦ inr (g, Memᴰ.tail m, p)
      ])

  -- No finding is above the worst status, which is that of a finding; with no finding it is OK.
  pub worst-IsGreatest :
      (fs : List (Finding F))
      → All (λ f. at_least (worst fs) f.status ≡ true) fs
        × (((fs ≡ []) × (worst fs ≡ ok)) ⊎ ((f : Finding F) × Memᴰ f fs × (f.status ≡ worst fs)))
  unfolding worst
  worst-IsGreatest fs = (to_at_least (worst_from ok fs) fs (worst_from_bound ok fs), attained fs)

  abbrev pub count_status : Status → List (Finding F) → ℕ
  count_status s fs = length (filter (λ f. f.status == s) fs)

  get_or-summarize_from :
      (s : Status) (out : Map ℕ) (fs : List (Finding F))
      → get_or s 0 (summarize_from out fs) ≡ get_or s 0 out + count_status s fs
  unfolding summarize_from filter get_or
  get_or-summarize_from s out [] = omega arith
  get_or-summarize_from s out (f ∷ fs) = ground (
    arith,
    get_or-summarize_from s (put f.status (suc (get_or f.status 0 out)) out) fs,
    get-put f.status s (suc (get_or f.status 0 out)) out,
    eq_iff f.status s,
  )

  -- Summarize counts, for every status, the findings that have it.
  pub summarize_counts :
      (s : Status) (fs : List (Finding F)) → get_or s 0 (summarize fs) ≡ count_status s fs
  unfolding summarize
  summarize_counts s fs =
      let start : Map ℕ = (ok, 0) ∷ (warn, 0) ∷ (bad, 0) ∷ (error, 0) ∷ [] in
      omega (arith, get_or-summarize_from s start fs, get_or-start s)
