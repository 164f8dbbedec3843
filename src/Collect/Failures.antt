-- ===== src/Collect/Failures.antt =====
-- What fails and what does not in Collect of internal/cluster/collect.go.
use Prim.Native.Char.{Char}
use Prim.Native.String.append as clauses
use galera_doctor.Prelude.{
  String, ◌≡◌, refl, sym, ap, ◌∙◌, ◌≢◌, ◌⊎◌, inl, inr, Bool, true, false, Option, none, some, [],
  arith, Bool-cases, Option-cases, ◌==◌, ◌<>◌, eq_iff,
}
use galera_doctor.Go.Text.{strip_prefix, cut}
use galera_doctor.Go.Words.{replace_all, replace_from, before_last}
use galera_doctor.Go.Float.{Float}
use galera_doctor.Cluster.{Node, readable}
use galera_doctor.Collect.Times.{redact, redact_credentials}
use galera_doctor.Collect.Nodes.{Connection, Switches, Library, collect}

abbrev has_char : String → Bool
has_char String.[] = false
has_char (String.◌∷◌ c s) = true

cons-empty : (c : Char) (s : String) → String.◌∷◌ c s ≢ ""
cons-empty c s e = let b : true ≡ false = ap has_char e in ground (arith, b)

-- what a text starts with keeps it from being empty
append-empty : (s t : String) → s <> t ≡ "" → s ≡ ""
append-empty String.[] t e = refl
append-empty (String.◌∷◌ c s) t e = absurd (cons-empty c (s <> t) (sym (clauses.cons c s t) ∙ e))

replace_from-empty :
    (c : Char) (s old new : String) → new ≢ "" → replace_from 0 old new (String.◌∷◌ c s) ≢ ""
unfolding replace_from
replace_from-empty c s old new h = elim (Option-cases (strip_prefix old (String.◌∷◌ c s))) [
  | inl p ↦ rw (replace_from, p) (cons-empty c (replace_from 0 old new s))
  | inr (r, p) ↦ rw (replace_from, p) (λ e. h (append-empty new _ e))
]

replace_all-empty : (s old new : String) → new ≢ "" → replace_all s old new ≡ "" → s ≡ ""
unfolding replace_all
replace_all-empty String.[] old new h e = refl
replace_all-empty (String.◌∷◌ c s) old new h e = absurd (replace_from-empty c s old new h e)

redact_credentials-empty :
    (msg : String) (creds : Option String) → redact_credentials msg creds ≡ "" → msg ≡ ""
unfolding redact_credentials
redact_credentials-empty msg none e = e
redact_credentials-empty msg (some creds) e = elim (Bool-cases (creds == "")) [
  | inl p ↦ ground (arith, e, p)
  | inr p ↦
      replace_all-empty msg creds "<credentials>" (cons-empty _ _)
        (elim (Option-cases (cut ":" creds)) [
          | inl q ↦ ground (arith, e, p, q)
          | inr ((user, pass), q) ↦ elim (Bool-cases (pass == "")) [
            | inl z ↦ ground (arith, e, p, q, z)
            | inr z ↦
                replace_all-empty _ pass "<password>" (cons-empty _ _) (ground (arith, e, p, q, z))
          ]
        ])
]

-- a text that is redacted does not vanish
redact-empty : (msg dsn : String) → redact msg dsn ≡ "" → msg ≡ ""
unfolding redact
redact-empty msg dsn e = elim (Bool-cases (dsn == "")) [
  | inl p ↦ ground (arith, e, p)
  | inr p ↦
      replace_all-empty msg dsn "<dsn>" (cons-empty _ _)
        (redact_credentials-empty _ (before_last b'@' dsn) (ground (arith, e, p)))
]

redact-test : (msg dsn : String) → msg ≢ "" → (redact msg dsn == "") ≡ false
redact-test msg dsn h = ground (arith, h, eq_iff (redact msg dsn) "", redact-empty msg dsn)

module _ {ℓ} (F : Type ℓ) ⦃fl : Float F⦄ (lib : Library) (sw : Switches) where
  -- A node that cannot be opened or does not answer the ping is not readable, and nothing is sent to it.
  pub collect-unreachable :
      (c : Connection) (n : Node)
      → (c.open_error ≢ "") ⊎ (c.ping_error ≢ "")
      → (readable ((collect {F = F} lib sw c n).1) ≡ false) × ((collect {F = F} lib sw c n).0 ≡ [])
  unfolding collect readable
  collect-unreachable c n h = elim (Bool-cases (c.open_error == "")) [
    | inr e ↦
        rw e
          (redact-test c.open_error n.dsn (λ p. ground (arith, e, eq_iff c.open_error "", p)), refl)
    | inl e ↦
        let pinged : c.ping_error ≢ "" = ground (arith, e, h, eq_iff c.open_error "") in
        let q : (c.ping_error == "") ≡ false = ground (arith, pinged, eq_iff c.ping_error "") in
        rw (e, q) (redact-test c.ping_error n.dsn pinged, refl)
  ]
