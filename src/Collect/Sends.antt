-- ===== src/Collect/Sends.antt =====
-- Sessions of internal/cluster/collect.go that send only what the gate passes, step by step.
use galera_doctor.Prelude.{
  String, ◌≡◌, Bool, true, false, List, [], ◌++◌, All, All-append, Bool-cases, inl, inr,
}
use galera_doctor.Config.Expand.{Result, done, fail}
use galera_doctor.Collect.Gate.{read_only}
use galera_doctor.Collect.Session.{
  Rows, Server, Session, Statement, then_ask, or_ask, or_default, query,
}
use galera_doctor.Collect.Nodes.{Logged, then_log, unless, optional}

-- every statement is one that the gate passes
abbrev pub IsReadOnly : List Statement → Type 0
IsReadOnly sent = All (λ st. read_only st.0 ≡ true) sent

pub append-IsReadOnly : (a b : List Statement) → IsReadOnly a → IsReadOnly b → IsReadOnly (a ++ b)
append-IsReadOnly a b p q = All-append (λ st. read_only st.0 ≡ true) a b p q

-- a session or a log whose statements are such
pub record OnlyReads {ℓ} {A : Type ℓ} (m : List Statement × A) : Type 0 where
  pub sent : IsReadOnly m.0

pub query-OnlyReads :
    (server : Server) (q : String) (args : List String) → OnlyReads (query server q args)
unfolding query
query-OnlyReads server q args = elim (Bool-cases (read_only q)) [
  | inl e ↦ record { sent = rw e (e, tt) }
  | inr e ↦ record { sent = rw e tt }
]

pub none-OnlyReads {ℓ} : {A : Type ℓ} (a : A) → OnlyReads ([], a)
none-OnlyReads a = record { sent = tt }

pub then_ask-OnlyReads {ℓ κ} :
    {A : Type ℓ} {B : Type κ} (m : Session A) (f : A → Session B)
    → OnlyReads m
    → ((a : A) → OnlyReads (f a))
    → OnlyReads (then_ask m f)
unfolding then_ask
then_ask-OnlyReads (log, fail e) f p q = record { sent = p.sent }
then_ask-OnlyReads (log, done a) f p q = record {
  sent = append-IsReadOnly log (f a).0 p.sent (q a).sent;
}

pub or_ask-OnlyReads {ℓ} :
    {A : Type ℓ} (m other : Session A) → OnlyReads m → OnlyReads other → OnlyReads (or_ask m other)
unfolding or_ask
or_ask-OnlyReads (log, done a) other p q = record { sent = p.sent }
or_ask-OnlyReads (log, fail e) other p q = record {
  sent = append-IsReadOnly log other.0 p.sent q.sent;
}

pub then_log-OnlyReads {ℓ κ} :
    {A : Type ℓ} {B : Type κ} (m : Logged A) (f : A → Logged B)
    → OnlyReads m
    → ((a : A) → OnlyReads (f a))
    → OnlyReads (then_log m f)
unfolding then_log
then_log-OnlyReads (log, a) f p q = record {
  sent = append-IsReadOnly log (f a).0 p.sent (q a).sent;
}

pub unless-OnlyReads {ℓ} :
    {A : Type ℓ} (b : Bool) (a : A) (m : Logged A) → OnlyReads m → OnlyReads (unless b a m)
unfolding unless
unless-OnlyReads true a m p = record { sent = tt }
unless-OnlyReads false a m p = p

pub optional-OnlyReads {ℓ} : {A : Type ℓ} (m : Session A) → OnlyReads m → OnlyReads (optional m)
unfolding optional
optional-OnlyReads (log, done a) p = record { sent = p.sent }
optional-OnlyReads (log, fail e) p = record { sent = p.sent }

pub or_default-OnlyReads {ℓ} :
    {A : Type ℓ} (d : A) (m : Session A) → OnlyReads m → OnlyReads (or_default d m)
unfolding or_default
or_default-OnlyReads d (log, r) p = record { sent = p.sent }

-- a statement whose rows are then scanned
pub read-OnlyReads {ℓ} :
    {A : Type ℓ} (server : Server) (q : String) (args : List String) (g : Rows → Result A)
    → OnlyReads (then_ask (query server q args) (λ r. ([], g r)))
read-OnlyReads server q args g =
    then_ask-OnlyReads (query server q args) (λ r. ([], g r)) (query-OnlyReads server q args)
      (λ r. none-OnlyReads (g r))

-- ... and made into something else
pub make-OnlyReads {ℓ κ} :
    {A : Type ℓ} {B : Type κ} (server : Server) (q : String) (args : List String)
    (g : Rows → Result A) (h : Rows → A → Result B)
    → OnlyReads (then_ask (query server q args) (λ r. then_ask ([], g r) (λ a. ([], h r a))))
make-OnlyReads server q args g h =
    then_ask-OnlyReads (query server q args) (λ r. then_ask ([], g r) (λ a. ([], h r a)))
      (query-OnlyReads server q args)
      (λ r.
        then_ask-OnlyReads ([], g r) (λ a. ([], h r a)) (none-OnlyReads (g r))
          (λ a. none-OnlyReads (h r a)))
