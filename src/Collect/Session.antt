-- ===== src/Collect/Session.antt =====
-- Talking to a server, of internal/cluster/collect.go: Query, and the rows of an answer. A session is the
-- statements it sent and what came of it; what the server answers to a statement is a parameter, and so
-- is the text of the driver's error for a cell that cannot be scanned.
use galera_doctor.Prelude.{
  String, Option, none, some, List, [], ◌∷◌, ◌++◌, if◌then◌else◌, ◌==◌, ◌<>◌,
}
use galera_doctor.Go.Words.{first_words}
use galera_doctor.Config.Expand.{Result, done, fail}
use galera_doctor.Collect.Gate.{read_only}

-- a cell: NULL, or its text
abbrev pub Cell : Type 0
Cell = Option String

-- the rows that arrive before the end, or before an error, which is rows.Err()
pub record Rows : Type 0 where
  pub columns : List String
  pub rows : List (List Cell)
  pub end : String

-- a statement with the values of its placeholders
abbrev pub Statement : Type 0
Statement = String × List String

abbrev pub Server : Type 0
Server = Statement → Result Rows

abbrev pub Session {ℓ} : Type ℓ → Type ℓ
Session A = List Statement × Result A

module _ {ℓ} {A : Type ℓ} where
  abbrev pub give : A → Session A
  give a = ([], done a)

  abbrev pub stop : String → Session A
  stop e = ([], fail e)

  -- a step that sends nothing
  abbrev pub lift : Result A → Session A
  lift r = ([], r)

  -- what an error leaves: the value that stands for it
  unfoldable pub or_default : A → Session A → List Statement × A
  or_default d (sent, r) = (sent, elim r [ done a ↦ a | fail e ↦ d ])

-- the session of a first step and of the next one on its value
unfoldable pub then_ask {ℓ κ} : {A : Type ℓ} {B : Type κ} → Session A → (A → Session B) → Session B
then_ask (sent, fail e) f = (sent, fail e)
then_ask (sent, done a) f = let (more, r) = f a in (sent ++ more, r)

-- a second statement where the first one fails
unfoldable pub or_ask {ℓ} : {A : Type ℓ} → Session A → Session A → Session A
or_ask (sent, done a) other = (sent, done a)
or_ask (sent, fail e) other = let (more, r) = other in (sent ++ more, r)

-- ErrNotReadOnly's text, with the words unquoted
unfoldable pub refusal : String → String
unfolding first_words
refusal q = "refused: galera-doctor only issues SHOW and SELECT, got " <> first_words q 6

-- Query
unfoldable pub query : Server → String → List String → Session Rows
unfolding read_only refusal
query server q args =
    if read_only q then ((q, args) ∷ [], server (q, args)) else ([], fail (refusal q))

-- the loop of rows.Next() and rows.Scan: the first row that cannot be scanned stops it
unfoldable pub scan_all {ℓ} :
    {A : Type ℓ} → (List Cell → Result A) → List (List Cell) → Result (List A)
scan_all scan [] = done []
scan_all scan (r ∷ rs) = elim (scan r) [
  | fail e ↦ fail e
  | done a ↦ elim (scan_all scan rs) [ fail e ↦ fail e | done xs ↦ done (a ∷ xs) ]
]

-- rows.Err() after the loop
unfoldable pub check_end {ℓ} : {A : Type ℓ} → String → A → Result A
check_end end a = if end == "" then done a else fail end

-- the rows of one statement, scanned
unfoldable pub read_rows {ℓ} : {A : Type ℓ} → (List Cell → Result A) → Rows → Result (List A)
unfolding scan_all check_end
read_rows scan r = elim (scan_all scan r.rows) [ fail e ↦ fail e | done xs ↦ check_end r.end xs ]

-- the texts of a row without NULL
unfoldable pub texts : List Cell → Option (List String)
texts [] = some []
texts (none ∷ cells) = none
texts (some v ∷ cells) = elim (texts cells) [ none ↦ none | some vs ↦ some (v ∷ vs) ]
