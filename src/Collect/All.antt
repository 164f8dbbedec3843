-- ===== src/Collect/All.antt =====
-- CollectAll of internal/cluster/collect.go: a goroutine for each node, and as many receives as there are
-- nodes.
use galera_doctor.Prelude.{ℕ, zero, suc, ◌≡◌, Option, none, some, List, [], ◌∷◌, ◌++◌, length}

-- what is shared: the slots of `snaps`, the goroutines that run, each with its `i` and `n`, what is in
-- the channel `done`, and how many receives the caller still makes
pub record Progress {ℓ κ} (A : Type ℓ) (B : Type κ) : Type (ℓ ⊔ κ) where
  pub slots : List (Option B)
  pub running : List (ℕ × A)
  pub channel : List ℕ
  pub waiting : ℕ

-- snaps[i] = b; outside the slots there is nothing to assign
unfoldable pub put_slot {κ} : {B : Type κ} → ℕ → B → List (Option B) → List (Option B)
put_slot i b [] = []
put_slot zero b (slot ∷ slots) = some b ∷ slots
put_slot (suc i) b (slot ∷ slots) = slot ∷ put_slot i b slots

module _ {ℓ} {A : Type ℓ} where
  -- the `go` statements of the loop, from the index on
  unfoldable pub goroutines : ℕ → List A → List (ℕ × A)
  goroutines i [] = []
  goroutines i (n ∷ nodes) = (i, n) ∷ goroutines (suc i) nodes

  -- make([]Snapshot, len(nodes))
  unfoldable pub empty_slots {κ} : (B : Type κ) → List A → List (Option B)
  empty_slots B [] = []
  empty_slots B (n ∷ nodes) = none ∷ empty_slots B nodes

  -- after the loop of `go` statements
  unfoldable pub started {κ} : (B : Type κ) → List A → Progress A B
  unfolding goroutines empty_slots
  started B nodes = record {
    slots = empty_slots B nodes;
    running = goroutines 0 nodes;
    channel = [];
    waiting = length nodes;
  }

-- A step of the program: some goroutine stores its snapshot and sends its index, which the channel always
-- has room for, or the caller receives one. `x` is what Collect makes of a node.
pub data Step {ℓ κ} {A : Type ℓ} {B : Type κ} (x : A → B) (p q : Progress A B) : Type (ℓ ⊔ κ) where
  stores :
      (before after : List (ℕ × A)) (i : ℕ) (n : A)
      → p.running ≡ before ++ (i, n) ∷ after
      → q ≡ record {
        slots = put_slot i (x n) p.slots;
        running = before ++ after;
        channel = p.channel ++ i ∷ [];
        waiting = p.waiting;
      }
      → Step x p q
  receives :
      (i : ℕ) (rest : List ℕ) (left : ℕ)
      → p.channel ≡ i ∷ rest
      → p.waiting ≡ suc left
      → q ≡ record { slots = p.slots; running = p.running; channel = rest; waiting = left }
      → Step x p q

pub data Reach {ℓ κ} {A : Type ℓ} {B : Type κ} (x : A → B) (p : Progress A B)
    : Progress A B → Type (ℓ ⊔ κ) where
  here : Reach x p p
  next : {q r : Progress A B} → Reach x p q → Step x q r → Reach x p r
