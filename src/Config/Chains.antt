-- ===== src/Config/Chains.antt =====
-- Chains of fallible steps: what their steps gave where the whole chain succeeded.
use galera_doctor.Prelude.{String, ◌≡◌, refl, ap, Bool, true, false, arith}
use galera_doctor.Config.Expand.{Result, done, fail, ◌>>=◌, ◌>>◌, guard}

-- a chain that is done: its first step is, and the rest on what that gave
pub bind-done {ℓ κ} :
    {A : Type ℓ} {B : Type κ} (m : Result A) (f : A → Result B) (b : B)
    → (m >>= f) ≡ done b
    → (a : A) × (m ≡ done a) × (f a ≡ done b)
bind-done (done a) f b e = (a, refl, e)
bind-done (fail t) f b e = absurd (ground (arith, e))

pub guard-done {κ} :
    {B : Type κ} (c : Bool) (t : String) (k : Result B) (b : B)
    → (guard c t >> k) ≡ done b
    → (c ≡ true) × (k ≡ done b)
guard-done true t k b e = (refl, e)
guard-done false t k b e = absurd (ground (arith, e))

pub guard-true : (c : Bool) (t : String) → guard c t ≡ done tt → c ≡ true
guard-true true t e = refl
guard-true false t e = absurd (ground (arith, e))

pub done-eq {ℓ} : {A : Type ℓ} (a b : A) → done a ≡ done b → a ≡ b
done-eq a b e = ap (λ r. elim r [ done x ↦ x | fail t ↦ a ]) e
