-- ===== src/Go/Order.antt =====
-- The order of strings is a strict total order, and the rules for building orders that sorts need.
use Prim.Native.Nat.{Ordering}
use Prim.Native.String.{compare}
use Prim.Native.String.compare as clauses
use text.Mathlib.Text.{is_le}
use text.Mathlib.TextEquality.{path_by_compare}
use text.Mathlib.TextPositions.{compare_refl}
use galera_doctor.Prelude.{String, ◌≡◌, refl, Bool, true, false, not, arith, if◌then◌else◌}
use galera_doctor.Go.Text.{str_lt}

-- `less` orders classes of equal elements.
pub record IsWeakOrder {ℓ} {A : Type ℓ} (less : A → A → Bool) : Type ℓ where
  pub asym : (a b : A) → less a b ≡ true → less b a ≡ false
  pub neg_trans : (a b c : A) → less b a ≡ false → less c b ≡ false → less c a ≡ false

abbrev flip : Ordering → Ordering
flip Ordering.lt = Ordering.gt
flip Ordering.eq = Ordering.eq
flip Ordering.gt = Ordering.lt

pub compare-flip : (s t : String) → compare t s ≡ flip (compare s t)
compare-flip String.[] String.[] = rw compare_refl
compare-flip String.[] (String.◌∷◌ d t) = rw (clauses.cons-nil d t, clauses.nil-cons d t)
compare-flip (String.◌∷◌ c s) String.[] = rw (clauses.cons-nil c s, clauses.nil-cons c s)
compare-flip (String.◌∷◌ c s) (String.◌∷◌ d t) =
    rw (clauses.cons-cons c d s t, clauses.cons-cons d c t s) (ground (arith, compare-flip s t))

-- at most: not after
compare-le_trans :
    (s t u : String)
    → is_le (compare s t) ≡ true
    → is_le (compare t u) ≡ true
    → is_le (compare s u) ≡ true
compare-le_trans String.[] String.[] u h k = k
compare-le_trans String.[] (String.◌∷◌ d t) String.[] h k = refl
compare-le_trans String.[] (String.◌∷◌ d t) (String.◌∷◌ e u) h k = rw (clauses.nil-cons e u)
compare-le_trans (String.◌∷◌ c s) String.[] u h k = cc (clauses.cons-nil c s)
compare-le_trans (String.◌∷◌ c s) (String.◌∷◌ d t) String.[] h k = cc (clauses.cons-nil d t)
compare-le_trans (String.◌∷◌ c s) (String.◌∷◌ d t) (String.◌∷◌ e u) h k = ground (
  arith,
  clauses.cons-cons c d s t,
  clauses.cons-cons d e t u,
  clauses.cons-cons c e s u,
  compare-le_trans s t u,
)

pub str_lt-IsWeakOrder : IsWeakOrder str_lt
unfolding str_lt
str_lt-IsWeakOrder = record {
  asym = λ a b h. ground (arith, compare-flip a b);
  neg_trans = λ a b c h k.
      ground (arith, compare-flip a b, compare-flip b c, compare-flip a c, compare-le_trans a b c);
}

pub str_lt_irrefl : (a : String) → str_lt a a ≡ false
unfolding str_lt
str_lt_irrefl a = rw compare_refl

-- Two strings neither of which comes first are one.
pub str_lt-total : (a b : String) → str_lt a b ≡ false → str_lt b a ≡ false → a ≡ b
unfolding str_lt
str_lt-total a b h k = ground (arith, compare-flip a b, path_by_compare a b)

-- A weak order, refined by another where it does not tell two elements apart.
module _ {ℓ} {A : Type ℓ} (same first second : A → A → Bool) where
  abbrev pub lex : A → A → Bool
  lex a b = if not (same a b) then first a b else second a b

  module _ (one : IsWeakOrder first) (two : IsWeakOrder second)
      (apart : (a b : A) → same a b ≡ true → (first a b ≡ false) × (first b a ≡ false))
      (equal : (a b : A) → first a b ≡ false → first b a ≡ false → same a b ≡ true) where
    pub lex-IsWeakOrder : IsWeakOrder lex
    lex-IsWeakOrder = record {
      asym = λ a b h.
          ground (arith, one.asym a b, two.asym a b, apart a b, apart b a, equal a b, equal b a);
      neg_trans = λ a b c h k. ground (
        arith,
        one.neg_trans a b c,
        one.neg_trans c a b,
        one.neg_trans b c a,
        two.neg_trans a b c,
        one.asym b a,
        one.asym a c,
        one.asym c b,
        apart a b,
        apart b a,
        apart b c,
        apart c b,
        apart a c,
        apart c a,
        equal a b,
        equal b a,
        equal b c,
        equal c b,
        equal c a,
      );
    }
