-- ===== src/Go/Sort.antt =====
-- sort.SliceStable and sort.Strings: a stable sort by a Boolean `less`.
pub mod Laws
use galera_doctor.Prelude.{Bool, String, List, [], ◌∷◌, if◌then◌else◌}
use galera_doctor.Go.Text.{str_lt}

module _ {ℓ} {A : Type ℓ} (less : A → A → Bool) where
  unfoldable pub insert_by : A → List A → List A
  insert_by x [] = x ∷ []
  insert_by x (y ∷ ys) = let rest = insert_by x ys in if less y x then y ∷ rest else x ∷ y ∷ ys

  unfoldable pub sort_by : List A → List A
  unfolding insert_by
  sort_by [] = []
  sort_by (x ∷ xs) = insert_by x (sort_by xs)

-- sort.Strings
unfoldable pub sort_strings : List String → List String
unfolding sort_by str_lt
sort_strings = sort_by str_lt
