-- ===== src/Go/Words.antt =====
-- More of Go's `strings`: Fields, HasSuffix with TrimSuffix, ReplaceAll and LastIndex.
use Prim.Native.Char.{Char, code}
use Prim.Native.String.{len}
use galera_doctor.Prelude.{
  ℕ, zero, suc, ◌-◌, String, ◌≡◌, refl, Bool, true, false, Option, none, some, List, [], ◌∷◌, eqb,
  if◌then◌else◌, ◌==◌, ◌<>◌, take,
}
use galera_doctor.Go.Text.{is_space, strip_prefix, join}

-- a character in front of the fields that follow: `open` tells whether the next character is part of
-- the first of them
add_to_field : Char → Bool × List String → Bool × List String
unfolding is_space
add_to_field c (open_field, fs) = if is_space c then (false, fs) else (
  true,
  elim fs [
    | [] ↦ String.◌∷◌ c "" ∷ []
    | f ∷ rest ↦ if open_field then String.◌∷◌ c f ∷ rest else String.◌∷◌ c "" ∷ f ∷ rest
  ],
)

fields_from : String → Bool × List String
unfolding add_to_field
fields_from String.[] = (false, [])
fields_from (String.◌∷◌ c s) = add_to_field c (fields_from s)

-- strings.Fields
unfoldable pub fields : String → List String
unfolding fields_from
fields s = (fields_from s).1

-- the first n fields, joined by single spaces
unfoldable pub first_words : String → ℕ → String
unfolding fields
first_words s n = join (take n (fields s)) " "

-- strings.TrimSuffix, of a suffix that is not empty
unfoldable pub trim_suffix : String → String → String
trim_suffix String.[] suffix = ""
trim_suffix (String.◌∷◌ c s) suffix =
    let rest = trim_suffix s suffix in if String.◌∷◌ c s == suffix then "" else String.◌∷◌ c rest

-- strings.ReplaceAll of a text that is not empty: `skip` characters belong to the last occurrence
unfoldable pub replace_from : ℕ → String → String → String → String
unfolding strip_prefix
replace_from skip old new String.[] = ""
replace_from (suc skip) old new (String.◌∷◌ c s) = replace_from skip old new s
replace_from zero old new (String.◌∷◌ c s) = elim (strip_prefix old (String.◌∷◌ c s)) [
  | none ↦ String.◌∷◌ c (replace_from 0 old new s)
  | some rest ↦ new <> replace_from (len old - 1) old new s
]

unfoldable pub replace_all : String → String → String → String
unfolding replace_from
replace_all s old new = replace_from 0 old new s

-- what stands before the last occurrence of a character
unfoldable pub before_last : ℕ → String → Option String
before_last sep String.[] = none
before_last sep (String.◌∷◌ c s) = elim (before_last sep s) [
  | some before ↦ some (String.◌∷◌ c before)
  | none ↦ if eqb (code c) sep then some "" else none
]

words_run :
    (fields "  a bc\td " ≡ "a" ∷ "bc" ∷ "d" ∷ [])
    × (first_words "select 1  from x y" 4 ≡ "select 1 from x")
    × (trim_suffix "a;b;" ";" ≡ "a;b")
    × (replace_all "u:p@h and u:p" "u:p" "<c>" ≡ "<c>@h and <c>")
    × (replace_all "aaaa" "aa" "b" ≡ "bb")
    × (before_last b'@' "u:p@x@h" ≡ some "u:p@x")
unfolding fields first_words trim_suffix replace_all before_last join
words_run = (refl, refl, refl, refl, refl, refl)
