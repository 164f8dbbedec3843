-- ===== src/Go/Text.antt =====
-- Go's `strings`, `fmt` and `strconv`, as far as the program uses them. A Go string is a native
-- `String`: valid UTF-8, whose order by characters is the order of its bytes. Folding of letters and
-- trimming of white space cover ASCII.
use Prim.Native.Char.{Char, code}
use Prim.Native.String.{char_at, compare}
use text.Mathlib.Text.{is_lt}
use galera_doctor.Prelude.{
  ℕ, zero, suc, ◌+◌, ◌-◌, ◌/◌, ◌%◌, String, ◌≡◌, refl, Bool, true, false, ◌&&◌, ◌||◌, Option, none,
  some, List, [], ◌∷◌, ltb, leb, eqb, if◌then◌else◌, ◌==◌, ◌<>◌,
}
use galera_doctor.Prelude.Int.{ℤ, pos, negsuc}

-- a < b on strings
unfoldable pub str_lt : String → String → Bool
str_lt a b = is_lt (compare a b)

upper_letters : String
upper_letters = "ABCDEFGHIJKLMNOPQRSTUVWXYZ"

lower_letters : String
lower_letters = "abcdefghijklmnopqrstuvwxyz"

lower_char : Char → Char
unfolding lower_letters
lower_char c = if leb 65 (code c) && leb (code c) 90 then char_at lower_letters (code c - 65) else c

upper_char : Char → Char
unfolding upper_letters
upper_char c =
    if leb 97 (code c) && leb (code c) 122 then char_at upper_letters (code c - 97) else c

-- strings.ToLower
unfoldable pub to_lower : String → String
unfolding lower_char
to_lower String.[] = String.[]
to_lower (String.◌∷◌ c s) = String.◌∷◌ (lower_char c) (to_lower s)

-- strings.ToUpper
unfoldable pub to_upper : String → String
unfolding upper_char
to_upper String.[] = String.[]
to_upper (String.◌∷◌ c s) = String.◌∷◌ (upper_char c) (to_upper s)

-- strings.EqualFold
unfoldable pub equal_fold : String → String → Bool
unfolding to_lower
equal_fold a b = to_lower a == to_lower b

unfoldable pub is_space : Char → Bool
is_space c = (leb 9 (code c) && leb (code c) 13) || eqb (code c) 32

trim_left : String → String
unfolding is_space
trim_left String.[] = String.[]
trim_left (String.◌∷◌ c s) = let rest = trim_left s in if is_space c then rest else String.◌∷◌ c s

-- a character in front of a trimmed tail is dropped if it is white space and nothing is left
trim_right : String → String
unfolding is_space
trim_right String.[] = String.[]
trim_right (String.◌∷◌ c s) =
    let rest = trim_right s in if is_space c && (rest == "") then "" else String.◌∷◌ c rest

-- strings.TrimSpace
unfoldable pub trim_space : String → String
unfolding trim_left trim_right
trim_space s = trim_right (trim_left s)

-- strings.HasPrefix, with what follows the prefix
unfoldable pub strip_prefix : String → String → Option String
strip_prefix String.[] s = some s
strip_prefix (String.◌∷◌ p ps) String.[] = none
strip_prefix (String.◌∷◌ p ps) (String.◌∷◌ c s) =
    let rest = strip_prefix ps s in if eqb (code p) (code c) then rest else none

-- strings.Cut: what stands before and after the first `sep`
unfoldable pub cut : String → String → Option (String × String)
unfolding strip_prefix
cut sep String.[] = elim (strip_prefix sep "") [ none ↦ none | some r ↦ some ("", r) ]
cut sep (String.◌∷◌ c s) = elim (strip_prefix sep (String.◌∷◌ c s)) [
  | some r ↦ some ("", r)
  | none ↦ elim (cut sep s) [ none ↦ none | some (a, b) ↦ some (String.◌∷◌ c a, b) ]
]

-- strings.Contains
unfoldable pub contains : String → String → Bool
unfolding cut
contains s sub = elim (cut sub s) [ none ↦ false | some p ↦ true ]

-- strings.Split at one character; the first part is being read
push_front : Char → List String → List String
push_front c [] = String.◌∷◌ c "" ∷ []
push_front c (p ∷ ps) = String.◌∷◌ c p ∷ ps

unfoldable pub split : String → ℕ → List String
unfolding push_front
split String.[] sep = "" ∷ []
split (String.◌∷◌ c s) sep =
    let rest = split s sep in if eqb (code c) sep then "" ∷ rest else push_front c rest

-- strings.Join
unfoldable pub join : List String → String → String
join [] sep = ""
join (s ∷ []) sep = s
join (s ∷ t ∷ ts) sep = s <> sep <> join (t ∷ ts) sep

digit : ℕ → String
digit d = String.◌∷◌ (char_at "0123456789" d) ""

-- fuel: a number below 2 ^ 64 has at most 20 digits
print_digits : ℕ → ℕ → String → String
unfolding digit
print_digits zero n out = out
print_digits (suc fuel) n out =
    let out' = digit (n % 10) <> out in
    let rest = print_digits fuel (n / 10) out' in if ltb n 10 then out' else rest

-- %d of a number below 2 ^ 64
unfoldable pub fmt_ℕ : ℕ → String
unfolding print_digits
fmt_ℕ n = print_digits 20 n ""

-- %d
unfoldable pub fmt_ℤ : ℤ → String
unfolding fmt_ℕ
fmt_ℤ (pos n) = fmt_ℕ n
fmt_ℤ (negsuc n) = "-" <> fmt_ℕ (n + 1)

texts_run :
    (to_lower "WSREP_on" ≡ "wsrep_on")
    × (trim_space "  a b\n " ≡ "a b")
    × (split "a;;b" b';' ≡ "a" ∷ "" ∷ "b" ∷ [])
    × (cut "://" "gcomm://x" ≡ some ("gcomm", "x"))
    × (join ("a" ∷ "b" ∷ "c" ∷ []) ", " ≡ "a, b, c")
    × (fmt_ℤ (negsuc 1233) ≡ "-1234")
    × (str_lt "ab" "b" ≡ true)
    × (contains "x;y" ";" ≡ true)
unfolding to_lower trim_space split cut join fmt_ℤ str_lt contains
texts_run = (refl, refl, refl, refl, refl, refl, refl, refl)
