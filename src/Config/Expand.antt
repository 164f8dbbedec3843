-- ===== src/Config/Expand.antt =====
-- expand of internal/config/config.go: the references ${NAME} of a DSN, and how loading fails.
use Prim.Native.Char.{Char, code}
use galera_doctor.Prelude.{
  String, ◌≡◌, refl, Bool, true, false, not, ◌&&◌, ◌||◌, Option, none, some, List, [], ◌∷◌, ◌++◌,
  leb, eqb, if◌then◌else◌, ◌==◌, ◌<>◌,
}
use galera_doctor.Go.Text.{join}

-- a value, or an error's text
pub data Result {ℓ} (A : Type ℓ) : Type ℓ where
  done : A → Result A
  fail : String → Result A

infixl 5 ◌>>=◌ ◌>>◌
abbrev pub ◌>>=◌ {ℓ κ} : {A : Type ℓ} {B : Type κ} → Result A → (A → Result B) → Result B
done a >>= f = f a
fail e >>= f = fail e

abbrev pub ◌>>◌ {ℓ} : {B : Type ℓ} → Result (Unit {0}) → Result B → Result B
m >> k = m >>= λ _. k

abbrev pub guard : Bool → String → Result (Unit {0})
guard true e = done tt
guard false e = fail e

-- what the match of ${NAME} has read: nothing, a dollar, or a dollar, a brace and a part of a name
pub data Reading : Type 0 where
  outside dollar : Reading
  reading : String → Reading

-- what a character does: text to put out before the next state, or the end of a reference
pub data Step : Type 0 where
  emit : String → Reading → Step
  reference : String → Step

name_start : Char → Bool
name_start c =
    leb b'A' (code c) && leb (code c) b'Z'
    || leb b'a' (code c) && leb (code c) b'z'
    || eqb (code c) b'_'

-- a character that a name can have there
in_name : String → Char → Bool
unfolding name_start
in_name name c = name_start c || not (name == "") && leb b'0' (code c) && leb (code c) b'9'

-- what is being read, as text
unread_text : Reading → String
unread_text outside = ""
unread_text dollar = "$"
unread_text (reading name) = "${" <> name

char : Char → String
char c = String.◌∷◌ c ""

-- ReplaceAllStringFunc: the text, and the names that are not set. `lookup` is os.LookupEnv.
module _ (lookup : String → Option String) where
  -- the text of a whole reference, and the names that it misses
  unfoldable pub substitute : String → String × List String
  substitute name = elim (lookup name) [
    | some v ↦ (v, [])
    | none ↦ ("${" <> name <> "}", name ∷ [])
  ]

  next : Reading → Char → Step
  unfolding in_name unread_text char
  next r c = if eqb (code c) b'$' then emit (unread_text r) dollar else elim r [
    | outside ↦ emit (char c) outside
    | dollar ↦ if eqb (code c) b'{' then emit "" (reading "") else emit ("$" <> char c) outside
    | reading name ↦
        if in_name name c
        then emit "" (reading (name <> char c))
        else if eqb (code c) b'}' && not (name == "")
        then reference name
        else emit ("${" <> name <> char c) outside
  ]

  unfoldable pub expand_from : Reading → String → String × List String
  unfolding next substitute unread_text
  expand_from r String.[] = (unread_text r, [])
  expand_from r (String.◌∷◌ c s) = elim (next r c) [
    | emit out r' ↦ let (text, missing) = expand_from r' s in (out <> text, missing)
    | reference name ↦
        let (v, unset) = substitute name in
        let (text, missing) = expand_from outside s in (v <> text, unset ++ missing)
  ]

  unfoldable pub expand : String → Result String
  unfolding expand_from
  expand s =
      let (text, missing) = expand_from outside s in
      elim missing [
        | [] ↦ done text
        | m ∷ ms ↦ fail ("environment variable(s) not set: " <> join (m ∷ ms) ", ")
      ]

expand_run :
    (expand (λ k. if k == "DB_1" then some "pw" else none) "u:${DB_1}@$h${}$${DB_1}"
      ≡ done "u:pw@$h${}$pw")
    × (expand (λ k. none) "${A}-${B_2}" ≡ fail "environment variable(s) not set: A, B_2")
unfolding expand join
expand_run = (refl, refl)
