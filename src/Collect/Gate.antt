-- ===== src/Collect/Gate.antt =====
-- The gate of internal/cluster/collect.go: which statements may be sent to a server.
use Prim.Native.Char.{Char, code}
use galera_doctor.Prelude.{
  String, ◌≡◌, refl, Bool, true, false, ◌||◌, none, some, eqb, if◌then◌else◌,
}
use galera_doctor.Go.Text.{to_lower, strip_prefix}

-- \s of a regular expression: no vertical tab
unfoldable pub re_space : Char → Bool
re_space c =
    eqb (code c) 9 || eqb (code c) 10 || eqb (code c) 12 || eqb (code c) 13 || eqb (code c) 32

-- ^\s*
unfoldable pub skip_space : String → String
unfolding re_space
skip_space String.[] = ""
skip_space (String.◌∷◌ c s) = let rest = skip_space s in if re_space c then rest else String.◌∷◌ c s

starts_with_space : String → Bool
unfolding re_space
starts_with_space String.[] = false
starts_with_space (String.◌∷◌ c s) = re_space c

-- a word in small letters, and a space after it
unfoldable pub word_then_space : String → String → Bool
unfolding starts_with_space
word_then_space word s = elim (strip_prefix word s) [
  | none ↦ false
  | some rest ↦ starts_with_space rest
]

-- (?is)^\s*(SHOW|SELECT)\s
unfoldable pub read_only : String → Bool
unfolding skip_space word_then_space to_lower
read_only q =
    let s = to_lower (skip_space q) in word_then_space "show" s || word_then_space "select" s

gate_run :
    (read_only " \n select\t1" ≡ true)
    × (read_only "SHOW GLOBAL STATUS" ≡ true)
    × (read_only "SELECT" ≡ false)
    × (read_only "DELETE FROM t" ≡ false)
    × (read_only "SELECTED x" ≡ false)
unfolding read_only strip_prefix
gate_run = (refl, refl, refl, refl, refl)
