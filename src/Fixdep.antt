-- ===== src/Fixdep.antt =====
-- build-tools/basic/fixdep.c: the set of configuration words already seen, which the program keeps
-- as one text with a newline before, between and after the words. Memory is a list of bytes; the
-- length `len_config` is the list's.
pub mod Words
pub mod Once
pub mod Scan
pub mod Deps
use mkrootfs.Base.{
  codes, Bytes, ℕ, zero, suc, ◌+◌, ◌*◌, Bool, true, false, ◌&&◌, ◌||◌, not, ◌==◌, ltb, leb,
  if◌then◌else◌, Option, none, some, ◌>>=◌, List, [], ◌∷◌, ◌++◌, length, map,
}

-- The variables of the set, and what was written to the standard output, by calls of `printf`.
pub record Fix : Type 0 where
  pub str_config : Bytes
  pub size_config : ℕ
  pub out : List Bytes

-- `grow_config`, to a size of at least `need` bytes. `none` means that the fuel ran out.
unfoldable pub grow : ℕ → ℕ → ℕ → Option ℕ
grow zero need size = none
grow (suc f) need size =
    let rest = grow f need ((if size == 0 then 2048 else size) * 2) in
    if ltb size need then rest else some size

unfoldable pub grow_config : ℕ → Fix → Option Fix
grow_config len st = do
  size ← grow (suc (length st.str_config + len)) (length st.str_config + len) st.size_config
  some (record st { size_config = size })

-- How a part of the program ends: it goes on, it exits with a code, or it writes outside an array.
pub data Outcome : Type 0 where
  ok : Fix → Outcome
  exited : ℕ → Fix → Outcome
  fault : Outcome

-- Goes on with an outcome, if the program does.
abbrev pub and_then : Option Outcome → (Fix → Option Outcome) → Option Outcome
and_then none f = none
and_then (some (ok st)) f = f st
and_then (some (exited code st)) f = some (exited code st)
and_then (some fault) f = some fault

-- The size of the arrays that a word and a name are copied to.
abbrev pub path_max : ℕ
path_max = 4096

-- The bytes that a C string has: those before the first NUL.
unfoldable pub until_nul : Bytes → Bytes
until_nul [] = []
until_nul (c ∷ s) = elim (c == 0) [ true ↦ [] | false ↦ c ∷ until_nul s ]

-- The bytes behind `name`, if they begin with it: `memcmp(pconfig, name, len)` is zero.
abbrev pub strip : Bytes → Bytes → Option Bytes
strip [] s = some s
strip (c ∷ name) [] = none
strip (c ∷ name) (d ∷ s) = if c == d then strip name s else none

abbrev pub starts_line : Bytes → Bool
starts_line [] = false
starts_line (c ∷ _) = c == b'\n'

-- `name` stands here, and a newline behind it.
abbrev pub word_here : Bytes → Bytes → Bool
word_here name s = elim (strip name s) [ none ↦ false | some r ↦ starts_line r ]

-- `is_defined_config`, from one place of the text on.
unfoldable pub is_defined_config : Bytes → Bytes → Bool
is_defined_config name [] = false
is_defined_config name (c ∷ s) = (c == b'\n' && word_here name s) || is_defined_config name s

unfoldable pub define_config : Bytes → Fix → Option Fix
define_config name st = do
  st1 ← grow_config (length name + 1) st
  some (record st1 { str_config = st1.str_config ++ (name ++ b'\n' ∷ []) })

unfoldable pub clear_config : Fix → Option Fix
clear_config st = define_config [] (record st { str_config = [] })

-- `tolower`, and a slash for `_`.
abbrev pub path_byte : ℕ → ℕ
path_byte c = if c == b'_' then b'/' else if leb 65 c && leb c 90 then c + 32 else c

abbrev pub print : Bytes → Fix → Fix
print s st = record st { out = st.out ++ s ∷ [] }

abbrev pub config_line : Bytes → Bytes
config_line m =
    codes "    $(wildcard include/config/" ++ (map path_byte (until_nul m) ++ codes ".h) \\\n")

-- From the copy to the array `s[PATH_MAX]` on: the word's bytes and a NUL.
abbrev pub print_config : Bytes → Fix → Outcome
print_config m st = if leb path_max (length m) then fault else ok (print (config_line m) st)

-- `use_config`
unfoldable pub use_config : Bytes → Fix → Option Outcome
use_config m st = elim (is_defined_config m st.str_config) [
  | true ↦ some (ok st)
  | false ↦ do st1 ← define_config m st; some (print_config m st1)
]
