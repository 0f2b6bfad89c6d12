-- ===== src/Fixdep/Deps.antt =====
-- build-tools/basic/fixdep.c: `parse_dep_file`, `print_deps` and `main`. The files that the program
-- reads are a parameter; messages on the standard error are left out.
pub mod Names
pub mod Prints
use mkrootfs.Base.{
  ℕ, zero, suc, ◌+◌, ◌-◌, ◌*◌, ◌/◌, ◌%◌, ◌≤◌, ◌<◌, max, String, ◌≡◌, ◌≢◌, refl, sym, ap, ap₂, ◌∙◌,
  subst, ◌↔◌, ◌⊎◌, inl, inr, Bool, true, false, ◌&&◌, ◌||◌, not, Option, none, some, List, [], ◌∷◌,
  ◌++◌, map, arith, ltb, leb, ◌==◌, ==_iff, ==-refl, str_eq, eq_iff, if◌then◌else◌, Bool-cases,
  Option-cases, some_inj, or-right, length, take, drop, get_or, ◌>>=◌, update, Returns, returned,
  Returns-bind, Returns-map, Returns-elim, ℤ, leb_ℤ, Bytes, codes,
}
use mkrootfs.Fixdep.{
  Fix, Outcome, ok, exited, fault, and_then, path_max, until_nul, print, clear_config,
}
use mkrootfs.Fixdep.Words.{same}
use mkrootfs.Fixdep.Scan.{is_alnum, parse_config_file}

-- What opening and mapping a file gives.
pub data FileRead : Type 0 where
  cannot_open empty cannot_map : FileRead
  content : Bytes → FileRead

-- `strrcmp` is zero: the first text ends in the second.
abbrev pub strrcmp_zero : Bytes → Bytes → Bool
strrcmp_zero s end =
    if ltb (length s) (length end) then false else same (drop (length s - length end) s) end

-- The names that are left out of the list.
unfoldable pub is_generated : Bytes → Bool
is_generated s =
    strrcmp_zero s (codes "include/generated/autoconf.h")
    || (strrcmp_zero s (codes "arch/um/include/uml-config.h") || strrcmp_zero s (codes ".ver"))

abbrev pub is_blank : ℕ → Bool
is_blank c = c == b' ' || (c == b'\\' || c == b'\n')

unfoldable pub skip_blank : Bytes → Bytes
skip_blank [] = []
skip_blank (c ∷ s) = elim (is_blank c) [ true ↦ skip_blank s | false ↦ c ∷ s ]

-- The bytes before the first space, and those behind it, if there is one.
unfoldable pub until_space : Bytes → Bytes
until_space [] = []
until_space (c ∷ s) = if c == b' ' then [] else c ∷ until_space s

unfoldable pub after_space : Bytes → Option Bytes
after_space [] = none
after_space (c ∷ s) = if c == b' ' then some s else after_space s

-- `do p--; while (!isalnum(*p)); p++;` from the end: none if the loop leaves the bytes.
unfoldable pub trim_end : Bytes → Option Bytes
trim_end [] = none
trim_end (c ∷ s) = elim (trim_end s) [
  | some t ↦ some (c ∷ t)
  | none ↦ if is_alnum c then some (c ∷ []) else none
]

-- The next name, and the bytes from `p + 1` on. If no letter or digit is left, the source copies a
-- negative number of bytes; that is `none`.
abbrev pub next_name : Bytes → Option (Bytes × Bytes)
next_name s = elim (after_space s) [
  | some rest ↦ some (until_space s, rest)
  | none ↦ elim (trim_end s) [ some name ↦ some (name, drop (suc (length name)) s) | none ↦ none ]
]

abbrev pub dep_line : Bytes → Bytes
dep_line s = codes "  " ++ (s ++ codes " \\\n")

abbrev pub header_line : Bytes → Bytes
header_line target = codes "deps_" ++ (target ++ codes " := \\\n")

abbrev pub rule_line : Bytes → Bytes
rule_line target = codes "\n" ++ (target ++ (codes ": $(deps_" ++ (target ++ codes ")\n\n")))

abbrev pub empty_rule : Bytes → Bytes
empty_rule target = codes "$(deps_" ++ (target ++ codes "):\n")

abbrev pub cmd_line : Bytes → Bytes → Bytes
cmd_line target cmdline = codes "cmd_" ++ (target ++ (codes " := " ++ (cmdline ++ codes "\n\n")))

abbrev pub print_rules : Bytes → Fix → Option Outcome
print_rules target st = some (ok (print (empty_rule target) (print (rule_line target) st)))

abbrev pub start : Fix
start = record { str_config = []; size_config = 0; out = [] }

module _ (files : Bytes → FileRead) (tail : ℕ × ℕ) where
  unfoldable pub read_config : FileRead → Fix → Option Outcome
  read_config cannot_open st = some (exited 2 st)
  read_config empty st = some (ok st)
  read_config cannot_map st = some (ok st)
  read_config (content file) st = parse_config_file tail file st

  abbrev pub do_config_file : Bytes → Fix → Option Outcome
  do_config_file name st = read_config (files name) st

  -- What the loop does with the string of a name.
  abbrev pub use_string : Bytes → Fix → Option Outcome
  use_string s st =
      if is_generated s then some (ok st) else do_config_file s (print (dep_line s) st)

  -- What the loop does with the bytes of one name.
  abbrev pub use_name : Bytes → Fix → Option Outcome
  use_name s st = if leb path_max (length s) then some fault else use_string (until_nul s) st

  -- The loop of `parse_dep_file` over the bytes from `m` on.
  unfoldable pub deps_loop : ℕ → Bytes → Fix → Option Outcome
  deps_loop zero s st = none
  deps_loop (suc f) [] st = some (ok st)
  deps_loop (suc f) (c ∷ s) st = elim (next_name (skip_blank (c ∷ s))) [
    | none ↦ some fault
    | some (name, rest) ↦ and_then (use_name name st) (deps_loop f rest)
  ]

  -- `strchr(m, ':')`: the bytes behind the colon and the number of those before it.
  unfoldable pub after_colon : Bytes → ℕ → Option (ℕ × Bytes)
  after_colon [] n = none
  after_colon (c ∷ s) n =
      if c == b':' then some (n, s) else if c == 0 then none else after_colon s (suc n)

  unfoldable pub parse_dep_file : Bytes → Bytes → Fix → Option Outcome
  parse_dep_file target file st = elim (after_colon file 0) [
    | none ↦ some (exited 1 st)
    | some (n, s) ↦ if leb path_max n then some fault else do
      st1 ← clear_config (print (header_line target) st)
      and_then (deps_loop (suc (length s)) s st1) (print_rules target)
  ]

  abbrev pub read_deps : FileRead → Bytes → Fix → Option Outcome
  read_deps cannot_open target st = some (exited 2 st)
  read_deps empty target st = some (ok st)
  read_deps cannot_map target st = some (ok st)
  read_deps (content file) target st = parse_dep_file target file st

  -- `print_deps`
  unfoldable pub print_deps : Bytes → Bytes → Fix → Option Outcome
  print_deps depfile target st = read_deps (files depfile) target st

  -- `main` with the arguments behind the program's name; `traps` passes where the bytes of a word
  -- stand in the order in which they are compared.
  unfoldable pub fixdep_main : List Bytes → Option Outcome
  fixdep_main (depfile ∷ target ∷ cmdline ∷ []) =
      print_deps depfile target (print (cmd_line target cmdline) start)
  fixdep_main _ = some (exited 1 start)
