-- ===== src/Confdata/Read.antt =====
-- build-tools/kconfig/confdata.c: `conf_set_sym_val` and `conf_read_simple` for the values set by the
-- user, from the label `load` on. Warnings are counted.
use Prim.Native.Char.{code}
use mkrootfs.Base.{
  ℕ, zero, suc, Bool, true, false, ◌||◌, ◌==◌, if◌then◌else◌, length, Option, none, some, List, [],
  ◌∷◌, update,
}
use mkrootfs.Tristate.{Tristate, tri_no, tri_mod, tri_yes, tri_eq, expr_or}
use mkrootfs.Symbol.{
  SymbolType, s_boolean, s_tristate, s_int, s_hex, s_string, s_other, Val, null, symbol, text, Decl,
  Now,
}
use mkrootfs.Config.{Decls, State, change}
use mkrootfs.Symtab.{Symtab, sym_find}
use mkrootfs.Calc.Value.{choice_of}
use mkrootfs.Calc.Set.{sym_add_change_count}
use mkrootfs.Calc.Set.Strings.{sym_string_valid}
use mkrootfs.Confdata.{Line, chars, string, strip, cut_at, end_line}

-- The declarations, which reading may change, the state, and `conf_warnings`.
pub record Reader : Type 0 where
  pub decls : Decls
  pub state : State
  pub warnings : ℕ

abbrev pub warn : Reader → Reader
warn r = record r { warnings = suc r.warnings }

abbrev pub change_sym : ℕ → (Now → Now) → Reader → Reader
change_sym s f r = record r { state = change s f r.state }

abbrev pub with_user_tri : Tristate → Now → Now
with_user_tri v n = record n { user = record n.user { tri = v } }

abbrev pub with_user_val : Val → Now → Now
with_user_val v n = record n { user = record n.user { val = v } }

abbrev pub set_def_flag : Bool → Now → Now
set_def_flag b n = record n { def_user = b }

-- `sym->def[def].tri = v; sym->flags |= def_flags;`
abbrev pub set_user_tri : ℕ → Tristate → Reader → Reader
set_user_tri s v r = change_sym s (λ n. set_def_flag true (with_user_tri v n)) r

abbrev pub set_user_text : ℕ → Line → Reader → Reader
set_user_text s p r = change_sym s (λ n. set_def_flag true (with_user_val (text (string p)) n)) r

abbrev pub begins : ℕ → Line → Bool
begins n [] = false
begins n (c ∷ _) = code c == n

-- `case S_BOOLEAN`. The result is the reader and whether the value was refused with `return 1`.
abbrev pub set_boolean : ℕ → Line → Reader → Reader × Bool
set_boolean s p r =
    if begins b'y' p
    then (set_user_tri s tri_yes r, false)
    else if begins b'n' p
    then (set_user_tri s tri_no r, false)
    else (warn r, false)

-- From the label `done` on, for a symbol of the type.
abbrev pub set_text : SymbolType → ℕ → Line → Reader → Reader × Bool
set_text type s p r =
    if sym_string_valid type (string p) then (set_user_text s p r, false) else (warn r, true)

abbrev pub with_type : ℕ → SymbolType → Reader → Reader
with_type s type r = record r {
  decls = record (r.decls) {
    decl_of = update r.decls.decl_of s (record (r.decls.decl_of s) { type = type });
  };
}

abbrev pub set_as : SymbolType → ℕ → Line → Reader → Reader × Bool
set_as s_tristate s p r =
    if begins b'm' p then (set_user_tri s tri_mod r, false) else set_boolean s p r
set_as s_boolean s p r = set_boolean s p r
set_as s_other s p r =
    if begins b'"' p then set_text s_other s p r else set_text s_string s p (with_type s s_string r)
set_as s_string s p r = set_text s_string s p r
set_as s_int s p r = set_text s_int s p r
set_as s_hex s p r = set_text s_hex s p r
set_as _ s p r = (r, false)

-- `conf_set_sym_val` with S_DEF_USER
unfoldable pub conf_set_sym_val : ℕ → Line → Reader → Reader × Bool
conf_set_sym_val s p r = set_as (r.decls.decl_of s).type s p r

-- The switch over the value of a choice value, for the choice `cs`.
abbrev pub mark_choice : ℕ → Tristate → ℕ → Reader → Reader
mark_choice s tri_no cs r = r
mark_choice s tri_mod cs r =
    if tri_eq (r.state.now_of cs).user.tri tri_yes
    then change_sym cs (set_def_flag false) (warn r)
    else r
mark_choice s tri_yes cs r =
    change_sym cs (with_user_val (symbol s))
      (if tri_eq (r.state.now_of cs).user.tri tri_no then r else warn r)

abbrev pub or_choice : ℕ → ℕ → Reader → Reader
or_choice s cs r =
    change_sym cs (with_user_tri (expr_or (r.state.now_of cs).user.tri (r.state.now_of s).user.tri))
      r

-- The end of the loop's body, for the choice of the symbol. A choice value without its choice, at which the source reads a null
-- pointer, is left alone.
abbrev pub note_in : Option ℕ → ℕ → Reader → Reader
note_in none s r = r
note_in (some cs) s r = or_choice s cs (mark_choice s (r.state.now_of s).user.tri cs r)

unfoldable pub note_choice : ℕ → Reader → Reader
note_choice s r = if (r.decls.decl_of s).choiceval then note_in (choice_of r.decls s) s r else r

-- The warning on a symbol that has a value already.
abbrev pub warn_override : ℕ → Reader → Reader
warn_override s r = record r {
  warnings = if (r.state.now_of s).def_user then suc r.warnings else r.warnings;
}

abbrev pub is_switch : SymbolType → Bool
is_switch s_boolean = true
is_switch s_tristate = true
is_switch _ = false

abbrev pub unset : ℕ → Reader → Reader
unset s r = if is_switch (r.decls.decl_of s).type then set_user_tri s tri_no r else r

-- `if (conf_set_sym_val(…)) continue;`, and the end of the body.
abbrev pub after_set : ℕ → Reader × Bool → Reader
after_set s (r, refused) = if refused then r else note_choice s r

abbrev pub unknown_symbol : Reader → Reader
unknown_symbol r = record r { state = sym_add_change_count 1 r.state }

-- With the two parts of a line, if it was cut; else `continue`.
abbrev pub on_cut : Option (Line × Line) → (Line → Line → Reader → Reader) → Reader → Reader
on_cut none f r = r
on_cut (some (name, p)) f r = f name p r

-- With the symbol that was found, if one was.
abbrev pub on_symbol : Option ℕ → (ℕ → Reader → Reader) → Reader → Reader
on_symbol none f r = unknown_symbol r
on_symbol (some s) f r = f s r

abbrev pub read_no : ℕ → Reader → Reader
read_no s r = note_choice s (unset s (warn_override s r))

abbrev pub read_sym_val : Line → ℕ → Reader → Reader
read_sym_val p s r = after_set s (conf_set_sym_val s (end_line p) (warn_override s r))

module _ (tab : Symtab) where
  -- `# MKR_… is not set`, from the name on.
  abbrev pub read_unset : Line → Line → Reader → Reader
  read_unset name p r = elim (strip (chars "is not set") p) [
    | none ↦ r
    | some _ ↦ on_symbol (sym_find (some (string name)) tab) read_no r
  ]

  abbrev pub read_set : Line → Line → Reader → Reader
  read_set name p r = on_symbol (sym_find (some (string name)) tab) (read_sym_val p) r

  -- `case '#'`, behind the `#` and the character after it.
  abbrev pub read_comment : Line → Reader → Reader
  read_comment s r = elim (strip (chars "MKR_") s) [
    | none ↦ r
    | some q ↦ on_cut (cut_at b' ' q) read_unset r
  ]

  -- `case 'M'`
  abbrev pub read_value : Line → Reader → Reader
  read_value s r = elim (strip (chars "MKR_") s) [
    | none ↦ warn r
    | some q ↦ on_cut (cut_at b'=' q) read_set r
  ]

  abbrev pub tail_of : Line → Line
  tail_of [] = []
  tail_of (_ ∷ s) = s

  -- The body of the loop over the lines. For a last line of `#` alone, without a newline, the source
  -- compares what earlier lines have left in the buffer; here such a line is a comment.
  unfoldable pub read_line : Line → Reader → Reader
  read_line [] r = warn r
  read_line (c ∷ s) r =
      if code c == b'#'
      then read_comment (tail_of s) r
      else if code c == b'M'
      then read_value (c ∷ s) r
      else if code c == b'\r' || code c == b'\n'
      then r
      else warn r

  unfoldable pub read_lines : List Line → Reader → Reader
  read_lines [] r = r
  read_lines (l ∷ ls) r = read_lines ls (read_line l r)

-- The reset of one symbol before the file is read.
abbrev pub reset : Decl → Now → Now
reset decl n = record n {
  changed = true;
  valid = false;
  def_user = decl.choice;
  user = record { val = null; tri = tri_no };
}

unfoldable pub reset_all : Decls → List ℕ → State → State
reset_all d [] st = st
reset_all d (s ∷ l) st = reset_all d l (change s (reset (d.decl_of s)) st)

-- `fgets(line, sizeof(line), in)` until it gives no line: at most `room` characters at a time, up to a
-- newline. Characters are ASCII, and no one is NUL.
abbrev pub next_line : ℕ → Line → Line × Line
next_line zero s = ([], s)
next_line (suc room) [] = ([], [])
next_line (suc room) (c ∷ s) =
    if code c == b'\n' then (c ∷ [], s) else let rest = next_line room s in (c ∷ rest.0, rest.1)

unfoldable pub file_lines : ℕ → Line → List Line
file_lines zero s = []
file_lines (suc f) [] = []
file_lines (suc f) (c ∷ s) = let cut = next_line 1023 (c ∷ s) in cut.0 ∷ file_lines f cut.1

-- The symbols' values from a file: what `conf_read_simple` does from `load` on, but for the
-- calculation of `modules_sym` at its end.
unfoldable pub load : Symtab → Line → Decls → State → Reader
load tab file d st =
    read_lines tab (file_lines (suc (length file)) file)
      (record { decls = d; state = reset_all d d.symbols st; warnings = 0 })
