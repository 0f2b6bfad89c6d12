-- ===== src/Confdata/RoundTrip.antt =====
-- build-tools/kconfig/confdata.c: a line that was written is read back.
pub mod Effect
pub mod File
use mathlib.Core.List.{append_assoc}
use Prim.Native.Char.{Char, code}
use mkrootfs.Base.{
  ◌||◌, ℕ, zero, suc, ◌≡◌, ◌≢◌, refl, sym, ap, ◌∙◌, subst, arith, String, Bool, true, false, not,
  ◌==◌, if◌then◌else◌, Option, none, some, List, [], ◌∷◌, ◌++◌,
}
use mkrootfs.Tristate.{tri_text, Tristate, tri_no, tri_mod, tri_yes}
use mkrootfs.Symbol.{
  is_text, SymbolType, s_boolean, s_tristate, s_int, s_hex, s_string, SymbolValue, val_text, Decl,
}
use mkrootfs.Config.{Decls}
use mkrootfs.Symtab.{Symtab, sym_find}
use mkrootfs.Calc.Value.{choice_of}
use mkrootfs.Calc.Set.Strings.{sym_string_valid}
use mkrootfs.Confdata.{before_newline, Line, chars, string, cut_at, drop_return, end_line}
use mkrootfs.Confdata.Read.{
  set_as, read_sym_val, read_no, on_symbol, on_cut, set_text, Reader, is_switch, set_user_tri,
  set_user_text, warn_override, note_choice, after_set, conf_set_sym_val, read_line, read_set,
  read_unset,
}
use mkrootfs.Confdata.Write.{chars_or_nil, name_of, tristate_line, symbol_line, value_line}

-- No character of the line has the code.
abbrev pub Without : ℕ → Line → Type 0
Without n [] = Unit
Without n (c ∷ s) = ((code c == n) ≡ false) × Without n s

pub string-chars : (s : String) → string (chars s) ≡ s
string-chars String.[] = refl
string-chars (String.◌∷◌ c s) = ap (String.◌∷◌ c) (string-chars s)

pub cut_at-first :
    (n : ℕ) (a : Line) (c : Char) (b : Line)
    → Without n a
    → (code c == n) ≡ true
    → cut_at n (a ++ c ∷ b) ≡ some (a, b)
unfolding cut_at
cut_at-first n [] c b h e = rw e refl
cut_at-first n (x ∷ a) c b h e = rw (h.0, cut_at-first n a c b h.1 e) refl

-- A symbol that a line can stand for: its name, by which it is found, and its value.
pub record CanSave (tab : Symtab) (d : Decls) (s : ℕ) (v : SymbolValue) : Type 0 where
  pub name : String
  pub named : (d.decl_of s).name ≡ some name
  pub found : sym_find (some name) tab ≡ some s
  pub spaceless : Without b' ' (chars name)
  pub no_equals : Without b'=' (chars name)
  pub boolean_ne : (d.decl_of s).type ≡ s_boolean → v.tri ≢ tri_mod
  pub valid :
      is_switch (d.decl_of s).type ≡ false
      → sym_string_valid (d.decl_of s).type (val_text v.val) ≡ true
  pub one_line : Without b'\n' (chars (val_text v.val))
  pub kind : (is_switch (d.decl_of s).type || is_text (d.decl_of s).type) ≡ true
  pub plain : (d.decl_of s).choice ≡ false
  pub own_choice : (t : ℕ) → choice_of d s ≡ some t → (d.decl_of t).choice ≡ true
  pub no_return : drop_return (chars (val_text v.val)) ≡ chars (val_text v.val)

-- What a symbol's line stands for.
abbrev pub restore : SymbolType → ℕ → SymbolValue → Reader → Reader
restore type s v r =
    if is_switch type then set_user_tri s v.tri r else set_user_text s (chars (val_text v.val)) r

end_line-chars : (s : Line) → Without b'\n' s → drop_return s ≡ s → end_line (s ++ chars "\n") ≡ s
unfolding end_line
end_line-chars s h e =
    ap (λ o. before_newline o (s ++ chars "\n")) (cut_at-first b'\n' s "\n" [] h refl) ∙ e

module _ (tab : Symtab) (s : ℕ) (name : String) (found : sym_find (some name) tab ≡ some s) where
  found_string : sym_find (some (string (chars name))) tab ≡ some s
  found_string = ap (λ n. sym_find (some n) tab) (string-chars name) ∙ found

  read_line-value :
      (value : Line) (r : Reader)
      → Without b'=' (chars name)
      → Without b'\n' value
      → drop_return value ≡ value
      → read_line tab (value_line (chars name) value) r
        ≡ after_set s (conf_set_sym_val s value (warn_override s r))
  unfolding read_line
  read_line-value value r ne h k =
      ap (λ o. on_cut o (read_set tab) r)
        (cut_at-first b'=' (chars name) "=" (value ++ chars "\n") ne refl)
      ∙ ap (λ o. on_symbol o (read_sym_val (value ++ chars "\n")) r) found_string
      ∙ ap (λ p. after_set s (conf_set_sym_val s p (warn_override s r))) (end_line-chars value h k)

  read_line-unset :
      (r : Reader)
      → Without b' ' (chars name)
      → read_line tab (tristate_line (chars name) tri_no) r ≡ read_no s r
  unfolding read_line
  read_line-unset r h =
      ap (λ o. on_cut o (read_unset tab) r)
        (cut_at-first b' ' (chars name) " " (chars "is not set\n") h refl)
      ∙ ap (λ o. on_symbol o read_no r) found_string

-- A value of the type is taken.
set_text-valid :
    (type : SymbolType) (s : ℕ) (v : String) (r : Reader)
    → sym_string_valid type v ≡ true
    → set_text type s (chars v) r ≡ (set_user_text s (chars v) r, false)
set_text-valid type s v r h = rw (string-chars v) (rw h refl)

set_as-letter :
    (type : SymbolType) (s : ℕ) (tri : Tristate) (r : Reader)
    → is_switch type ≡ true
    → (type ≡ s_boolean → tri ≢ tri_mod)
    → set_as type s (chars (tri_text tri)) r ≡ (set_user_tri s tri r, false)
set_as-letter s_boolean s tri_no r h ne = refl
set_as-letter s_boolean s tri_mod r h ne = absurd (ne refl refl)
set_as-letter s_boolean s tri_yes r h ne = refl
set_as-letter s_tristate s tri_no r h ne = refl
set_as-letter s_tristate s tri_mod r h ne = refl
set_as-letter s_tristate s tri_yes r h ne = refl
set_as-letter _ s tri r h ne = cc

set_as-text :
    (type : SymbolType) (s : ℕ) (v : String) (r : Reader)
    → is_text type ≡ true
    → sym_string_valid type v ≡ true
    → set_as type s (chars v) r ≡ (set_user_text s (chars v) r, false)
set_as-text s_string s v r h e = set_text-valid s_string s v r e
set_as-text s_int s v r h e = set_text-valid s_int s v r e
set_as-text s_hex s v r h e = set_text-valid s_hex s v r e
set_as-text _ s v r h e = cc

module _ (tab : Symtab) (s : ℕ) (v : SymbolValue) (r : Reader) (k : CanSave tab r.decls s v) where
  abbrev type : SymbolType
  type = (r.decls.decl_of s).type

  set-tristate :
      (tri : Tristate)
      → is_switch type ≡ true
      → v.tri ≡ tri
      → after_set s (conf_set_sym_val s (chars (tri_text tri)) (warn_override s r))
        ≡ note_choice s (set_user_tri s tri (warn_override s r))
  unfolding conf_set_sym_val
  set-tristate tri h et =
      ap (after_set s)
        (set_as-letter type s tri (warn_override s r) h (λ e m. k.boolean_ne e (et ∙ m)))

  read_line-tristate :
      (tri : Tristate)
      → is_switch type ≡ true
      → v.tri ≡ tri
      → read_line tab (tristate_line (chars k.name) tri) r
        ≡ note_choice s (set_user_tri s tri (warn_override s r))
  read_line-tristate tri_no h et =
      read_line-unset tab s k.name k.found r k.spaceless
      ∙ ap
          (λ b.
            note_choice s
              (if b then set_user_tri s tri_no (warn_override s r) else warn_override s r))
          h
  read_line-tristate tri_mod h et =
      read_line-value tab s k.name k.found (chars "m") r k.no_equals (refl, tt) refl
      ∙ set-tristate tri_mod h et
  read_line-tristate tri_yes h et =
      read_line-value tab s k.name k.found (chars "y") r k.no_equals (refl, tt) refl
      ∙ set-tristate tri_yes h et

  read_line-text :
      is_text type ≡ true
      → is_switch type ≡ false
      → read_line tab (value_line (chars k.name) (chars (val_text v.val))) r
        ≡ note_choice s (set_user_text s (chars (val_text v.val)) (warn_override s r))
  unfolding conf_set_sym_val
  read_line-text h n =
      read_line-value tab s k.name k.found (chars (val_text v.val)) r k.no_equals k.one_line
        k.no_return
      ∙ ap (after_set s) (set_as-text type s (val_text v.val) (warn_override s r) h (k.valid n))

  -- The line of a symbol is read as what it stands for.
  line_as :
      (ty : SymbolType)
      → type ≡ ty
      → (is_switch ty || is_text ty) ≡ true
      → read_line tab (symbol_line ty (chars k.name) v) r
        ≡ note_choice s (restore ty s v (warn_override s r))
  line_as s_boolean e h = read_line-tristate v.tri (rw e refl) refl
  line_as s_tristate e h = read_line-tristate v.tri (rw e refl) refl
  line_as s_string e h = read_line-text (rw e refl) (rw e refl)
  line_as s_int e h = read_line-text (rw e refl) (rw e refl)
  line_as s_hex e h = read_line-text (rw e refl) (rw e refl)
  line_as _ e h = cc

  name_of-named : name_of r.decls s ≡ chars k.name
  name_of-named = ap chars_or_nil k.named

  pub read_line-symbol_line :
      read_line tab (symbol_line type (name_of r.decls s) v) r
      ≡ note_choice s (restore type s v (warn_override s r))
  read_line-symbol_line =
      ap (λ n. read_line tab (symbol_line type n v) r) name_of-named ∙ line_as type refl k.kind
