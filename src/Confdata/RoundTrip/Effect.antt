-- ===== src/Confdata/RoundTrip/Effect.antt =====
-- build-tools/kconfig/confdata.c: what reading the lines of symbols changes.
use mkrootfs.Base.{
  NotIn, ℕ, suc, ◌≡◌, ◌≢◌, refl, sym, ap, ◌∙◌, subst, arith, Bool, true, false, if◌then◌else◌,
  Option, none, some, List, [], ◌∷◌,
}
use mkrootfs.Tristate.{expr_or, Tristate, tri_no, tri_mod, tri_yes}
use mkrootfs.Symbol.{symbol, SymbolType, SymbolValue, val_text, text, Now}
use mkrootfs.Config.{Decls, State}
use mkrootfs.Symtab.{Symtab}
use mkrootfs.Calc.Value.{choice_of}
use mkrootfs.Confdata.{Line, chars, string}
use mkrootfs.Confdata.Read.{
  or_choice, with_user_val, with_user_tri, set_def_flag, Reader, is_switch, change_sym,
  set_user_tri, set_user_text, warn, warn_override, mark_choice, note_in, note_choice, read_line,
  read_lines,
}
use mkrootfs.Confdata.Write.{symbol_line, name_of}
use mkrootfs.Confdata.RoundTrip.{CanSave, restore, string-chars, read_line-symbol_line}

-- The user has set the value.
pub record Restored (type : SymbolType) (v : SymbolValue) (n : Now) : Type 0 where
  pub is_set : n.def_user ≡ true
  pub same_tri : is_switch type ≡ true → n.user.tri ≡ v.tri
  pub same_text : is_switch type ≡ false → n.user.val ≡ text (val_text v.val)

-- The declarations and the symbol `t` are as before.
pub record Kept (t : ℕ) (r r' : Reader) : Type 0 where
  pub same_decls : r'.decls ≡ r.decls
  pub same_now : r'.state.now_of t ≡ r.state.now_of t

Kept-refl : (t : ℕ) (r : Reader) → Kept t r r
Kept-refl t r = record { same_decls = refl; same_now = refl }

Kept-trans : (t : ℕ) (a b c : Reader) → Kept t a b → Kept t b c → Kept t a c
Kept-trans t a b c h k = record {
  same_decls = k.same_decls ∙ h.same_decls;
  same_now = k.same_now ∙ h.same_now;
}

Kept-if :
    (t : ℕ) (b : Bool) (r x y : Reader) → Kept t r x → Kept t r y → Kept t r (if b then x else y)
Kept-if t true r x y h k = h
Kept-if t false r x y h k = k

change_sym-Kept : (t s : ℕ) (f : Now → Now) (r : Reader) → t ≢ s → Kept t r (change_sym s f r)
change_sym-Kept t s f r ne = record { same_decls = refl; same_now = ground arith }

mark_choice-Kept :
    (t s : ℕ) (tri : Tristate) (cs : ℕ) (r : Reader) → t ≢ cs → Kept t r (mark_choice s tri cs r)
mark_choice-Kept t s tri_no cs r ne = Kept-refl t r
mark_choice-Kept t s tri_mod cs r ne =
    Kept-if t _ r _ r
      (Kept-trans t r (warn r) _ (record { same_decls = refl; same_now = refl })
        (change_sym-Kept t cs (set_def_flag false) (warn r) ne))
      (Kept-refl t r)
mark_choice-Kept t s tri_yes cs r ne =
    Kept-trans t r _ _
      (Kept-if t _ r r (warn r) (Kept-refl t r) (record { same_decls = refl; same_now = refl }))
      (change_sym-Kept t cs (with_user_val (symbol s)) _ ne)

or_choice-Kept : (t s cs : ℕ) (r : Reader) → t ≢ cs → Kept t r (or_choice s cs r)
or_choice-Kept t s cs r ne =
    change_sym-Kept t cs
      (with_user_tri (expr_or (r.state.now_of cs).user.tri (r.state.now_of s).user.tri)) r ne

note_in-Kept : (t : ℕ) (o : Option ℕ) (s : ℕ) (r : Reader) → o ≢ some t → Kept t r (note_in o s r)
note_in-Kept t none s r ne = Kept-refl t r
note_in-Kept t (some cs) s r ne =
    Kept-trans t r _ _ (mark_choice-Kept t s _ cs r (λ e. ne (ap some (sym e))))
      (or_choice-Kept t s cs _ (λ e. ne (ap some (sym e))))

note_choice-Kept :
    (t s : ℕ) (r : Reader) → choice_of r.decls s ≢ some t → Kept t r (note_choice s r)
unfolding note_choice
note_choice-Kept t s r ne =
    Kept-if t _ r _ r (note_in-Kept t (choice_of r.decls s) s r ne) (Kept-refl t r)

restore-Kept :
    (t : ℕ) (type : SymbolType) (s : ℕ) (v : SymbolValue) (r : Reader)
    → t ≢ s
    → Kept t r (restore type s v r)
restore-Kept t type s v r ne =
    Kept-if t (is_switch type) r _ _
      (change_sym-Kept t s (λ n. set_def_flag true (with_user_tri v.tri n)) r ne)
      (change_sym-Kept t s
        (λ n. set_def_flag true (with_user_val (text (string (chars (val_text v.val)))) n)) r ne)

-- Whether the type is a switch or not, what is assigned is what `Restored` asks for.
restore-Restored :
    (type : SymbolType) (s : ℕ) (v : SymbolValue) (r : Reader)
    → Restored type v ((restore type s v r).state.now_of s)
restore-Restored type s v r = go (is_switch type) refl
  where
    at : (f : Now → Now) → (change_sym s f r).state.now_of s ≡ f (r.state.now_of s)
    at f = ground arith

    go :
        (b : Bool)
        → is_switch type ≡ b
        → Restored type v (
            (if b
                then set_user_tri s v.tri r
                else set_user_text s (chars (val_text v.val)) r).state.now_of
              s)
    go true e =
        subst (Restored type v) (sym (at (λ n. set_def_flag true (with_user_tri v.tri n))))
          (record { is_set = refl; same_tri = λ _. refl; same_text = λ k. cc })
    go false e =
        subst (Restored type v)
          (sym (
            at (λ n. set_def_flag true (with_user_val (text (string (chars (val_text v.val)))) n))))
          (record {
            is_set = refl;
            same_tri = λ k. cc;
            same_text = λ _. ap text (string-chars (val_text v.val));
          })

module _ (tab : Symtab) (s : ℕ) (v : SymbolValue) (r : Reader) (k : CanSave tab r.decls s v) where
  abbrev type : SymbolType
  type = (r.decls.decl_of s).type

  abbrev line_of : Line
  line_of = symbol_line type (name_of r.decls s) v

  abbrev read : Reader
  read = restore type s v (warn_override s r)

  -- A choice is not written, so it is no symbol's own choice.
  choice_ne : (t : ℕ) → (r.decls.decl_of t).choice ≡ false → choice_of r.decls s ≢ some t
  choice_ne t h e = cc (k.own_choice t e)

  read_decls : read.decls ≡ r.decls
  read_decls = (restore-Kept (suc s) type s v (warn_override s r) (λ e. omega arith)).same_decls

  noted-Kept : (t : ℕ) → (r.decls.decl_of t).choice ≡ false → Kept t read (note_choice s read)
  noted-Kept t h =
      note_choice-Kept t s read
        (subst (λ d. choice_of d s ≢ some t) (sym read_decls) (choice_ne t h))

  pub read_line-Kept :
      (t : ℕ) → t ≢ s → (r.decls.decl_of t).choice ≡ false → Kept t r (read_line tab line_of r)
  read_line-Kept t ne h = subst (Kept t r) (sym (read_line-symbol_line tab s v r k)) (
      Kept-trans t r read (note_choice s read)
        (Kept-trans t r (warn_override s r) read (record { same_decls = refl; same_now = refl })
          (restore-Kept t type s v (warn_override s r) ne))
        (noted-Kept t h))

  pub read_line-Restored : Restored type v ((read_line tab line_of r).state.now_of s)
  read_line-Restored =
      subst (λ x. Restored type v (x.state.now_of s)) (sym (read_line-symbol_line tab s v r k))
        (subst (Restored type v) (sym (noted-Kept s k.plain).same_now)
          (restore-Restored type s v (warn_override s r)))

  pub read_line-decls : (read_line tab line_of r).decls ≡ r.decls
  read_line-decls =
      ap (λ x. x.decls) (read_line-symbol_line tab s v r k)
      ∙ (noted-Kept s k.plain).same_decls
      ∙ read_decls

-- The reader behind the line of the symbol `s`.
record LineRead (tab : Symtab) (s : ℕ) (v : SymbolValue) (r : Reader) (d : Decls) (r' : Reader)
    : Type 0 where
  decls_lem : r'.decls ≡ d
  restored_lem : Restored (d.decl_of s).type v (r'.state.now_of s)
  kept_lem : (t : ℕ) → t ≢ s → (d.decl_of t).choice ≡ false → Kept t r r'

read_line-LineRead :
    (tab : Symtab) (s : ℕ) (v : SymbolValue) (r : Reader) (d : Decls)
    → r.decls ≡ d
    → CanSave tab d s v
    → LineRead tab s v r d (read_line tab (symbol_line (d.decl_of s).type (name_of d s) v) r)
read_line-LineRead tab s v r d e =
    subst
      (λ d.
        CanSave tab d s v
        → LineRead tab s v r d (read_line tab (symbol_line (d.decl_of s).type (name_of d s) v) r))
      e
      (λ k. record {
        decls_lem = read_line-decls tab s v r k;
        restored_lem = read_line-Restored tab s v r k;
        kept_lem = read_line-Kept tab s v r k;
      })

module _ (values : ℕ → SymbolValue) where
  -- The lines of symbols with these values.
  abbrev pub symbol_lines : Decls → List ℕ → List Line
  symbol_lines d [] = []
  symbol_lines d (s ∷ l) =
      symbol_line (d.decl_of s).type (name_of d s) (values s) ∷ symbol_lines d l

  abbrev pub AreRestored : Decls → State → List ℕ → Type 0
  AreRestored d st [] = Unit
  AreRestored d st (s ∷ l) =
      Restored (d.decl_of s).type (values s) (st.now_of s) × AreRestored d st l

module _ (tab : Symtab) (values : ℕ → SymbolValue) where
  -- Distinct symbols, each of which can be saved.
  abbrev pub AreSaved : Decls → List ℕ → Type 0
  AreSaved d [] = Unit
  AreSaved d (s ∷ l) = (CanSave tab d s (values s) × NotIn s l) × AreSaved d l

  -- Another symbol, which is no choice, is left alone.
  read_lines-Kept :
      (d : Decls) (l : List ℕ) (r : Reader) (t : ℕ)
      → r.decls ≡ d
      → AreSaved d l
      → NotIn t l
      → (d.decl_of t).choice ≡ false
      → Kept t r (read_lines tab (symbol_lines values d l) r)
  unfolding read_lines
  read_lines-Kept d [] r t e h n c = Kept-refl t r
  read_lines-Kept d (s ∷ l) r t e h n c =
      let read = read_line-LineRead tab s (values s) r d e h.0.0 in
      Kept-trans t r _ _ (read.kept_lem t n.0 c) (read_lines-Kept d l _ t read.decls_lem h.1 n.1 c)

  pub read_lines-AreRestored :
      (d : Decls) (l : List ℕ) (r : Reader)
      → r.decls ≡ d
      → AreSaved d l
      → AreRestored values d (read_lines tab (symbol_lines values d l) r).state l
  unfolding read_lines
  read_lines-AreRestored d [] r e h = tt
  read_lines-AreRestored d (s ∷ l) r e h =
      let read = read_line-LineRead tab s (values s) r d e h.0.0 in
      let rest = read_lines-Kept d l _ s read.decls_lem h.1 h.0.1 h.0.0.plain in
      (
        subst (Restored (d.decl_of s).type (values s)) (sym rest.same_now) read.restored_lem,
        read_lines-AreRestored d l _ read.decls_lem h.1,
      )
