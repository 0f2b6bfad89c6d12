-- ===== src/Config.antt =====
-- build-tools/kconfig/symbol.c and lkc.h: the state that the calculation of symbol values works
-- on. What the parser has fixed is `Decls`; `State` is what changes. A step of the calculation is
-- a function on the state; `none` means that the fuel of the calculation ran out.
pub mod Keeps
use mkrootfs.Base.{
  ℕ, ◌+◌, String, Bool, true, false, ◌&&◌, ◌||◌, ◌==◌, if◌then◌else◌, Option, none, some, List, [],
  ◌∷◌, update,
}
use mkrootfs.Tristate.{Tristate, tri_no, tri_mod, tri_yes, tri_eq}
use mkrootfs.Symbol.{
  SymbolType, s_boolean, s_tristate, is_tristate, Val, null, symbol, text, SymbolValue, Property,
  Payload, p_expr, p_list, p_bounds, p_null, Decl, Now, Symbol, Table,
}
use mkrootfs.Expr.{Expr, e_symbol}

-- All symbols of the tree, by address; the addresses in use lie below `bound`. `symbols` lists
-- those of the hash table that `for_all_symbols` visits; the constants are not among them.
pub record Decls : Type 0 where
  pub decl_of : ℕ → Decl
  pub bound : ℕ
  pub symbols : List ℕ
  pub modules_sym : Option ℕ

-- The symbols' changing parts, `modules_val`, the flag MENU_CHANGED of each menu, and
-- `sym_change_count`.
pub record State : Type 0 where
  pub now_of : ℕ → Now
  pub modules_val : Tristate
  pub menu_changed : ℕ → Bool
  pub change_count : ℕ

abbrev pub table : Decls → State → Table
table d st s = record { decl = d.decl_of s; now = st.now_of s }

abbrev pub M {ℓ} : Type ℓ → Type ℓ
M A = State → Option (A × State)

infixl 5 ◌>>=◌ ◌>>◌
abbrev pub ◌>>=◌ {ℓ κ} :
    {A : Type ℓ} {B : Type κ}
    → (State → Option (A × State))
    → (A → State → Option (B × State))
    → State
    → Option (B × State)
◌>>=◌ m f st = elim (m st) [ none ↦ none | some (a, st') ↦ f a st' ]

abbrev pub ◌>>◌ {κ} :
    {B : Type κ} → M (Unit {0}) → (State → Option (B × State)) → State → Option (B × State)
m >> k = m >>= λ _. k

abbrev pub return {ℓ} : {A : Type ℓ} → A → State → Option (A × State)
return a st = some (a, st)

abbrev pub gets {ℓ} : {A : Type ℓ} → (State → A) → State → Option (A × State)
gets f st = some (f st, st)

abbrev pub modify : (State → State) → M (Unit {0})
modify f st = some (tt, f st)

abbrev pub when : Bool → M (Unit {0}) → M (Unit {0})
when true m = m
when false m = return tt

-- The state with a change to one symbol.
abbrev pub change : ℕ → (Now → Now) → State → State
change s f st = record st { now_of = update st.now_of s (f (st.now_of s)) }

-- Assignments to one field of a symbol.
abbrev pub with_prop_tri : ℕ → Tristate → Now → Now
with_prop_tri i tri n = record n { prop_tri = λ j. if j == i then tri else n.prop_tri j }

abbrev pub with_visible : Tristate → Now → Now
with_visible v n = record n { visible = v }

abbrev pub with_rev_dep : Tristate → Now → Now
with_rev_dep v n = record n { rev_dep_tri = v }

abbrev pub with_write : Bool → Now → Now
with_write b n = record n { write = b }

abbrev pub with_curr : SymbolValue → Now → Now
with_curr v n = record n { curr = v }

abbrev pub with_valid : Bool → Now → Now
with_valid b n = record n { valid = b }

-- `sym_get_type`
unfoldable pub sym_get_type : Decls → State → ℕ → SymbolType
sym_get_type d st s =
    if is_tristate (d.decl_of s).type
    then (if (d.decl_of s).choiceval && tri_eq (st.now_of s).visible tri_yes
        then s_boolean
        else if tri_eq st.modules_val tri_no
        then s_boolean
        else s_tristate)
    else (d.decl_of s).type

-- `prop->menu->flags |= MENU_CHANGED` for each property that has a menu.
unfoldable pub mark_menus : List Property → (ℕ → Bool) → ℕ → Bool
mark_menus [] f = f
mark_menus (p ∷ ps) f = mark_menus ps (elim (p.menu) [ some m ↦ update f m true | none ↦ f ])

-- `sym_set_changed`
unfoldable pub sym_set_changed : Decls → ℕ → State → State
sym_set_changed d s st =
    change s (λ n. record n { changed = true })
      (record st { menu_changed = mark_menus (d.decl_of s).prop st.menu_changed })

-- `prop_get_symbol`; for an E_LIST the source reads the link to the next element as a symbol, and
-- no caller passes one.
abbrev pub payload_symbol : Payload → Option ℕ
payload_symbol (p_expr (e_symbol s)) = some s
payload_symbol _ = none

abbrev pub prop_get_symbol : Property → Option ℕ
prop_get_symbol p = payload_symbol p.expr

-- `sym_set_all_changed`
unfoldable pub sym_set_all_changed : Decls → List ℕ → State → State
sym_set_all_changed d [] st = st
sym_set_all_changed d (s ∷ l) st = sym_set_all_changed d l (sym_set_changed d s st)
