-- ===== src/Menu/Entry.antt =====
-- build-tools/kconfig/menu.c: the dependency, the type and the properties that the parser adds to the
-- current entry. `modules` is the address of `modules_sym`, which the parser sets before it reads.
use mkrootfs.Base.{
  zero, suc, ℕ, Bool, true, false, ◌&&◌, ◌||◌, leb, ◌==◌, if◌then◌else◌, length, Option, none, some,
  List, [], ◌∷◌, ◌++◌, update,
}
use Prim.Native.String.{String, ◌∷◌ as ◌then◌}
use Prim.Native.Char.{Char, code}
use mkrootfs.Expr.{
  expr_copy, Expr, e_symbol, e_not, e_and, e_or, e_equal, e_unequal, symbol_mod, expr_alloc_and,
}
use mkrootfs.Symbol.{
  s_tristate, s_int, s_hex, s_other, p_build_depends, SymbolType, s_unknown, s_boolean, s_string,
  s_package, s_srcdir, PropType, p_package, p_srcdir, Payload, p_null, p_expr, Property, Decl,
}
use mkrootfs.Menu.{Prompt, no_prompt, of_symbol, own, Node, Builder}

-- `menu_check_dep` on an expression: `m` becomes `m && MODULES`.
unfoldable pub check_dep : ℕ → Expr → Expr
check_dep modules (e_not e) = e_not (check_dep modules e)
check_dep modules (e_or l r) = e_or (check_dep modules l) (check_dep modules r)
check_dep modules (e_and l r) = e_and (check_dep modules l) (check_dep modules r)
check_dep modules (e_symbol s) =
    if s == symbol_mod then e_and (e_symbol s) (e_symbol modules) else e_symbol s
check_dep modules (e_equal a b) = e_equal a b
check_dep modules (e_unequal a b) = e_unequal a b

abbrev pub menu_check_dep : ℕ → Option Expr → Option Expr
menu_check_dep modules none = none
menu_check_dep modules (some e) = some (check_dep modules e)

-- The messages of `menu_warn` and `prop_warn`, with the entry that they are about.
pub data Warning : Type 0 where
  type_redefined leading_whitespace prompt_redefined : ℕ → Warning

-- The menus, the symbols' declarations and the warnings so far.
pub record Parse : Type 0 where
  pub menus : Builder
  pub decls : ℕ → Decl
  pub warnings : List Warning

-- `current_entry`
abbrev pub entry_of : Parse → Node
entry_of p = p.menus.nodes p.menus.current_entry

abbrev pub with_entry : Node → Parse → Parse
with_entry n p = record p {
  menus = record (p.menus) { nodes = update p.menus.nodes p.menus.current_entry n };
}

abbrev pub with_decl : ℕ → Decl → Parse → Parse
with_decl s d p = record p { decls = update p.decls s d }

abbrev pub add_warning : Warning → Parse → Parse
add_warning w p = record p { warnings = p.warnings ++ w ∷ [] }

unfoldable pub menu_add_dep : ℕ → Option Expr → Parse → Parse
menu_add_dep modules dep p =
    with_entry
      (record (entry_of p) { dep = expr_alloc_and (entry_of p).dep (menu_check_dep modules dep) }) p

-- `prop_alloc` for a symbol: the property stands at the end of its list.
abbrev pub append_prop : Property → Decl → Decl
append_prop q d = record d { prop = d.prop ++ q ∷ [] }

abbrev pub add_prop : Option ℕ → Property → Parse → Parse
add_prop none q p = p
add_prop (some s) q p = with_decl s (append_prop q (p.decls s)) p

-- `prop_alloc(type, sym)`, zeroed but for its type.
abbrev pub zero_prop : PropType → Property
zero_prop type = record {
  type = type;
  prompt = none;
  visible_expr = none;
  expr = p_null;
  menu = none;
}

-- `isspace`
abbrev pub is_space : Char → Bool
is_space c = (code c == 32) || (leb 9 (code c) && leb (code c) 13)

-- `while (isspace(*prompt)) prompt++;`
unfoldable pub skip_spaces : String → String
skip_spaces String.[] = String.[]
skip_spaces (String.◌∷◌ c s) = if is_space c then skip_spaces s else (String.◌∷◌ c s)

abbrev pub starts_with_space : String → Bool
starts_with_space String.[] = false
starts_with_space (String.◌∷◌ c s) = is_space c

-- The pointer to the property that `prop_alloc` has added, or will add, to the symbol.
abbrev pub new_prompt : Option ℕ → Property → (ℕ → Decl) → Prompt
new_prompt none q decls = own q
new_prompt (some s) q decls = of_symbol (length (decls s).prop)

abbrev pub has_prompt : Prompt → Bool
has_prompt no_prompt = false
has_prompt _ = true

-- `if (prompt) …`: the warnings, and `current_entry->prompt = prop`.
abbrev pub warn_if : Bool → Warning → Parse → Parse
warn_if b w p = record p { warnings = if b then p.warnings ++ w ∷ [] else p.warnings }

abbrev pub set_prompt : Option String → Property → Parse → Parse
set_prompt none q p = p
set_prompt (some text) q p =
    let p1 = warn_if (starts_with_space text) (leading_whitespace p.menus.current_entry) p in
    let p2 = warn_if (has_prompt (entry_of p).prompt) (prompt_redefined p.menus.current_entry) p1 in
    with_entry (record (entry_of p) { prompt = new_prompt (entry_of p).sym q p.decls }) p2

abbrev pub trimmed : Option String → Option String
trimmed none = none
trimmed (some text) = some (skip_spaces text)

-- The property of `menu_add_prop`.
abbrev pub new_prop : ℕ → PropType → Option String → Payload → Option Expr → Parse → Property
new_prop modules type prompt expr dep p = record {
  type = type;
  prompt = trimmed prompt;
  visible_expr = menu_check_dep modules dep;
  expr = expr;
  menu = some p.menus.current_entry;
}

unfoldable pub menu_add_prop : ℕ → PropType → Option String → Payload → Option Expr → Parse → Parse
menu_add_prop modules type prompt expr dep p =
    let q = new_prop modules type prompt expr dep p in
    add_prop (entry_of p).sym q (set_prompt prompt q p)

abbrev pub menu_add_prompt : ℕ → PropType → Option String → Option Expr → Parse → Parse
menu_add_prompt modules type prompt dep p = menu_add_prop modules type prompt p_null dep p

abbrev pub menu_add_expr : ℕ → PropType → Payload → Option Expr → Parse → Parse
menu_add_expr modules type expr dep p = menu_add_prop modules type none expr dep p

abbrev pub menu_add_symbol : ℕ → PropType → ℕ → Option Expr → Parse → Parse
menu_add_symbol modules type sym dep p =
    menu_add_prop modules type none (p_expr (e_symbol sym)) dep p

unfoldable pub menu_add_build_dep : ℕ → Expr → Parse → Parse
menu_add_build_dep modules dep p =
    menu_add_dep modules (some dep)
      (menu_add_prop modules p_build_depends none (p_expr (expr_copy dep)) none p)

-- The switch of `menu_set_type`: the properties of the kinds `package` and `srcdir`, and the type that
-- is set for them.
abbrev pub kind_props : SymbolType → ℕ → Parse → Parse
kind_props s_package s p = add_prop (some s) (zero_prop p_package) p
kind_props s_srcdir s p = add_prop (some s) (zero_prop p_srcdir) p
kind_props _ s p = p

abbrev pub kind_type : SymbolType → SymbolType
kind_type s_package = s_boolean
kind_type s_srcdir = s_string
kind_type type = type

abbrev pub same_type : SymbolType → SymbolType → Bool
same_type s_unknown s_unknown = true
same_type s_boolean s_boolean = true
same_type s_tristate s_tristate = true
same_type s_int s_int = true
same_type s_hex s_hex = true
same_type s_string s_string = true
same_type s_package s_package = true
same_type s_srcdir s_srcdir = true
same_type s_other s_other = true
same_type _ _ = false

-- What follows the switch.
abbrev pub store_type : SymbolType → ℕ → Parse → Parse
store_type type s p =
    if same_type (p.decls s).type type
    then p
    else if same_type (p.decls s).type s_unknown
    then with_decl s (record (p.decls s) { type = type }) p
    else add_warning (type_redefined p.menus.current_entry) p

-- `menu_set_type`, whose entry has a symbol.
abbrev pub set_type : SymbolType → Option ℕ → Parse → Option Parse
set_type type none p = none
set_type type (some s) p = some (store_type (kind_type type) s (kind_props type s p))

unfoldable pub menu_set_type : SymbolType → Parse → Option Parse
menu_set_type type p = set_type type (entry_of p).sym p

-- The property that a prompt points to.
abbrev pub nth : List Property → ℕ → Option Property
nth [] n = none
nth (q ∷ l) zero = some q
nth (q ∷ l) (suc n) = nth l n

abbrev pub listed : Option ℕ → ℕ → (ℕ → Decl) → Option Property
listed none i decls = none
listed (some s) i decls = nth (decls s).prop i

abbrev pub prompt_at : Option ℕ → Prompt → (ℕ → Decl) → Option Property
prompt_at sym no_prompt decls = none
prompt_at sym (of_symbol i) decls = listed sym i decls
prompt_at sym (own q) decls = some q

abbrev pub prompt_of : Node → (ℕ → Decl) → Option Property
prompt_of n decls = prompt_at n.sym n.prompt decls
