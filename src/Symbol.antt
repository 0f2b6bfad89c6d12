-- ===== src/Symbol.antt =====
-- build-tools/kconfig/expr.h: symbols and their properties. A bit of the mask `flags` is a field
-- of its own. `curr.val` is a text, or for a choice the address of the chosen symbol.
use mkrootfs.Base.{ℕ, String, Bool, true, false, Option, none, some, List, []}
use mkrootfs.Tristate.{Tristate, tri_no, tri_text}
use mkrootfs.Expr.{Expr}

pub data SymbolType : Type 0 where
  s_unknown s_boolean s_tristate s_int s_hex s_string s_package s_srcdir s_other : SymbolType

-- A null pointer, a text, or the address of a symbol.
pub data Val : Type 0 where
  null : Val
  text : String → Val
  symbol : ℕ → Val

pub record SymbolValue : Type 0 where
  pub val : Val
  pub tri : Tristate

pub data PropType : Type 0 where
  p_unknown p_prompt p_comment p_menu p_default p_choice p_select p_range p_env : PropType
  p_package p_srcdir p_build_depends p_build_select : PropType

-- `prop->expr`: null, an expression, the E_LIST of a choice's values, or an E_RANGE.
pub data Payload : Type 0 where
  p_null : Payload
  p_expr : Expr → Payload
  p_list : List ℕ → Payload
  p_bounds : ℕ → ℕ → Payload

-- `struct property`; `prop->visible.tri` is `prop_tri` of the symbol's state.
pub record Property : Type 0 where
  pub type : PropType
  pub prompt : Option String
  pub visible_expr : Option Expr
  pub expr : Payload
  pub menu : Option ℕ

-- The part of `struct symbol` that the parser fills in: the bits SYMBOL_CONST, SYMBOL_CHOICE,
-- SYMBOL_CHOICEVAL, SYMBOL_OPTIONAL and SYMBOL_AUTO of `flags`, and all fields that a calculation
-- leaves alone.
pub record Decl : Type 0 where
  pub name : Option String
  pub type : SymbolType
  pub const : Bool
  pub choice : Bool
  pub choiceval : Bool
  pub optional : Bool
  pub auto : Bool
  pub prop : List Property
  pub rev_dep_expr : Option Expr

-- The part of `struct symbol` that changes later: values, visibility, and the bits SYMBOL_VALID,
-- SYMBOL_WRITE, SYMBOL_CHANGED and SYMBOL_DEF_USER of `flags`. `prop_tri` gives `visible.tri` for
-- the property at each place of the list.
pub record Now : Type 0 where
  pub curr : SymbolValue
  pub user : SymbolValue
  pub visible : Tristate
  pub rev_dep_tri : Tristate
  pub valid : Bool
  pub write : Bool
  pub changed : Bool
  pub def_user : Bool
  pub prop_tri : ℕ → Tristate

pub record Symbol : Type 0 where
  pub decl : Decl
  pub open decl use *
  pub now : Now
  pub open now use *

abbrev pub Table : Type 0
Table = ℕ → Symbol

-- A symbol after `memset(symbol, 0, sizeof(*symbol))`.
abbrev pub zero_decl : Decl
zero_decl = record {
  name = none;
  type = s_unknown;
  const = false;
  choice = false;
  choiceval = false;
  optional = false;
  auto = false;
  prop = [];
  rev_dep_expr = none;
}

abbrev pub zero_now : Now
zero_now = record {
  curr = record { val = null; tri = tri_no };
  user = record { val = null; tri = tri_no };
  visible = tri_no;
  rev_dep_tri = tri_no;
  valid = false;
  write = false;
  changed = false;
  def_user = false;
  prop_tri = λ _. tri_no;
}

-- The initialisers of `symbol_yes`, `symbol_mod` and `symbol_no`.
abbrev pub const_decl : Tristate → Decl
const_decl v = record zero_decl { name = some (tri_text v); const = true }

abbrev pub const_now : Tristate → Now
const_now v = record zero_now { curr = record { val = text (tri_text v); tri = v }; valid = true }

abbrev pub const_symbol : Tristate → Symbol
const_symbol v = record { decl = const_decl v; now = const_now v }

abbrev pub is_boolean : SymbolType → Bool
is_boolean s_boolean = true
is_boolean _ = false

abbrev pub is_tristate : SymbolType → Bool
is_tristate s_tristate = true
is_tristate _ = false

-- The types whose value is a text.
abbrev pub is_text : SymbolType → Bool
is_text s_string = true
is_text s_int = true
is_text s_hex = true
is_text _ = false

-- `(const char *)val`. A null pointer or a symbol's address, which the callers never read as a
-- text, gives the empty text.
abbrev pub val_text : Val → String
val_text (text s) = s
val_text _ = ""

abbrev pub text_as : SymbolType → SymbolValue → String
text_as s_boolean v = tri_text v.tri
text_as s_tristate v = tri_text v.tri
text_as _ v = val_text v.val

unfoldable pub sym_get_string_value : Symbol → String
sym_get_string_value s = text_as s.type s.curr
