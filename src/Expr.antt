-- ===== src/Expr.antt =====
-- build-tools/kconfig/expr.h and expr.c: dependency expressions.
-- A `struct expr *` that may be NULL is an `Option Expr`. A symbol is named by a number, which
-- stands for its address. The enumerators E_LIST and E_RANGE occur only in the properties of
-- choices and ranges and are constructors of `Payload` in Symbol.antt, and E_NONE is never stored.
pub mod Value
pub mod Query
pub mod YesNo
pub mod Compare
pub mod Transform
pub mod Eq
pub mod Join
pub mod Extract
pub mod Dups
pub mod Print
use mkrootfs.Base.{arith, ◌≤◌, ℕ, ◌+◌, Bool, true, false, ◌==◌, Option, none, some, ◌>>=◌}

pub data ExprType : Type 0 where
  type_none type_or type_and type_not type_equal type_unequal type_list type_symbol : ExprType
  type_range : ExprType

pub data Expr : Type 0 where
  e_symbol : ℕ → Expr
  e_not : Expr → Expr
  e_and e_or : Expr → Expr → Expr
  e_equal e_unequal : ℕ → ℕ → Expr

-- The addresses of the constant symbols `symbol_no`, `symbol_mod` and `symbol_yes`.
abbrev pub symbol_no : ℕ
symbol_no = 0

abbrev pub symbol_mod : ℕ
symbol_mod = 1

abbrev pub symbol_yes : ℕ
symbol_yes = 2

-- `e->type`
abbrev pub type_of : Expr → ExprType
type_of (e_symbol _) = type_symbol
type_of (e_not _) = type_not
type_of (e_and _ _) = type_and
type_of (e_or _ _) = type_or
type_of (e_equal _ _) = type_equal
type_of (e_unequal _ _) = type_unequal

-- `e->type == E_SYMBOL && e->left.sym == s`
abbrev pub is_symbol : ℕ → Expr → Bool
is_symbol s (e_symbol x) = x == s
is_symbol s _ = false

abbrev pub expr_is_yes : Option Expr → Bool
expr_is_yes none = true
expr_is_yes (some e) = is_symbol symbol_yes e

abbrev pub expr_is_no : Option Expr → Bool
expr_is_no none = false
expr_is_no (some e) = is_symbol symbol_no e

abbrev pub expr_alloc_and : Option Expr → Option Expr → Option Expr
expr_alloc_and none e2 = e2
expr_alloc_and (some e1) none = some e1
expr_alloc_and (some e1) (some e2) = some (e_and e1 e2)

abbrev pub expr_alloc_or : Option Expr → Option Expr → Option Expr
expr_alloc_or none e2 = e2
expr_alloc_or (some e1) none = some e1
expr_alloc_or (some e1) (some e2) = some (e_or e1 e2)

-- A fresh tree of the same shape over the same symbols.
unfoldable pub expr_copy : Expr → Expr
expr_copy (e_symbol s) = e_symbol s
expr_copy (e_not e) = e_not (expr_copy e)
expr_copy (e_equal a b) = e_equal a b
expr_copy (e_unequal a b) = e_unequal a b
expr_copy (e_and l r) = e_and (expr_copy l) (expr_copy r)
expr_copy (e_or l r) = e_or (expr_copy l) (expr_copy r)

unfoldable pub size : Expr → ℕ
size (e_symbol _) = 1
size (e_not e) = 1 + size e
size (e_and l r) = 1 + size l + size r
size (e_or l r) = 1 + size l + size r
size (e_equal _ _) = 1
size (e_unequal _ _) = 1

pub size_pos : (e : Expr) → 1 ≤ size e
unfolding size
size_pos (e_and l r) = omega arith
size_pos _ = omega arith
