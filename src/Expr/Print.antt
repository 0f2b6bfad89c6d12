-- ===== src/Expr/Print.antt =====
-- build-tools/kconfig/expr.c: `expr_compare_type` and `expr_print`. What is printed is the list of the
-- calls of `fn`, each with a symbol and its name, or with a null symbol and a text. The symbols' names
-- are a parameter; the name of a symbol without one is null.
pub mod Rules
pub mod Grammar
use mkrootfs.Base.{
  ◌==◌, ℕ, String, Bool, true, false, if◌then◌else◌, Option, none, some, List, [], ◌∷◌, ◌++◌,
}
use mkrootfs.Expr.{
  ExprType, type_none, type_or, type_and, type_not, type_equal, type_unequal, type_list,
  type_symbol, type_range, Expr, e_symbol, e_not, e_and, e_or, e_equal, e_unequal, type_of,
}

abbrev pub type_code : ExprType → ℕ
type_code type_none = 0
type_code type_or = 1
type_code type_and = 2
type_code type_not = 3
type_code type_equal = 4
type_code type_unequal = 5
type_code type_list = 6
type_code type_symbol = 7
type_code type_range = 8

-- The results 1, 0 and -1.
pub data Rank : Type 0 where
  higher same other : Rank

abbrev pub type_eq : ExprType → ExprType → Bool
type_eq a b = type_code a == type_code b

-- The cases of the switch, each with those that it falls through to.
abbrev pub list_case : ExprType → Rank
list_case t2 = if type_eq t2 type_none then higher else other

abbrev pub or_case : ExprType → Rank
or_case t2 = if type_eq t2 type_list then higher else list_case t2

abbrev pub and_case : ExprType → Rank
and_case t2 = if type_eq t2 type_or then higher else or_case t2

abbrev pub not_case : ExprType → Rank
not_case t2 = if type_eq t2 type_and then higher else and_case t2

abbrev pub equal_case : ExprType → Rank
equal_case t2 = if type_eq t2 type_not then higher else not_case t2

abbrev pub compare_switch : ExprType → ExprType → Rank
compare_switch type_equal t2 = equal_case t2
compare_switch type_unequal t2 = equal_case t2
compare_switch type_not t2 = not_case t2
compare_switch type_and t2 = and_case t2
compare_switch type_or t2 = or_case t2
compare_switch type_list t2 = list_case t2
compare_switch _ t2 = other

unfoldable pub expr_compare_type : ExprType → ExprType → Rank
expr_compare_type t1 t2 = if type_eq t1 t2 then same else compare_switch t1 t2

abbrev pub is_higher : Rank → Bool
is_higher higher = true
is_higher _ = false

-- A call of `fn`: with a symbol and its name, which may be null, or with a null symbol and a text.
pub data Piece : Type 0 where
  name : ℕ → Option String → Piece
  literal : String → Piece

-- `if (e->left.sym->name) … else fn(data, NULL, "<choice>");`
abbrev pub print_symbol : (ℕ → Option String) → ℕ → Piece
print_symbol names s = elim (names s) [ some w ↦ name s (some w) | none ↦ literal "<choice>" ]

-- `fn(data, e->right.sym, e->right.sym->name);`
abbrev pub print_right : (ℕ → Option String) → ℕ → Piece
print_right names s = name s (names s)

-- `if (expr_compare_type(prevtoken, e->type) > 0) fn(data, NULL, …);`
abbrev pub bracket : ExprType → ExprType → String → List Piece
bracket prevtoken type s =
    if is_higher (expr_compare_type prevtoken type) then literal s ∷ [] else []

unfoldable pub print : (ℕ → Option String) → Expr → ExprType → List Piece
print names (e_symbol s) prevtoken =
    bracket prevtoken type_symbol "("
    ++ ((print_symbol names s ∷ []) ++ bracket prevtoken type_symbol ")")
print names (e_not e) prevtoken =
    bracket prevtoken type_not "("
    ++ ((literal "!" ∷ print names e type_not) ++ bracket prevtoken type_not ")")
print names (e_equal a b) prevtoken =
    bracket prevtoken type_equal "("
    ++ ((print_symbol names a ∷ (literal "=" ∷ (print_right names b ∷ [])))
        ++ bracket prevtoken type_equal ")")
print names (e_unequal a b) prevtoken =
    bracket prevtoken type_unequal "("
    ++ ((print_symbol names a ∷ (literal "!=" ∷ (print_right names b ∷ [])))
        ++ bracket prevtoken type_unequal ")")
print names (e_or l r) prevtoken =
    bracket prevtoken type_or "("
    ++ ((print names l type_or ++ (literal " || " ∷ print names r type_or))
        ++ bracket prevtoken type_or ")")
print names (e_and l r) prevtoken =
    bracket prevtoken type_and "("
    ++ ((print names l type_and ++ (literal " && " ∷ print names r type_and))
        ++ bracket prevtoken type_and ")")

-- `expr_print`; a null expression is printed as `y`.
unfoldable pub expr_print : (ℕ → Option String) → Option Expr → ExprType → List Piece
expr_print names none prevtoken = literal "y" ∷ []
expr_print names (some e) prevtoken = print names e prevtoken
