-- ===== src/Lib.antt =====
-- The core of the configuration tool under build-tools/kconfig: dependency expressions, their
-- simplification, and the calculation of symbol values. A symbol has a value n, m or y (0, 1 or 2,
-- `tristate`), or a text; the parser builds symbols, their properties and expressions over them;
-- front ends set values, and `sym_calc_value` calculates the rest from prompts, defaults, choices,
-- reverse dependencies and ranges, by calls of `expr_calc_value`, which calls it again. The menu
-- code simplifies the expressions of a tree before it is shown. The values are kept in a file of
-- lines, one for each symbol, which is read into the values that the user has set. Beside the tool
-- stands build-tools/basic/fixdep.c, which rewrites the dependencies that a compiler lists.
--
-- Base       names that every module shares; no code of the repository
-- Tristate   expr.h: `tristate`, EXPR_OR, EXPR_AND, EXPR_NOT
-- Expr       expr.h and expr.c: `struct expr`. One constructor for each type; a symbol is its address,
--            and the constants `symbol_no`, `symbol_mod` and `symbol_yes` stand at 0, 1 and 2. Trees
--            that the code changes in place are returned instead. A null expression is `none`.
--   Value      `expr_calc_value` over a table of calculated symbols
--   Query      `expr_contains_symbol`, `expr_depends_symbol`
--   YesNo      `expr_eliminate_yn`
--   Compare    `expr_trans_bool`, `expr_trans_compare`
--   Transform  `expr_transform`
--   Eq         `expr_eliminate_eq`, `expr_eq`
--   Join       `expr_join_or`, `expr_join_and`
--   Extract    `expr_extract_eq`, `expr_extract_eq_and`, `expr_extract_eq_or`
--   Dups       `expr_eliminate_dups` with its two passes
--     Paths, Apart, Keeps, Joined, Steps   writes at the ends of paths into one tree, and what they keep
--     First, Second, Ends                  the two passes, and the loop
--   Print      `expr_compare_type`, `expr_print`
--     Rules, Grammar   the rules of zconf.y and zconf.l for expressions, and what is printed by them
-- Symbol     expr.h and symbol.c: `struct symbol`, `struct property`, `sym_get_string_value`. What the
--            parser fixes is `Decl`, what changes later `Now`.
-- Config     symbol.c: the state of the calculation, `sym_get_type`, `sym_set_changed`
-- Symtab     symbol.c: `symbol_hash`, `sym_lookup`, `sym_find`
-- Confdata   confdata.c: the lines of a configuration file
--   Read       `conf_set_sym_val`, and `conf_read_simple` from `load` on
--   Write      the lines that `conf_write` writes for symbols
--   AllNew     `conf_set_all_new_symbols`
--   Checks     the loop of `conf_read` that calculates the symbols it has read
--   RoundTrip, Written   reading what was written, and the calculations between the lines
-- Calc       symbol.c: `sym_calc_value` and what it calls, in the monad of Config
--   Expression, Visibility, Range, Value, Run   the operations, callees first
--   Set                                         setting and toggling a value, testing a text
--   Invariant, Total, Settled                   the invariant of the calculation and the proofs
-- Depcheck   symbol.c: `sym_check_deps` and what it calls
--   Lists      the dependencies as one list
--   Orders, Search, Acyclic   what the search does, and that nothing it passes depends on itself
-- Fixdep     build-tools/basic/fixdep.c: the set of words already seen, as one text
--   Words, Once   the text of the set as a list of words; every word printed once
--   Scan          `parse_config_file` over a file in memory
--   Deps          `parse_dep_file`, `print_deps` and `main`, and what they print
-- Gstr       build-tools/kconfig/util.c: strings that grow
-- Menu       menu.c: `struct menu` as nodes at addresses, the calls that the parser builds the tree by,
--            and the loop of `conf_write` over the tree
--   Build, Walk    the tree that the calls leave, and what the loop visits
--   Entry          `menu_check_dep`, `menu_add_dep`, `menu_set_type`, `menu_add_prop` and its callers
--   Added, Types   what these leave behind
--   Visible        `menu_is_visible`; Relation, Sees, Calculated: its
--                  answer, and what it calculates
-- Samples    a table and a tree of symbols to which the theorems are applied, and runs of the code
--
-- Settled tables. The theorems on expressions are about every table in which the three constants
-- are as initialised, no boolean symbol is m, and two constant symbols differ in their texts
-- (`IsSettled`).
--
-- Fuel. Functions that call themselves on trees they have changed run on fuel and return `none`
-- without it: `expr_transform` on `weight e`, where a negation doubles the weight of its operand;
-- `expr_eq` and `expr_eliminate_eq` on four calls for each node; `expr_extract_eq` on the number of
-- nodes. A pass of `expr_eliminate_dups` over n nodes goes down at most 2n + 1 calls until it is
-- inside of a smaller operand (`enough`), and each round of its loop but the last leaves a smaller
-- tree. `sym_calc_value` runs to a depth of one call more than there are symbols: on entry it sets
-- SYMBOL_VALID, so that each nested call that goes on has one symbol less to calculate.
-- `sym_check_deps` marks a symbol as checked before it goes deeper, but for the step from a value
-- to its choice, so its fuel is two calls for each symbol and two more. A file is split into lines
-- on one step more than it has characters; the loop of `parse_dep_file` runs on one step more than
-- there are bytes, and `grow_config`, which doubles a size, on one step more than the size that is
-- wanted. `menu_is_visible` runs on two calls more than there are menus below the menu, and the
-- loop of `conf_write` on two steps for each menu and two more.
--
-- Not modelled. Allocation, `expr_free`, and the files and strings that `expr_print` prints to. An
-- E_LIST or E_RANGE is the payload of a property (`Payload`) and not an expression, and E_NONE,
-- which nothing builds, has no constructor. `int` from `strtol` is an integer that the C library, a
-- parameter (`Libc`), gives back. What the C library's `memcmp` finds on two values, which hold
-- addresses, is a parameter as well. Of the parser only the rules for
-- expressions and for symbols are described. The front ends are left out, and of menu.c
-- `menu_finalize`, `sym_check_prop`, `menu_add_option` and the help texts; and so is fakeroot, a
-- copy of another project. Of confdata.c only the lines for symbols are modelled, for the values
-- that the user sets (S_DEF_USER), the loop of `conf_read` that compares them, and
-- `conf_set_all_new_symbols`; the choice and the opening of files, auto.conf and autoconf.h are
-- not. A last line of `#` alone, without a newline, counts as a comment, whatever earlier lines have
-- left in the buffer behind it. Texts are ASCII. Messages on the standard error are left out, and so is `traps` of fixdep.c,
-- a test of the byte order.
pub mod Base
pub mod Tristate
pub mod Symbol
pub mod Expr
pub mod Config
pub mod Symtab
pub mod Calc
pub mod Confdata
pub mod Depcheck
pub mod Fixdep
pub mod Gstr
pub mod Menu
pub mod Samples
