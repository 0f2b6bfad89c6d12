-- ===== src/Expr/Print/Grammar.antt =====
-- build-tools/kconfig/expr.c: what `expr_print` prints, read by the rules of zconf.y and zconf.l.
use mathlib.Core.List.{append_assoc, append-nil}
use mkrootfs.Base.{String, Option, ℕ, ◌≡◌, refl, sym, ap, ◌∙◌, subst, List, [], ◌∷◌, ◌++◌, some}
use mkrootfs.Tristate.{expr_and, expr_or, expr_not}
use mkrootfs.Tristate.Laws.{and_assoc, or_assoc}
use mkrootfs.Symbol.{Table}
use mkrootfs.Expr.{
  type_none, type_or, type_and, type_not, Expr, e_symbol, e_not, e_and, e_or, e_equal, e_unequal,
}
use mkrootfs.Symtab.{Symtab}
use mkrootfs.Expr.Value.{value}
use mkrootfs.Expr.Print.{
  Piece, literal, print, expr_print, expr_compare_type, print_symbol, print_right,
}
use mkrootfs.Expr.Print.Rules.{
  Level, or_level, and_level, primary, Parses, word, equals, unequals, parens, negation, factor,
  and_then, term, or_then, Reads, IsNamed, AllNamed, IsText, word_rule,
}

-- What is printed below each operator, alone and behind what was read already.
record Printed (tab : Symtab) (names : ℕ → Option String) (e : Expr) : Type 0 where
  at_not : Reads tab primary (print names e type_not) e
  at_and : Reads tab and_level (print names e type_and) e
  after_and :
      (l : List Piece) (d : Expr)
      → Parses tab and_level l d
      → Reads tab and_level (l ++ (literal " && " ∷ print names e type_and)) (e_and d e)
  at_or : Reads tab or_level (print names e type_or) e
  after_or :
      (l : List Piece) (d : Expr)
      → Parses tab or_level l d
      → Reads tab or_level (l ++ (literal " || " ∷ print names e type_or)) (e_or d e)
  at_none : Reads tab or_level (print names e type_none) e

factor_of :
    {tab : Symtab} {l : List Piece} {e : Expr} → Reads tab primary l e → Reads tab and_level l e
factor_of r = record { tree = r.tree; parses = factor (r.parses); keeps = r.keeps }

term_of :
    {tab : Symtab} {l : List Piece} {e : Expr} → Reads tab and_level l e → Reads tab or_level l e
term_of r = record { tree = r.tree; parses = term (r.parses); keeps = r.keeps }

parens_of :
    {tab : Symtab} {l : List Piece} {e : Expr}
    → Reads tab or_level l e
    → Reads tab primary (literal "(" ∷ (l ++ literal ")" ∷ [])) e
parens_of r = record { tree = r.tree; parses = parens (r.parses); keeps = r.keeps }

and_of :
    {tab : Symtab} {l k : List Piece} {e d : Expr}
    → Parses tab and_level l d
    → Reads tab primary k e
    → Reads tab and_level (l ++ (literal " && " ∷ k)) (e_and d e)
unfolding value
and_of {d = d} a r = record {
  tree = e_and d r.tree;
  parses = and_then a (r.parses);
  keeps = λ t. ap (expr_and (value t d)) (r.keeps t);
}

or_of :
    {tab : Symtab} {l k : List Piece} {e d : Expr}
    → Parses tab or_level l d
    → Reads tab and_level k e
    → Reads tab or_level (l ++ (literal " || " ∷ k)) (e_or d e)
unfolding value
or_of {d = d} a r = record {
  tree = e_or d r.tree;
  parses = or_then a (r.parses);
  keeps = λ t. ap (expr_or (value t d)) (r.keeps t);
}

-- An expression that is printed without brackets below every operator.
of_primary :
    (tab : Symtab) (names : ℕ → Option String) (e : Expr) (l : List Piece)
    → print names e type_not ≡ l
    → print names e type_and ≡ l
    → print names e type_or ≡ l
    → print names e type_none ≡ l
    → Reads tab primary l e
    → Printed tab names e
of_primary tab names e l hn ha ho hz r = record {
  at_not = subst (λ m. Reads tab primary m e) (sym hn) r;
  at_and = subst (λ m. Reads tab and_level m e) (sym ha) (factor_of r);
  after_and = λ k d a.
      subst (λ m. Reads tab and_level (k ++ (literal " && " ∷ m)) (e_and d e)) (sym ha)
        (and_of a r);
  at_or = subst (λ m. Reads tab or_level m e) (sym ho) (term_of (factor_of r));
  after_or = λ k d a.
      subst (λ m. Reads tab or_level (k ++ (literal " || " ∷ m)) (e_or d e)) (sym ho)
        (or_of a (factor_of r));
  at_none = subst (λ m. Reads tab or_level m e) (sym hz) (term_of (factor_of r));
}

same_value :
    {tab : Symtab} {level : Level} {l : List Piece} {e : Expr} (f : Expr)
    → Reads tab level l e
    → ((t : Table) → value t e ≡ value t f)
    → Reads tab level l f
same_value f r h = record { tree = r.tree; parses = r.parses; keeps = λ t. r.keeps t ∙ h t }

-- Two operands behind one another, and behind what was read already.
and_core :
    (tab : Symtab) (names : ℕ → Option String) (l r : Expr)
    → Printed tab names l
    → Printed tab names r
    → Reads tab and_level
        (print names l type_and ++ (literal " && " ∷ print names r type_and))
        (e_and l r)
unfolding value
and_core tab names l r pl pr =
    let a = pl.at_and in
    same_value (e_and l r) (pr.after_and (print names l type_and) a.tree (a.parses))
      (λ t. ap (λ v. expr_and v (value t r)) (a.keeps t))

or_core :
    (tab : Symtab) (names : ℕ → Option String) (l r : Expr)
    → Printed tab names l
    → Printed tab names r
    → Reads tab or_level
        (print names l type_or ++ (literal " || " ∷ print names r type_or))
        (e_or l r)
unfolding value
or_core tab names l r pl pr =
    let a = pl.at_or in
    same_value (e_or l r) (pr.after_or (print names l type_or) a.tree (a.parses))
      (λ t. ap (λ v. expr_or v (value t r)) (a.keeps t))

and_chain :
    (tab : Symtab) (names : ℕ → Option String) (l r : Expr) (k : List Piece) (d : Expr)
    → Printed tab names l
    → Printed tab names r
    → Parses tab and_level k d
    → Reads tab and_level
        (k
          ++ (literal " && "
              ∷ (print names l type_and ++ (literal " && " ∷ print names r type_and))))
        (e_and d (e_and l r))
unfolding value
and_chain tab names l r k d pl pr p =
    let a = pl.after_and k d p in
    subst (λ m. Reads tab and_level m (e_and d (e_and l r)))
      (append_assoc k (literal " && " ∷ print names l type_and)
        (literal " && " ∷ print names r type_and))
      (same_value (e_and d (e_and l r))
        (pr.after_and (k ++ (literal " && " ∷ print names l type_and)) a.tree (a.parses))
        (λ t.
          ap (λ v. expr_and v (value t r)) (a.keeps t)
          ∙ and_assoc (value t d) (value t l) (value t r)))

or_chain :
    (tab : Symtab) (names : ℕ → Option String) (l r : Expr) (k : List Piece) (d : Expr)
    → Printed tab names l
    → Printed tab names r
    → Parses tab or_level k d
    → Reads tab or_level
        (k
          ++ (literal " || " ∷ (print names l type_or ++ (literal " || " ∷ print names r type_or))))
        (e_or d (e_or l r))
unfolding value
or_chain tab names l r k d pl pr p =
    let a = pl.after_or k d p in
    subst (λ m. Reads tab or_level m (e_or d (e_or l r)))
      (append_assoc k (literal " || " ∷ print names l type_or)
        (literal " || " ∷ print names r type_or))
      (same_value (e_or d (e_or l r))
        (pr.after_or (k ++ (literal " || " ∷ print names l type_or)) a.tree (a.parses))
        (λ t.
          ap (λ v. expr_or v (value t r)) (a.keeps t)
          ∙ or_assoc (value t d) (value t l) (value t r)))

abbrev pub names_of : Symtab → ℕ → Option String
names_of tab s = (tab.decl_of s).name

module _ (tab : Symtab) where
  print_symbol-IsText : (s : ℕ) → IsNamed tab s → IsText tab (print_symbol (names_of tab) s) s
  print_symbol-IsText s (w, e, h, l) = rw (e, print_symbol) (w, refl, word_rule w s h l)

  print_right-IsText : (s : ℕ) → IsNamed tab s → IsText tab (print_right (names_of tab) s) s
  print_right-IsText s (w, e, h, l) = (w, e, word_rule w s h l)

  print-Printed : (e : Expr) → AllNamed tab e → Printed tab (names_of tab) e
  unfolding print expr_compare_type value
  print-Printed (e_symbol s) h =
      of_primary tab (names_of tab) (e_symbol s) _ refl refl refl refl
        (record { tree = e_symbol s; parses = word (print_symbol-IsText s h); keeps = λ t. refl })
  print-Printed (e_equal a b) h =
      of_primary tab (names_of tab) (e_equal a b) _ refl refl refl refl (record {
        tree = e_equal a b;
        parses = equals (print_symbol-IsText a h.0) (print_right-IsText b h.1);
        keeps = λ t. refl;
      })
  print-Printed (e_unequal a b) h =
      of_primary tab (names_of tab) (e_unequal a b) _ refl refl refl refl (record {
        tree = e_unequal a b;
        parses = unequals (print_symbol-IsText a h.0) (print_right-IsText b h.1);
        keeps = λ t. refl;
      })
  print-Printed (e_not e) h =
      let r = (print-Printed e h).at_not in
      let q = append-nil (literal "!" ∷ print (names_of tab) e type_not) in
      of_primary tab (names_of tab) (e_not e) (literal "!" ∷ print (names_of tab) e type_not) q q q
        q
        (record {
          tree = e_not r.tree;
          parses = negation (r.parses);
          keeps = λ t. ap expr_not (r.keeps t);
        })
  print-Printed (e_and l r) (hl, hr) =
      let pl = print-Printed l hl in
      let pr = print-Printed r hr in
      let core = and_core tab (names_of tab) l r pl pr in
      let q = sym (
        append-nil (
          print (names_of tab) l type_and ++ (literal " && " ∷ print (names_of tab) r type_and))) in
      record {
        at_not = parens_of (term_of core);
        at_and = subst (λ m. Reads tab and_level m (e_and l r)) q core;
        after_and = λ k d p.
            subst (λ m. Reads tab and_level (k ++ (literal " && " ∷ m)) (e_and d (e_and l r))) q
              (and_chain tab (names_of tab) l r k d pl pr p);
        at_or = subst (λ m. Reads tab or_level m (e_and l r)) q (term_of core);
        after_or = λ k d p.
            subst (λ m. Reads tab or_level (k ++ (literal " || " ∷ m)) (e_or d (e_and l r))) q
              (or_of p core);
        at_none = subst (λ m. Reads tab or_level m (e_and l r)) q (term_of core);
      }
  print-Printed (e_or l r) (hl, hr) =
      let pl = print-Printed l hl in
      let pr = print-Printed r hr in
      let core = or_core tab (names_of tab) l r pl pr in
      let q = sym (
        append-nil
          (print (names_of tab) l type_or ++ (literal " || " ∷ print (names_of tab) r type_or))) in
      record {
        at_not = parens_of core;
        at_and = factor_of (parens_of core);
        after_and = λ k d p. and_of p (parens_of core);
        at_or = subst (λ m. Reads tab or_level m (e_or l r)) q core;
        after_or = λ k d p.
            subst (λ m. Reads tab or_level (k ++ (literal " || " ∷ m)) (e_or d (e_or l r))) q
              (or_chain tab (names_of tab) l r k d pl pr p);
        at_none = subst (λ m. Reads tab or_level m (e_or l r)) q core;
      }

  -- If every symbol of an expression has as its name a word that is no keyword, and `sym_lookup` without
  -- flags gives the symbol for this name, what `expr_print` prints is, by the grammar, the text of an
  -- expression with the same value in every table.
  pub expr_print-Reads :
      (e : Expr)
      → AllNamed tab e
      → Reads tab or_level (expr_print (names_of tab) (some e) type_none) e
  unfolding expr_print
  expr_print-Reads e h = (print-Printed e h).at_none
