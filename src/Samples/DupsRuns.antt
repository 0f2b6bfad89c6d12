-- ===== src/Samples/DupsRuns.antt =====
-- Eliminating what stands twice in an expression over the sample table, and printing one.
use mkrootfs.Base.{if◌then◌else◌, ◌==◌, ◌∷◌, ◌≡◌, refl, ◌≤◌, some, [], Returns}
use mkrootfs.Expr.{type_none, e_not, Expr, e_symbol, e_and, e_or, e_equal, size}
use mkrootfs.Expr.Value.{value}
use mkrootfs.Expr.Eq.{conj}
use mkrootfs.Expr.Dups.{Walk, dups1, enough, expr_eliminate_dups}
use mkrootfs.Expr.Dups.Ends.{expr_eliminate_dups-Returns, dups1-value}
use mkrootfs.Expr.Print.{name, literal, print, expr_print, expr_compare_type}
use mkrootfs.Expr.Print.Grammar.{names_of, expr_print-Reads}
use mkrootfs.Expr.Print.Rules.{or_level, Reads, IsNamed, is_word}
use mkrootfs.Symtab.{Symtab, sym_lookup, hash, constant_named, find_in}
use mkrootfs.Samples.Tree.{tree}
use mkrootfs.Samples.{sample, sample-IsSettled, usb, net}

abbrev doubled : Expr
doubled =
    e_and (e_or (e_symbol usb) (e_symbol usb))
      (e_and (e_symbol net) (e_or (e_symbol usb) (e_symbol usb)))

expr_eliminate_dups-Returns_example :
    Returns
      (λ o. (r : Expr) × (o ≡ some r) × (size r ≤ size doubled))
      (expr_eliminate_dups sample (some doubled))
expr_eliminate_dups-Returns_example = expr_eliminate_dups-Returns sample sample-IsSettled doubled

abbrev at_doubled : Walk
at_doubled = record { tree = doubled; count = 0 }

dups1-value_example :
    Returns
      (λ v. value sample v.tree ≡ value sample doubled)
      (dups1 (enough (size doubled)) sample conj at_doubled [] [])
dups1-value_example = dups1-value sample sample-IsSettled conj at_doubled refl

abbrev tab : Symtab
tab = record {
  symbol_hash = λ h. if h == 231 then 3 ∷ [] else if h == 234 then 4 ∷ [] else [];
  decl_of = tree.decl_of;
  fresh = 10;
}

-- An expression over the symbols NET and USB of a table.
abbrev mixed : Expr
mixed = e_and (e_not (e_or (e_symbol 3) (e_symbol 4))) (e_and (e_symbol 4) (e_equal 4 3))

net-IsNamed : IsNamed tab 3
unfolding is_word sym_lookup hash constant_named find_in
net-IsNamed = ("NET", refl, refl, refl)

usb-IsNamed : IsNamed tab 4
unfolding is_word sym_lookup hash constant_named find_in
usb-IsNamed = ("USB", refl, refl, refl)

expr_print-Reads_example :
    Reads tab or_level (expr_print (names_of tab) (some mixed) type_none) mixed
expr_print-Reads_example =
    expr_print-Reads tab mixed
      ((net-IsNamed, usb-IsNamed), (usb-IsNamed, (usb-IsNamed, net-IsNamed)))

mixed_printed :
    expr_print (names_of tab) (some mixed) type_none
    ≡ literal "!"
      ∷ (literal "("
          ∷ (name 3 (some "NET")
              ∷ (literal " || "
                  ∷ (name 4 (some "USB")
                      ∷ (literal ")"
                          ∷ (literal " && "
                              ∷ (name 4 (some "USB")
                                  ∷ (literal " && "
                                      ∷ (name 4 (some "USB")
                                          ∷ (literal "=" ∷ (name 3 (some "NET") ∷ [])))))))))))
unfolding expr_print print expr_compare_type
mixed_printed = refl
