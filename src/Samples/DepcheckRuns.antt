-- ===== src/Samples/DepcheckRuns.antt =====
-- The dependency check on the sample tree.
use mkrootfs.Base.{ℕ, ◌≡◌, refl, arith, false, Option, none, some, inl}
use mkrootfs.Symbol.{Decl}
use mkrootfs.Depcheck.{Marks, check_expr, check_props, check_fuel, sym_check_deps}
use mkrootfs.Depcheck.Search.{NoChoices}
use mkrootfs.Depcheck.Acyclic.{direct, IsAcyclic, unmarked, sym_check_deps-IsAcyclic}
use mkrootfs.Samples.Tree.{tree, tree-IsClosed, decls, at_or-Each}

tree-NoChoices : NoChoices tree
tree-NoChoices = record {
  no_choiceval =
      at_or-Each (λ (x : Decl). x.choiceval ≡ false) decls
        (refl, (refl, (refl, (refl, (refl, (refl, (refl, (refl, (refl, (refl, tt)))))))))) refl;
  no_choice =
      at_or-Each (λ (x : Decl). x.choice ≡ false) decls
        (refl, (refl, (refl, (refl, (refl, (refl, (refl, (refl, (refl, (refl, tt)))))))))) refl;
}

abbrev errors_of : Option (Option ℕ × Marks) → ℕ
errors_of none = 0
errors_of (some (r, m)) = m.nerrs

-- LOOP and BACK are the defaults of one another.
circle_found : errors_of (sym_check_deps tree 5 unmarked) ≡ 1
unfolding sym_check_deps check_fuel check_props check_expr
circle_found = refl

-- USB depends on NET, which depends on nothing.
sym_check_deps-IsAcyclic_example : IsAcyclic tree 3
unfolding sym_check_deps check_fuel check_props check_expr
sym_check_deps-IsAcyclic_example =
    sym_check_deps-IsAcyclic tree tree-IsClosed tree-NoChoices 4 (omega arith) _ refl refl 3
      (direct (inl refl))
