-- ===== src/Samples/SetRuns.antt =====
-- Setting the number SPEED of the sample tree, and a random choice.
use mkrootfs.Base.{◌+◌, ◌==◌, ◌≡◌, refl, arith, true, none, [], ◌∷◌, if◌then◌else◌}
use mkrootfs.Symbol.{zero_decl, p_choice, p_list, symbol}
use mkrootfs.Config.{Decls}
use mkrootfs.Calc.Visibility.{choice_values, sym_get_choice_prop}
use mkrootfs.Confdata.AllNew.{pick, pick_one}
use mkrootfs.Confdata.AllNew.Picked.{Picked, pick_one-Picked}
use mkrootfs.Samples.Tree.{tree, first_state}

-- A choice at 3 of the symbols at 4, 5 and 6.
abbrev media : Decls
media = record tree {
  decl_of = λ s.
      if s == 3
      then record zero_decl {
        choice = true;
        prop =
            record {
              type = p_choice;
              prompt = none;
              visible_expr = none;
              expr = p_list (4 ∷ (5 ∷ (6 ∷ [])));
              menu = none;
            }
            ∷ [];
      }
      else zero_decl;
}

pick_one-Picked_example :
    Picked 3
      (choice_values (media.decl_of 3).prop)
      first_state
      (pick_one (λ n. n + 7) media 3 (first_state, 0)).0
unfolding sym_get_choice_prop
pick_one-Picked_example =
    pick_one-Picked (λ n. n + 7) media 3 0 first_state (omega arith)
      (((λ e. omega arith), ((λ e. omega arith), tt)), (((λ e. omega arith), tt), (tt, tt)))
      ((λ e. omega arith), ((λ e. omega arith), ((λ e. omega arith), tt)))

-- The first number that `rand` gives is 7: the second value is taken.
second_picked : ((pick_one (λ n. n + 7) media 3 (first_state, 0)).0.now_of 3).user.val ≡ symbol 5
unfolding sym_get_choice_prop pick
second_picked = refl
