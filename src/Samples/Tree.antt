-- ===== src/Samples/Tree.antt =====
-- A tree of symbols in its first state: the three constants, the tristate NET at address 3 and the
-- boolean USB at 4, which is visible with NET, both set by the user, the booleans LOOP and BACK at
-- 5 and 6, the default of each of which is the other's value, and the number SPEED at 7 with the
-- range from 10 to 20, which are the symbols at 8 and 9.
use mkrootfs.Base.{
  arith, ℕ, zero, suc, List, String, Bool, true, false, ◌&&◌, if◌then◌else◌, none, some, [], ◌∷◌,
  ◌==◌, ℤ, pos, str_eq,
}
use mkrootfs.Tristate.{tri_no, tri_mod, tri_yes, tri_eq}
use mkrootfs.Expr.{e_symbol}
use mkrootfs.Symbol.{
  s_boolean, s_tristate, s_int, Val, null, text, symbol, p_prompt, p_default, p_range, p_null,
  p_expr, p_bounds, Property, Decl, Now, zero_decl, zero_now, const_decl, const_now,
}
use mkrootfs.Config.{Decls, State, change, with_visible}
use mkrootfs.Calc.Expression.{Libc}
use mkrootfs.Calc.Total.{PropsBelow, OptionBelow, IsClosed}
use mkrootfs.Calc.Total.Main.{BooleanSafe}

abbrev same_val : Val → Val → Bool
same_val null null = true
same_val (text a) (text b) = str_eq a b
same_val (symbol a) (symbol b) = a == b
same_val _ _ = false

-- A C library for the three numbers of the tree.
abbrev pub small_libc : Libc
small_libc = record {
  same_bytes = λ v w. same_val v.val w.val && tri_eq v.tri w.tri;
  strtol = λ s base.
      if str_eq s "10"
      then pos 10
      else if str_eq s "20"
      then pos 20
      else if str_eq s "30"
      then pos 30
      else pos 0;
  print_int = λ v. if v_is 10 v then "10" else if v_is 20 v then "20" else "0";
  print_hex = λ v. "0x0";
}
  where
    v_is : ℕ → ℤ → Bool
    v_is n (pos m) = n == m
    v_is n _ = false

-- A prompt that is always visible.
abbrev prompt_of : String → Property
prompt_of s = record {
  type = p_prompt;
  prompt = some s;
  visible_expr = none;
  expr = p_null;
  menu = none;
}

abbrev default_to : ℕ → Property
default_to s = record {
  type = p_default;
  prompt = none;
  visible_expr = none;
  expr = p_expr (e_symbol s);
  menu = none;
}

-- The element at a place of a list, or `x` beyond its end.
abbrev pub at_or {ℓ} : {A : Type ℓ} → List A → A → ℕ → A
at_or [] x n = x
at_or (y ∷ l) x zero = y
at_or (y ∷ l) x (suc n) = at_or l x n

abbrev pub decls : List Decl
decls =
    (const_decl tri_no)
    ∷ (const_decl tri_mod)
    ∷ (const_decl tri_yes)
    ∷ (record zero_decl { name = some "NET"; type = s_tristate; prop = prompt_of "Network" ∷ [] })
    ∷ (record zero_decl {
      name = some "USB";
      type = s_boolean;
      prop = record (prompt_of "Bus") { visible_expr = some (e_symbol 3) } ∷ [];
    })
    ∷ (record zero_decl { name = some "LOOP"; type = s_boolean; prop = default_to 6 ∷ [] })
    ∷ (record zero_decl { name = some "BACK"; type = s_boolean; prop = default_to 5 ∷ [] })
    ∷ (record zero_decl {
      name = some "SPEED";
      type = s_int;
      prop =
          prompt_of "Speed"
          ∷ record {
            type = p_range;
            prompt = none;
            visible_expr = none;
            expr = p_bounds 8 9;
            menu = none;
          }
          ∷ [];
    })
    ∷ (record zero_decl { name = some "10"; const = true })
    ∷ (record zero_decl { name = some "20"; const = true })
    ∷ []

abbrev nows : List Now
nows =
    (const_now tri_no)
    ∷ (const_now tri_mod)
    ∷ (const_now tri_yes)
    ∷ (record zero_now { user = record { val = null; tri = tri_mod }; def_user = true })
    ∷ (record zero_now { user = record { val = null; tri = tri_yes }; def_user = true })
    ∷ (zero_now)
    ∷ (zero_now)
    ∷ (record zero_now { user = record { val = text "30"; tri = tri_no }; def_user = true })
    ∷ []

abbrev pub tree : Decls
tree = record {
  decl_of = at_or decls zero_decl;
  bound = 10;
  symbols = 3 ∷ 4 ∷ 5 ∷ 6 ∷ 7 ∷ [];
  modules_sym = none;
}

abbrev pub first_state : State
first_state = record {
  now_of = at_or nows zero_now;
  modules_val = tri_yes;
  menu_changed = λ _. false;
  change_count = 0;
}

-- Every declaration of a list satisfies `P`.
abbrev pub Each : (Decl → Type 0) → List Decl → Type 0
Each P [] = Unit
Each P (y ∷ l) = P y × Each P l

pub at_or-Each :
    (P : Decl → Type 0) (l : List Decl) → Each P l → P zero_decl → (n : ℕ) → P (at_or l zero_decl n)
at_or-Each P [] h z n = z
at_or-Each P (y ∷ l) h z zero = h.0
at_or-Each P (y ∷ l) h z (suc n) = at_or-Each P l h.1 z n

pub tree-IsClosed : IsClosed tree
tree-IsClosed = record {
  props_lem =
      at_or-Each (λ x. PropsBelow 10 x.prop) decls
        (
          tt,
          (
            tt,
            (
              tt,
              (
                ((tt, tt), tt),
                (
                  ((omega arith, tt), tt),
                  (
                    ((tt, omega arith), tt),
                    (
                      ((tt, omega arith), tt),
                      (((tt, tt), ((tt, (omega arith, omega arith)), tt)), (tt, (tt, tt))),
                    ),
                  ),
                ),
              ),
            ),
          ),
        )
        tt;
  rev_dep_lem =
      at_or-Each (λ x. OptionBelow 10 x.rev_dep_expr) decls
        (tt, (tt, (tt, (tt, (tt, (tt, (tt, (tt, (tt, (tt, tt)))))))))) tt;
}

pub first_state-BooleanSafe : BooleanSafe tree first_state
unfolding BooleanSafe
first_state-BooleanSafe zero h e = cc
first_state-BooleanSafe (suc zero) h e = cc
first_state-BooleanSafe (suc (suc zero)) h e = cc
first_state-BooleanSafe (suc (suc (suc zero))) h e = cc
first_state-BooleanSafe (suc (suc (suc (suc zero)))) h e = cc
first_state-BooleanSafe (suc (suc (suc (suc (suc zero))))) h e = cc
first_state-BooleanSafe (suc (suc (suc (suc (suc (suc zero)))))) h e = cc
first_state-BooleanSafe (suc (suc (suc (suc (suc (suc (suc zero))))))) h e = cc
first_state-BooleanSafe (suc (suc (suc (suc (suc (suc (suc (suc s)))))))) h e = cc

-- The state in which NET is visible.
abbrev pub seen_state : State
seen_state = change 3 (with_visible tri_yes) first_state

pub seen_state-BooleanSafe : BooleanSafe tree seen_state
unfolding BooleanSafe
seen_state-BooleanSafe zero h e = cc
seen_state-BooleanSafe (suc zero) h e = cc
seen_state-BooleanSafe (suc (suc zero)) h e = cc
seen_state-BooleanSafe (suc (suc (suc zero))) h e = cc
seen_state-BooleanSafe (suc (suc (suc (suc zero)))) h e = cc
seen_state-BooleanSafe (suc (suc (suc (suc (suc zero))))) h e = cc
seen_state-BooleanSafe (suc (suc (suc (suc (suc (suc zero)))))) h e = cc
seen_state-BooleanSafe (suc (suc (suc (suc (suc (suc (suc zero))))))) h e = cc
seen_state-BooleanSafe (suc (suc (suc (suc (suc (suc (suc (suc s)))))))) h e = ground arith
