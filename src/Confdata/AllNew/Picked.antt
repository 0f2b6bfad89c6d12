-- ===== src/Confdata/AllNew/Picked.antt =====
-- build-tools/kconfig/confdata.c: the random choice of `conf_set_all_new_symbols`.
use mkrootfs.Base.{
  ℕ, suc, ◌+◌, ◌%◌, ◌≤◌, ◌<◌, ◌≡◌, ◌≢◌, refl, sym, ap, ◌∙◌, subst, arith, inl, inr, true, false,
  ◌==◌, ==_iff, List, [], ◌∷◌, length, In, NotIn, AreDistinct, Bool-cases,
}
use mkrootfs.Tristate.{Tristate, tri_no, tri_yes}
use mkrootfs.Symbol.{symbol, SymbolValue, Now}
use native.Mathlib.Nat.{mod-lt}
use mkrootfs.Config.{Decls, State, change, with_valid}
use mkrootfs.Calc.Visibility.{choice_values}
use mkrootfs.Confdata.Read.{with_user_tri, with_user_val, set_def_flag}
use mkrootfs.Confdata.AllNew.{pick, pick_value, pick_one}

abbrev pub user_tri : State → ℕ → Tristate
user_tri st x = (st.now_of x).user.tri

-- All values of the list are n, and nothing else that the user has set has changed.
record Cleared (l : List ℕ) (st st' : State) : Type 0 where
  same : (x : ℕ) → NotIn x l → (st'.now_of x).user ≡ (st.now_of x).user
  no_lem : (x : ℕ) → In x l → user_tri st' x ≡ tri_no

-- One value of the list is y and the others are n; the choice knows the one.
pub record Picked (csym : ℕ) (l : List ℕ) (st st' : State) : Type 0 where
  pub chosen : ℕ
  pub is_value : In chosen l
  pub yes_lem : user_tri st' chosen ≡ tri_yes
  pub val_lem : (st'.now_of csym).user.val ≡ symbol chosen
  pub no_lem : (x : ℕ) → In x l → x ≢ chosen → user_tri st' x ≡ tri_no
  pub same : (x : ℕ) → NotIn x l → x ≢ csym → (st'.now_of x).user ≡ (st.now_of x).user

change_other :
    (s x : ℕ) (f : Now → Now) (st : State)
    → x ≢ s
    → ((change s f st).now_of x).user ≡ (st.now_of x).user
change_other s x f st ne = ground arith

change_tri : (s : ℕ) (v : Tristate) (st : State) → user_tri (change s (with_user_tri v) st) s ≡ v
change_tri s v st = ground arith

-- The value at hand is the one.
first-Picked :
    (csym s : ℕ) (l : List ℕ) (st st' : State)
    → NotIn csym (s ∷ l)
    → AreDistinct (s ∷ l)
    → Cleared l (pick_value csym s true st) st'
    → Picked csym (s ∷ l) st st'
first-Picked csym s l st st' n h c = record {
  chosen = s;
  is_value = inl refl;
  yes_lem = ap (λ (v : SymbolValue). v.tri) (c.same s h.0) ∙ set_yes;
  val_lem = ap (λ (v : SymbolValue). v.val) (c.same csym n.1) ∙ set_val;
  no_lem = λ x. elim [ inl e ↦ λ ne. absurd (ne e) | inr i ↦ λ _. c.no_lem x i ];
  same = λ x m ne.
      c.same x m.1
      ∙ change_other csym x (with_user_val (symbol s)) (change s (with_user_tri tri_yes) st) ne
      ∙ change_other s x (with_user_tri tri_yes) st m.0;
}
  where
    set_yes : user_tri (pick_value csym s true st) s ≡ tri_yes
    set_yes = ground (arith, n.0)

    set_val : ((pick_value csym s true st).now_of csym).user.val ≡ symbol s
    set_val = ground (arith, n.0)

-- The one is behind.
later-Picked :
    (csym s : ℕ) (l : List ℕ) (st st' : State)
    → NotIn csym (s ∷ l)
    → AreDistinct (s ∷ l)
    → Picked csym l (pick_value csym s false st) st'
    → Picked csym (s ∷ l) st st'
later-Picked csym s l st st' n h p = record {
  chosen = p.chosen;
  is_value = inr p.is_value;
  yes_lem = p.yes_lem;
  val_lem = p.val_lem;
  no_lem = λ x. elim [
    | inl e ↦ λ _.
        subst (λ y. user_tri st' y ≡ tri_no) (sym e)
          (ap (λ (v : SymbolValue). v.tri) (p.same s h.0 (λ q. n.0 (sym q)))
            ∙ change_tri s tri_no st)
    | inr i ↦ p.no_lem x i
  ];
  same = λ x m ne. p.same x m.1 ne ∙ change_other s x (with_user_tri tri_no) st m.0;
}

-- The flags of the choice do not matter.
flags-Picked :
    (csym : ℕ) (l : List ℕ) (st st' : State)
    → Picked csym l st st'
    → Picked csym l st (change csym (λ n. with_valid false (set_def_flag true n)) st')
flags-Picked csym l st st' p = record {
  chosen = p.chosen;
  is_value = p.is_value;
  yes_lem = ap (λ (v : SymbolValue). v.tri) (same_user p.chosen) ∙ p.yes_lem;
  val_lem = ap (λ (v : SymbolValue). v.val) (same_user csym) ∙ p.val_lem;
  no_lem = λ x i ne. ap (λ (v : SymbolValue). v.tri) (same_user x) ∙ p.no_lem x i ne;
  same = λ x m ne. same_user x ∙ p.same x m ne;
}
  where
    same_user :
        (x : ℕ)
        → ((change csym (λ n. with_valid false (set_def_flag true n)) st').now_of x).user
          ≡ (st'.now_of x).user
    same_user x = ground arith

module _ (csym def : ℕ) where
  pick-Cleared :
      (cnt : ℕ) (l : List ℕ) (st : State)
      → def < cnt
      → AreDistinct l
      → Cleared l st (pick csym def cnt l st)
  unfolding pick
  pick-Cleared cnt [] st lt h = record { same = λ x _. refl; no_lem = λ x i. absurd i }
  pick-Cleared cnt (s ∷ l) st lt h =
      let st1 = change s (with_user_tri tri_no) st in
      let rest = pick-Cleared (suc cnt) l st1 (omega (arith, lt)) h.1 in
      subst (λ b. Cleared (s ∷ l) st (pick csym def (suc cnt) l (pick_value csym s b st)))
        (sym other)
        (record {
          same = λ x n. rest.same x n.1 ∙ change_other s x (with_user_tri tri_no) st n.0;
          no_lem = λ x. elim [
            | inl e ↦
                subst (λ y. user_tri (pick csym def (suc cnt) l st1) y ≡ tri_no) (sym e)
                  (ap (λ (v : SymbolValue). v.tri) (rest.same s h.0) ∙ change_tri s tri_no st)
            | inr i ↦ rest.no_lem x i
          ];
        })
    where
      other : (def == cnt) ≡ false
      other = ground arith

  pick-Picked :
      (cnt : ℕ) (l : List ℕ) (st : State)
      → cnt ≤ def
      → def < cnt + length l
      → AreDistinct l
      → NotIn csym l
      → Picked csym l st (pick csym def cnt l st)
  unfolding pick
  pick-Picked cnt [] st le lt h n = absurd (omega (arith, le, lt))
  pick-Picked cnt (s ∷ l) st le lt h n = elim (Bool-cases (def == cnt)) [
    | inl e ↦
        subst (λ b. Picked csym (s ∷ l) st (pick csym def (suc cnt) l (pick_value csym s b st)))
          (sym e)
          (first-Picked csym s l st _ n h (
            pick-Cleared (suc cnt) l (pick_value csym s true st)
              (omega (arith, (==_iff def cnt).0 e)) h.1))
    | inr e ↦
        subst (λ b. Picked csym (s ∷ l) st (pick csym def (suc cnt) l (pick_value csym s b st)))
          (sym e)
          (later-Picked csym s l st _ n h (
            pick-Picked (suc cnt) l (pick_value csym s false st) (ground (arith, le, e))
              (omega (arith, lt)) h.1 n.1))
  ]

-- For distinct values of a choice, of which there is at least one and the choice itself is none:
-- whatever number `rand` gives, one value is set to y, all others to n, and the choice to the one; and
-- no other symbol is set.
pub pick_one-Picked :
    (rand : ℕ → ℕ) (d : Decls) (csym k : ℕ) (st : State)
    → 0 < length (choice_values (d.decl_of csym).prop)
    → AreDistinct (choice_values (d.decl_of csym).prop)
    → NotIn csym (choice_values (d.decl_of csym).prop)
    → Picked csym (choice_values (d.decl_of csym).prop) st (pick_one rand d csym (st, k)).0
pick_one-Picked rand d csym k st lt h n =
    let values = choice_values (d.decl_of csym).prop in
    flags-Picked csym values st _ (
      pick-Picked csym (rand k % length values) 0 values st (omega arith)
        (omega (arith, mod-lt (rand k) lt)) h n)
