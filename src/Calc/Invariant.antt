-- ===== src/Calc/Invariant.antt =====
-- The invariant of the calculation: how many symbols are not yet valid, and that a boolean symbol
-- is never `m`; and the changes of the state that keep it.
use mkrootfs.Base.{
  inr, ==_iff, inl, ◌==◌, Option-cases, Bool-cases, some, Option, none, ap, ℕ, zero, suc, ◌≤◌, ◌<◌,
  ◌≡◌, ◌≢◌, refl, sym, ◌∙◌, arith, Bool, true, false, ◌||◌, if◌then◌else◌, List, [], ◌∷◌,
}
use mkrootfs.Tristate.{tri_mod}
use mkrootfs.Symbol.{is_boolean, SymbolValue, Now}
use mkrootfs.Config.{with_valid, Decls, State, change, sym_set_changed, sym_set_all_changed}
use mkrootfs.Calc.Value.{pass_flags}
use mkrootfs.Calc.Range.{set_curr}

-- How many of the first `k` symbols are not valid.
unfoldable pub invalid : ℕ → State → ℕ
invalid zero st = 0
invalid (suc k) st = if (st.now_of k).valid then invalid k st else suc (invalid k st)

-- No symbol loses its flag SYMBOL_VALID.
abbrev pub StaysValid : State → State → Type 0
StaysValid st st' = (s : ℕ) → (st.now_of s).valid ≡ true → (st'.now_of s).valid ≡ true

pub invalid-le : (k : ℕ) (st st' : State) → StaysValid st st' → invalid k st' ≤ invalid k st
unfolding invalid
invalid-le zero st st' h = omega arith
invalid-le (suc k) st st' h = ground (arith, h k, invalid-le k st st' h)

-- A symbol that becomes valid lowers the number.
pub invalid-lt :
    (k s : ℕ) (st st' : State)
    → StaysValid st st'
    → s < k
    → (st.now_of s).valid ≡ false
    → (st'.now_of s).valid ≡ true
    → invalid k st' < invalid k st
unfolding invalid
invalid-lt zero s st st' h lt p q = absurd (omega arith)
invalid-lt (suc k) s st st' h lt p q =
    ground (arith, h k, invalid-le k st st' h, λ (l : s < k). invalid-lt k s st st' h l p q)

-- What held before a calculation: which symbols were valid, for some of them their values, and what
-- the user had set.
pub record Past : Type 0 where
  pub kept : ℕ → Option SymbolValue
  pub known : ℕ → Bool
  pub kept_lem : (s : ℕ) (v : SymbolValue) → kept s ≡ some v → known s ≡ true
  pub user_of : ℕ → SymbolValue
  pub def_user_of : ℕ → Bool

pub record Inv (d : Decls) (past : Past) (n : ℕ) (st : State) : Type 0 where
  pub few : invalid d.bound st ≤ n
  pub keeps_valid : (s : ℕ) → past.known s ≡ true → (st.now_of s).valid ≡ true
  pub keeps_value : (s : ℕ) (v : SymbolValue) → past.kept s ≡ some v → (st.now_of s).curr ≡ v
  pub keeps_user : (s : ℕ) → (st.now_of s).user ≡ past.user_of s
  pub keeps_def_user : (s : ℕ) → (st.now_of s).def_user ≡ past.def_user_of s
  pub boolean_ne : (s : ℕ) → is_boolean (d.decl_of s).type ≡ true → (st.now_of s).curr.tri ≢ tri_mod

-- A change that leaves values, what the user has set, and the flag SYMBOL_VALID alone.
pub record Quiet (st st' : State) : Type 0 where
  pub valid_lem : (s : ℕ) → (st'.now_of s).valid ≡ (st.now_of s).valid
  pub curr_lem : (s : ℕ) → (st'.now_of s).curr ≡ (st.now_of s).curr
  pub user_lem : (s : ℕ) → (st'.now_of s).user ≡ (st.now_of s).user
  pub def_user_lem : (s : ℕ) → (st'.now_of s).def_user ≡ (st.now_of s).def_user

pub Quiet-refl : (st : State) → Quiet st st
Quiet-refl st = record {
  valid_lem = λ _. refl;
  curr_lem = λ _. refl;
  user_lem = λ _. refl;
  def_user_lem = λ _. refl;
}

pub Quiet-trans : {a b c : State} → Quiet a b → Quiet b c → Quiet a c
Quiet-trans p q = record {
  valid_lem = λ s. q.valid_lem s ∙ p.valid_lem s;
  curr_lem = λ s. q.curr_lem s ∙ p.curr_lem s;
  user_lem = λ s. q.user_lem s ∙ p.user_lem s;
  def_user_lem = λ s. q.def_user_lem s ∙ p.def_user_lem s;
}

pub Inv-Quiet :
    {d : Decls} {past : Past} {n : ℕ} {st st' : State}
    → Quiet st st'
    → Inv d past n st
    → Inv d past n st'
Inv-Quiet {d} {past} {n} {st} {st'} q i = record {
  few = omega (arith, invalid-le d.bound st st' (λ s h. q.valid_lem s ∙ h), i.few);
  keeps_valid = λ s h. q.valid_lem s ∙ i.keeps_valid s h;
  keeps_value = λ s v h. q.curr_lem s ∙ i.keeps_value s v h;
  keeps_user = λ s. q.user_lem s ∙ i.keeps_user s;
  keeps_def_user = λ s. q.def_user_lem s ∙ i.keeps_def_user s;
  boolean_ne = λ s h e. i.boolean_ne s h (sym (ap (λ (v : SymbolValue). v.tri) (q.curr_lem s)) ∙ e);
}

pub Quiet-change :
    (s : ℕ) (f : Now → Now) (st : State)
    → (f (st.now_of s)).valid ≡ (st.now_of s).valid
    → (f (st.now_of s)).curr ≡ (st.now_of s).curr
    → (f (st.now_of s)).user ≡ (st.now_of s).user
    → (f (st.now_of s)).def_user ≡ (st.now_of s).def_user
    → Quiet st (change s f st)
Quiet-change s f st p q u v = record {
  valid_lem = λ x. ground arith;
  curr_lem = λ x. ground arith;
  user_lem = λ x. ground arith;
  def_user_lem = λ x. ground arith;
}

pub Quiet-set_changed : (d : Decls) (s : ℕ) (st : State) → Quiet st (sym_set_changed d s st)
unfolding sym_set_changed
Quiet-set_changed d s st = record {
  valid_lem = λ x. ground arith;
  curr_lem = λ x. ground arith;
  user_lem = λ x. ground arith;
  def_user_lem = λ x. ground arith;
}

pub Quiet-set_all_changed :
    (d : Decls) (l : List ℕ) (st : State) → Quiet st (sym_set_all_changed d l st)
unfolding sym_set_all_changed
Quiet-set_all_changed d [] st = Quiet-refl st
Quiet-set_all_changed d (s ∷ l) st =
    Quiet-trans (Quiet-set_changed d s st) (Quiet-set_all_changed d l (sym_set_changed d s st))

-- The flags that a choice passes on to one value.
abbrev pass_now : Bool → Bool → Now → Now
pass_now changed write n = record n { changed = n.changed || changed; write = n.write || write }

pub Quiet-pass_flags :
    (d : Decls) (changed write : Bool) (l : List ℕ) (st : State)
    → Quiet st (pass_flags d changed write l st)
unfolding pass_flags
Quiet-pass_flags d changed write [] st = Quiet-refl st
Quiet-pass_flags d true write (s ∷ l) st =
    let st1 = change s (pass_now true write) st in
    Quiet-trans (Quiet-change s (pass_now true write) st refl refl refl refl) (
      Quiet-trans (Quiet-set_changed d s st1)
        (Quiet-pass_flags d true write l (sym_set_changed d s st1)))
Quiet-pass_flags d false write (s ∷ l) st =
    Quiet-trans (Quiet-change s (pass_now false write) st refl refl refl refl)
      (Quiet-pass_flags d false write l (change s (pass_now false write) st))

-- A valid symbol of the past is not the one that is now found not to be valid.
pub kept-none :
    {d : Decls} {past : Past} {n : ℕ} {st : State} (s : ℕ)
    → (st.now_of s).valid ≡ false
    → Inv d past n st
    → past.kept s ≡ none
kept-none {past} s e i = elim (Option-cases (past.kept s)) [
  | inl h ↦ h
  | inr (v, h) ↦ cc (i.keeps_valid s (past.kept_lem s v h))
]

pub Inv-set_curr :
    {d : Decls} {past : Past} {n : ℕ} {st : State} (s : ℕ) (v : SymbolValue)
    → past.kept s ≡ none
    → (is_boolean (d.decl_of s).type ≡ true → v.tri ≢ tri_mod)
    → Inv d past n st
    → Inv d past n (set_curr s v st)
Inv-set_curr {d} {past} {n} {st} s v k h i = record {
  few = omega (arith, invalid-le d.bound st (set_curr s v st) (λ x k. ground arith), i.few);
  keeps_valid = λ x e. ground (arith, i.keeps_valid x e);
  keeps_value = λ x w e. elim (Bool-cases (x == s)) [
    | inl same ↦ cc (sym k, e, ap past.kept ((==_iff x s).0 same))
    | inr other ↦ rw other (i.keeps_value x w e)
  ];
  keeps_user = λ x. ground (arith, i.keeps_user x);
  keeps_def_user = λ x. ground (arith, i.keeps_def_user x);
  boolean_ne = λ x k. ground (arith, i.boolean_ne x k, h);
}

-- Marking a symbol as valid uses up one of those that are not.
pub Inv-set_valid :
    {d : Decls} {past : Past} {n : ℕ} {st : State} (s : ℕ)
    → s < d.bound
    → (st.now_of s).valid ≡ false
    → Inv d past (suc n) st
    → Inv d past n (change s (with_valid true) st)
Inv-set_valid {d} {past} {n} {st} s lt e i = record {
  few = omega (
    arith,
    invalid-lt d.bound s st (change s (with_valid true) st) (λ x k. ground arith) lt e
        (ground arith),
    i.few,
  );
  keeps_valid = λ x h. ground (arith, i.keeps_valid x h);
  keeps_value = λ x w h. ground (arith, i.keeps_value x w h);
  keeps_user = λ x. ground (arith, i.keeps_user x);
  keeps_def_user = λ x. ground (arith, i.keeps_def_user x);
  boolean_ne = λ x k. ground (arith, i.boolean_ne x k);
}
