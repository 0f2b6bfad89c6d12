-- ===== src/Depcheck/Acyclic.antt =====
-- build-tools/kconfig/symbol.c: where `sym_check_deps` reports nothing, nothing depends on itself.
use mkrootfs.Base.{
  In, ℕ, ◌<◌, ◌≡◌, refl, sym, ◌∙◌, subst, arith, inl, inr, false, Option, none, some, List, [], ◌∷◌,
  Returns, Returns-elim, some_inj,
}
use mkrootfs.Config.{Decls}
use mkrootfs.Calc.Total.{IsClosed}
use mkrootfs.Depcheck.{Marks, sym_check_deps}
use mkrootfs.Depcheck.Lists.{deps}
use mkrootfs.Depcheck.Orders.{AllIn, Sorted, sorted_nil, sorted_cons, Searched, unchecked-le_bound}
use mkrootfs.Depcheck.Search.{NoChoices, check_fuel-Searched}

-- `t` is among the dependencies of `s`, or of one of them, and so on.
pub data Reaches (d : Decls) : ℕ → ℕ → Type 0 where
  direct : {s t : ℕ} → In t (deps d s) → Reaches d s t
  through : {s t u : ℕ} → In t (deps d s) → Reaches d t u → Reaches d s u

abbrev pub IsAcyclic : Decls → ℕ → Type 0
IsAcyclic d s = ¬ (Reaches d s s)

In-AllIn : (s : ℕ) (l k : List ℕ) → In s l → AllIn l k → In s k
In-AllIn s [] k i h = absurd i
In-AllIn s (t ∷ l) k (inl e) h = subst (λ x. In x k) (sym e) h.0
In-AllIn s (t ∷ l) k (inr i) h = In-AllIn s l k i h.1

-- The dependencies of a member are members.
Sorted-closed : (d : Decls) (l : List ℕ) (s t : ℕ) → Sorted d l → In s l → In t (deps d s) → In t l
Sorted-closed d [] s t sorted_nil i k = absurd i
Sorted-closed d (x ∷ l) s t (sorted_cons h o) (inl e) k =
    inr (In-AllIn t (deps d x) l (subst (λ y. In t (deps d y)) e k) h)
Sorted-closed d (x ∷ l) s t (sorted_cons h o) (inr i) k = inr (Sorted-closed d l s t o i k)

Sorted-reach : (d : Decls) (l : List ℕ) (s t : ℕ) → Sorted d l → In s l → Reaches d s t → In t l
Sorted-reach d l s t o i (direct k) = Sorted-closed d l s t o i k
Sorted-reach d l s t o i (through {t = u} k r) =
    Sorted-reach d l u t o (Sorted-closed d l s u o i k) r

-- What the first symbol reaches lies behind it.
first-reach :
    (d : Decls) (x : ℕ) (l : List ℕ) (t : ℕ)
    → AllIn (deps d x) l
    → Sorted d l
    → Reaches d x t
    → In t l
first-reach d x l t h o (direct k) = In-AllIn t (deps d x) l k h
first-reach d x l t h o (through {t = u} k r) =
    Sorted-reach d l u t o (In-AllIn u (deps d x) l k h) r

Sorted-IsAcyclic : (d : Decls) (l : List ℕ) (s : ℕ) → Sorted d l → In s l → IsAcyclic d s
Sorted-IsAcyclic d [] s sorted_nil i r = i
Sorted-IsAcyclic d (x ∷ l) s (sorted_cons h o) (inr i) r = Sorted-IsAcyclic d l s o i r
Sorted-IsAcyclic d (x ∷ l) s (sorted_cons h o) (inl e) r =
    let rx = subst (λ y. Reaches d y y) e r in
    Sorted-IsAcyclic d l x o (first-reach d x l x h o rx) rx

-- The flags before the first call.
abbrev pub unmarked : Marks
unmarked = record { check = λ _. false; checked = λ _. false; nerrs = 0 }

module _ (d : Decls) (closed : IsClosed d) (plain : NoChoices d) (s : ℕ) (lt : s < d.bound) where
  pub sym_check_deps-Searched : (m : Marks) → Returns (Searched d (s ∷ []) m) (sym_check_deps d s m)
  unfolding sym_check_deps
  sym_check_deps-Searched m =
      check_fuel-Searched d closed plain _ d.bound (omega arith) s lt m
        (unchecked-le_bound d.bound m)

  -- For declarations that name no symbol outside the tree, with no choice and no value of one: if
  -- `sym_check_deps`, with no symbol marked, returns null and reports no error, no symbol that the
  -- symbol reaches by dependencies reaches itself.
  pub sym_check_deps-IsAcyclic :
      (m : Marks)
      → sym_check_deps d s unmarked ≡ some (none, m)
      → m.nerrs ≡ 0
      → (t : ℕ) → Reaches d s t
      → IsAcyclic d t
  sym_check_deps-IsAcyclic m e n t r = go (Returns-elim (sym_check_deps-Searched unmarked))
    where
      go :
          (a : Option ℕ × Marks) × (sym_check_deps d s unmarked ≡ some a)
            × Searched d (s ∷ []) unmarked a
          → IsAcyclic d t
      go (a, q, h) =
          let found = subst (Searched d (s ∷ []) unmarked) (some_inj (sym q ∙ e)) h in
          let x = found.clean [] (record { sorted = sorted_nil; done = λ u k c. cc }) refl n in
          Sorted-IsAcyclic d x.order t x.orders.sorted
            (Sorted-reach d x.order s t x.orders.sorted x.all_in.0 r)
