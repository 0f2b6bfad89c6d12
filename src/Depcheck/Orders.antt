-- ===== src/Depcheck/Orders.antt =====
-- build-tools/kconfig/symbol.c: orders of symbols, and what a search of `sym_check_deps` is to do.
use mkrootfs.Base.{
  In, ℕ, zero, suc, ◌≤◌, ◌<◌, ◌≡◌, arith, true, false, if◌then◌else◌, Option, none, List, [], ◌∷◌,
}
use mkrootfs.Config.{Decls}
use mkrootfs.Depcheck.{Marks}
use mkrootfs.Depcheck.Lists.{deps}

abbrev pub AllIn : List ℕ → List ℕ → Type 0
AllIn [] k = Unit
AllIn (s ∷ l) k = In s k × AllIn l k

abbrev pub Within : List ℕ → List ℕ → Type 0
Within k l = (t : ℕ) → In t k → In t l

AllIn-Within : (l a b : List ℕ) → Within a b → AllIn l a → AllIn l b
AllIn-Within [] a b w h = tt
AllIn-Within (s ∷ l) a b w h = (w s h.0, AllIn-Within l a b w h.1)

-- Each symbol of the list depends only on those behind it.
pub data Sorted (d : Decls) : List ℕ → Type 0 where
  sorted_nil : Sorted d []
  sorted_cons : {s : ℕ} {l : List ℕ} → AllIn (deps d s) l → Sorted d l → Sorted d (s ∷ l)

-- The list orders the symbols that are done.
pub record Orders (d : Decls) (l : List ℕ) (m : Marks) : Type 0 where
  pub sorted : Sorted d l
  pub done : (t : ℕ) → m.checked t ≡ true → m.check t ≡ false → In t l

-- An order that extends `l` and has all of `ts`.
pub record Extends (d : Decls) (l ts : List ℕ) (m : Marks) : Type 0 where
  pub order : List ℕ
  pub orders : Orders d order m
  pub within : Within l order
  pub all_in : AllIn ts order

-- What a search of the symbols `ts` does: flags and errors, and the order that it finds if it returns
-- null and there is no new error.
pub record Searched (d : Decls) (ts : List ℕ) (m : Marks) (r : Option ℕ × Marks) : Type 0 where
  pub same_check : (t : ℕ) → r.1.check t ≡ m.check t
  pub stays_checked : (t : ℕ) → m.checked t ≡ true → r.1.checked t ≡ true
  pub more_errors : m.nerrs ≤ r.1.nerrs
  pub clean : (l : List ℕ) → Orders d l m → r.0 ≡ none → r.1.nerrs ≡ m.nerrs → Extends d l ts r.1

-- How many of the first `k` symbols are not checked.
unfoldable pub unchecked : ℕ → Marks → ℕ
unchecked zero m = 0
unchecked (suc k) m = if m.checked k then unchecked k m else suc (unchecked k m)

abbrev pub StaysChecked : Marks → Marks → Type 0
StaysChecked m m' = (t : ℕ) → m.checked t ≡ true → m'.checked t ≡ true

pub unchecked-le : (k : ℕ) (m m' : Marks) → StaysChecked m m' → unchecked k m' ≤ unchecked k m
unfolding unchecked
unchecked-le zero m m' h = omega arith
unchecked-le (suc k) m m' h = ground (arith, h k, unchecked-le k m m' h)

pub unchecked-lt :
    (k s : ℕ) (m m' : Marks)
    → StaysChecked m m'
    → s < k
    → m.checked s ≡ false
    → m'.checked s ≡ true
    → unchecked k m' < unchecked k m
unfolding unchecked
unchecked-lt zero s m m' h lt p q = absurd (omega arith)
unchecked-lt (suc k) s m m' h lt p q =
    ground (arith, h k, unchecked-le k m m' h, λ (l : s < k). unchecked-lt k s m m' h l p q)

pub unchecked-le_bound : (k : ℕ) (m : Marks) → unchecked k m ≤ k
unfolding unchecked
unchecked-le_bound zero m = omega arith
unchecked-le_bound (suc k) m = ground (arith, unchecked-le_bound k m)
