-- ===== src/Symtab/Interned.antt =====
-- build-tools/kconfig/symbol.c: what `sym_lookup` does to the table.
use text.Mathlib.TextPositions.{eq_refl}
use mkrootfs.Base.{
  AllBelow, ap, subst, sym, ℕ_discrete, Bool-cases, Bool-cases, ℕ, suc, ◌<◌, ◌≡◌, ◌≢◌, refl, arith,
  String, Bool, true, false, not, ◌==◌, str_eq, eq_iff, Option, none, some, List, [], ◌∷◌, update,
  Option-cases, inl, inr, ◌∙◌,
}
use mkrootfs.Symbol.{Decl, zero_decl}
use mkrootfs.Symtab.{
  Symtab, Flags, no_flags, hash, constant_named, constant_or, found_or_new, find_in, has_name,
  matches, add_symbol, sym_lookup, sym_find,
}

-- No bucket holds the address that comes next.
abbrev pub IsFresh : Symtab → Type 0
IsFresh t = (h : ℕ) → AllBelow t.fresh (t.symbol_hash h)

-- No choice has the name.
abbrev pub NoChoice : String → Symtab → Type 0
NoChoice name t = (s : ℕ) → has_name name (t.decl_of s) ≡ true → (t.decl_of s).choice ≡ false

-- The table behind a lookup of `name`, against the one before it.
pub record Interned (name : String) (flags : Flags) (t : Symtab) (r : ℕ × Symtab) : Type 0 where
  pub again : sym_lookup (some name) flags r.1 ≡ r
  pub found : flags ≡ no_flags → NoChoice name t → sym_find (some name) r.1 ≡ some r.0
  pub others : (other : String) → other ≢ name → sym_find (some other) r.1 ≡ sym_find (some other) t
  pub fresh : IsFresh r.1

find_in-update :
    (d : ℕ → Decl) (k : ℕ) (decl : Decl) (wanted : Decl → Bool) (name : String) (l : List ℕ)
    → AllBelow k l
    → find_in (update d k decl) wanted name l ≡ find_in d wanted name l
unfolding find_in
find_in-update d k decl wanted name [] h = refl
find_in-update d k decl wanted name (s ∷ l) h =
    rw (other_lem, find_in-update d k decl wanted name l h.1) refl
  where
    other_lem : (s == k) ≡ false
    other_lem = ground (arith, h.0)

AllBelow-suc : (k : ℕ) (l : List ℕ) → AllBelow k l → AllBelow (suc k) l
AllBelow-suc k [] h = tt
AllBelow-suc k (s ∷ l) h = (omega (arith, h.0), AllBelow-suc k l h.1)

matches-own :
    (name : Option String) (flags : Flags)
    → matches flags (record zero_decl { name = name; const = flags.const; choice = flags.choice })
      ≡ true
matches-own name flags = ground arith

-- With no flags and no choice of the name, `sym_find` and `sym_lookup` admit the same symbols.
find_in-no_flags :
    (d : ℕ → Decl) (name : String) (l : List ℕ)
    → ((s : ℕ) → has_name name (d s) ≡ true → (d s).choice ≡ false)
    → find_in d (matches no_flags) name l ≡ find_in d (λ decl. not decl.const) name l
unfolding find_in
find_in-no_flags d name [] h = refl
find_in-no_flags d name (s ∷ l) h = elim (Bool-cases (has_name name (d s))) [
  | inl e ↦ rw (e, h s e, find_in-no_flags d name l h) (ground arith)
  | inr e ↦ rw e (find_in-no_flags d name l h)
]

hash-lt : (name : String) → hash name < 256
unfolding hash
hash-lt name = omega arith

update_at {ℓ} : {A : Type ℓ} (f : ℕ → A) (k : ℕ) (v : A) → update f k v k ≡ v
update_at f k v = ground arith

-- The new symbol is the first of its bucket that is looked at.
find_in-new :
    (d : ℕ → Decl) (k : ℕ) (decl : Decl) (wanted : Decl → Bool) (name : String) (l : List ℕ)
    → has_name name decl ≡ true
    → wanted decl ≡ true
    → find_in (update d k decl) wanted name (k ∷ l) ≡ some k
unfolding find_in
find_in-new d k decl wanted name l h w = rw (update_at d k decl, h, w) refl

find_in-skip :
    (d : ℕ → Decl) (k : ℕ) (decl : Decl) (wanted : Decl → Bool) (name : String) (l : List ℕ)
    → has_name name decl ≡ false
    → find_in (update d k decl) wanted name (k ∷ l) ≡ find_in (update d k decl) wanted name l
unfolding find_in
find_in-skip d k decl wanted name l h = rw (update_at d k decl, h) refl

str_eq-other : (s t : String) → t ≢ s → str_eq s t ≡ false
str_eq-other s t ne = ground (arith, eq_iff s t)

module _ (name : String) (flags : Flags) (t : Symtab) (fits : IsFresh t) where
  abbrev bucket : List ℕ
  bucket = t.symbol_hash (hash name)

  abbrev new_decl : Decl
  new_decl = record zero_decl { name = some name; const = flags.const; choice = flags.choice }

  abbrev new : ℕ × Symtab
  new = add_symbol (some name) flags (hash name) t

  new_bucket : new.1.symbol_hash (hash name) ≡ t.fresh ∷ bucket
  new_bucket = update_at t.symbol_hash (hash name) (t.fresh ∷ bucket)

  find_in_new :
      (wanted : Decl → Bool)
      → wanted new_decl ≡ true
      → find_in new.1.decl_of wanted name (new.1.symbol_hash (hash name)) ≡ some t.fresh
  find_in_new wanted w =
      ap (find_in new.1.decl_of wanted name) new_bucket
      ∙ find_in-new t.decl_of t.fresh new_decl wanted name bucket (eq_refl name) w

  -- In the bucket of another name, with the new symbol or without it.
  find_in-other :
      (wanted : Decl → Bool) (other : String)
      → other ≢ name
      → find_in new.1.decl_of wanted other (new.1.symbol_hash (hash other))
        ≡ find_in t.decl_of wanted other (t.symbol_hash (hash other))
  find_in-other wanted other ne = elim (ℕ_discrete (hash other) (hash name)) [
    | yes e ↦
        ap (λ h. find_in new.1.decl_of wanted other (new.1.symbol_hash h)) e
        ∙ ap (find_in new.1.decl_of wanted other) new_bucket
        ∙ find_in-skip t.decl_of t.fresh new_decl wanted other bucket (str_eq-other name other ne)
        ∙ find_in-update t.decl_of t.fresh new_decl wanted other bucket (fits (hash name))
        ∙ ap (λ h. find_in t.decl_of wanted other (t.symbol_hash h)) (sym e)
    | no k ↦
        ap (find_in new.1.decl_of wanted other) (update_other (hash other) k)
        ∙ find_in-update t.decl_of t.fresh new_decl wanted other (t.symbol_hash (hash other))
            (fits (hash other))
  ]
    where
      update_other : (h : ℕ) → h ≢ hash name → new.1.symbol_hash h ≡ t.symbol_hash h
      update_other h k = ground arith

  new-IsFresh : IsFresh new.1
  new-IsFresh h = elim (ℕ_discrete h (hash name)) [
    | yes e ↦
        subst (AllBelow (suc t.fresh)) (sym (ap new.1.symbol_hash e ∙ new_bucket))
          (omega arith, AllBelow-suc t.fresh bucket (fits (hash name)))
    | no k ↦
        subst (AllBelow (suc t.fresh)) (sym (update_other k))
          (AllBelow-suc t.fresh (t.symbol_hash h) (fits h))
  ]
    where
      update_other : h ≢ hash name → new.1.symbol_hash h ≡ t.symbol_hash h
      update_other k = ground arith

  new-Interned : constant_named name ≡ none → Interned name flags t new
  unfolding sym_lookup sym_find
  new-Interned c = record {
    again = rw c (
        ap (λ o. found_or_new o name flags new.1)
          (find_in_new (matches flags) (matches-own (some name) flags)));
    found = λ e no_choice. rw c (find_in_new (λ decl. not decl.const) (rw e refl));
    others = λ other ne.
        ap (λ o. constant_or (constant_named other) some o)
          (find_in-other (λ decl. not decl.const) other ne);
    fresh = new-IsFresh;
  }

  -- A lookup of a name that is there changes nothing.
  there-Interned :
      (s : ℕ)
      → constant_named name ≡ none
      → find_in t.decl_of (matches flags) name bucket ≡ some s
      → Interned name flags t (s, t)
  unfolding sym_lookup sym_find
  there-Interned s c e = record {
    again = rw c (ap (λ o. found_or_new o name flags t) e);
    found = λ k no_choice. rw c (
        sym (find_in-no_flags t.decl_of name bucket no_choice)
        ∙ ap (λ f. find_in t.decl_of (matches f) name bucket) (sym k)
        ∙ e);
    others = λ other ne. refl;
    fresh = fits;
  }

  constant-Interned : (s : ℕ) → constant_named name ≡ some s → Interned name flags t (s, t)
  unfolding sym_lookup sym_find
  constant-Interned s c = record {
    again = rw c refl;
    found = λ k no_choice. rw c refl;
    others = λ other ne. refl;
    fresh = fits;
  }

-- In a table whose buckets hold only addresses already given, `sym_lookup` of a name gives a symbol and
-- a table in which the same lookup gives the same symbol and changes nothing; if the lookup was without
-- flags and no choice had the name, `sym_find` now finds the symbol; what `sym_find` finds for any other
-- name is as before; and again the buckets hold only addresses already given.
pub sym_lookup-Interned :
    (name : String) (flags : Flags) (t : Symtab)
    → IsFresh t
    → Interned name flags t (sym_lookup (some name) flags t)
unfolding sym_lookup
sym_lookup-Interned name flags t fits = elim (Option-cases (constant_named name)) [
  | inr (s, c) ↦ rw c (constant-Interned name flags t fits s c)
  | inl c ↦
      elim (Option-cases (find_in t.decl_of (matches flags) name (t.symbol_hash (hash name)))) [
        | inr (s, e) ↦ rw c (
            subst (λ o. Interned name flags t (found_or_new o name flags t)) (sym e)
              (there-Interned name flags t fits s c e))
        | inl e ↦ rw c (
            subst (λ o. Interned name flags t (found_or_new o name flags t)) (sym e)
              (new-Interned name flags t fits c))
      ]
]
