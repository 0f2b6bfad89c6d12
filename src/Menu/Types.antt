-- ===== src/Menu/Types.antt =====
-- build-tools/kconfig/menu.c: the type of a symbol that several lines of its entries set.
use mkrootfs.Base.{
  Returns-map, subst, ℕ, ◌≡◌, refl, sym as path_sym, subst, map, ◌∙◌, arith, true, if◌then◌else◌,
  ==-refl, inl, inr, Bool-cases, Option, some, List, [], ◌∷◌, ◌>>=◌, Returns, returned,
  Returns-bind,
}
use mkrootfs.Symbol.{SymbolType, s_unknown, s_package, s_srcdir}
use mkrootfs.Menu.Entry.{
  Parse, entry_of, kind_props, kind_type, same_type, store_type, set_type, menu_set_type,
}

unfoldable pub set_types : List SymbolType → Parse → Option Parse
set_types [] p = some p
set_types (k ∷ l) p = do q ← menu_set_type k p; set_types l q

-- The current entry is one of the symbol, which has the type.
abbrev Typed : ℕ → SymbolType → Parse → Type 0
Typed s type p = ((entry_of p).sym ≡ some s) × ((p.decls s).type ≡ type)

kind_props-Typed :
    (k : SymbolType) (s : ℕ) (type : SymbolType) (p : Parse)
    → Typed s type p
    → Typed s type (kind_props k s p)
kind_props-Typed s_package s type p (e, h) = (e, rw (==-refl s) h)
kind_props-Typed s_srcdir s type p (e, h) = (e, rw (==-refl s) h)
kind_props-Typed _ s type p h = h

-- The type of a symbol after one more line: the first one stays.
abbrev pub first_type : SymbolType → SymbolType → SymbolType
first_type old new = if same_type old s_unknown then new else old

same_type-eq : (a b : SymbolType) → same_type a b ≡ true → a ≡ b
same_type-eq a b h = ground arith

store_type-Typed :
    (k : SymbolType) (s : ℕ) (type : SymbolType) (p : Parse)
    → Typed s type p
    → Typed s (first_type type k) (store_type k s p)
store_type-Typed k s type p (e, h) =
    subst (λ old. Typed s (first_type old k) (store_type k s p)) h
      (elim (Bool-cases (same_type (p.decls s).type k)) [
        | inl same ↦ rw (same) (e, ground (arith, same_type-eq (p.decls s).type k))
        | inr other ↦ elim (Bool-cases (same_type (p.decls s).type s_unknown)) [
          | inl new ↦ rw (other, new) (e, rw (==-refl s) refl)
          | inr known ↦ rw (other, known) (e, refl)
        ]
      ])

menu_set_type-Typed :
    (k : SymbolType) (s : ℕ) (type : SymbolType) (p : Parse)
    → Typed s type p
    → Returns (Typed s (first_type type (kind_type k))) (menu_set_type k p)
unfolding menu_set_type
menu_set_type-Typed k s type p t =
    subst (λ o. Returns (Typed s (first_type type (kind_type k))) (set_type k o p)) (path_sym (t.0))
      (returned
        (store_type-Typed (kind_type k) s type (kind_props k s p) (kind_props-Typed k s type p t)))

-- The first type of the list that is not unknown.
unfoldable pub first_known : List SymbolType → SymbolType
first_known [] = s_unknown
first_known (k ∷ l) = if same_type k s_unknown then first_known l else k

first_known-last : (k : SymbolType) → k ≡ first_known (k ∷ [])
unfolding first_known
first_known-last k = ground (arith, same_type-eq k s_unknown)

first_known-first_type :
    (a b : SymbolType) (l : List SymbolType)
    → first_known (first_type a b ∷ l) ≡ first_known (a ∷ (b ∷ l))
unfolding first_known
first_known-first_type a b l = elim (Bool-cases (same_type a s_unknown)) [
  | inl u ↦ rw (u) refl
  | inr n ↦ rw (n, n) refl
]

set_types-Typed :
    (l : List SymbolType) (s : ℕ) (type : SymbolType) (p : Parse)
    → Typed s type p
    → Returns (λ q. (q.decls s).type ≡ first_known (type ∷ map kind_type l)) (set_types l p)
unfolding set_types
set_types-Typed [] s type p t = returned (t.1 ∙ first_known-last type)
set_types-Typed (k ∷ l) s type p t = Returns-bind (menu_set_type-Typed k s type p t) (λ q u.
    Returns-map (set_types-Typed l s (first_type type (kind_type k)) q u)
      (λ r h. h ∙ first_known-first_type type (kind_type k) (map kind_type l)))

-- For an entry of a symbol, the calls of `menu_set_type` for any kinds return; the type of the symbol is
-- then the one that it had, or if that was unknown, the first known type of the kinds, where a package
-- is boolean and a source directory a string.
pub set_types-first :
    (l : List SymbolType) (s : ℕ) (p : Parse)
    → (entry_of p).sym ≡ some s
    → Returns
        (λ q. (q.decls s).type ≡ first_known ((p.decls s).type ∷ map kind_type l))
        (set_types l p)
set_types-first l s p e = set_types-Typed l s (p.decls s).type p (e, refl)
