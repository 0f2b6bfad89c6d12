-- ===== src/Symtab.antt =====
-- build-tools/kconfig/symbol.c: the hash table of symbols with `sym_lookup` and `sym_find`. A bucket
-- lists addresses, the newest first; names are ASCII, so that no character counts as negative.
pub mod Interned
use mkrootfs.Base.{
  ℕ, zero, suc, ◌+◌, ◌%◌, String, Bool, true, false, ◌&&◌, ◌||◌, not, ◌==◌, str_eq, if◌then◌else◌,
  Option, none, some, List, [], ◌∷◌, update,
}
use Prim.Native.Char.{code}
use mkrootfs.Expr.{symbol_no, symbol_mod, symbol_yes}
use mkrootfs.Symbol.{Decl, zero_decl}

-- `symbol_hash`, what it points to, and the next address that `malloc` gives.
pub record Symtab : Type 0 where
  pub symbol_hash : ℕ → List ℕ
  pub decl_of : ℕ → Decl
  pub fresh : ℕ

-- The bits SYMBOL_CONST and SYMBOL_CHOICE of the argument `flags`.
pub record Flags : Type 0 where
  pub const : Bool
  pub choice : Bool

abbrev pub no_flags : Flags
no_flags = record { const = false; choice = false }

abbrev pub char_sum : String → ℕ
char_sum String.[] = 0
char_sum (String.◌∷◌ c s) = code c + char_sum s

unfoldable pub hash : String → ℕ
hash name = char_sum name % 256

-- The constants, by their names of one character.
abbrev pub by_letter : ℕ → Option ℕ
by_letter c =
    if c == b'y'
    then some symbol_yes
    else if c == b'm'
    then some symbol_mod
    else if c == b'n'
    then some symbol_no
    else none

unfoldable pub constant_named : String → Option ℕ
constant_named (String.◌∷◌ c String.[]) = by_letter (code c)
constant_named _ = none

abbrev pub has_name : String → Decl → Bool
has_name name decl = elim (decl.name) [ none ↦ false | some n ↦ str_eq n name ]

-- The first symbol of a bucket with the name, among those that `wanted` admits.
unfoldable pub find_in : (ℕ → Decl) → (Decl → Bool) → String → List ℕ → Option ℕ
find_in d wanted name [] = none
find_in d wanted name (s ∷ l) =
    if has_name name (d s) && wanted (d s) then some s else find_in d wanted name l

-- `flags ? symbol->flags & flags : !(symbol->flags & (SYMBOL_CONST|SYMBOL_CHOICE))`
abbrev pub matches : Flags → Decl → Bool
matches flags decl =
    if flags.const || flags.choice
    then (flags.const && decl.const) || (flags.choice && decl.choice)
    else not (decl.const || decl.choice)

-- The end of `sym_lookup`: a new symbol in front of a bucket.
abbrev pub add_symbol : Option String → Flags → ℕ → Symtab → ℕ × Symtab
add_symbol name flags h t = (
  t.fresh,
  record {
    symbol_hash = update t.symbol_hash h (t.fresh ∷ t.symbol_hash h);
    decl_of =
        update t.decl_of t.fresh
          (record zero_decl { name = name; const = flags.const; choice = flags.choice });
    fresh = suc t.fresh;
  },
)

-- The symbol that was found, or a new one.
abbrev pub found_or_new : Option ℕ → String → Flags → Symtab → ℕ × Symtab
found_or_new (some s) name flags t = (s, t)
found_or_new none name flags t = add_symbol (some name) flags (hash name) t

-- `sym_lookup` of a name that is no constant's.
abbrev pub lookup_name : String → Flags → Symtab → ℕ × Symtab
lookup_name name flags t =
    found_or_new (find_in t.decl_of (matches flags) name (t.symbol_hash (hash name))) name flags t

abbrev pub constant_or {ℓ} : {A : Type ℓ} → Option ℕ → (ℕ → A) → A → A
constant_or (some s) f x = f s
constant_or none f x = x

abbrev pub lookup_some : String → Flags → Symtab → ℕ × Symtab
lookup_some name flags t =
    constant_or (constant_named name) (λ s. (s, t)) (lookup_name name flags t)

unfoldable pub sym_lookup : Option String → Flags → Symtab → ℕ × Symtab
sym_lookup none flags t = add_symbol none flags 256 t
sym_lookup (some name) flags t = lookup_some name flags t

abbrev pub find_some : String → Symtab → Option ℕ
find_some name t =
    constant_or (constant_named name) some
      (find_in t.decl_of (λ decl. not decl.const) name (t.symbol_hash (hash name)))

unfoldable pub sym_find : Option String → Symtab → Option ℕ
sym_find none t = none
sym_find (some name) t = find_some name t
