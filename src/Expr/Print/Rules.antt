-- ===== src/Expr/Print/Rules.antt =====
-- build-tools/kconfig/zconf.y and zconf.l: the rules for expressions, over the pieces that `expr_print`
-- prints. The text of a piece is that of one token, with the blanks around `&&` and `||`: no other token
-- has a character of a word, and no word stands beside another.
use mkrootfs.Base.{
  ◌==◌, ◌||◌, codes, false, leb, Bytes, ◌&&◌, str_eq, not, String, Option, ℕ, ◌≡◌, Bool, true, List,
  [], ◌∷◌, ◌++◌, some,
}
use mkrootfs.Symbol.{Table}
use mkrootfs.Expr.{Expr, e_symbol, e_not, e_and, e_or, e_equal, e_unequal}
use mkrootfs.Symtab.{Symtab, Flags, no_flags, sym_lookup}
use mkrootfs.Expr.Value.{value}
use mkrootfs.Expr.Print.{Piece, name, literal}

-- The nonterminal `expr`, by the precedences that zconf.y declares: T_OR, T_AND and what binds tighter.
pub data Level : Type 0 where
  or_level and_level primary : Level

-- The text that a piece has, if it is not null.
abbrev pub text_of : Piece → Option String
text_of (name s w) = w
text_of (literal w) = some w

-- `[A-Za-z0-9_]`, which zconf.l calls `n`, or one of `-/.`
abbrev word_char : ℕ → Bool
word_char c =
    (leb b'A' c && leb c b'Z')
    || ((leb b'a' c && leb c b'z')
        || ((leb b'0' c && leb c b'9') || (c == b'_' || (c == b'-' || (c == b'/' || c == b'.')))))

-- A character of a quoted text that stands for itself.
abbrev plain_char : ℕ → Bool
plain_char c = not (c == b'"' || (c == b'\\' || (c == b'\'' || c == b'\n')))

abbrev all_bytes : (ℕ → Bool) → Bytes → Bool
all_bytes p [] = true
all_bytes p (c ∷ s) = p c && all_bytes p s

-- A text that zconf.l reads as one T_WORD between the tokens of an expression: it is no keyword and
-- not the text `---`, which is skipped.
unfoldable pub is_word : String → Bool
is_word w =
    (not (str_eq w "") && all_bytes word_char (codes w))
    && not (str_eq w "if" || (str_eq w "on" || str_eq w "---"))

abbrev const_flags : Flags
const_flags = record { const = true; choice = false }

-- The nonterminal `symbol`, over a table that already has the symbol.
pub data Names (tab : Symtab) : String → ℕ → Type 0 where
  word_rule :
      (w : String) (s : ℕ)
      → is_word w ≡ true
      → sym_lookup (some w) no_flags tab ≡ (s, tab)
      → Names tab w s
  quote_rule :
      (q w : String) (s : ℕ)
      → codes q ≡ b'"' ∷ (codes w ++ b'"' ∷ [])
      → all_bytes plain_char (codes w) ≡ true
      → sym_lookup (some w) const_flags tab ≡ (s, tab)
      → Names tab q s

-- The piece is the text of the symbol.
abbrev pub IsText : Symtab → Piece → ℕ → Type 0
IsText tab p s = (w : String) × (text_of p ≡ some w) × Names tab w s

-- The rules of `expr`; T_OR and T_AND are left associative, and behind T_NOT a symbol goes on to a
-- comparison if T_EQUAL or T_UNEQUAL follows.
pub data Parses (tab : Symtab) : Level → List Piece → Expr → Type 0 where
  word : {p : Piece} {s : ℕ} → IsText tab p s → Parses tab primary (p ∷ []) (e_symbol s)
  equals :
      {p q : Piece} {a b : ℕ}
      → IsText tab p a
      → IsText tab q b
      → Parses tab primary (p ∷ (literal "=" ∷ (q ∷ []))) (e_equal a b)
  unequals :
      {p q : Piece} {a b : ℕ}
      → IsText tab p a
      → IsText tab q b
      → Parses tab primary (p ∷ (literal "!=" ∷ (q ∷ []))) (e_unequal a b)
  parens :
      {l : List Piece} {e : Expr}
      → Parses tab or_level l e
      → Parses tab primary (literal "(" ∷ (l ++ literal ")" ∷ [])) e
  negation :
      {l : List Piece} {e : Expr}
      → Parses tab primary l e
      → Parses tab primary (literal "!" ∷ l) (e_not e)
  factor : {l : List Piece} {e : Expr} → Parses tab primary l e → Parses tab and_level l e
  and_then :
      {l k : List Piece} {e d : Expr}
      → Parses tab and_level l e
      → Parses tab primary k d
      → Parses tab and_level (l ++ (literal " && " ∷ k)) (e_and e d)
  term : {l : List Piece} {e : Expr} → Parses tab and_level l e → Parses tab or_level l e
  or_then :
      {l k : List Piece} {e d : Expr}
      → Parses tab or_level l e
      → Parses tab and_level k d
      → Parses tab or_level (l ++ (literal " || " ∷ k)) (e_or e d)

-- The symbol has as its name a word, and looking the word up gives the symbol.
abbrev pub IsNamed : Symtab → ℕ → Type 0
IsNamed tab s =
    (w : String) × ((tab.decl_of s).name ≡ some w)
    × (is_word w ≡ true)
    × (sym_lookup (some w) no_flags tab ≡ (s, tab))

abbrev pub AllNamed : Symtab → Expr → Type 0
AllNamed tab (e_symbol s) = IsNamed tab s
AllNamed tab (e_not e) = AllNamed tab e
AllNamed tab (e_and l r) = AllNamed tab l × AllNamed tab r
AllNamed tab (e_or l r) = AllNamed tab l × AllNamed tab r
AllNamed tab (e_equal a b) = IsNamed tab a × IsNamed tab b
AllNamed tab (e_unequal a b) = IsNamed tab a × IsNamed tab b

-- The text is that of an expression with the same value.
pub record Reads (tab : Symtab) (level : Level) (l : List Piece) (e : Expr) : Type 0 where
  pub tree : Expr
  pub parses : Parses tab level l tree
  pub keeps : (t : Table) → value t tree ≡ value t e
