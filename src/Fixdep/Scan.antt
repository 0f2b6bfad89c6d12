-- ===== src/Fixdep/Scan.antt =====
-- build-tools/basic/fixdep.c: `parse_config_file`, which looks for configuration words in a file.
-- The file is mapped to memory: behind its last byte, the page is filled with zeros. `tail` stands
-- for the two bytes that `memcmp(p, "MKR_", 7)` reads behind the literal and its zero.
pub mod Finds
use mkrootfs.Base.{
  ℕ, zero, suc, ◌+◌, ◌-◌, ◌*◌, ◌/◌, ◌%◌, ◌≤◌, ◌<◌, max, String, ◌≡◌, ◌≢◌, refl, sym, ap, ap₂, ◌∙◌,
  subst, ◌↔◌, ◌⊎◌, inl, inr, Bool, true, false, ◌&&◌, ◌||◌, not, Option, none, some, List, [], ◌∷◌,
  ◌++◌, map, arith, ltb, leb, ◌==◌, ==_iff, ==-refl, str_eq, eq_iff, if◌then◌else◌, Bool-cases,
  Option-cases, some_inj, or-right, length, take, drop, get_or, ◌>>=◌, update, Returns, returned,
  Returns-bind, Returns-map, Returns-elim, ℤ, leb_ℤ, Bytes, codes,
}
use mkrootfs.Fixdep.{
  not, suc, ◌+◌, ltb, ◌||◌, ◌&&◌, if◌then◌else◌, some, leb, length, ◌==◌, none, Bool, Option, ℕ,
  Bytes, Fix, Outcome, ok, and_then, use_config,
}

abbrev pub byte : Bytes → ℕ → ℕ
byte = get_or 0

-- `*m == INT_…`: the four bytes from `m` on.
abbrev pub four_at : Bytes → ℕ → ℕ → ℕ → ℕ → ℕ → Bool
four_at file m a b c d =
    byte file m == a
    && (byte file (m + 1) == b && (byte file (m + 2) == c && byte file (m + 3) == d))

-- Where the word `CONF` would begin, by what stands at `m`.
abbrev pub conf_start : Bytes → ℕ → Option ℕ
conf_start file m =
    if four_at file m b'C' b'O' b'N' b'F'
    then some m
    else if four_at file m b'O' b'N' b'F' b'I'
    then some (m - 1)
    else if four_at file m b'N' b'F' b'I' b'G'
    then some (m - 2)
    else if four_at file m b'F' b'I' b'G' b'_'
    then some (m - 3)
    else none

-- `!memcmp(p, "MKR_", 7)`
abbrev pub is_prefix : ℕ × ℕ → Bytes → ℕ → Bool
is_prefix tail file p =
    four_at file p b'M' b'K' b'R' b'_'
    && (byte file (p + 4) == 0 && (byte file (p + 5) == tail.0 && byte file (p + 6) == tail.1))

-- `isalnum`
abbrev pub is_alnum : ℕ → Bool
is_alnum c =
    (leb b'0' c && leb c b'9') || ((leb b'A' c && leb c b'Z') || (leb b'a' c && leb c b'z'))

-- The loop over `q`, with the number of bytes that are left.
unfoldable pub word_end : Bytes → ℕ → ℕ → Option ℕ
word_end file zero q = none
word_end file (suc k) q =
    if is_alnum (byte file q) || byte file q == b'_' then word_end file k (q + 1) else some q

-- `!memcmp(q - 7, "_MODULE", 7)`
abbrev pub ends_module : Bytes → ℕ → Bool
ends_module file q =
    byte file (q - 7) == b'_'
    && (byte file (q - 6) == b'M'
        && (byte file (q - 5) == b'O'
            && (byte file (q - 4) == b'D'
                && (byte file (q - 3) == b'U'
                    && (byte file (q - 2) == b'L' && byte file (q - 1) == b'E')))))

-- From the label `found` on.
abbrev pub word_found : Bytes → ℕ → ℕ → Fix → Option Outcome
word_found file p q st =
    let q' = if ends_module file q then q - 7 else q in
    if ltb q' (p + 7) then some (ok st) else use_config (take (q' - (p + 7)) (drop (p + 7) file)) st

-- From the label `conf` on.
abbrev pub conf_found : ℕ × ℕ → Bytes → ℕ → Fix → Option Outcome
conf_found tail file p st =
    if ltb (length file) (p + 7)
    then some (ok st)
    else if not (is_prefix tail file p)
    then some (ok st)
    else elim (word_end file (length file - (p + 7)) (p + 7)) [
      | none ↦ some (ok st)
      | some q ↦ word_found file p q st
    ]

-- The body of the loop over `m`.
unfoldable pub scan_at : ℕ × ℕ → Bytes → ℕ → Fix → Option Outcome
scan_at tail file m st = elim (conf_start file m) [
  | none ↦ some (ok st)
  | some p ↦ conf_found tail file p st
]

-- The loop over the aligned words, with the number of rounds that are left.
unfoldable pub scan_from : ℕ × ℕ → Bytes → ℕ → ℕ → Fix → Option Outcome
scan_from tail file zero m st = some (ok st)
scan_from tail file (suc k) m st = and_then (scan_at tail file m st) (scan_from tail file k (m + 4))

-- `parse_config_file`: the words at 4, 8 and so on, below the length.
unfoldable pub parse_config_file : ℕ × ℕ → Bytes → Fix → Option Outcome
parse_config_file tail file st = scan_from tail file ((length file - 1) / 4) 4 st
