-- ===== src/Gstr.antt =====
-- build-tools/kconfig/util.c: strings that grow. A text is its bytes without the final NUL, and a write
-- outside the memory gives `none`. Memory is never short.
pub mod Room
use mkrootfs.Base.{
  ℕ, suc, ◌+◌, Bool, if◌then◌else◌, leb, ltb, max, Option, none, some, List, [], ◌∷◌, ◌++◌, length,
  ◌>>=◌, Bytes, take,
}

-- `len` is the size of the memory at `s`, which is null after `str_free`.
pub record Gstr : Type 0 where
  pub len : ℕ
  pub s : Option Bytes

unfoldable pub str_new : Gstr
str_new = record { len = 64; s = some [] }

unfoldable pub str_assign : Bytes → Gstr
str_assign text = record { len = length text + 1; s = some text }

unfoldable pub str_free : Gstr → Gstr
str_free gs = record { len = 0; s = none }

-- `realloc` where the memory is too small.
abbrev pub grow_to : ℕ → ℕ → ℕ
grow_to l len = if ltb len l then l else len

-- `strcat` into memory of `len` bytes.
abbrev pub strcat : ℕ → Bytes → Bytes → Option Bytes
strcat len old text = if leb (length old + length text + 1) len then some (old ++ text) else none

-- With the text of the string, at which the source reads.
abbrev pub append_to : Option Bytes → Bytes → ℕ → Option Gstr
append_to none text len = none
append_to (some old) text len = do
  joined ← strcat (grow_to (length old + length text + 1) len) old text
  some (record { len = grow_to (length old + length text + 1) len; s = some joined })

-- `str_append`, of a null pointer or a text.
unfoldable pub str_append : Gstr → Option Bytes → Option Gstr
str_append gs none = some gs
str_append gs (some text) = append_to gs.s text gs.len

-- `vsnprintf` writes at most 9999 bytes of what the format gives.
unfoldable pub str_printf : Gstr → Bytes → Option Gstr
str_printf gs formatted = str_append gs (some (take 9999 formatted))

unfoldable pub str_get : Gstr → Option Bytes
str_get gs = gs.s

-- Calls of `str_append` one behind another.
unfoldable pub append_all : List Bytes → Gstr → Option Gstr
append_all [] gs = some gs
append_all (text ∷ l) gs = do gs1 ← str_append gs (some text); append_all l gs1
