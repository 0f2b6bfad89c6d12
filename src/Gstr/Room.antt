-- ===== src/Gstr/Room.antt =====
-- build-tools/kconfig/util.c: the memory of a growing string.
use mathlib.Core.List.{append_assoc, append-nil}
use mkrootfs.Base.{
  ◌+◌, ◌<◌, ◌≡◌, refl, sym, ap, ◌∙◌, arith, true, leb, some, List, [], ◌∷◌, ◌++◌, length,
  length-append, Bytes, Returns, returned, Returns-bind, Returns-map,
}
use mkrootfs.Gstr.{Gstr, str_new, grow_to, append_to, str_append, append_all}

abbrev pub concat : List Bytes → Bytes
concat [] = []
concat (t ∷ l) = t ++ concat l

-- The string holds the text, and its memory the text with its NUL.
pub record Holds (text : Bytes) (gs : Gstr) : Type 0 where
  pub text_lem : gs.s ≡ some text
  pub room : length text < gs.len

str_append-Holds :
    (gs : Gstr) (old text : Bytes)
    → Holds old gs
    → Returns (Holds (old ++ text)) (str_append gs (some text))
unfolding str_append
str_append-Holds gs old text h = rw (h.text_lem) (
    rw (fits, append_to)
      (returned (record { text_lem = refl; room = ground (arith, length-append old text) })))
  where
    fits : leb (length old + length text + 1) (grow_to (length old + length text + 1) gs.len) ≡ true
    fits = ground arith

append_all-Holds :
    (l : List Bytes) (old : Bytes) (gs : Gstr)
    → Holds old gs
    → Returns (Holds (old ++ concat l)) (append_all l gs)
unfolding append_all
append_all-Holds [] old gs h = returned (record {
  text_lem = h.text_lem ∙ ap some (sym (append-nil old));
  room = omega (arith, h.room, length-append old []);
})
append_all-Holds (t ∷ l) old gs h = Returns-bind (str_append-Holds gs old t h) λ gs1 k.
    Returns-map (append_all-Holds l (old ++ t) gs1 k) λ gs2 q. record {
      text_lem = q.text_lem ∙ ap some (append_assoc old t (concat l));
      room = omega (arith, q.room, ap length (append_assoc old t (concat l)));
    }

-- Texts appended to a new string, however many and however long: no call writes outside the memory of
-- the string, which then holds the texts one behind another and has room for them and the final NUL.
pub append_all-Holds_new : (l : List Bytes) → Returns (Holds (concat l)) (append_all l str_new)
unfolding str_new
append_all-Holds_new l =
    append_all-Holds l [] str_new (record { text_lem = refl; room = omega arith })
