-- ===== src/Fixdep/Words.antt =====
-- build-tools/basic/fixdep.c: the set of words against a list of words.
use mathlib.Core.List.{append_assoc}
use mkrootfs.Base.{
  leb, ℕ, zero, suc, ◌+◌, ◌≤◌, ◌<◌, ◌≡◌, refl, ap, ◌∙◌, arith, Bool, true, false, ◌||◌, ◌==◌, ltb,
  if◌then◌else◌, List, [], ◌∷◌, ◌++◌, length, Returns, returned, Returns-bind, Bool-cases, inl, inr,
  Bytes, length-append,
}
use mkrootfs.Fixdep.{
  ok, print_config, path_max, Outcome, Fix, grow, grow_config, word_here, is_defined_config,
  define_config, config_line, print, use_config,
}

-- No byte of the word is a newline.
abbrev pub IsWord : Bytes → Type 0
IsWord [] = Unit
IsWord (c ∷ w) = ((c == b'\n') ≡ false) × IsWord w

abbrev pub AreWords : List Bytes → Type 0
AreWords [] = Unit
AreWords (w ∷ ws) = IsWord w × AreWords ws

-- The words also fit the array, with a NUL behind each.
abbrev pub AreShortWords : List Bytes → Type 0
AreShortWords [] = Unit
AreShortWords (w ∷ ws) = (IsWord w × (length w < path_max)) × AreShortWords ws

abbrev pub same : Bytes → Bytes → Bool
same [] [] = true
same (c ∷ w) (d ∷ v) = if c == d then same w v else false
same _ _ = false

abbrev pub member : Bytes → List Bytes → Bool
member w [] = false
member w (v ∷ ws) = same w v || member w ws

abbrev lines : List Bytes → Bytes
lines [] = []
lines (w ∷ ws) = w ++ (b'\n' ∷ lines ws)

-- The text that stands for a list of words.
abbrev pub render : List Bytes → Bytes
render ws = b'\n' ∷ lines ws

word_here-nil : (w : Bytes) → word_here w [] ≡ false
word_here-nil [] = refl
word_here-nil (c ∷ w) = refl

word_here-same :
    (w v rest : Bytes) → IsWord w → IsWord v → word_here w (v ++ (b'\n' ∷ rest)) ≡ same w v
word_here-same [] [] rest h k = refl
word_here-same [] (d ∷ v) rest h k = k.0
word_here-same (c ∷ w) [] rest h k = ground arith
word_here-same (c ∷ w) (d ∷ v) rest h k = ground (arith, word_here-same w v rest)

is_defined-skip :
    (w v rest : Bytes) → IsWord v → is_defined_config w (v ++ rest) ≡ is_defined_config w rest
unfolding is_defined_config
is_defined-skip w [] rest h = refl
is_defined-skip w (c ∷ v) rest h = rw h.0 (is_defined-skip w v rest h.1)

is_defined-render :
    (w : Bytes) (ws : List Bytes)
    → IsWord w
    → AreWords ws
    → is_defined_config w (render ws) ≡ member w ws
unfolding is_defined_config
is_defined-render w [] h k = ground (arith, word_here-nil w)
is_defined-render w (v ∷ ws) h k = ground (
  arith,
  word_here-same w v (lines ws) h k.0,
  is_defined-skip w v (b'\n' ∷ lines ws) k.0,
  is_defined-render w ws h k.1,
)

lines-append : (ws : List Bytes) (w : Bytes) → lines ws ++ (w ++ b'\n' ∷ []) ≡ lines (ws ++ w ∷ [])
lines-append [] w = refl
lines-append (v ∷ ws) w = append_assoc v _ _ ∙ ap (λ r. v ++ (b'\n' ∷ r)) (lines-append ws w)

grow-le : (f need size : ℕ) → 0 < f → need < size + f → Returns (λ s. need ≤ s) (grow f need size)
unfolding grow
grow-le zero need size p h = absurd (omega arith)
grow-le (suc f) need size p h = elim (Bool-cases (ltb size need)) [
  | inl e ↦ rw e (grow-le f need _ (ground arith) (ground arith))
  | inr e ↦ rw e (returned (ground arith))
]

-- The state stands for the list of words, and the words lie within the memory.
pub record Represents (ws : List Bytes) (st : Fix) : Type 0 where
  pub words : AreWords ws
  pub text : st.str_config ≡ render ws
  pub bounded : length st.str_config ≤ st.size_config

-- `grow_config` makes room for `len` bytes and changes nothing else.
record Grown (len : ℕ) (st st' : Fix) : Type 0 where
  room : length st.str_config + len ≤ st'.size_config
  same_text : st'.str_config ≡ st.str_config
  same_out : st'.out ≡ st.out

grow_config-Grown : (len : ℕ) (st : Fix) → Returns (Grown len st) (grow_config len st)
unfolding grow_config
grow_config-Grown len st =
    Returns-bind
      (grow-le (suc (length st.str_config + len)) (length st.str_config + len) st.size_config
        (omega arith) (omega arith))
      λ size h. returned (record { room = h; same_text = refl; same_out = refl })

-- The words with one more behind them.
pub record Defined (name : Bytes) (st st' : Fix) : Type 0 where
  pub new_text : st'.str_config ≡ st.str_config ++ (name ++ b'\n' ∷ [])
  pub within : length st'.str_config ≤ st'.size_config
  pub same_out : st'.out ≡ st.out

pub define_config-Defined :
    (name : Bytes) (st : Fix) → Returns (Defined name st) (define_config name st)
unfolding define_config
define_config-Defined name st = Returns-bind (grow_config-Grown (length name + 1) st) λ st1 g.
    returned (record {
      new_text = ap (λ s. s ++ (name ++ b'\n' ∷ [])) g.same_text;
      within = omega (
        arith,
        length-append st1.str_config (name ++ b'\n' ∷ []),
        length-append name (b'\n' ∷ []),
        ap length g.same_text,
        g.room,
      );
      same_out = g.same_out;
    })

-- A list of words with one more, unless it is there already.
abbrev pub add_word : Bytes → List Bytes → List Bytes
add_word w ws = if member w ws then ws else ws ++ w ∷ []

AreWords-append : (ws : List Bytes) (w : Bytes) → AreWords ws → IsWord w → AreWords (ws ++ w ∷ [])
AreWords-append [] w h k = (k, tt)
AreWords-append (v ∷ ws) w h k = (h.0, AreWords-append ws w h.1 k)

-- What one use of a word does: it goes on.
pub record Uses (m : Bytes) (ws : List Bytes) (st st' : Fix) (o : Outcome) : Type 0 where
  pub goes_on : o ≡ ok st'
  pub represents : Represents (add_word m ws) st'
  pub printed : st'.out ≡ (if member m ws then st.out else st.out ++ config_line m ∷ [])

module _ (m : Bytes) (ws : List Bytes) (st : Fix) (h : IsWord m) (short : length m < path_max)
    (r : Represents ws st) where
  found_lem : is_defined_config m st.str_config ≡ member m ws
  found_lem = ap (is_defined_config m) r.text ∙ is_defined-render m ws h r.words

  long_lem : leb path_max (length m) ≡ false
  long_lem = ground arith

  Uses-old : member m ws ≡ true → Uses m ws st st (ok st)
  Uses-old e = record { goes_on = refl; represents = rw e r; printed = rw e }

  Uses-new :
      (st1 : Fix)
      → member m ws ≡ false
      → Defined m st st1
      → Uses m ws st (print (config_line m) st1) (print_config m st1)
  Uses-new st1 e k = record {
    goes_on = rw (long_lem) refl;
    represents = rw e (record {
      words = AreWords-append ws m r.words h;
      text =
          k.new_text
          ∙ ap (λ s. s ++ (m ++ b'\n' ∷ [])) r.text
          ∙ ap (λ s. b'\n' ∷ s) (lines-append ws m);
      bounded = k.within;
    });
    printed = rw e (ap (λ o. o ++ config_line m ∷ []) k.same_out);
  }

  pub use_config-Uses : Returns (λ o. (st' : Fix) × Uses m ws st st' o) (use_config m st)
  unfolding use_config
  use_config-Uses = elim (Bool-cases (member m ws)) [
    | inl e ↦ rw (found_lem ∙ e, use_config) (returned (st, Uses-old e))
    | inr e ↦
        rw (found_lem ∙ e, use_config)
          (Returns-bind (define_config-Defined m st)
            λ st1 k. returned (print (config_line m) st1, Uses-new st1 e k))
  ]
