-- ===== src/Fixdep/Once.antt =====
-- build-tools/basic/fixdep.c: a sequence of uses of words, after the set was cleared.
use mathlib.Core.List.{append_assoc, append-nil, map-append}
use mkrootfs.Base.{
  subst, Returns-elim, ◌≡◌, refl, sym, ap, ◌∙◌, arith, Bool, true, false, not, ◌&&◌, ◌||◌, ==_iff,
  Option, some, ◌>>=◌, List, [], ◌∷◌, ◌++◌, map, Returns, returned, Returns-map, Returns-bind,
  Bool-cases, inl, inr, Bytes,
}
use mkrootfs.Fixdep.{ok, and_then, Outcome, Fix, clear_config, use_config, config_line}
use mkrootfs.Fixdep.Words.{
  AreShortWords, same, member, Represents, add_word, Uses, use_config-Uses, define_config-Defined,
}

-- The calls of `use_config` in a row.
unfoldable pub use_all : List Bytes → Fix → Option Outcome
use_all [] st = some (ok st)
use_all (m ∷ ms) st = and_then (use_config m st) (use_all ms)

abbrev pub distinct : List Bytes → Bool
distinct [] = true
distinct (w ∷ ws) = not (member w ws) && distinct ws

same_eq : (w v : Bytes) → same w v ≡ true → w ≡ v
same_eq [] [] h = refl
same_eq [] (d ∷ v) h = cc
same_eq (c ∷ w) [] h = cc
same_eq (c ∷ w) (d ∷ v) h = ground (arith, same_eq w v, ==_iff c d)

same_sym : (w v : Bytes) → same w v ≡ same v w
same_sym [] [] = refl
same_sym [] (d ∷ v) = refl
same_sym (c ∷ w) [] = refl
same_sym (c ∷ w) (d ∷ v) = ground (arith, same_sym w v)

member-append :
    (w v : Bytes) (ws : List Bytes) → member w (ws ++ v ∷ []) ≡ (member w ws || same w v)
member-append w v [] = ground arith
member-append w v (x ∷ ws) = ground (arith, member-append w v ws)

distinct-append :
    (v : Bytes) (ws : List Bytes)
    → distinct ws ≡ true
    → member v ws ≡ false
    → distinct (ws ++ v ∷ []) ≡ true
distinct-append v [] h k = refl
distinct-append v (x ∷ ws) h k =
    ground (arith, distinct-append v ws, member-append x v ws, same_sym x v)

distinct-add_word :
    (v : Bytes) (ws : List Bytes) → distinct ws ≡ true → distinct (add_word v ws) ≡ true
distinct-add_word v ws h = ground (arith, distinct-append v ws)

member-add_word :
    (w v : Bytes) (ws : List Bytes) → member w (add_word v ws) ≡ (member w ws || same w v)
member-add_word w v ws = elim (Bool-cases (same w v)) [
  | inl e ↦ ground (arith, member-append w v ws, ap (λ x. member x ws) (same_eq w v e))
  | inr e ↦ ground (arith, member-append w v ws)
]

-- The words of `ws` were printed behind `o`, each once.
pub record Once (o : List Bytes) (ws : List Bytes) (st : Fix) : Type 0 where
  pub represents : Represents ws st
  pub printed : st.out ≡ o ++ map config_line ws
  pub once : distinct ws ≡ true

-- The uses of `ms` go on, and lead to a set with the words of `ms` and those it had.
pub record AllUsed (o : List Bytes) (ms seen : List Bytes) (outcome : Outcome) : Type 0 where
  pub last : Fix
  pub goes_on : outcome ≡ ok last
  pub words : List Bytes
  pub done : Once o words last
  pub members : (w : Bytes) → member w words ≡ (member w seen || member w ms)

Once-Uses :
    (o : List Bytes) (m : Bytes) (ws : List Bytes) (st st' : Fix) (r : Outcome)
    → Once o ws st
    → Uses m ws st st' r
    → Once o (add_word m ws) st'
Once-Uses o m ws st st' r h u = record {
  represents = u.represents;
  printed = elim (Bool-cases (member m ws)) [
    | inl e ↦ rw e (u.printed ∙ rw e h.printed)
    | inr e ↦ rw e (
        u.printed
        ∙ rw e (
            ap (λ l. l ++ config_line m ∷ []) h.printed
            ∙ append_assoc o _ _
            ∙ ap (λ l. o ++ l) (sym (map-append config_line ws (m ∷ [])))))
  ];
  once = distinct-add_word m ws h.once;
}

-- One use of a word, and what the program goes on with.
goes_on-lem :
    {m : Bytes} {ws : List Bytes} {st : Fix} {P : Outcome → Type 0} {call : Option Outcome}
    → Returns (λ r. (st' : Fix) × Uses m ws st st' r) call
    → (rest : Fix → Option Outcome)
    → ((st' : Fix) (r : Outcome) → Uses m ws st st' r → Returns P (rest st'))
    → Returns P (and_then call rest)
goes_on-lem {P = P} h rest k =
    let (r, e, (st', u)) = Returns-elim h in
    subst (λ c. Returns P (and_then c rest)) (sym e)
      (subst (λ q. Returns P (and_then (some q) rest)) (sym u.goes_on) (k st' r u))

use_all-AllUsed :
    (o : List Bytes) (ms ws : List Bytes) (st : Fix)
    → AreShortWords ms
    → Once o ws st
    → Returns (AllUsed o ms ws) (use_all ms st)
unfolding use_all
use_all-AllUsed o [] ws st h k =
    returned
      (record { last = st; goes_on = refl; words = ws; done = k; members = λ w. ground arith })
use_all-AllUsed o (m ∷ ms) ws st h k =
    goes_on-lem (use_config-Uses m ws st h.0.0 h.0.1 k.represents) (use_all ms) λ st1 r u.
      Returns-map (use_all-AllUsed o ms (add_word m ws) st1 h.1 (Once-Uses o m ws st st1 r k u))
        λ r a. record {
          last = a.last;
          goes_on = a.goes_on;
          words = a.words;
          done = a.done;
          members =
              λ w. a.members w ∙ ap (λ b. b || member w ms) (member-add_word w m ws) ∙ ground arith;
        }

-- After `clear_config`, calls of `use_config` with words that hold no newline and are shorter than
-- PATH_MAX return and write within their array, whatever room the set had. The lines they printed, behind the earlier output, are those of distinct words,
-- exactly the words that were used; and the text of the set stands for these words and lies within
-- its memory.
pub clear_config-AllUsed :
    (ms : List Bytes) (st : Fix)
    → AreShortWords ms
    → Returns (AllUsed st.out ms []) (clear_config st >>= use_all ms)
unfolding clear_config
clear_config-AllUsed ms st h =
    Returns-bind (define_config-Defined [] (record st { str_config = [] })) λ st1 d.
      use_all-AllUsed st.out ms [] st1 h (record {
        represents = record { words = tt; text = d.new_text; bounded = d.within };
        printed = d.same_out ∙ sym (append-nil st.out);
        once = refl;
      })
