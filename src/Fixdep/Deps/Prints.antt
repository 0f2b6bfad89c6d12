-- ===== src/Fixdep/Deps/Prints.antt =====
-- build-tools/basic/fixdep.c: what `parse_dep_file` prints for a list of names as a compiler writes it.
use mkrootfs.Base.{
  ℕ, zero, suc, ◌+◌, ◌<◌, ◌≡◌, ◌≢◌, refl, sym, ap, ◌∙◌, inl, inr, Bool, false, ◌&&◌, not, some,
  List, [], ◌∷◌, ◌++◌, arith, leb, ◌==◌, if◌then◌else◌, Bool-cases, length, ◌>>=◌, Returns,
  returned, Returns-bind, Bytes, length-append,
}
use mathlib.Core.List.{append_assoc, append-nil}
use mkrootfs.Fixdep.{Fix, print, clear_config}
use mkrootfs.Fixdep.Words.{Defined, define_config-Defined}
use mkrootfs.Fixdep.Scan.Finds.{parse_config_file-same}
use mkrootfs.Fixdep.Deps.{
  FileRead, cannot_open, empty, cannot_map, content, Outcome, ok, path_max, is_generated, is_blank,
  skip_blank, after_space, trim_end, next_name, dep_line, header_line, rule_line, empty_rule,
  and_then, read_config, use_name, deps_loop, after_colon, print_rules, parse_dep_file,
}
use mkrootfs.Fixdep.Deps.Names.{
  until_nul-name, not_space, AllBytes, IsDepName, IsLastName, Entry, render_deps, next_name-entry,
  next_name-last,
}

-- The lines for the names that are not left out.
abbrev pub kept_line : Bytes → List Bytes
kept_line s = if is_generated s then [] else dep_line s ∷ []

abbrev pub dep_lines : List Entry → Bytes → List Bytes
dep_lines [] last = kept_line last
dep_lines (e ∷ l) last = kept_line e.name ++ dep_lines l last

abbrev pub with_lines : List Bytes → Fix → Fix
with_lines l st = record st { out = st.out ++ l }

abbrev pub AreEntries : List Entry → Type 0
AreEntries [] = Unit
AreEntries (e ∷ l) = (IsDepName e.name × AllBytes is_blank e.blanks) × AreEntries l

module _ (files : Bytes → FileRead) (tail : ℕ × ℕ)
    (readable : (s : Bytes) → files s ≢ cannot_open) where
  read_config-ok :
      (r : FileRead) (st : Fix) → r ≢ cannot_open → read_config files tail r st ≡ some (ok st)
  unfolding read_config
  read_config-ok cannot_open st h = absurd (h refl)
  read_config-ok empty st h = refl
  read_config-ok cannot_map st h = refl
  read_config-ok (content file) st h = rw (parse_config_file-same tail file st)

  use_name-ok :
      (s : Bytes) (st : Fix)
      → AllBytes not_space s
      → length s < path_max
      → use_name files tail s st ≡ some (ok (with_lines (kept_line s) st))
  use_name-ok s st hn h = elim (Bool-cases (is_generated s)) [
    | inl e ↦
        rw (short_lem, until_nul-name s hn, e)
          (ap (λ o. some (ok (record st { out = o }))) (sym (append-nil st.out)))
    | inr e ↦
        rw (short_lem, until_nul-name s hn, e)
          (read_config-ok (files s) (print (dep_line s) st) (readable s))
  ]
    where
      short_lem : leb path_max (length s) ≡ false
      short_lem = ground arith

  deps_loop-step :
      (f : ℕ) (s n r : Bytes) (st : Fix)
      → next_name (skip_blank s) ≡ some (n, r)
      → AllBytes not_space n
      → length n < path_max
      → deps_loop files tail (suc f) s st ≡ deps_loop files tail f r (with_lines (kept_line n) st)
  unfolding deps_loop
  deps_loop-step f [] n r st e hn h = unfold skip_blank after_space trim_end in cc
  deps_loop-step f (c ∷ s) n r st e hn h =
      rw (e, deps_loop) (ap (λ o. and_then o (deps_loop files tail f r)) (use_name-ok n st hn h))

  deps_loop-lines :
      (l : List Entry) (last b : Bytes) (f : ℕ) (st : Fix)
      → AllBytes is_blank b
      → AreEntries l
      → IsLastName last
      → suc (length l) < f
      → deps_loop files tail f (b ++ render_deps l last) st
        ≡ some (ok (with_lines (dep_lines l last) st))
  unfolding deps_loop
  deps_loop-lines [] last b (suc (suc f)) st hb h k lt =
      deps_loop-step (suc f) (b ++ (last ++ b'\n' ∷ [])) last [] st (next_name-last b last hb k)
        k.name.spaceless k.name.short
  deps_loop-lines (e ∷ l) last b (suc f) st hb h k lt =
      deps_loop-step f (b ++ (e.name ++ (b' ' ∷ (e.blanks ++ render_deps l last)))) e.name
        (e.blanks ++ render_deps l last) st
        (next_name-entry b e.name (e.blanks ++ render_deps l last) hb h.0.0) h.0.0.spaceless
        h.0.0.short
      ∙ deps_loop-lines l last e.blanks f (with_lines (kept_line e.name) st) h.0.1 h.1 k
          (omega arith)
      ∙ ap (λ o. some (ok (record st { out = o })))
          (append_assoc st.out (kept_line e.name) (dep_lines l last))
  deps_loop-lines _ last b zero st hb h k lt = absurd (omega arith)
  deps_loop-lines [] last b (suc zero) st hb h k lt = absurd (omega arith)

length-render : (l : List Entry) (last : Bytes) → length l < length (render_deps l last)
length-render [] last = omega (arith, length-append last (b'\n' ∷ []))
length-render (e ∷ l) last = omega (
  arith,
  length-append e.name (b' ' ∷ (e.blanks ++ render_deps l last)),
  length-append e.blanks (render_deps l last),
  length-render l last,
)

-- A byte of a target's name.
abbrev pub in_target : ℕ → Bool
in_target c = not (c == b':') && not (c == 0)

after_colon-target :
    (files : Bytes → FileRead) (tail : ℕ × ℕ) (t r : Bytes) (n : ℕ)
    → AllBytes in_target t
    → after_colon files tail (t ++ (b':' ∷ r)) n ≡ some (n + length t, r)
unfolding after_colon
after_colon-target files tail [] r n h = ground arith
after_colon-target files tail (c ∷ t) r n h =
    ground (arith, after_colon-target files tail t r (suc n) h.1)

-- What was printed: the header, a line for each name that is kept, and the two rules.
pub record Printed (target : Bytes) (lines : List Bytes) (st : Fix) (o : Outcome) : Type 0 where
  pub last : Fix
  pub goes_on : o ≡ ok last
  pub output :
      last.out
      ≡ st.out ++ (header_line target ∷ (lines ++ (rule_line target ∷ empty_rule target ∷ [])))

parse_dep_file-opened :
    (files : Bytes → FileRead) (tail : ℕ × ℕ) (target written s : Bytes) (st : Fix)
    → AllBytes in_target written
    → length written < path_max
    → parse_dep_file files tail target (written ++ (b':' ∷ s)) st ≡ (do
      st1 ← clear_config (print (header_line target) st)
      and_then (deps_loop files tail (suc (length s)) s st1) (print_rules target))
unfolding parse_dep_file clear_config
parse_dep_file-opened files tail target written s st ht hl =
    rw (after_colon-target files tail written s 0 ht, parse_dep_file) (rw short_lem refl)
  where
    short_lem : leb path_max (0 + length written) ≡ false
    short_lem = ground arith

-- For the list of dependencies as a compiler writes it (a target, a colon, names with blanks between
-- them, each behind a space, and one newline at the end): if the target holds no colon and no NUL and is
-- shorter than PATH_MAX, each name does not begin with a blank, holds no space and no NUL and is shorter
-- than PATH_MAX, the last name ends in a letter or digit, and no file fails to open, `parse_dep_file`
-- ends and prints the header, one line for each name that is not left out, in their order and with
-- nothing between them, and the two rules.
pub parse_dep_file-Printed :
    (files : Bytes → FileRead) (tail : ℕ × ℕ)
    → ((s : Bytes) → files s ≢ cannot_open)
    → (target written b last : Bytes) (l : List Entry) (st : Fix) → AllBytes in_target written
    → length written < path_max
    → AllBytes is_blank b
    → AreEntries l
    → IsLastName last
    → Returns
        (Printed target (dep_lines l last) st)
        (parse_dep_file files tail target (written ++ (b':' ∷ (b ++ render_deps l last))) st)
unfolding clear_config
parse_dep_file-Printed files tail readable target written b last l st ht hl hb h k =
    rw (parse_dep_file-opened files tail target written (b ++ render_deps l last) st ht hl) (
      Returns-bind {A = Fix} {B = Outcome}
        (define_config-Defined [] (record (print (header_line target) st) { str_config = [] }))
        λ st1 d.
          rw
            (deps_loop-lines files tail readable l last b (suc (length (b ++ render_deps l last)))
              st1 hb h k long_enough)
            (returned (printed st1 d)))
  where
    long_enough : suc (length l) < suc (length (b ++ render_deps l last))
    long_enough = omega (arith, length-append b (render_deps l last), length-render l last)

    printed :
        (st1 : Fix)
        → Defined [] (record (print (header_line target) st) { str_config = [] }) st1
        → Printed target (dep_lines l last) st (
            ok (
              print
                (empty_rule target)
                (print (rule_line target) (with_lines (dep_lines l last) st1))))
    printed st1 d = record {
      last = _;
      goes_on = refl;
      output = rw d.same_out (
          append_assoc (((st.out ++ header_line target ∷ []) ++ dep_lines l last))
            (rule_line target ∷ []) (empty_rule target ∷ [])
          ∙ append_assoc (st.out ++ header_line target ∷ []) (dep_lines l last)
              (rule_line target ∷ empty_rule target ∷ [])
          ∙ append_assoc st.out (header_line target ∷ [])
              (dep_lines l last ++ (rule_line target ∷ empty_rule target ∷ [])));
    }
