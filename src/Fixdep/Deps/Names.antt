-- ===== src/Fixdep/Deps/Names.antt =====
-- build-tools/basic/fixdep.c: how `parse_dep_file` takes the names of a list as a compiler writes it.
use mkrootfs.Base.{
  ℕ, suc, ◌<◌, ◌≡◌, refl, ap, ◌∙◌, Bool, true, false, ◌&&◌, not, none, some, List, [], ◌∷◌, ◌++◌,
  arith, ◌==◌, length, drop, Bytes,
}
use mkrootfs.Fixdep.Scan.{is_alnum}
use mkrootfs.Fixdep.Deps.{
  until_nul, path_max, is_blank, skip_blank, until_space, after_space, trim_end, next_name,
}

abbrev pub AllBytes : (ℕ → Bool) → Bytes → Type 0
AllBytes p [] = Unit
AllBytes p (c ∷ s) = (p c ≡ true) × AllBytes p s

abbrev pub not_space : ℕ → Bool
not_space c = not (c == b' ') && not (c == 0)

-- A name in the list: it does not begin with a blank, holds no space and no NUL, and fits the array.
pub record IsDepName (s : Bytes) : Type 0 where
  pub head : ℕ
  pub rest : Bytes
  pub splits : s ≡ head ∷ rest
  pub starts : is_blank head ≡ false
  pub spaceless : AllBytes not_space s
  pub short : length s < path_max

-- The last name also ends in a letter or digit.
pub record IsLastName (s : Bytes) : Type 0 where
  pub name : IsDepName s
  pub front : Bytes
  pub end : ℕ
  pub ends : s ≡ front ++ end ∷ []
  pub alnum : is_alnum end ≡ true

-- A name and the blanks behind its space.
pub record Entry : Type 0 where
  pub name : Bytes
  pub blanks : Bytes

abbrev pub render_deps : List Entry → Bytes → Bytes
render_deps [] last = last ++ b'\n' ∷ []
render_deps (e ∷ l) last = e.name ++ (b' ' ∷ (e.blanks ++ render_deps l last))

pub until_nul-name : (s : Bytes) → AllBytes not_space s → until_nul s ≡ s
unfolding until_nul
until_nul-name [] h = refl
until_nul-name (c ∷ s) h = ground (arith, until_nul-name s h.1)

skip_blank-blanks : (b s : Bytes) → AllBytes is_blank b → skip_blank (b ++ s) ≡ skip_blank s
unfolding skip_blank
skip_blank-blanks [] s h = refl
skip_blank-blanks (c ∷ b) s h = rw (h.0, skip_blank) (skip_blank-blanks b s h.1)

skip_blank-name : (s r : Bytes) → IsDepName s → skip_blank (s ++ r) ≡ s ++ r
unfolding skip_blank
skip_blank-name s r h = rw (h.splits, h.starts, skip_blank)

until_space-name : (s r : Bytes) → AllBytes not_space s → until_space (s ++ (b' ' ∷ r)) ≡ s
unfolding until_space
until_space-name [] r h = refl
until_space-name (c ∷ s) r h = ground (arith, until_space-name s r h.1)

after_space-name : (s r : Bytes) → AllBytes not_space s → after_space (s ++ (b' ' ∷ r)) ≡ some r
unfolding after_space
after_space-name [] r h = refl
after_space-name (c ∷ s) r h = ground (arith, after_space-name s r h.1)

after_space-none : (s : Bytes) → AllBytes not_space s → after_space (s ++ b'\n' ∷ []) ≡ none
unfolding after_space
after_space-none [] h = refl
after_space-none (c ∷ s) h = ground (arith, after_space-none s h.1)

trim_end-last :
    (front : Bytes) (c : ℕ)
    → is_alnum c ≡ true
    → trim_end ((front ++ c ∷ []) ++ b'\n' ∷ []) ≡ some (front ++ c ∷ [])
unfolding trim_end
trim_end-last [] c h = rw h
trim_end-last (x ∷ front) c h = rw (trim_end-last front c h)

drop-all : (s : Bytes) (c : ℕ) → drop (suc (length s)) (s ++ c ∷ []) ≡ []
drop-all [] c = refl
drop-all (x ∷ s) c = drop-all s c

next_name-space :
    (s name rest : Bytes)
    → after_space s ≡ some rest
    → until_space s ≡ name
    → next_name s ≡ some (name, rest)
next_name-space s name rest e u = ground arith

next_name-end :
    (s name : Bytes)
    → after_space s ≡ none
    → trim_end s ≡ some name
    → next_name s ≡ some (name, drop (suc (length name)) s)
next_name-end s name e t = rw (e, next_name) (rw t)

pub next_name-entry :
    (b n r : Bytes)
    → AllBytes is_blank b
    → IsDepName n
    → next_name (skip_blank (b ++ (n ++ (b' ' ∷ r)))) ≡ some (n, r)
next_name-entry b n r hb h =
    ap next_name (skip_blank-blanks b (n ++ (b' ' ∷ r)) hb ∙ skip_blank-name n (b' ' ∷ r) h)
    ∙ next_name-space (n ++ (b' ' ∷ r)) n r (after_space-name n r h.spaceless)
        (until_space-name n r h.spaceless)

pub next_name-last :
    (b s : Bytes)
    → AllBytes is_blank b
    → IsLastName s
    → next_name (skip_blank (b ++ (s ++ b'\n' ∷ []))) ≡ some (s, [])
next_name-last b s hb h =
    let trimmed : trim_end (s ++ b'\n' ∷ []) ≡ some s =
      rw h.ends (trim_end-last h.front h.end h.alnum) in
    ap next_name (skip_blank-blanks b (s ++ b'\n' ∷ []) hb ∙ skip_blank-name s (b'\n' ∷ []) h.name)
    ∙ next_name-end (s ++ b'\n' ∷ []) s (after_space-none s h.name.spaceless) trimmed
    ∙ ap (λ r. some (s, r)) (drop-all s b'\n')
