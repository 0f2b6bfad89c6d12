-- ===== src/Samples/ConfdataRuns.antt =====
-- The symbols of the sample tree in a hash table, written to a file and read from it.
use mkrootfs.Base.{ℕ, ◌≡◌, refl, arith, ◌==◌, if◌then◌else◌, some, List, [], ◌∷◌}
use mkrootfs.Tristate.{tri_no, tri_mod}
use mkrootfs.Symbol.{SymbolValue, null, text}
use mkrootfs.Symtab.{Symtab, no_flags, hash, constant_named, find_in, sym_lookup, sym_find}
use mkrootfs.Symtab.Interned.{IsFresh, Interned, sym_lookup-Interned}
use mkrootfs.Calc.Visibility.{sym_get_choice_prop}
use mkrootfs.Calc.Set.Strings.{sym_string_valid, all_chars}
use mkrootfs.Confdata.{chars}
use mkrootfs.Confdata.Read.{load}
use mkrootfs.Confdata.RoundTrip.{CanSave}
use mkrootfs.Confdata.RoundTrip.Effect.{symbol_lines, AreSaved, AreRestored}
use mkrootfs.Confdata.RoundTrip.File.{AreLines, concat, load-AreRestored}
use mkrootfs.Confdata.Written.{Written}
use mkrootfs.Samples.Tree.{tree, first_state}

-- Each name in a bucket of its own.
abbrev buckets : ℕ → List ℕ
buckets h =
    if h == 231 then 3 ∷ [] else if h == 234 then 4 ∷ [] else if h == 113 then 7 ∷ [] else []

abbrev tab : Symtab
tab = record { symbol_hash = buckets; decl_of = tree.decl_of; fresh = 10 }

net_hash : hash "NET" ≡ 231
unfolding hash
net_hash = refl

usb_hash : hash "USB" ≡ 234
unfolding hash
usb_hash = refl

speed_hash : hash "SPEED" ≡ 113
unfolding hash
speed_hash = refl

tab-IsFresh : IsFresh tab
tab-IsFresh h = ground arith

sym_lookup-Interned_example : Interned "ATM" no_flags tab (sym_lookup (some "ATM") no_flags tab)
sym_lookup-Interned_example = sym_lookup-Interned "ATM" no_flags tab tab-IsFresh

abbrev values : ℕ → SymbolValue
values s =
    if s == 3
    then record { val = null; tri = tri_mod }
    else if s == 4
    then record { val = null; tri = tri_no }
    else record { val = text "-15"; tri = tri_no }

net_saved : CanSave tab tree 3 (values 3)
unfolding sym_find find_in hash constant_named sym_get_choice_prop
net_saved = record {
  name = "NET";
  named = refl;
  found = refl;
  spaceless = (refl, (refl, (refl, tt)));
  no_equals = (refl, (refl, (refl, tt)));
  boolean_ne = λ e h. cc;
  valid = λ h. cc;
  one_line = tt;
  no_return = refl;
  kind = refl;
  plain = refl;
  own_choice = λ t e. cc;
}

usb_saved : CanSave tab tree 4 (values 4)
unfolding sym_find find_in hash constant_named sym_get_choice_prop
usb_saved = record {
  name = "USB";
  named = refl;
  found = refl;
  spaceless = (refl, (refl, (refl, tt)));
  no_equals = (refl, (refl, (refl, tt)));
  boolean_ne = λ e h. cc;
  valid = λ h. cc;
  one_line = tt;
  no_return = refl;
  kind = refl;
  plain = refl;
  own_choice = λ t e. cc;
}

speed_saved : CanSave tab tree 7 (values 7)
unfolding sym_find find_in hash constant_named sym_get_choice_prop sym_string_valid all_chars
speed_saved = record {
  name = "SPEED";
  named = refl;
  found = refl;
  spaceless = (refl, (refl, (refl, (refl, (refl, tt)))));
  no_equals = (refl, (refl, (refl, (refl, (refl, tt)))));
  boolean_ne = λ e h. cc;
  valid = λ h. refl;
  one_line = (refl, (refl, (refl, tt)));
  no_return = refl;
  kind = refl;
  plain = refl;
  own_choice = λ t e. cc;
}

abbrev saved : List ℕ
saved = 3 ∷ (4 ∷ (7 ∷ []))

are_saved : AreSaved tab values tree saved
are_saved = (
  (net_saved, ((λ h. omega arith), ((λ h. omega arith), tt))),
  ((usb_saved, ((λ h. omega arith), tt)), ((speed_saved, tt), tt)),
)

are_lines : AreLines (symbol_lines values tree saved)
are_lines = (
  record {
    body = chars "MKR_NET=m";
    ends = refl;
    inside = (refl, (refl, (refl, (refl, (refl, (refl, (refl, (refl, (refl, tt)))))))));
    fits = omega arith;
  },
  (
    record {
      body = chars "# MKR_USB is not set";
      ends = refl;
      inside = (
        refl,
        (
          refl,
          (
            refl,
            (
              refl,
              (
                refl,
                (
                  refl,
                  (
                    refl,
                    (
                      refl,
                      (
                        refl,
                        (
                          refl,
                          (
                            refl,
                            (
                              refl,
                              (refl, (refl, (refl, (refl, (refl, (refl, (refl, (refl, tt)))))))),
                            ),
                          ),
                        ),
                      ),
                    ),
                  ),
                ),
              ),
            ),
          ),
        ),
      );
      fits = omega arith;
    },
    (
      record {
        body = chars "MKR_SPEED=-15";
        ends = refl;
        inside = (
          refl,
          (
            refl,
            (
              refl,
              (refl, (refl, (refl, (refl, (refl, (refl, (refl, (refl, (refl, (refl, tt)))))))))),
            ),
          ),
        );
        fits = omega arith;
      },
      tt,
    ),
  ),
)

load-AreRestored_example :
    AreRestored values tree
      (load tab (concat (symbol_lines values tree saved)) tree first_state).state
      saved
load-AreRestored_example = load-AreRestored tab values tree saved first_state are_saved are_lines
