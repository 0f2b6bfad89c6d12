-- ===== src/Samples/FixdepRuns.antt =====
-- The dependency fixer on a small list of dependencies.
use mkrootfs.Base.{◌≡◌, refl, some, List, [], ◌∷◌, ◌++◌, ◌>>=◌, Returns, arith, Bytes, codes}
use mkrootfs.Fixdep.{ok, clear_config}
use mkrootfs.Fixdep.Once.{use_all, AllUsed, clear_config-AllUsed}
use mkrootfs.Fixdep.Scan.{parse_config_file}
use mkrootfs.Fixdep.Scan.Finds.{parse_config_file-same}
use mkrootfs.Fixdep.Deps.{FileRead, content, parse_dep_file, start}
use mkrootfs.Fixdep.Deps.Names.{Entry, render_deps, IsLastName}
use mkrootfs.Fixdep.Deps.Prints.{Printed, dep_lines, parse_dep_file-Printed}

abbrev words : List Bytes
words = codes "NET" ∷ (codes "USB_HID" ∷ (codes "NET" ∷ []))

clear_config-AllUsed_example : Returns (AllUsed [] words []) (clear_config start >>= use_all words)
clear_config-AllUsed_example = clear_config-AllUsed words start (
  ((refl, (refl, (refl, tt))), omega arith),
  (
    ((refl, (refl, (refl, (refl, (refl, (refl, (refl, tt))))))), omega arith),
    (((refl, (refl, (refl, tt))), omega arith), tt),
  ),
)

abbrev source_file : Bytes
source_file = codes "#ifdef MKR_CONFIG_NET\n#endif\n"

parse_config_file-same_example : parse_config_file (0, 0) source_file start ≡ some (ok start)
parse_config_file-same_example = parse_config_file-same (0, 0) source_file start

abbrev texts : Bytes → FileRead
texts s = content source_file

abbrev entries : List Entry
entries = (record { name = codes "a.c"; blanks = codes "\\\n  " }) ∷ []

abbrev last_name : Bytes
last_name = codes "b.h"

last_name-IsLastName : IsLastName last_name
last_name-IsLastName = record {
  name = record {
    head = _;
    rest = _;
    splits = refl;
    starts = refl;
    spaceless = (refl, (refl, (refl, tt)));
    short = omega arith;
  };
  front = codes "b.";
  end = 104;
  ends = refl;
  alnum = refl;
}

parse_dep_file-Printed_example :
    Returns (Printed (codes "a.o") (dep_lines entries last_name) start) (
      parse_dep_file texts
        (0, 0)
        (codes "a.o")
        (codes "a.o" ++ (58 ∷ (codes " " ++ render_deps entries last_name)))
        start)
parse_dep_file-Printed_example =
    parse_dep_file-Printed texts (0, 0) (λ s h. cc) (codes "a.o") (codes "a.o") (codes " ")
      last_name entries start (refl, (refl, (refl, tt))) (omega arith) (refl, tt)
      (
        (
          record {
            head = _;
            rest = _;
            splits = refl;
            starts = refl;
            spaceless = (refl, (refl, (refl, tt)));
            short = omega arith;
          },
          (refl, (refl, (refl, (refl, tt)))),
        ),
        tt,
      )
      last_name-IsLastName
