-- ===== src/Samples/GstrRuns.antt =====
-- Growing a string.
use mkrootfs.Base.{Bytes, List, [], ◌∷◌, codes, Returns}
use mkrootfs.Gstr.{str_new, append_all}
use mkrootfs.Gstr.Room.{Holds, concat, append_all-Holds_new}

abbrev help_text : List Bytes
help_text =
    codes "Symbol: NET [=m]\n"
    ∷ (codes "Type  : tristate\n"
        ∷ (codes "Prompt: Network support for all boards and targets\n" ∷ []))

append_all-Holds_new_example : Returns (Holds (concat help_text)) (append_all help_text str_new)
append_all-Holds_new_example = append_all-Holds_new help_text
