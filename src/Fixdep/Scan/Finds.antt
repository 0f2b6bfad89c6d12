-- ===== src/Fixdep/Scan/Finds.antt =====
-- build-tools/basic/fixdep.c: which words `parse_config_file` finds.
use mkrootfs.Base.{
  ℕ, zero, suc, ◌+◌, ◌≤◌, ◌≡◌, refl, ap, inl, inr, false, some, arith, Option-cases, Bytes,
}
use mkrootfs.Fixdep.{Fix, ok}
use mkrootfs.Fixdep.Scan.{
  byte, conf_start, is_prefix, conf_found, scan_at, scan_from, parse_config_file,
}

-- A place that `conf_start` gives never passes the comparison: the word there has an O, N or F where
-- the prefix has a K, R or underscore.
conf_start-not_prefix :
    (tail : ℕ × ℕ) (file : Bytes) (m p : ℕ)
    → 4 ≤ m
    → conf_start file m ≡ some p
    → is_prefix tail file p ≡ false
conf_start-not_prefix tail file m p h e = ground (
  arith,
  λ (k : p + 1 ≡ m). ap (byte file) k,
  λ (k : p + 2 ≡ m). ap (byte file) k,
  λ (k : p + 3 ≡ m). ap (byte file) k,
)

scan_at-same :
    (tail : ℕ × ℕ) (file : Bytes) (m : ℕ) (st : Fix) → 4 ≤ m → scan_at tail file m st ≡ some (ok st)
unfolding scan_at
scan_at-same tail file m st h = elim (Option-cases (conf_start file m)) [
  | inl e ↦ rw (e, scan_at)
  | inr (p, e) ↦ rw (e, scan_at) (skipped p (conf_start-not_prefix tail file m p h e))
]
  where
    skipped : (p : ℕ) → is_prefix tail file p ≡ false → conf_found tail file p st ≡ some (ok st)
    skipped p k = ground arith

scan_from-same :
    (tail : ℕ × ℕ) (file : Bytes) (k m : ℕ) (st : Fix)
    → 4 ≤ m
    → scan_from tail file k m st ≡ some (ok st)
unfolding scan_from
scan_from-same tail file zero m st h = refl
scan_from-same tail file (suc k) m st h =
    rw (scan_at-same tail file m st h) (scan_from-same tail file k (m + 4) st (omega arith))

-- Whatever a file holds, and whatever bytes stand behind the literal in memory, `parse_config_file`
-- uses no word and prints nothing: the text `MKR_` never stands where `CONF` was found.
pub parse_config_file-same :
    (tail : ℕ × ℕ) (file : Bytes) (st : Fix) → parse_config_file tail file st ≡ some (ok st)
unfolding parse_config_file
parse_config_file-same tail file st = scan_from-same tail file _ 4 st (omega arith)
