-- ===== src/Go/Files/Lines.antt =====
-- Reading back the lines of a text.
use elastic_agent_system_met.Base.{
  ◌<◌, List, [], ◌∷◌, ◌++◌, ◌≡◌, refl, ◌∙◌, ap, Bytes, length, none, All, arith,
}
use elastic_agent_system_met.Go.Strings.{split}
use elastic_agent_system_met.Go.Strings.Laws.{Free, split-append}
use elastic_agent_system_met.Go.Files.{scan, scan_from, Scanned, drop_cr, drop_last_empty}

-- Each line with its line feed.
abbrev pub unlines : List Bytes → Bytes
unlines [] = []
unlines (l ∷ ls) = l ++ (b'\n' ∷ unlines ls)

-- A line that the scanner delivers as it is.
pub record IsLine (l : Bytes) : Type 0 where
  pub no_lf : Free b'\n' l
  pub no_cr : Free b'\r' l
  pub fits : length l < 65536

split-unlines : (ls : List Bytes) → All IsLine ls → split b'\n' (unlines ls) ≡ ls ++ ([] ∷ [])
split-unlines [] h = unfold split in refl
split-unlines (l ∷ ls) (h, t) =
    split-append b'\n' l (unlines ls) h.no_lf ∙ ap (λ r. l ∷ r) (split-unlines ls t)

drop_last_empty-append : (ls : List Bytes) → drop_last_empty (ls ++ ([] ∷ [])) ≡ ls
unfolding drop_last_empty
drop_last_empty-append [] = refl
drop_last_empty-append ([] ∷ []) = refl
drop_last_empty-append ([] ∷ (m ∷ ls)) = ap (λ r. [] ∷ r) (drop_last_empty-append (m ∷ ls))
drop_last_empty-append ((c ∷ cs) ∷ ls) = ap (λ r. (c ∷ cs) ∷ r) (drop_last_empty-append ls)

drop_cr-plain : (l : Bytes) → Free b'\r' l → drop_cr l ≡ l
unfolding drop_cr
drop_cr-plain [] h = refl
drop_cr-plain (c ∷ []) (h, t) = rw h refl
drop_cr-plain (c ∷ d ∷ cs) (h, t) = ap (λ r. c ∷ r) (drop_cr-plain (d ∷ cs) t)

-- What the scanner delivers without a fault.
abbrev pub all_of : List Bytes → Scanned
all_of ls = record { lines = ls; fault = none }

scan_from-lines : (ls : List Bytes) → All IsLine ls → scan_from ls ≡ all_of ls
unfolding scan_from
scan_from-lines [] h = refl
scan_from-lines (l ∷ ls) (h, t) =
    ground (arith, scan_from-lines ls t, drop_cr-plain l h.no_cr, h.fits)

pub scan-unlines : (ls : List Bytes) → All IsLine ls → scan (unlines ls) ≡ all_of ls
unfolding scan
scan-unlines ls h = rw (split-unlines ls h, drop_last_empty-append ls) (scan_from-lines ls h)
