-- ===== src/Process/Laws/Comm.antt =====
-- The name of a process, which may itself hold parentheses.
use elastic_agent_system_met.Base.{
  ℕ, suc, All, subst, ◌≤◌, ◌<◌, ◌^◌, List, [], ◌∷◌, ◌++◌, ◌≡◌, refl, sym, ◌∙◌, ap, ◌≢◌, Bytes,
  length, length-append, take, drop, none, some, ok, arith,
}
use mathlib.Core.List.{append_assoc, append-nil}
use elastic_agent_system_met.Base.Int.{ℤ, pos}
use elastic_agent_system_met.Go.Strings.{fields, join, is_space}
use elastic_agent_system_met.Go.Strings.Laws.{Free}
use elastic_agent_system_met.Go.Slices.{slice, slice_from}
use elastic_agent_system_met.Go.Strings.Words.{AllWord, fields-AllWord}
use elastic_agent_system_met.Go.Numbers.Prefixed.{scan_value}
use elastic_agent_system_met.Go.Numbers.PrefixedLaws.{
  NoLeadingZero, scan_value-Decimal, scan_value-blank, scan_word-word,
}
use elastic_agent_system_met.Go.Numbers.Decimal.{Decimal}
use elastic_agent_system_met.Process.Types.{Deps, with_ids}
use elastic_agent_system_met.Process.Info.{
  index_of, last_index_of, extract_comm, get_proc_state, scan_ids, read_ids, info_of_stat,
}

index_of-append : (b : ℕ) (s t : Bytes) → Free b s → index_of b (s ++ (b ∷ t)) ≡ some (length s)
unfolding index_of
index_of-append b [] t h = ground arith
index_of-append b (c ∷ cs) t (h, hs) = ground (arith, index_of-append b cs t hs)

last_index_of-Free : (b : ℕ) (s : Bytes) → Free b s → last_index_of b s ≡ none
unfolding last_index_of
last_index_of-Free b [] h = refl
last_index_of-Free b (c ∷ cs) (h, hs) = ground (arith, last_index_of-Free b cs hs)

last_index_of-append :
    (b : ℕ) (s t : Bytes) → Free b t → last_index_of b (s ++ (b ∷ t)) ≡ some (length s)
unfolding last_index_of
last_index_of-append b [] t h = ground (arith, last_index_of-Free b t h)
last_index_of-append b (c ∷ cs) t h = rw (last_index_of-append b cs t h) refl

drop_after : (s : Bytes) (b : ℕ) (t : Bytes) → drop (suc (length s)) (s ++ (b ∷ t)) ≡ t
drop_after [] b t = refl
drop_after (c ∷ cs) b t = drop_after cs b t

drop_after_two :
    (s : Bytes) (a b : ℕ) (t : Bytes) → drop (suc (suc (length s))) (s ++ (a ∷ b ∷ t)) ≡ t
drop_after_two [] a b t = refl
drop_after_two (c ∷ cs) a b t = drop_after_two cs a b t

take_before : (s t : Bytes) → take (length s) (s ++ t) ≡ s
take_before [] t = refl
take_before (c ∷ cs) t = ap (λ r. c ∷ r) (take_before cs t)

-- `before (name) rest`
abbrev pub stat_text : Bytes → Bytes → Bytes → Bytes
stat_text before name rest = before ++ (b'(' ∷ (name ++ (b')' ∷ b' ' ∷ rest)))

stat_text-last :
    (before name rest : Bytes)
    → stat_text before name rest ≡ (before ++ (b'(' ∷ name)) ++ (b')' ∷ b' ' ∷ rest)
stat_text-last before name rest = sym (append_assoc before (b'(' ∷ name) (b')' ∷ b' ' ∷ rest))

extract_comm-named :
    (before name rest : Bytes)
    → rest ≢ []
    → extract_comm
        (stat_text before name rest)
        (some (length before))
        (some (length (before ++ (b'(' ∷ name))))
      ≡ ok (name, rest)
unfolding extract_comm slice slice_from
extract_comm-named before name [] n = absurd (n refl)
extract_comm-named before name (c ∷ rest) n =
    let first = drop_after before b'(' (name ++ (b')' ∷ b' ' ∷ c ∷ rest)) in
    let last = drop_after_two (before ++ (b'(' ∷ name)) b')' b' ' (c ∷ rest) in
    let all = ap (λ x. length x) (stat_text-last before name (c ∷ rest)) in
    let behind =
      ap (λ x. drop (suc (suc (length (before ++ (b'(' ∷ name))))) x)
        (stat_text-last before name (c ∷ rest)) in
    ground (
      arith,
      first,
      last,
      all,
      behind,
      take_before name (b')' ∷ b' ' ∷ c ∷ rest),
      length-append before (b'(' ∷ name),
      length-append (before ++ (b'(' ∷ name)) (b')' ∷ b' ' ∷ c ∷ rest),
    )

module _ (d : Deps) where
  read_ids-fields :
      (pid : ℤ) (name : Bytes) (c : ℕ) (cs ppid pgrp : Bytes) (more : List Bytes) {p g : ℕ}
      → AllWord is_space (c ∷ cs)
      → Decimal ppid p
      → NoLeadingZero ppid
      → p < 2 ^ 63
      → Decimal pgrp g
      → NoLeadingZero pgrp
      → g < 2 ^ 63
      → 34 ≤ length more
      → read_ids d pid name ((c ∷ cs) ∷ ppid ∷ pgrp ∷ more)
        ≡ ok (
            with_ids d name
              (get_proc_state c)
              (d.i.int_with pid)
              (d.i.int_with (pos p))
              (d.i.int_with (pos g)))
  unfolding read_ids scan_ids join
  read_ids-fields pid name c cs ppid pgrp more w dp zp bp dg zg bg n =
      let state = scan_word-word c cs (b' ' ∷ (ppid ++ (b' ' ∷ pgrp))) w refl in
      let parent =
        scan_value-blank (ppid ++ (b' ' ∷ pgrp))
        ∙ scan_value-Decimal ppid (b' ' ∷ pgrp) dp zp bp refl in
      let group =
        scan_value-blank pgrp
        ∙ ap (λ x. scan_value x) (sym (append-nil pgrp))
        ∙ scan_value-Decimal pgrp [] dg zg bg tt in
      ground (arith, state, parent, group)

  no_fields :
      (c : ℕ) (cs ppid pgrp : Bytes) (more : List Bytes)
      → fields [] ≡ (c ∷ cs) ∷ ppid ∷ pgrp ∷ more
      → ⊥
  unfolding fields
  no_fields c cs ppid pgrp more h = ground arith

  -- A stat text is read back: the name is what stands between the first `(` and the last `)`, even if
  -- it has parentheses and blanks itself. Its parts are some text with no `(`, the name, and a rest
  -- with no `)`, whose fields are a state, two decimal numerals that fit an int and have no leading
  -- zero, which `fmt.Fscan` would read as octal, and at least 34 more.
  pub info_of_stat-text :
      (pid : ℤ) (before name rest : Bytes) (c : ℕ) (cs ppid pgrp : Bytes) (more : List Bytes)
      {p g : ℕ}
      → Free b'(' before
      → Free b')' rest
      → fields rest ≡ (c ∷ cs) ∷ ppid ∷ pgrp ∷ more
      → Decimal ppid p
      → NoLeadingZero ppid
      → p < 2 ^ 63
      → Decimal pgrp g
      → NoLeadingZero pgrp
      → g < 2 ^ 63
      → 34 ≤ length more
      → info_of_stat d pid (stat_text before name rest)
        ≡ ok (
            with_ids d name
              (get_proc_state c)
              (d.i.int_with pid)
              (d.i.int_with (pos p))
              (d.i.int_with (pos g)))
  unfolding info_of_stat
  info_of_stat-text pid before name rest c cs ppid pgrp more fb fr e dp zp bp dg zg bg n =
      let first = index_of-append b'(' before (name ++ (b')' ∷ b' ' ∷ rest)) fb in
      let last =
        ap (λ x. last_index_of b')' x) (stat_text-last before name rest)
        ∙ last_index_of-append b')' (before ++ (b'(' ∷ name)) (b' ' ∷ rest) (refl, fr) in
      let some_rest : rest ≢ [] =
        λ k. no_fields c cs ppid pgrp more (ap (λ x. fields x) (sym k) ∙ e) in
      let word = (subst (λ ws. All (AllWord is_space) ws) e (fields-AllWord rest)).0 in
      rw (first, last, extract_comm-named before name rest some_rest, e)
        (read_ids-fields pid name c cs ppid pgrp more word dp zp bp dg zg bg n)
