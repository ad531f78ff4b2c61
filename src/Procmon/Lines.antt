-- ===== src/Procmon/Lines.antt =====
-- procmon/procmon.cpp: what StatData::parse makes of a whole line.
use linux_socket_test.Prelude.{
  ℕ, ◌≡◌, refl, ap, ◌∙◌, List, [], ◌∷◌, true, false, if◌then◌else◌, is_space, Bool-cases, inl, inr,
}
use linux_socket_test.Prelude.Int.{ℤ, fits, limit, times, over, wrap}
use linux_socket_test.Prelude.Scan.{Stops}
use linux_socket_test.Procmon.Stat.{◌>>=◌, return, get_number, StatData, extract, parse}
use linux_socket_test.Procmon.StatLine.{
  stream, spaced, get_number-then, get_number-overflows, get_number-failed, get_char-then,
}

-- Numbers, each behind a blank, in front of more.
abbrev pub spaced_all : List ℤ → List ℕ → List ℕ
spaced_all [] more = more
spaced_all (z ∷ zs) more = spaced z (spaced_all zs more)

abbrev pub AllFit : ℕ → List ℤ → Type 0
AllFit w [] = Unit
AllFit w (z ∷ zs) = (fits w z ≡ true) × AllFit w zs

abbrev pub ids : StatData → List ℤ
ids d = d.ppid ∷ d.pgrp ∷ d.session ∷ d.tty_nr ∷ d.tpgid ∷ []

abbrev pub counters : StatData → ℤ → ℤ → List ℤ
counters d vsize rss =
    d.minflt ∷ d.cminflt ∷ d.majflt ∷ d.cmajflt ∷ d.utime ∷ d.stime ∷ d.cutime ∷ d.cstime
    ∷ d.priority ∷ d.nice ∷ d.num_threads ∷ d.itrealvalue ∷ d.starttime ∷ vsize ∷ rss ∷ []

-- What follows the name of the program in a stat file, as the kernel writes it.
abbrev pub stat_line : StatData → ℤ → ℤ → List ℕ → List ℕ
stat_line d vsize rss more =
    32
    ∷ d.state
    ∷ spaced_all (ids d) (spaced d.flags (spaced_all (counters d vsize rss) (spaced d.rsslim more)))

-- The number, or the end of the range that it is outside of.
abbrev pub clamp : ℕ → ℤ → ℤ
clamp w z = if fits w z then z else limit w z

get_number-last :
    (w : ℕ) (f : ℤ → StatData) (old z : ℤ) (more : List ℕ)
    → Stops more
    → ((get_number w old >>= λ x. return (f x)) (stream (spaced z more))).0 ≡ f (clamp w z)
get_number-last w f old z more stops = elim (Bool-cases (fits w z)) [
  | inl small ↦
      ap (λ r. r.0) (get_number-then (λ x. return (f x)) w old z more small stops) ∙ rw small refl
  | inr large ↦
      ap (λ r. r.0) (get_number-overflows (λ x. return (f x)) w old z more large stops)
      ∙ rw large refl
]

-- The members after the extractions of a line whose numbers fit.
extract-stat_line :
    (junk_vsize junk_rss : ℤ) (old d : StatData) (vsize rss : ℤ) (more : List ℕ)
    → is_space d.state ≡ false
    → AllFit 31 (ids d)
    → fits 31 d.flags ≡ true
    → AllFit 63 (counters d vsize rss)
    → Stops more
    → (extract junk_vsize junk_rss old (stream (stat_line d vsize rss more))).0
      ≡ record d { vsize_kb = vsize; rss_kb = rss; rsslim = clamp 63 d.rsslim }
unfolding extract
extract-stat_line junk_vsize junk_rss old d vsize rss more h (a1, (a2, (a3, (a4, (a5, _))))) a6
      (
        b1,
        (b2, (b3, (b4, (b5, (b6, (b7, (b8, (b9, (b10, (b11, (b12, (b13, (b14, (b15, _)))))))))))))),
      )
      stops =
    ap (λ r. r.0)
      (get_char-then _ old.state d.state _ h
        ∙ get_number-then _ 31 old.ppid d.ppid _ a1 refl
        ∙ get_number-then _ 31 old.pgrp d.pgrp _ a2 refl
        ∙ get_number-then _ 31 old.session d.session _ a3 refl
        ∙ get_number-then _ 31 old.tty_nr d.tty_nr _ a4 refl
        ∙ get_number-then _ 31 old.tpgid d.tpgid _ a5 refl
        ∙ get_number-then _ 31 old.flags d.flags _ a6 refl
        ∙ get_number-then _ 63 old.minflt d.minflt _ b1 refl
        ∙ get_number-then _ 63 old.cminflt d.cminflt _ b2 refl
        ∙ get_number-then _ 63 old.majflt d.majflt _ b3 refl
        ∙ get_number-then _ 63 old.cmajflt d.cmajflt _ b4 refl
        ∙ get_number-then _ 63 old.utime d.utime _ b5 refl
        ∙ get_number-then _ 63 old.stime d.stime _ b6 refl
        ∙ get_number-then _ 63 old.cutime d.cutime _ b7 refl
        ∙ get_number-then _ 63 old.cstime d.cstime _ b8 refl
        ∙ get_number-then _ 63 old.priority d.priority _ b9 refl
        ∙ get_number-then _ 63 old.nice d.nice _ b10 refl
        ∙ get_number-then _ 63 old.num_threads d.num_threads _ b11 refl
        ∙ get_number-then _ 63 old.itrealvalue d.itrealvalue _ b12 refl
        ∙ get_number-then _ 63 old.starttime d.starttime _ b13 refl
        ∙ get_number-then _ 63 junk_vsize vsize _ b14 refl
        ∙ get_number-then _ 63 junk_rss rss _ b15 refl)
    ∙ get_number-last 63 _ old.rsslim d.rsslim more stops

-- The members after a line whose flags do not fit: what follows them is not read.
extract-flags_overflow :
    (junk_vsize junk_rss : ℤ) (old d : StatData) (vsize rss : ℤ) (more : List ℕ)
    → is_space d.state ≡ false
    → AllFit 31 (ids d)
    → fits 31 d.flags ≡ false
    → (extract junk_vsize junk_rss old (stream (stat_line d vsize rss more))).0 ≡ record old {
      state = d.state;
      ppid = d.ppid;
      pgrp = d.pgrp;
      session = d.session;
      tty_nr = d.tty_nr;
      tpgid = d.tpgid;
      flags = limit 31 d.flags;
      vsize_kb = junk_vsize;
      rss_kb = junk_rss;
    }
unfolding extract
extract-flags_overflow junk_vsize junk_rss old d vsize rss more h (a1, (a2, (a3, (a4, (a5, _)))))
      large =
    ap (λ r. r.0)
      (get_char-then _ old.state d.state _ h
        ∙ get_number-then _ 31 old.ppid d.ppid _ a1 refl
        ∙ get_number-then _ 31 old.pgrp d.pgrp _ a2 refl
        ∙ get_number-then _ 31 old.session d.session _ a3 refl
        ∙ get_number-then _ 31 old.tty_nr d.tty_nr _ a4 refl
        ∙ get_number-then _ 31 old.tpgid d.tpgid _ a5 refl
        ∙ get_number-overflows _ 31 old.flags d.flags _ large refl
        ∙ get_number-failed _ 63 old.minflt _
        ∙ get_number-failed _ 63 old.cminflt _
        ∙ get_number-failed _ 63 old.majflt _
        ∙ get_number-failed _ 63 old.cmajflt _
        ∙ get_number-failed _ 63 old.utime _
        ∙ get_number-failed _ 63 old.stime _
        ∙ get_number-failed _ 63 old.cutime _
        ∙ get_number-failed _ 63 old.cstime _
        ∙ get_number-failed _ 63 old.priority _
        ∙ get_number-failed _ 63 old.nice _
        ∙ get_number-failed _ 63 old.num_threads _
        ∙ get_number-failed _ 63 old.itrealvalue _
        ∙ get_number-failed _ 63 old.starttime _
        ∙ get_number-failed _ 63 junk_vsize _
        ∙ get_number-failed _ 63 junk_rss _
        ∙ get_number-failed _ 63 old.rsslim _)

-- A line as the kernel writes it, with numbers in the ranges of their types, is read back: every
-- member has its number, the size of the memory is in kilobytes, that of the resident set is its pages
-- times `kb_per_page`, and a limit that no `long` has is the largest `long`.
pub parse-stat_line :
    (junk_vsize junk_rss : ℤ) (kb_per_page : ℕ) (old d : StatData) (vsize rss : ℤ) (more : List ℕ)
    → is_space d.state ≡ false
    → AllFit 31 (ids d)
    → fits 31 d.flags ≡ true
    → AllFit 63 (counters d vsize rss)
    → Stops more
    → parse junk_vsize junk_rss kb_per_page (stat_line d vsize rss more) old ≡ record d {
      vsize_kb = over vsize 1024;
      rss_kb = wrap 64 (times rss kb_per_page);
      rsslim = clamp 63 d.rsslim;
    }
unfolding parse
parse-stat_line junk_vsize junk_rss kb_per_page old d vsize rss more h a a6 b stops =
    rw (extract-stat_line junk_vsize junk_rss old d vsize rss more h a a6 b stops) refl

-- A line with flags that no `int` has is read up to the flags only: the members behind them keep what
-- they held, and the two sizes of memory are computed from variables that were never assigned.
pub parse-flags_overflow :
    (junk_vsize junk_rss : ℤ) (kb_per_page : ℕ) (old d : StatData) (vsize rss : ℤ) (more : List ℕ)
    → is_space d.state ≡ false
    → AllFit 31 (ids d)
    → fits 31 d.flags ≡ false
    → parse junk_vsize junk_rss kb_per_page (stat_line d vsize rss more) old ≡ record old {
      state = d.state;
      ppid = d.ppid;
      pgrp = d.pgrp;
      session = d.session;
      tty_nr = d.tty_nr;
      tpgid = d.tpgid;
      flags = limit 31 d.flags;
      vsize_kb = over junk_vsize 1024;
      rss_kb = wrap 64 (times junk_rss kb_per_page);
    }
unfolding parse
parse-flags_overflow junk_vsize junk_rss kb_per_page old d vsize rss more h a large =
    rw (extract-flags_overflow junk_vsize junk_rss old d vsize rss more h a large) refl
