-- ===== src/Procmon/Shown.antt =====
-- procmon/procmon.cpp: what the page about the process shows.
use linux_socket_test.Prelude.{
  ℕ, ◌+◌, ◌*◌, ◌^◌, ◌<◌, ◌≡◌, refl, ap, sym, ◌∙◌, List, [], ◌∷◌, ◌++◌, none, some, true, false,
  codes, is_space, arith,
}
use linux_socket_test.Prelude.Int.{ℤ, pos, negsuc, fits, times, over, wrap}
use linux_socket_test.Prelude.Scan.{atoi, show_int, Stops, atoi-show_int, atol-show_int}
use linux_socket_test.Procmon.Doubles.{Doubles}
use linux_socket_test.Procmon.Stat.{StatData, zeroed}
use linux_socket_test.Procmon.StatLine.{show_int-cons}
use linux_socket_test.Procmon.Lines.{AllFit, ids, counters, stat_line, clamp, parse-stat_line}
use linux_socket_test.Procmon.Host.{
  Host, Procmon, read_proc_file, read_stat, strip, behind, get_long,
}
use linux_socket_test.Procmon.Values.{Refresh, StateName, start_of, shown, values-shown}
use linux_socket_test.Procmon.Overview.{fill_over_fiew, values, same}

same_refl : (z : ℤ) → same z z ≡ true
same_refl (pos n) = ground arith
same_refl (negsuc n) = ground arith

-- The members that `parse` reads from a line.
abbrev pub read_back : StatData → ℤ → ℤ → ℕ → StatData
read_back st vsize rss kb = record st {
  vsize_kb = over vsize 1024;
  rss_kb = wrap 64 (times rss kb);
  rsslim = clamp 63 st.rsslim;
}

module _ (d : Doubles) (h : Host d) where
  fill_over_fiew-stat :
      (p : Procmon) (query text : List ℕ) (c : ℕ) (cs : List ℕ) (st : StatData)
      → read_proc_file d h p.pid (codes "stat") ≡ text
      → text ≡ c ∷ cs
      → atoi text ≡ p.pid
      → read_stat d h p.kb_per_page text ≡ some st
      → fill_over_fiew d h p query
        ≡ some (h.render (h.load (codes "procmondocs/procmon.html")) (values d h p query st))
  unfolding fill_over_fiew
  fill_over_fiew-stat p query text c cs st e cons number state =
      let pid : atoi (c ∷ cs) ≡ p.pid = ap atoi (sym cons) ∙ number in
      let read : read_stat d h p.kb_per_page (c ∷ cs) ≡ some st =
        ap (read_stat d h p.kb_per_page) (sym cons) ∙ state in
      rw (e ∙ cons, fill_over_fiew) (rw pid (rw (same_refl p.pid) (rw read refl)))

  -- Where the stat file has the number of the process, its name and a line as the kernel writes it,
  -- with numbers in the ranges of their types, the overview is the page procmon.html with the values
  -- of the numbers in that line, under their names: the state in words, the seconds of the user and of
  -- the system time, the sizes in kilobytes, the start as the boot time and the ticks behind it, where
  -- their microseconds fit 63 bits, and first the refresh that the query asks for, if it does; no
  -- assertion fails.
  pub fill_over_fiew_shows :
      (p : Procmon) (query name rest : List ℕ) (st : StatData) (vsize rss : ℤ) (more : List ℕ)
      (asks : List (List ℕ × List ℕ)) (state : List ℕ) (boot ticks : ℕ)
      → fits 31 p.pid ≡ true
      → read_proc_file d h p.pid (codes "stat") ≡ show_int p.pid ++ 32 ∷ rest
      → h.procname (show_int p.pid ++ 32 ∷ rest) ≡ some (name, b')' ∷ stat_line st vsize rss more)
      → is_space st.state ≡ false
      → AllFit 31 (ids st)
      → fits 31 st.flags ≡ true
      → AllFit 63 (counters st vsize rss)
      → Stops more
      → Refresh query asks
      → StateName st.state state
      → p.kboot_time ≡ pos boot
      → st.starttime ≡ pos ticks
      → 0 < p.kclock_ticks_per_second
      → boot * 1000000 + ticks * 1000000 < 2 ^ 63
      → fill_over_fiew d h p query
        ≡ some (
            h.render
              (h.load (codes "procmondocs/procmon.html"))
              (shown d h p asks state (start_of p.kclock_ticks_per_second boot ticks) st vsize rss))
  unfolding read_stat
  fill_over_fiew_shows p query name rest st vsize rss more asks state boot ticks small file found
        blank a flags b stops query_asks in_words booted started positive early =
      let (c, cs, cons) = show_int-cons p.pid (32 ∷ rest) in
      let line =
        parse-stat_line h.junk_vsize h.junk_rss p.kb_per_page zeroed st vsize rss more blank a flags
          b stops in
      fill_over_fiew-stat p query (show_int p.pid ++ 32 ∷ rest) c cs
        (read_back st vsize rss p.kb_per_page) file cons
        (atoi-show_int p.pid (32 ∷ rest) small refl) (rw (found, read_stat) (ap some line))
      ∙ ap (λ vs. some (h.render (h.load (codes "procmondocs/procmon.html")) vs))
          (values-shown d h p query asks state boot ticks st vsize rss query_asks in_words booted
            started positive early)

-- A key is found nowhere in front of `text` before the end of `pre`.
abbrev pub Misses : List ℕ → List ℕ → List ℕ → Type 0
Misses key [] text = Unit
Misses key (c ∷ pre) text = (strip key (c ∷ pre ++ text) ≡ none) × Misses key pre text

strip-append : (key rest : List ℕ) → strip key (key ++ rest) ≡ some rest
unfolding strip
strip-append [] rest = refl
strip-append (k ∷ ks) rest = ground (arith, strip-append ks rest)

behind_here : (key text rest : List ℕ) → strip key text ≡ some rest → behind key text ≡ some rest
unfolding behind
behind_here key [] rest h = h
behind_here key (c ∷ cs) rest h = rw (h, behind) refl

behind-append :
    (key pre rest : List ℕ)
    → Misses key pre (key ++ rest)
    → behind key (pre ++ (key ++ rest)) ≡ some rest
unfolding behind
behind-append key [] rest h = behind_here key (key ++ rest) rest (strip-append key rest)
behind-append key (c ∷ pre) rest h = rw (h.0, behind) (behind-append key pre rest h.1)

-- The number behind the first place of the key.
pub get_long-behind :
    (key pre : List ℕ) (z : ℤ) (rest : List ℕ)
    → fits 63 z ≡ true
    → Stops rest
    → Misses key pre (key ++ (show_int z ++ rest))
    → get_long (pre ++ (key ++ (show_int z ++ rest))) key ≡ z
unfolding get_long
get_long-behind key pre z rest small stops h =
    rw (behind-append key pre (show_int z ++ rest) h, get_long) (atol-show_int z rest small stops)
