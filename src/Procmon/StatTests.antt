-- ===== src/Procmon/StatTests.antt =====
-- Runs of the process monitor on stat files, and its theorems about them.
use linux_socket_test.Prelude.{◌-◌, ◌^◌, ◌≡◌, refl, arith, [], ◌∷◌, ◌++◌, some, codes}
use linux_socket_test.Prelude.Int.{pos, negsuc, over, wrap, times}
use linux_socket_test.Prelude.Decimal.{show_nat, show_digits}
use linux_socket_test.Prelude.Scan.{show_int, scan_digits, scan_int, skip_spaces, atol}
use linux_socket_test.Procmon.Stat.{StatData, zeroed, parse}
use linux_socket_test.Procmon.Lines.{stat_line, clamp, parse-stat_line, parse-flags_overflow}
use linux_socket_test.Procmon.Host
use linux_socket_test.Procmon.Host.{
  Host, Procmon, Tm, CpuTime, strip, behind, get_long, read_proc_file,
}
use linux_socket_test.Procmon.Overview.{get_state, fill_over_fiew, refresh}
use linux_socket_test.Procmon.Values.{asked, sleeping, shown}
use linux_socket_test.Procmon.Shown.{fill_over_fiew_shows}
use linux_socket_test.Procmon.Samples.{whole, host, stat_at, line_at, monitor}

parse-stat_line_example : parse (pos 5) (pos 5) 4 (line_at 100 7) zeroed ≡ record (stat_at 100 7) {
  vsize_kb = over (pos 8192) 1024;
  rss_kb = wrap 64 (times (pos 3) 4);
  rsslim = clamp 63 (pos (2 ^ 64 - 1));
}
parse-stat_line_example =
    parse-stat_line (pos 5) (pos 5) 4 zeroed (stat_at 100 7) (pos 8192) (pos 3) (codes "\n") refl
      (refl, (refl, (refl, (refl, (refl, tt))))) refl
      (
        refl,
        (
          refl,
          (
            refl,
            (
              refl,
              (
                refl,
                (refl, (refl, (refl, (refl, (refl, (refl, (refl, (refl, (refl, (refl, tt)))))))))),
              ),
            ),
          ),
        ),
      )
      refl

-- The flags of a process that may be frozen have the highest bit of 32.
abbrev frozen : StatData
frozen = record (stat_at 100 7) { flags = pos (2 ^ 31) }

parse-flags_overflow_example :
    parse (pos 2048) (pos 5) 4 (stat_line frozen (pos 8192) (pos 3) (codes "\n")) zeroed
    ≡ record zeroed {
      state = b'S';
      ppid = pos 1;
      pgrp = pos 0;
      session = pos 0;
      tty_nr = pos 0;
      tpgid = negsuc 0;
      flags = pos (2 ^ 31 - 1);
      vsize_kb = over (pos 2048) 1024;
      rss_kb = wrap 64 (times (pos 5) 4);
    }
parse-flags_overflow_example =
    parse-flags_overflow (pos 2048) (pos 5) 4 zeroed frozen (pos 8192) (pos 3) (codes "\n") refl
      (refl, (refl, (refl, (refl, (refl, tt))))) refl

running : get_state b'R' ≡ codes "Running"
unfolding get_state
running = refl

refreshed : refresh (codes "?refresh=12&x") ≡ (codes "refresh", codes "12") ∷ []
unfolding refresh behind strip atol scan_int scan_digits skip_spaces show_int show_nat show_digits
refreshed = refl

-- The search finds the key inside another one.
refreshed_inside : refresh (codes "?norefresh=5") ≡ (codes "refresh", codes "5") ∷ []
unfolding refresh behind strip atol scan_int scan_digits skip_spaces show_int show_nat show_digits
refreshed_inside = refl

stat_file :
    read_proc_file whole (host (line_at 100 7)) (pos 7) (codes "stat")
    ≡ show_int (pos 7) ++ 32 ∷ (codes "(sh)" ++ line_at 100 7)
unfolding show_int show_nat show_digits
stat_file = refl

fill_over_fiew_shows_example :
    fill_over_fiew whole (host (line_at 100 7)) monitor (codes "?refresh=5")
    ≡ some (
        (host (line_at 100 7)).render (codes "procmondocs/procmon.html") (
          shown whole
            (host (line_at 100 7))
            monitor
            ((codes "refresh", codes "5") ∷ [])
            (codes "Sleeping")
            0
            (stat_at 100 7)
            (pos 8192)
            (pos 3)))
unfolding Host.new Host.get_boot_time get_long behind strip show_int show_nat show_digits
fill_over_fiew_shows_example =
    fill_over_fiew_shows whole (host (line_at 100 7)) monitor (codes "?refresh=5") (codes "sh")
      (codes "(sh)" ++ line_at 100 7) (stat_at 100 7) (pos 8192) (pos 3) (codes "\n")
      ((codes "refresh", codes "5") ∷ []) (codes "Sleeping") 0 0 refl stat_file refl refl
      (refl, (refl, (refl, (refl, (refl, tt))))) refl
      (
        refl,
        (
          refl,
          (
            refl,
            (
              refl,
              (
                refl,
                (refl, (refl, (refl, (refl, (refl, (refl, (refl, (refl, (refl, (refl, tt)))))))))),
              ),
            ),
          ),
        ),
      )
      refl (asked (codes "?") 5 [] (omega arith) refl tt (refl, tt)) sleeping refl refl
      (omega arith) (omega arith)
