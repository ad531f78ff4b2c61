-- ===== src/Procmon/Samples.antt =====
-- A process and its stat file, for the runs of the process monitor.
use linux_socket_test.Prelude.{
  ℕ, ◌-◌, ◌+◌, ◌*◌, ◌/◌, ◌^◌, List, [], ◌∷◌, ◌++◌, none, some, false, codes,
}
use linux_socket_test.Prelude.Int.{pos, negsuc}
use linux_socket_test.Prelude.Decimal.{show_nat}
use linux_socket_test.Procmon.Doubles.{Doubles}
use linux_socket_test.Procmon.Plot.{int}
use linux_socket_test.Procmon.Stat.{StatData, zeroed}
use linux_socket_test.Procmon.Lines.{stat_line}
use linux_socket_test.Procmon.Host
use linux_socket_test.Procmon.Host.{
  Host, Procmon, Tm, CpuTime, strip, behind, read_stat, read_proc_file,
}
use linux_socket_test.Procmon.Shown.{read_back}

-- Whole numbers in place of the floating-point ones.
abbrev pub whole : Doubles
whole = record {
  Double = ℕ;
  of_int = λ z. elim z [ pos n ↦ n | negsuc n ↦ 0 ];
  add = λ a b. a + b;
  sub = λ a b. a - b;
  mul = λ a b. a * b;
  div = λ a b. a / b;
  ceil = λ a. a;
  truncate = λ a. int (pos a);
  less = λ a b. false;
  format = λ n a. show_nat a;
}

-- A process 7 of the program "sh", whose stat file is `after` behind the name.
abbrev pub host : List ℕ → Host whole
host after = record {
  procname = λ text. some (codes "sh", b')' ∷ after);
  hostname = codes "host";
  clock_ticks_per_second = 100;
  page_size = 4096;
  read_file = λ name size. codes "7 (sh)" ++ after;
  load = λ name. name;
  readlink = λ name size. none;
  now = pos 5000000;
  time_difference = λ a b. 0;
  to_local_time = λ z. record {
    tm_year = pos 117;
    tm_mon = pos 10;
    tm_mday = pos 3;
    tm_hour = pos 9;
    tm_min = pos 8;
    tm_sec = pos 7;
  };
  render = λ text values. elim values [ [] ↦ text | (k, v) ∷ _ ↦ text ++ k ++ v ];
  font_width = 6;
  font_height = 13;
  png = λ draws. codes "p";
  junk_vsize = pos 0;
  junk_rss = pos 0;
}

abbrev pub stat_at : ℕ → ℕ → StatData
stat_at utime stime = record zeroed {
  state = b'S';
  ppid = pos 1;
  tpgid = negsuc 0;
  flags = pos 4194304;
  utime = pos utime;
  stime = pos stime;
  rsslim = pos (2 ^ 64 - 1);
}

abbrev pub line_at : ℕ → ℕ → List ℕ
line_at utime stime = stat_line (stat_at utime stime) (pos 8192) (pos 3) (codes "\n")

abbrev pub monitor : Procmon
monitor = Host.new whole (host (line_at 100 7)) (pos 7)

abbrev pub seen : ℕ → ℕ → StatData
seen utime stime = read_back (stat_at utime stime) (pos 8192) (pos 3) 4
