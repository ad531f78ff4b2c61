-- ===== src/Procmon/Host.antt =====
-- procmon/procmon.cpp: what the monitor asks the system and its libraries for, and the members of
-- class Procmon with the functions that read files.
use linux_socket_test.Prelude.{
  ℕ, ◌*◌, ◌/◌, List, [], ◌∷◌, ◌++◌, Option, none, some, ◌==◌, if◌then◌else◌, codes, take,
}
use linux_socket_test.Prelude.Int.{ℤ, pos}
use linux_socket_test.Prelude.Scan.{atol, show_int}
use linux_socket_test.Procmon.Doubles.{Doubles}
use linux_socket_test.Procmon.Plot.{Plot, Draw}
use linux_socket_test.Procmon.Stat.{StatData, zeroed, parse}

-- `kperiod_`, in seconds, and the capacity of `cpu_usage_`.
abbrev pub period : ℕ
period = 2

abbrev pub capacity : ℕ
capacity = 600 / period

-- `struct tm`.
pub record Tm : Type 0 where
  pub tm_year : ℤ
  pub tm_mon : ℤ
  pub tm_mday : ℤ
  pub tm_hour : ℤ
  pub tm_min : ℤ
  pub tm_sec : ℤ

-- The system and the libraries at the time of a call: `ProcessInfo::procname` with what stands behind
-- the name in its argument, files with the size that is read at most, links, the clock in microseconds,
-- local times, the template engine, the size of a font and the image that drawing gives, and what the locals `vsize` and `rss` of
-- `parse` hold before they are assigned.
pub record Host (d : Doubles) : Type 0 where
  pub procname : List ℕ → Option (List ℕ × List ℕ)
  pub hostname : List ℕ
  pub clock_ticks_per_second : ℕ
  pub page_size : ℕ
  pub read_file : List ℕ → ℕ → List ℕ
  pub load : List ℕ → List ℕ
  pub readlink : List ℕ → ℕ → Option (List ℕ)
  pub now : ℤ
  pub time_difference : ℤ → ℤ → d.Double
  pub to_local_time : ℤ → Tm
  pub render : List ℕ → List (List ℕ × List ℕ) → List ℕ
  pub font_width : ℕ
  pub font_height : ℕ
  pub png : List Draw → List ℕ
  pub junk_vsize : ℤ
  pub junk_rss : ℤ

pub record CpuTime : Type 0 where
  pub user_time : ℕ
  pub sys_time : ℕ

-- The members of class Procmon, without the time zone; `cpu_chart_` is the function `cpu_chart`.
pub record Procmon : Type 0 where
  pub kclock_ticks_per_second : ℕ
  pub kb_per_page : ℕ
  pub kboot_time : ℤ
  pub pid : ℤ
  pub procname : List ℕ
  pub hostname : List ℕ
  pub cmd_line : List ℕ
  pub last_stat_data : StatData
  pub ticks : ℕ
  pub cpu_usage : List CpuTime

-- `boost::replace_all_copy` of the zero bytes.
unfoldable pub replace_zeros : List ℕ → List ℕ → List ℕ
replace_zeros by [] = []
replace_zeros by (x ∷ xs) =
    let rest = replace_zeros by xs in if x == 0 then by ++ rest else x ∷ rest

-- What follows a prefix.
unfoldable pub strip : List ℕ → List ℕ → Option (List ℕ)
strip [] s = some s
strip (k ∷ ks) [] = none
strip (k ∷ ks) (c ∷ cs) = let rest = strip ks cs in if k == c then rest else none

-- What follows the first place where `find` finds a key.
unfoldable pub behind : List ℕ → List ℕ → Option (List ℕ)
behind key [] = strip key []
behind key (c ∷ cs) =
    let later = behind key cs in elim (strip key (c ∷ cs)) [ some rest ↦ some rest | none ↦ later ]

-- `get_long`.
unfoldable pub get_long : List ℕ → List ℕ → ℤ
get_long status key = elim (behind key status) [ none ↦ pos 0 | some rest ↦ atol rest ]

-- `snprintf` into a `char filename[256]`.
abbrev pub filename : ℤ → List ℕ → List ℕ
filename pid basename = take 255 (codes "/proc/" ++ show_int pid ++ codes "/" ++ basename)

module _ (d : Doubles) (h : Host d) where
  -- `read_proc_file` and `read_link`.
  abbrev pub read_proc_file : ℤ → List ℕ → List ℕ
  read_proc_file pid basename = h.read_file (filename pid basename) (1024 * 1024)

  abbrev pub read_link : ℤ → List ℕ → List ℕ
  read_link pid basename = elim (h.readlink (filename pid basename) 1024) [
    | none ↦ []
    | some link ↦ link
  ]

  unfoldable pub get_cmd_line : ℤ → List ℕ
  get_cmd_line pid = replace_zeros (codes "\n\t") (read_proc_file pid (codes "cmdline"))

  unfoldable pub get_environ : ℤ → List ℕ
  get_environ pid = replace_zeros (codes "\n") (read_proc_file pid (codes "environ"))

  unfoldable pub get_boot_time : ℤ
  get_boot_time = get_long (h.read_file (codes "/proc/stat") 65536) (codes "btime ")

  -- The name as a string; the empty piece is the empty string.
  abbrev pub name_of : List ℕ → List ℕ
  name_of stat = elim (h.procname stat) [ none ↦ [] | some (name, rest) ↦ name ]

  -- `cpu_chart_`.
  unfoldable pub cpu_chart : Plot
  cpu_chart = record {
    width = 640;
    height = 100;
    total_seconds = 600;
    sampling_period = period;
    font_width = h.font_width;
    font_height = h.font_height;
  }

  -- The constructor.
  unfoldable pub new : ℤ → Procmon
  new pid = record {
    kclock_ticks_per_second = h.clock_ticks_per_second;
    kb_per_page = h.page_size / 1024;
    kboot_time = get_boot_time;
    pid = pid;
    procname = name_of (read_proc_file pid (codes "stat"));
    hostname = h.hostname;
    cmd_line = get_cmd_line pid;
    last_stat_data = zeroed;
    ticks = 0;
    cpu_usage = [];
  }

  -- The state of a stat file that is not empty, as `tick` and `fill_over_fiew` read it; `none` is the
  -- assertion on the byte behind the name.
  unfoldable pub read_stat : ℕ → List ℕ → Option StatData
  read_stat kb_per_page stat = elim (h.procname stat) [
    | some (name, c ∷ start_at_state) ↦
        if c == b')'
        then some (parse h.junk_vsize h.junk_rss kb_per_page start_at_state zeroed)
        else none
    | _ ↦ none
  ]
