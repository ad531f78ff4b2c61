-- ===== src/Procmon/Overview.antt =====
-- procmon/procmon.cpp, `fill_over_fiew`: the values of the page about the process.
use linux_socket_test.Prelude.{
  ℕ, suc, ◌-◌, List, [], ◌∷◌, ◌++◌, Option, none, some, Bool, true, false, ◌==◌, ltb, if◌then◌else◌,
  codes, length, replicate, take, ◌>>=◌,
}
use linux_socket_test.Prelude.Int.{ℤ, pos, negsuc, ◌+ℤ◌, times, over, remainder, wrap}
use linux_socket_test.Prelude.Decimal.{show_nat}
use linux_socket_test.Prelude.Scan.{atoi, show_int}
use linux_socket_test.Procmon.Doubles.{Doubles, of_nat}
use linux_socket_test.Procmon.Stat.{StatData}
use linux_socket_test.Procmon.Host.{Host, Procmon, Tm, behind, read_proc_file, read_link, read_stat}

-- "%0wd" and "%wd".
unfoldable pub zero_padded : ℕ → ℤ → List ℕ
zero_padded w (pos n) = replicate (w - length (show_nat n)) b'0' ++ show_nat n
zero_padded w (negsuc n) =
    b'-' ∷ replicate (w - 1 - length (show_nat (suc n))) b'0' ++ show_nat (suc n)

unfoldable pub blank_padded : ℕ → ℤ → List ℕ
blank_padded w z = replicate (w - length (show_int z)) 32 ++ show_int z

unfoldable pub get_state : ℕ → List ℕ
get_state state =
    if state == b'R'
    then codes "Running"
    else if state == b'S'
    then codes "Sleeping"
    else if state == b'D'
    then codes "Disk sleep"
    else if state == b'Z'
    then codes "Zombie"
    else codes "Unknown"

abbrev pub same : ℤ → ℤ → Bool
same (pos a) (pos b) = a == b
same (negsuc a) (negsuc b) = a == b
same (pos a) (negsuc b) = false
same (negsuc a) (pos b) = false

-- The value of "refresh" that a query asks for.
unfoldable pub refresh : List ℕ → List (List ℕ × List ℕ)
refresh query = elim (behind (codes "refresh=") query) [
  | none ↦ []
  | some rest ↦ elim (atoi rest) [
    | pos seconds ↦ if ltb 0 seconds then (codes "refresh", show_int (pos seconds)) ∷ [] else []
    | _ ↦ []
  ]
]

-- `Timestamp::kMicroSecondsPerSecond`.
abbrev pub micros : ℕ
micros = 1000000

-- `get_start_time`, in microseconds; the products and the sum are `long`s.
unfoldable pub get_start_time : Procmon → ℤ → ℤ
get_start_time p starttime = wrap 64 (
    wrap 64 (times p.kboot_time micros)
    +ℤ over (wrap 64 (times starttime micros)) p.kclock_ticks_per_second)

-- `format_cst` of a local time: a text of at most 31 bytes.
unfoldable pub format_tm : Tm → List ℕ
format_tm t =
    blank_padded 4 (t.tm_year +ℤ pos 1900)
    ++ zero_padded 2 (t.tm_mon +ℤ pos 1)
    ++ zero_padded 2 t.tm_mday
    ++ codes " "
    ++ zero_padded 2 t.tm_hour
    ++ codes ":"
    ++ zero_padded 2 t.tm_min
    ++ codes ":"
    ++ zero_padded 2 t.tm_sec

module _ (d : Doubles) (h : Host d) where
  open d use {Double, of_int, div, format}

  unfoldable pub format_cst : ℤ → Bool → List ℕ
  format_cst stamp show_microseconds =
      let tm_time = format_tm (h.to_local_time (over stamp micros)) in
      if show_microseconds
      then take 31 (tm_time ++ codes "." ++ zero_padded 6 (remainder stamp micros))
      else take 31 tm_time

  unfoldable pub format_double : Double → List ℕ
  format_double = format 2

  unfoldable pub get_seconds : Procmon → ℤ → Double
  get_seconds p ticks = div (of_int ticks) (of_nat d p.kclock_ticks_per_second)

  -- The values from the start of the process on.
  unfoldable pub stat_values : Procmon → StatData → List (List ℕ × List ℕ)
  stat_values p stat_data =
      let started = get_start_time p stat_data.starttime in
      (codes "start_time", format_cst started false)
      ∷ (codes "uptimes", format_double (h.time_difference h.now started))
      ∷ (codes "ececuable", read_link d h p.pid (codes "exe"))
      ∷ (codes "current_dir", read_link d h p.pid (codes "cwd"))
      ∷ (codes "state", get_state stat_data.state)
      ∷ (codes "user_time", format_double (get_seconds p stat_data.utime))
      ∷ (codes "system_time", format_double (get_seconds p stat_data.stime))
      ∷ (codes "vm_size", show_int stat_data.vsize_kb)
      ∷ (codes "vm_rss", show_int stat_data.rss_kb)
      ∷ (codes "threads", show_int stat_data.num_threads)
      ∷ (codes "priority", show_int stat_data.priority)
      ∷ (codes "nice", show_int stat_data.nice)
      ∷ (codes "minor_page_faults", show_int stat_data.minflt)
      ∷ (codes "major_page_faults", show_int stat_data.majflt)
      ∷ []

  -- The values of the page, in the order in which they are set.
  unfoldable pub values : Procmon → List ℕ → StatData → List (List ℕ × List ℕ)
  values p query stat_data =
      refresh query
      ++ (codes "procname", p.procname)
        ∷ (codes "hostname", p.hostname)
        ∷ (codes "nowtime", format_cst h.now true)
        ∷ (codes "pid", show_int p.pid)
        ∷ stat_values p stat_data

  -- The page where the process has no stat file.
  unfoldable pub no_stat : Procmon → List ℕ
  no_stat p = h.render (h.load (codes "procmondocs/nostat.html")) (
      (codes "procname", p.procname)
      ∷ (codes "hostname", p.hostname)
      ∷ (codes "pid", show_int p.pid)
      ∷ [])

  -- `fill_over_fiew`; `none` is one of its assertions.
  unfoldable pub fill_over_fiew : Procmon → List ℕ → Option (List ℕ)
  fill_over_fiew p query = elim (read_proc_file d h p.pid (codes "stat")) [
    | [] ↦ some (no_stat p)
    | c ∷ cs ↦
        if same (atoi (c ∷ cs)) p.pid
        then (read_stat d h p.kb_per_page (c ∷ cs) >>= λ stat_data.
            some (h.render (h.load (codes "procmondocs/procmon.html")) (values p query stat_data)))
        else none
  ]
