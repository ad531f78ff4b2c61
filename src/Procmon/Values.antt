-- ===== src/Procmon/Values.antt =====
-- procmon/procmon.cpp: the values of the page about a process, written from the numbers in its stat file.
use linux_socket_test.Prelude.{
  ℕ, ◌+◌, ◌*◌, ◌/◌, ◌^◌, ◌<◌, ◌≡◌, ◌≢◌, refl, ap, ◌∙◌, List, [], ◌∷◌, ◌++◌, none, some, arith, true,
  take, codes,
}
use native.Mathlib.Nat.{div-le_self}
use linux_socket_test.Prelude.Int.{ℤ, pos, ◌+ℤ◌, fits, times, over, remainder, wrap}
use linux_socket_test.Prelude.Scan.{show_int, Stops, atoi-show_int}
use linux_socket_test.Procmon.Doubles.{Doubles, of_nat}
use linux_socket_test.Procmon.Stat.{StatData}
use linux_socket_test.Procmon.Lines.{clamp}
use linux_socket_test.Procmon.Keys.{Misses, behind-none, behind-append}
use linux_socket_test.Procmon.Host.{Host, Procmon, Tm, strip}
use linux_socket_test.Procmon.Overview.{
  values, stat_values, get_state, refresh, get_start_time, zero_padded, blank_padded, format_tm,
  format_cst, format_double, get_seconds,
}

-- The names of the states of a process.
pub data StateName : ℕ → List ℕ → Type 0 where
  running : StateName b'R' (codes "Running")
  sleeping : StateName b'S' (codes "Sleeping")
  disk_sleep : StateName b'D' (codes "Disk sleep")
  zombie : StateName b'Z' (codes "Zombie")
  other : (c : ℕ) → c ≢ b'R' → c ≢ b'S' → c ≢ b'D' → c ≢ b'Z' → StateName c (codes "Unknown")

get_state-StateName : (c : ℕ) (name : List ℕ) → StateName c name → get_state c ≡ name
unfolding get_state
get_state-StateName _ _ running = refl
get_state-StateName _ _ sleeping = refl
get_state-StateName _ _ disk_sleep = refl
get_state-StateName _ _ zombie = refl
get_state-StateName _ _ (other c a b d e) = ground arith

-- A query that asks for a refresh after some seconds, with a number behind the first "refresh=", and
-- one that has no such key.
pub data Refresh : List ℕ → List (List ℕ × List ℕ) → Type 0 where
  asked :
      (pre : List ℕ) (seconds : ℕ) (rest : List ℕ)
      → 0 < seconds
      → fits 31 (pos seconds) ≡ true
      → Stops rest
      → Misses (codes "refresh=") pre (codes "refresh=" ++ (show_int (pos seconds) ++ rest))
      → Refresh
          (pre ++ (codes "refresh=" ++ (show_int (pos seconds) ++ rest)))
          ((codes "refresh", show_int (pos seconds)) ∷ [])
  not_asked : (query : List ℕ) → Misses (codes "refresh=") query [] → Refresh query []

refresh-Refresh :
    (query : List ℕ) (vs : List (List ℕ × List ℕ)) → Refresh query vs → refresh query ≡ vs
unfolding refresh strip
refresh-Refresh _ _ (asked pre n rest positive small stops misses) =
    rw (behind-append (codes "refresh=") pre (show_int (pos n) ++ rest) misses, refresh)
      (rw (atoi-show_int (pos n) rest small stops) (ground (arith, positive)))
refresh-Refresh _ _ (not_asked query misses) =
    rw (behind-none (codes "refresh=") query refl misses, refresh) refl

-- The text of a local time: year, month and day without blanks, and the time of the day.
abbrev pub time_text : Tm → List ℕ
time_text t =
    blank_padded 4 (t.tm_year +ℤ pos 1900)
    ++ zero_padded 2 (t.tm_mon +ℤ pos 1)
    ++ zero_padded 2 t.tm_mday
    ++ codes " "
    ++ zero_padded 2 t.tm_hour
    ++ codes ":"
    ++ zero_padded 2 t.tm_min
    ++ codes ":"
    ++ zero_padded 2 t.tm_sec

wrap-small : (n : ℕ) → n < 2 ^ 63 → wrap 64 (pos n) ≡ pos n
wrap-small n h = ground (arith, h)

-- The start of a process, in microseconds, for a boot `boot` seconds after 1970 and a start `ticks`
-- clock ticks later.
abbrev pub start_of : ℕ → ℕ → ℕ → ℕ
start_of clock boot ticks = boot * 1000000 + ticks * 1000000 / clock

get_start_time-start_of :
    (p : Procmon) (boot ticks : ℕ)
    → p.kboot_time ≡ pos boot
    → 0 < p.kclock_ticks_per_second
    → boot * 1000000 + ticks * 1000000 < 2 ^ 63
    → get_start_time p (pos ticks) ≡ pos (start_of p.kclock_ticks_per_second boot ticks)
unfolding get_start_time
get_start_time-start_of p boot ticks e h small =
    let clock = p.kclock_ticks_per_second in
    let less = div-le_self (ticks * 1000000) clock in
    rw (e, get_start_time)
      (rw (wrap-small (boot * 1000000) (omega (arith, small))) (
        rw (wrap-small (ticks * 1000000) (omega (arith, small)))
          (wrap-small (boot * 1000000 + ticks * 1000000 / clock) (omega (arith, small, less)))))

module _ (d : Doubles) (h : Host d) where
  -- The values of the page for the numbers in a stat file, the name of the state, what the query asks
  -- for, and the start of the process.
  abbrev pub shown :
      Procmon → List (List ℕ × List ℕ) → List ℕ → ℕ → StatData → ℤ → ℤ → List (List ℕ × List ℕ)
  shown p asks state start st vsize rss =
      let clock = of_nat d p.kclock_ticks_per_second in
      let seconds = λ (ticks : ℤ). d.format 2 (d.div (d.of_int ticks) clock) in
      let link : List ℕ → List ℕ = λ name.
        elim (h.readlink (take 255 (codes "/proc/" ++ show_int p.pid ++ codes "/" ++ name)) 1024) [
          | none ↦ []
          | some target ↦ target
        ] in
      let now_text = time_text (h.to_local_time (over h.now 1000000)) in
      asks
      ++ (codes "procname", p.procname)
        ∷ (codes "hostname", p.hostname)
        ∷ (
          codes "nowtime",
          take 31 (now_text ++ codes "." ++ zero_padded 6 (remainder h.now 1000000)),
        )
        ∷ (codes "pid", show_int p.pid)
        ∷ (codes "start_time", take 31 (time_text (h.to_local_time (pos (start / 1000000)))))
        ∷ (codes "uptimes", d.format 2 (h.time_difference h.now (pos start)))
        ∷ (codes "ececuable", link (codes "exe"))
        ∷ (codes "current_dir", link (codes "cwd"))
        ∷ (codes "state", state)
        ∷ (codes "user_time", seconds st.utime)
        ∷ (codes "system_time", seconds st.stime)
        ∷ (codes "vm_size", show_int (over vsize 1024))
        ∷ (codes "vm_rss", show_int (wrap 64 (times rss p.kb_per_page)))
        ∷ (codes "threads", show_int st.num_threads)
        ∷ (codes "priority", show_int st.priority)
        ∷ (codes "nice", show_int st.nice)
        ∷ (codes "minor_page_faults", show_int st.minflt)
        ∷ (codes "major_page_faults", show_int st.majflt)
        ∷ []

  pub values-shown :
      (p : Procmon) (query : List ℕ) (asks : List (List ℕ × List ℕ)) (name : List ℕ)
      (boot ticks : ℕ) (st : StatData) (vsize rss : ℤ)
      → Refresh query asks
      → StateName st.state name
      → p.kboot_time ≡ pos boot
      → st.starttime ≡ pos ticks
      → 0 < p.kclock_ticks_per_second
      → boot * 1000000 + ticks * 1000000 < 2 ^ 63
      → values d h p query (record st {
        vsize_kb = over vsize 1024;
        rss_kb = wrap 64 (times rss p.kb_per_page);
        rsslim = clamp 63 st.rsslim;
      })
        ≡ shown p asks name (start_of p.kclock_ticks_per_second boot ticks) st vsize rss
  unfolding values stat_values format_cst format_double get_seconds format_tm
  values-shown p query asks name boot ticks st vsize rss query_asks state e e' positive small =
      rw (refresh-Refresh query asks query_asks, values, stat_values)
        (rw (get_state-StateName st.state name state) (
          rw (ap (get_start_time p) e' ∙ get_start_time-start_of p boot ticks e positive small)
            refl))
