-- ===== src/Procmon/Sampling.antt =====
-- procmon/procmon.cpp, `tick`: the processor times of every period.
use linux_socket_test.Prelude.{
  ℕ, ◌+◌, ◌-◌, ◌%◌, ◌^◌, List, [], ◌∷◌, ◌++◌, Option, none, some, ltb, if◌then◌else◌, codes, length,
  drop, ◌>>=◌,
}
use linux_socket_test.Prelude.Int.{ℤ, to_bits}
use linux_socket_test.Procmon.Doubles.{Doubles, of_nat}
use linux_socket_test.Procmon.Stat.{StatData}
use linux_socket_test.Procmon.Host.{Host, Procmon, CpuTime, capacity, read_proc_file, read_stat}

-- `push_back` on a `boost::circular_buffer`: when it is full the oldest goes.
unfoldable pub push_back : CpuTime → List CpuTime → List CpuTime
push_back t ts = drop (length ts + 1 - capacity) (ts ++ t ∷ [])

-- `std::max(0, static_cast<int>(now - last))` of two `long`s.
unfoldable pub elapsed : ℤ → ℤ → ℕ
elapsed now last =
    let d = (2 ^ 64 + to_bits 64 now - to_bits 64 last) % 2 ^ 32 in if ltb d (2 ^ 31) then d else 0

-- `tick` behind the reading of the file.
unfoldable pub sample : StatData → Procmon → Procmon
sample stat_data p =
    let time : CpuTime = record {
      user_time = elapsed stat_data.utime p.last_stat_data.utime;
      sys_time = elapsed stat_data.stime p.last_stat_data.stime;
    } in
    record p {
      last_stat_data = stat_data;
      ticks = p.ticks + 1;
      cpu_usage = if ltb 0 p.ticks then push_back time p.cpu_usage else p.cpu_usage;
    }

module _ (d : Doubles) (h : Host d) where
  -- What `tick` reads: `some none` where the stat file is empty, `none` where the assertion on it fails.
  unfoldable pub stat_now : ℤ → ℕ → Option (Option StatData)
  stat_now pid kb_per_page = elim (read_proc_file d h pid (codes "stat")) [
    | [] ↦ some none
    | c ∷ cs ↦ read_stat d h kb_per_page (c ∷ cs) >>= λ stat_data. some (some stat_data)
  ]

  unfoldable pub tick : Procmon → Option Procmon
  tick p = elim (stat_now p.pid p.kb_per_page) [
    | none ↦ none
    | some none ↦ some p
    | some (some stat_data) ↦ some (sample stat_data p)
  ]

-- `CpuTime::cpu_usage`.
unfoldable pub cpu_usage : (d : Doubles) → CpuTime → d.Double → d.Double → d.Double
cpu_usage d t kperiod kclock_ticks_per_seconds =
    d.div (of_nat d (t.user_time + t.sys_time)) (d.mul kperiod kclock_ticks_per_seconds)
