-- ===== src/Procmon/Window.antt =====
-- procmon/procmon.cpp, `tick`: what is kept of the processor times.
use linux_socket_test.Prelude.{
  ℕ, ◌+◌, ◌-◌, ◌≡◌, List, [], ◌∷◌, Option, none, some, Bool, true, ◌>>=◌, if◌then◌else◌, length,
  drop,
}
use linux_socket_test.Prelude.Int.{ℤ}
use linux_socket_test.Procmon.Doubles.{Doubles}
use linux_socket_test.Procmon.Stat.{StatData}
use linux_socket_test.Procmon.Host.{Host, Procmon, CpuTime, capacity}
use linux_socket_test.Procmon.Sampling.{elapsed, sample, stat_now, tick}

-- The newest of the samples, as many as the buffer holds.
abbrev pub window : List CpuTime → List CpuTime
window ts = drop (length ts - capacity) ts

-- The samples between the stat files that can be read, from the state of the last one on.
unfoldable pub samples : Bool → StatData → List (Option StatData) → List CpuTime
samples going last [] = []
samples going last (none ∷ stats) = samples going last stats
samples going last (some stat ∷ stats) =
    let rest = samples true stat stats in
    if going
    then (record {
      user_time = elapsed stat.utime last.utime;
      sys_time = elapsed stat.stime last.stime;
    })
      ∷ rest
    else rest

-- A tick that reads a state, with the processor times `ts` behind it.
abbrev taken : Procmon → StatData → List CpuTime → Procmon
taken p stat ts = record p { last_stat_data = stat; ticks = p.ticks + 1; cpu_usage = ts }

abbrev spent : Procmon → StatData → CpuTime
spent p stat = record {
  user_time = elapsed stat.utime p.last_stat_data.utime;
  sys_time = elapsed stat.stime p.last_stat_data.stime;
}

-- The state after ticks that find these states, or no stat file.
samplings : List (Option StatData) → Procmon → Procmon
samplings [] p = p
samplings (none ∷ stats) p = samplings stats p
samplings (some stat ∷ stats) p = samplings stats (sample stat p)

module _ (d : Doubles) where
  -- The timer, with the system as it is at each tick.
  unfoldable pub ticks : List (Host d) → Procmon → Option Procmon
  ticks [] p = some p
  ticks (h ∷ hs) p = tick d h p >>= ticks hs

  -- What each tick finds in the stat file of the process.
  abbrev pub Finds : ℤ → ℕ → List (Host d) → List (Option StatData) → Type 0
  Finds pid kb [] [] = Unit
  Finds pid kb (h ∷ hs) (stat ∷ stats) = (stat_now d h pid kb ≡ some stat) × Finds pid kb hs stats
  Finds pid kb [] (stat ∷ stats) = ⊥
  Finds pid kb (h ∷ hs) [] = ⊥
