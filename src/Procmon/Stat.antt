-- ===== src/Procmon/Stat.antt =====
-- procmon/procmon.cpp, struct StatData: the fields of a stat file, read from a stream.
use linux_socket_test.Prelude.{ℕ, List, [], ◌∷◌, Bool, true, false, not, ◌||◌, ◌==◌, if◌then◌else◌}
use linux_socket_test.Prelude.Int.{ℤ, pos, fits, limit, times, over, wrap}
use linux_socket_test.Prelude.Scan.{is_digit, skip_spaces, scan_int}

-- A `std::istringstream`: what is left to read, and its failbit.
pub record Stream : Type 0 where
  pub rest : List ℕ
  pub failed : Bool

-- An extraction. A variable that is not assigned keeps its value, which is an argument.
abbrev pub Read : Type 0 → Type 0
Read A = Stream → A × Stream

infixl 5 ◌>>=◌
unfoldable pub ◌>>=◌ : {A B : Type 0} → Read A → (A → Read B) → Read B
m >>= f = λ s. let r = m s in f r.0 r.1

abbrev pub return : {A : Type 0} → A → Read A
return a = λ s. (a, s)

-- `>>` into a `char`.
unfoldable pub get_char : ℕ → Read ℕ
get_char old s = if s.failed then (old, s) else elim (skip_spaces s.rest) [
  | [] ↦ (old, record { rest = []; failed = true })
  | c ∷ cs ↦ (c, record { rest = cs; failed = false })
]

starts_digit : List ℕ → Bool
starts_digit [] = false
starts_digit (c ∷ cs) = is_digit c

-- An optional sign and a digit at the front.
unfoldable pub has_number : List ℕ → Bool
unfolding starts_digit
has_number [] = false
has_number (c ∷ cs) = if c == b'-' || c == b'+' then starts_digit cs else is_digit c

-- The result of reading a number: 0 without digits, the end of the range outside it.
unfoldable pub extracted : ℕ → Bool → ℤ × List ℕ → ℤ × Stream
extracted w found (z, rest) =
    if not found
    then (pos 0, record { rest = rest; failed = true })
    else if fits w z
    then (z, record { rest = rest; failed = false })
    else (limit w z, record { rest = rest; failed = true })

-- `>>` into a signed type with `w + 1` bits.
unfoldable pub get_number : ℕ → ℤ → Read ℤ
get_number w old s = if s.failed then (old, s) else elim (skip_spaces s.rest) [
  | [] ↦ (old, record { rest = []; failed = true })
  | c ∷ cs ↦ extracted w (has_number (c ∷ cs)) (scan_int (c ∷ cs))
]

abbrev pub get_int : ℤ → Read ℤ
get_int = get_number 31

abbrev pub get_long : ℤ → Read ℤ
get_long = get_number 63

pub record StatData : Type 0 where
  pub state : ℕ
  pub ppid : ℤ
  pub pgrp : ℤ
  pub session : ℤ
  pub tty_nr : ℤ
  pub tpgid : ℤ
  pub flags : ℤ
  pub minflt : ℤ
  pub cminflt : ℤ
  pub majflt : ℤ
  pub cmajflt : ℤ
  pub utime : ℤ
  pub stime : ℤ
  pub cutime : ℤ
  pub cstime : ℤ
  pub priority : ℤ
  pub nice : ℤ
  pub num_threads : ℤ
  pub itrealvalue : ℤ
  pub starttime : ℤ
  pub vsize_kb : ℤ
  pub rss_kb : ℤ
  pub rsslim : ℤ

-- After `bzero`.
abbrev pub zeroed : StatData
zeroed = record {
  state = 0;
  ppid = pos 0;
  pgrp = pos 0;
  session = pos 0;
  tty_nr = pos 0;
  tpgid = pos 0;
  flags = pos 0;
  minflt = pos 0;
  cminflt = pos 0;
  majflt = pos 0;
  cmajflt = pos 0;
  utime = pos 0;
  stime = pos 0;
  cutime = pos 0;
  cstime = pos 0;
  priority = pos 0;
  nice = pos 0;
  num_threads = pos 0;
  itrealvalue = pos 0;
  starttime = pos 0;
  vsize_kb = pos 0;
  rss_kb = pos 0;
  rsslim = pos 0;
}

-- The extractions of `parse`, in the order of the source. The locals `vsize` and `rss` are not
-- initialised: what they hold where they are not read is an argument.
unfoldable pub extract : ℤ → ℤ → StatData → Read StatData
extract vsize rss d = do
  state ← get_char d.state
  ppid ← get_int d.ppid
  pgrp ← get_int d.pgrp
  session ← get_int d.session
  tty_nr ← get_int d.tty_nr
  tpgid ← get_int d.tpgid
  flags ← get_int d.flags
  minflt ← get_long d.minflt
  cminflt ← get_long d.cminflt
  majflt ← get_long d.majflt
  cmajflt ← get_long d.cmajflt
  utime ← get_long d.utime
  stime ← get_long d.stime
  cutime ← get_long d.cutime
  cstime ← get_long d.cstime
  priority ← get_long d.priority
  nice ← get_long d.nice
  num_threads ← get_long d.num_threads
  itrealvalue ← get_long d.itrealvalue
  starttime ← get_long d.starttime
  vsize ← get_long vsize
  rss ← get_long rss
  rsslim ← get_long d.rsslim
  return (record {
    state = state;
    ppid = ppid;
    pgrp = pgrp;
    session = session;
    tty_nr = tty_nr;
    tpgid = tpgid;
    flags = flags;
    minflt = minflt;
    cminflt = cminflt;
    majflt = majflt;
    cmajflt = cmajflt;
    utime = utime;
    stime = stime;
    cutime = cutime;
    cstime = cstime;
    priority = priority;
    nice = nice;
    num_threads = num_threads;
    itrealvalue = itrealvalue;
    starttime = starttime;
    vsize_kb = vsize;
    rss_kb = rss;
    rsslim = rsslim;
  })

-- `parse`, with the pages of the resident set in kilobytes.
unfoldable pub parse : ℤ → ℤ → ℕ → List ℕ → StatData → StatData
parse vsize rss kb_per_page start_at_state d =
    let r = (extract vsize rss d (record { rest = start_at_state; failed = false })).0 in
    record r { vsize_kb = over r.vsize_kb 1024; rss_kb = wrap 64 (times r.rss_kb kb_per_page) }
