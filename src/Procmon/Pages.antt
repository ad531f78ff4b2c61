-- ===== src/Procmon/Pages.antt =====
-- procmon/procmon.cpp: the table of the paths and what the program shows for each, and the rule by which
-- it closes a connection, as relations.
use linux_socket_test.Prelude.{
  ℕ, ◌≡◌, ◌≢◌, refl, ap, List, [], ◌∷◌, ◌++◌, none, some, Bool, true, false, ◌==◌, if◌then◌else◌,
  Bool-cases, inl, inr, map, take, codes, eq_bytes, eq_bytes_iff, arith,
}
use linux_socket_test.Prelude.Scan.{show_int}
use linux_socket_test.Http.Request.{HttpRequest, Version, http10, get_header}
use linux_socket_test.Http.Request
use linux_socket_test.Procmon.Doubles.{Doubles}
use linux_socket_test.Procmon.Host.{Host, Procmon, replace_zeros, get_environ}
use linux_socket_test.Procmon.Overview.{fill_over_fiew}
use linux_socket_test.Procmon.Server.{Page, page, unknown, wants_close, cpu_png, content}

-- The names of the files in the directory of a process that are shown as they are.
pub data Plain : List ℕ → Type 0 where
  io : Plain (codes "io")
  limits : Plain (codes "limits")
  maps : Plain (codes "maps")
  smaps : Plain (codes "smaps")
  status : Plain (codes "status")

abbrev pub paths : List (List ℕ)
paths =
    codes "/"
    ∷ codes "/cmdline"
    ∷ codes "/environ"
    ∷ codes "/threads"
    ∷ codes "/io"
    ∷ codes "/limits"
    ∷ codes "/maps"
    ∷ codes "/smaps"
    ∷ codes "/status"
    ∷ codes "/cpu.png"
    ∷ []

abbrev pub DiffersFrom : List ℕ → List (List ℕ) → Type 0
DiffersFrom path [] = Unit
DiffersFrom path (k ∷ ks) = (path ≢ k) × DiffersFrom path ks

-- At most one megabyte of a file in the directory of the process.
abbrev pub proc_file : (d : Doubles) → Host d → Procmon → List ℕ → List ℕ
proc_file d h p name =
    h.read_file (take 255 (codes "/proc/" ++ show_int p.pid ++ codes "/" ++ name)) 1048576

-- What the program shows at a path: the overview, the command line, the environment with a line for
-- each variable, nothing for the threads, a file, the picture of the processor times, or that it does
-- not know the path.
pub data Shows (d : Doubles) (h : Host d) (p : Procmon) (query : List ℕ)
    : List ℕ → Page → Type 0 where
  overview :
      (body : List ℕ)
      → fill_over_fiew d h p query ≡ some body
      → Shows d h p query (codes "/") (page (some (codes "text/html")) body)
  cmdline : Shows d h p query (codes "/cmdline") (page none p.cmd_line)
  environ :
      Shows d h p query
        (codes "/environ")
        (page none (map (λ c. if c == 0 then 10 else c) (proc_file d h p (codes "environ"))))
  threads : Shows d h p query (codes "/threads") (page none [])
  file :
      (name : List ℕ)
      → Plain name
      → Shows d h p query (codes "/" ++ name) (page none (proc_file d h p name))
  picture :
      (bytes : List ℕ)
      → cpu_png d h p ≡ some bytes
      → Shows d h p query (codes "/cpu.png") (page (some (codes "image/png")) bytes)
  nowhere : (path : List ℕ) → DiffersFrom path paths → Shows d h p query path unknown

-- Whether a request closes the connection behind its reply: "Connection: close" does, and a request
-- of HTTP 1.0 does unless it says "Connection: Keep-Alive"; others do not.
pub data Closes (r : HttpRequest) : Bool → Type 0 where
  asked : get_header r (codes "Connection") ≡ codes "close" → Closes r true
  old : r.version ≡ http10 → get_header r (codes "Connection") ≢ codes "Keep-Alive" → Closes r true
  newer : r.version ≢ http10 → get_header r (codes "Connection") ≢ codes "close" → Closes r false
  kept : get_header r (codes "Connection") ≡ codes "Keep-Alive" → Closes r false

eq_bytes-differs : (xs ys : List ℕ) → xs ≢ ys → eq_bytes xs ys ≡ false
eq_bytes-differs xs ys h = elim (Bool-cases (eq_bytes xs ys)) [
  | inl same ↦ absurd (h ((eq_bytes_iff xs ys).0 same))
  | inr differs ↦ differs
]

is_old : Version → Bool
is_old v = elim v [ http10 ↦ true | _ ↦ false ]

is_old-differs : (v : Version) → v ≢ http10 → is_old v ≡ false
unfolding is_old
is_old-differs Request.unknown h = refl
is_old-differs http10 h = absurd (h refl)
is_old-differs Request.http11 h = refl

pub wants_close-Closes : (r : HttpRequest) (close : Bool) → Closes r close → wants_close r ≡ close
unfolding eq_bytes is_old get_header
wants_close-Closes r _ (asked e) = rw e refl
wants_close-Closes r _ (old e h) = rw e (
    rw (eq_bytes-differs (get_header r (codes "Connection")) (codes "Keep-Alive") h) (ground arith))
wants_close-Closes r _ (newer h k) = ground (
  arith,
  eq_bytes-differs (get_header r (codes "Connection")) (codes "close") k,
  is_old-differs r.version h,
)
wants_close-Closes r _ (kept e) = rw e (ground arith)

replace_zeros-map :
    (xs : List ℕ) → replace_zeros (codes "\n") xs ≡ map (λ c. if c == 0 then 10 else c) xs
unfolding replace_zeros
replace_zeros-map [] = refl
replace_zeros-map (x ∷ xs) = ground (arith, replace_zeros-map xs)

content-nowhere :
    (d : Doubles) (h : Host d) (p : Procmon) (req : HttpRequest) (path : List ℕ)
    → req.path ≡ path
    → DiffersFrom path paths
    → content d h p req ≡ some unknown
unfolding content
content-nowhere d h p req path e n =
    let differs = eq_bytes-differs in
    rw (e, content)
      (ground (
        arith,
        differs path (codes "/") n.0,
        differs path (codes "/cmdline") n.1.0,
        differs path (codes "/environ") n.1.1.0,
        differs path (codes "/threads") n.1.1.1.0,
        differs path (codes "/io") n.1.1.1.1.0,
        differs path (codes "/limits") n.1.1.1.1.1.0,
        differs path (codes "/maps") n.1.1.1.1.1.1.0,
        differs path (codes "/smaps") n.1.1.1.1.1.1.1.0,
        differs path (codes "/status") n.1.1.1.1.1.1.1.1.0,
        differs path (codes "/cpu.png") n.1.1.1.1.1.1.1.1.1.0,
      ))

-- What the handler makes of a path is what the table says.
pub content-Shows :
    (d : Doubles) (h : Host d) (p : Procmon) (req : HttpRequest) (path : List ℕ) (c : Page)
    → req.path ≡ path
    → Shows d h p req.query path c
    → content d h p req ≡ some c
unfolding content eq_bytes get_environ
content-Shows d h p req _ _ e (overview body here) = rw (e, content) (rw here refl)
content-Shows d h p req _ _ e cmdline = rw (e, content) refl
content-Shows d h p req _ _ e environ =
    rw (e, content)
      (ap (λ b. some (page none b)) (replace_zeros-map (proc_file d h p (codes "environ"))))
content-Shows d h p req _ _ e threads = rw (e, content) refl
content-Shows d h p req _ _ e (file _ io) = rw (e, content) refl
content-Shows d h p req _ _ e (file _ limits) = rw (e, content) refl
content-Shows d h p req _ _ e (file _ maps) = rw (e, content) refl
content-Shows d h p req _ _ e (file _ smaps) = rw (e, content) refl
content-Shows d h p req _ _ e (file _ status) = rw (e, content) refl
content-Shows d h p req _ _ e (picture bytes here) = rw (e, content) (rw here refl)
content-Shows d h p req _ _ e (nowhere path n) = content-nowhere d h p req path e n
