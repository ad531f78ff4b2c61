-- ===== src/Procmon/Server.antt =====
-- procmon/procmon.cpp: the answers to requests.
use linux_socket_test.Prelude.{
  ℕ, List, [], ◌++◌, Option, none, some, Bool, true, false, not, ◌&&◌, ◌||◌, if◌then◌else◌, codes,
  eq_bytes, map, ◌>>=◌,
}
use linux_socket_test.Prelude.Int.{ℤ}
use linux_socket_test.Muduo.{BufferOps}
use linux_socket_test.Http.Request.{HttpRequest, http10, get_header}
use linux_socket_test.Http.Response
use linux_socket_test.Http.Response.{
  HttpResponse, ok, not_found, set_status_code, set_status_message, set_content_type, add_header,
  set_body, set_close_connection, append_to_buffer,
}
use linux_socket_test.Http.Context.{HttpContext, got_all, done, parse_request, reset}
use linux_socket_test.Procmon.Doubles.{Doubles, of_nat}
use linux_socket_test.Procmon.Plot.{plot_cpu}
use linux_socket_test.Procmon.Host.{Host, Procmon, period, read_proc_file, get_environ, cpu_chart}
use linux_socket_test.Procmon.Sampling.{cpu_usage}
use linux_socket_test.Procmon.Overview.{fill_over_fiew}

-- The rule for closing a connection after the reply.
abbrev pub wants_close : HttpRequest → Bool
wants_close r =
    eq_bytes (get_header r (codes "Connection")) (codes "close")
    || (elim r.version [ http10 ↦ true | _ ↦ false ]
        && not (eq_bytes (get_header r (codes "Connection")) (codes "Keep-Alive")))

-- What a message does: the bytes that are sent, and whether the connection is shut down.
pub record Outcome (Buffer : Type 0) : Type 0 where
  pub context : HttpContext
  pub buffer : Buffer
  pub sent : List ℕ
  pub shut : Bool

-- What a path stands for: a body, with the content type where it is set again, or nothing.
pub data Page : Type 0 where
  page : Option (List ℕ) → List ℕ → Page
  unknown : Page

-- The response with a page, behind the calls that every request makes.
unfoldable pub respond : HttpResponse → Page → HttpResponse
respond r (page none body) = set_body r body
respond r (page (some type) body) = set_body (set_content_type r type) body
respond r unknown =
    set_close_connection (set_status_message (set_status_code r not_found) (codes "Not Found")) true

unfoldable pub started : HttpResponse → HttpResponse
started r =
    add_header
      (set_content_type (set_status_message (set_status_code r ok) (codes "OK"))
        (codes "text/plain"))
      (codes "Server") (codes "yqsy-procmon")

module _ (d : Doubles) (h : Host d) where
  abbrev file : Procmon → List ℕ → Option Page
  file p basename = some (page none (read_proc_file d h p.pid basename))

  -- The picture of the processor times. It starts with a rectangle over the whole image, so nothing is
  -- left of the pictures before.
  unfoldable pub cpu_png : Procmon → Option (List ℕ)
  cpu_png p =
      let kclock = of_nat d p.kclock_ticks_per_second in
      plot_cpu d (cpu_chart d h) (map (λ t. cpu_usage d t (of_nat d period) kclock) p.cpu_usage)
      >>= λ draws. some (h.png draws)

  -- `none` is an assertion of `fill_over_fiew`, or an undefined operation of the picture.
  unfoldable pub content : Procmon → HttpRequest → Option Page
  content p req =
      if eq_bytes req.path (codes "/")
      then (fill_over_fiew d h p req.query >>= λ body. some (page (some (codes "text/html")) body))
      else if eq_bytes req.path (codes "/cmdline")
      then some (page none p.cmd_line)
      else if eq_bytes req.path (codes "/environ")
      then some (page none (get_environ d h p.pid))
      else if eq_bytes req.path (codes "/threads")
      then some (page none [])
      else if eq_bytes req.path (codes "/io")
      then file p (codes "io")
      else if eq_bytes req.path (codes "/limits")
      then file p (codes "limits")
      else if eq_bytes req.path (codes "/maps")
      then file p (codes "maps")
      else if eq_bytes req.path (codes "/smaps")
      then file p (codes "smaps")
      else if eq_bytes req.path (codes "/status")
      then file p (codes "status")
      else if eq_bytes req.path (codes "/cpu.png")
      then (cpu_png p >>= λ picture. some (page (some (codes "image/png")) picture))
      else some unknown

  unfoldable pub on_request : Procmon → HttpRequest → HttpResponse → Option HttpResponse
  on_request p req r = content p req >>= λ answer. some (respond (started r) answer)

  module _ (m : BufferOps) (empty : m.Buffer) (lexical_cast : List ℕ → Option ℤ) where
    open m use {Buffer, peek}

    -- What is sent and shut down behind `parse_request`: `good` is its result.
    unfoldable pub reply : Procmon → Bool → HttpContext → Buffer → Option (Outcome Buffer)
    reply p good c b =
        let refused = if good then [] else codes "HTTP/1.1 400 Bad Request\r\n\r\n" in
        elim c.state [
          | got_all ↦ on_request p c.request (Response.new (wants_close c.request)) >>= λ response.
              some (record {
                context = reset c;
                buffer = b;
                sent = refused ++ peek (append_to_buffer m response empty);
                shut = not good || response.close_connection;
              })
          | _ ↦ some (record { context = c; buffer = b; sent = refused; shut = not good })
        ]

    -- `on_message`; `none` is an assertion that fails, or the end of the fuel of `parse_request`.
    unfoldable pub on_message : ℕ → Procmon → HttpContext → Buffer → Option (Outcome Buffer)
    on_message fuel p c b = elim (parse_request m lexical_cast fuel c b) [
      | some (done good c' b') ↦ reply p good c' b'
      | _ ↦ none
    ]
