-- ===== src/Ttcp.antt =====
-- ttcp/common.h and ttcp/ttcp_blocking.cpp: a connection that moves bytes in pieces, and the loops
-- `write_n` and `read_n` over it.
-- What the calls of `read` and `write` give is a list in the state; the bytes that the peer sends, and
-- those that are sent to it, are lists of bytes.
pub mod Blocking
pub mod Exact
pub mod Receiver
pub mod Waits
pub mod Sender
pub mod Libev
pub mod Setup
pub mod Refused
pub mod Turns
pub mod Chunks
mod Tests
mod SetupTests
use linux_socket_test.Prelude.{
  ℕ, suc, ◌+◌, ◌-◌, List, [], ◌∷◌, ◌++◌, ltb, if◌then◌else◌, take, drop, length, min,
}

-- What a call gives: that it moves some bytes (one more than the number, at most as many as are asked
-- for and, for `read`, as have arrived), the end of the stream, EINTR, or another error.
pub data Call : Type 0 where
  moved : ℕ → Call
  ended interrupted broken : Call

pub record Conn : Type 0 where
  pub calls : List Call
  pub input : List ℕ
  pub output : List ℕ

-- How a piece of a program ends: with a result, in a call that does not return, by `exit(1)` or an
-- assertion that fails, or by an access outside its memory.
pub data Run {ℓ} (A : Type ℓ) : Type ℓ where
  done : A → Conn → Run A
  waiting : Conn → Run A
  died : Conn → Run A
  fault : Run A

abbrev pub then_run {ℓ κ} : {A : Type ℓ} {B : Type κ} → Run A → (A → Conn → Run B) → Run B
then_run (done a c) f = f a c
then_run (waiting c) f = waiting c
then_run (died c) f = died c
then_run fault f = fault

-- The loop of `write_n`; the result is `written`.
unfoldable pub write_loop : List Call → List ℕ → ℕ → List ℕ → List ℕ → Run ℕ
write_loop [] buf written input output =
    let c : Conn = record { calls = []; input = input; output = output } in
    if ltb written (length buf) then waiting c else done written c
write_loop (moved k ∷ cs) buf written input output =
    let nw = min (suc k) (length buf - written) in
    let rest = write_loop cs buf (written + nw) input (output ++ take nw (drop written buf)) in
    if ltb written (length buf)
    then rest
    else done written (record { calls = moved k ∷ cs; input = input; output = output })
write_loop (interrupted ∷ cs) buf written input output =
    let rest = write_loop cs buf written input output in
    if ltb written (length buf)
    then rest
    else done written (record { calls = interrupted ∷ cs; input = input; output = output })
write_loop (ended ∷ cs) buf written input output =
    if ltb written (length buf)
    then done written (record { calls = cs; input = input; output = output })
    else done written (record { calls = ended ∷ cs; input = input; output = output })
write_loop (broken ∷ cs) buf written input output =
    if ltb written (length buf)
    then done written (record { calls = cs; input = input; output = output })
    else done written (record { calls = broken ∷ cs; input = input; output = output })

unfoldable pub write_n : List ℕ → Conn → Run ℕ
write_n buf c = write_loop c.calls buf 0 c.input c.output

-- The loop of `read_n`; the result is the bytes that are stored, `nread` in number. A `read` with
-- nothing to read does not return.
unfoldable pub read_loop : List Call → ℕ → List ℕ → List ℕ → List ℕ → Run (List ℕ)
read_loop [] size got input output =
    let c : Conn = record { calls = []; input = input; output = output } in
    if ltb (length got) size then waiting c else done got c
read_loop (moved k ∷ cs) size got [] output =
    let c : Conn = record { calls = moved k ∷ cs; input = []; output = output } in
    if ltb (length got) size then waiting c else done got c
read_loop (moved k ∷ cs) size got (b ∷ input) output =
    let nr = min (suc k) (size - length got) in
    let rest = read_loop cs size (got ++ take nr (b ∷ input)) (drop nr (b ∷ input)) output in
    if ltb (length got) size
    then rest
    else done got (record { calls = moved k ∷ cs; input = b ∷ input; output = output })
read_loop (interrupted ∷ cs) size got input output =
    let rest = read_loop cs size got input output in
    if ltb (length got) size
    then rest
    else done got (record { calls = interrupted ∷ cs; input = input; output = output })
read_loop (ended ∷ cs) size got input output =
    if ltb (length got) size
    then done got (record { calls = cs; input = input; output = output })
    else done got (record { calls = ended ∷ cs; input = input; output = output })
read_loop (broken ∷ cs) size got input output =
    if ltb (length got) size
    then done got (record { calls = cs; input = input; output = output })
    else done got (record { calls = broken ∷ cs; input = input; output = output })

unfoldable pub read_n : ℕ → Conn → Run (List ℕ)
read_n size c = read_loop c.calls size [] c.input c.output
