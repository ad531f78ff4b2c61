-- ===== src/Ttcp/Chunks.antt =====
-- ttcp/ttcp_libev.cpp: the frames that a client sends are taken from the buffer as they arrive, in
-- chunks of any size.
use linux_socket_test.Prelude.{
  ℕ, zero, suc, ◌+◌, ◌^◌, ◌≤◌, ◌<◌, ◌≡◌, refl, ap, sym, ◌∙◌, List, [], ◌∷◌, ◌++◌, arith, length,
  length-append, append_assoc, append-nil,
}
use linux_socket_test.Tbuf.{readable_bytes, received}
use linux_socket_test.Tbuf.Laws.{IsValid, contents}
use linux_socket_test.Tbuf.Input.{readfd_stores}
use linux_socket_test.Ttcp.Blocking.{max_buffer_length, htonl}
use linux_socket_test.Ttcp.Receiver.{length-htonl, frames, acks, HaveLength}
use linux_socket_test.Ttcp.Libev.{
  except_frame, EvClient, turn, returned, use_after_free, loop, client_read_cb, delete_client,
}
use linux_socket_test.Ttcp.Turns.{
  readable_bytes-contents, behind, frame_turn_takes, frame_turn_waits,
}

-- What a client becomes that takes the frames `ps`, and keeps `part` of a frame.
pub record Took (ps : List (List ℕ)) (part : List ℕ) (c d : EvClient) : Type 0 where
  pub id : d.id ≡ c.id
  pub state : d.state ≡ except_frame
  pub count : d.read_number ≡ c.read_number + length ps
  pub number : d.number ≡ c.number
  pub len : d.message_length ≡ c.message_length
  pub acked : d.written ≡ c.written ++ acks c.message_length ps
  pub valid : IsValid d.input_buffer
  pub kept : contents d.input_buffer ≡ part

loop-frames :
    (ps : List (List ℕ)) (part : List ℕ) (fuel : ℕ) (c : EvClient) (ev_clients : List ℕ)
    → c.state ≡ except_frame
    → IsValid c.input_buffer
    → c.message_length ≤ max_buffer_length
    → HaveLength c.message_length ps
    → contents c.input_buffer ≡ frames c.message_length ps ++ part
    → length part < c.message_length + 4
    → c.read_number + length ps < c.number
    → length ps < fuel
    → (d : EvClient) × (loop fuel c ev_clients ≡ returned d ev_clients) × Took ps part c d
unfolding loop turn frames acks
loop-frames ps part zero c ev_clients st v small sizes e short few fuel_left =
    absurd (omega (arith, fuel_left))
loop-frames [] part (suc fuel) c ev_clients st v small sizes e short few fuel_left =
    let waits = frame_turn_waits c v small (omega (arith, short, ap length e)) in
    (
      c,
      ground (arith, st, waits),
      record {
        id = refl;
        state = st;
        count = omega arith;
        number = refl;
        len = refl;
        acked = sym (append-nil c.written);
        valid = v;
        kept = e;
      },
    )
loop-frames (payload ∷ ps) part (suc fuel) c ev_clients st v small sizes e short few fuel_left =
    let len = c.message_length in
    let (b, takes, valid, bytes) =
      frame_turn_takes c payload (frames len ps ++ part) v small (sizes.0)
        (e ∙ append_assoc (htonl len ++ payload) (frames len ps) part) in
    let (d, end, took) =
      loop-frames ps part fuel (behind c len b) ev_clients st valid small (sizes.1) bytes short
        (omega (arith, few)) (omega (arith, fuel_left)) in
    (
      d,
      ground (arith, st, takes, end, few),
      record {
        id = took.id;
        state = took.state;
        count = omega (arith, took.count);
        number = took.number;
        len = took.len;
        acked = took.acked ∙ append_assoc c.written (htonl len) (acks len ps);
        valid = took.valid;
        kept = took.kept;
      },
    )

length-frames : (len : ℕ) (ps : List (List ℕ)) → length ps ≤ length (frames len ps)
unfolding frames
length-frames len [] = omega arith
length-frames len (payload ∷ ps) = omega (
  arith,
  length-frames len ps,
  length-append (htonl len ++ payload) (frames len ps),
  length-append (htonl len) payload,
  length-htonl len,
)

-- A client that waits for frames takes all the frames that its buffer and the new chunk hold together,
-- however the chunk is cut, writes one acknowledgement for each of them, keeps the rest of a frame,
-- and stays with the server, provided that the session announces more frames than these.
pub client_read_cb_acknowledges :
    (ps : List (List ℕ)) (part bs : List ℕ) (c : EvClient) (ev_clients : List ℕ)
    → c.state ≡ except_frame
    → IsValid c.input_buffer
    → length c.input_buffer.buf + length bs ≤ 2 ^ 62
    → c.message_length ≤ max_buffer_length
    → 0 < length bs
    → contents c.input_buffer ++ bs ≡ frames c.message_length ps ++ part
    → HaveLength c.message_length ps
    → length part < c.message_length + 4
    → c.read_number + length ps < c.number
    → (d : EvClient) × (client_read_cb c ev_clients (received bs) ≡ returned d ev_clients)
      × Took ps part c d
unfolding client_read_cb
client_read_cb_acknowledges ps part bs c ev_clients st v room small some_bytes e sizes short few =
    let (b, stored, valid, bytes) = readfd_stores c.input_buffer bs v room in
    let whole = bytes ∙ e in
    let enough : length ps < readable_bytes b + 2 = omega (
      arith,
      readable_bytes-contents b valid,
      ap length whole,
      length-append (frames c.message_length ps) part,
      length-frames c.message_length ps,
    ) in
    let (d, end, took) =
      loop-frames ps part (readable_bytes b + 2) (record c { input_buffer = b }) ev_clients st valid
        small sizes whole short few enough in
    (
      d,
      ground (arith, stored, end, some_bytes),
      record {
        id = took.id;
        state = took.state;
        count = took.count;
        number = took.number;
        len = took.len;
        acked = took.acked;
        valid = took.valid;
        kept = took.kept;
      },
    )

loop_last :
    (ps : List (List ℕ)) (payload part : List ℕ) (fuel : ℕ) (c : EvClient) (ev_clients : List ℕ)
    → c.state ≡ except_frame
    → IsValid c.input_buffer
    → c.message_length ≤ max_buffer_length
    → HaveLength c.message_length ps
    → length payload ≡ c.message_length
    → contents c.input_buffer
      ≡ frames c.message_length ps ++ ((htonl c.message_length ++ payload) ++ part)
    → c.read_number + length ps + 1 ≡ c.number
    → length ps < fuel
    → (d : EvClient) × (loop fuel c ev_clients ≡ use_after_free d (delete_client ev_clients c.id))
      × (d.written ≡ c.written ++ acks c.message_length (payload ∷ ps))
unfolding loop turn frames acks
loop_last ps payload part zero c ev_clients st v small sizes size e last fuel_left =
    absurd (omega (arith, fuel_left))
loop_last [] payload part (suc fuel) c ev_clients st v small sizes size e last fuel_left =
    let (b, takes, valid, bytes) = frame_turn_takes c payload part v small size e in
    (
      behind c c.message_length b,
      ground (arith, st, takes, last),
      ap (λ x. c.written ++ x) (sym (append-nil (htonl c.message_length))),
    )
loop_last (payload' ∷ ps) payload part (suc fuel) c ev_clients st v small sizes size e last
      fuel_left =
    let len = c.message_length in
    let more = (htonl len ++ payload) ++ part in
    let (b, takes, valid, bytes) =
      frame_turn_takes c payload' (frames len ps ++ more) v small (sizes.0)
        (e ∙ append_assoc (htonl len ++ payload') (frames len ps) more) in
    let (d, end, acked) =
      loop_last ps payload part fuel (behind c len b) ev_clients st valid small (sizes.1) size bytes
        (omega (arith, last)) (omega (arith, fuel_left)) in
    (
      d,
      ground (arith, st, takes, end, last),
      acked ∙ append_assoc c.written (htonl len) (htonl len ++ acks len ps),
    )

-- With the last frame of the session the client is acknowledged and deleted, and the loop goes on with
-- what was deleted.
pub client_read_cb_last :
    (ps : List (List ℕ)) (payload part bs : List ℕ) (c : EvClient) (ev_clients : List ℕ)
    → c.state ≡ except_frame
    → IsValid c.input_buffer
    → length c.input_buffer.buf + length bs ≤ 2 ^ 62
    → c.message_length ≤ max_buffer_length
    → 0 < length bs
    → contents c.input_buffer ++ bs
      ≡ frames c.message_length ps ++ ((htonl c.message_length ++ payload) ++ part)
    → HaveLength c.message_length ps
    → length payload ≡ c.message_length
    → c.read_number + length ps + 1 ≡ c.number
    → (d : EvClient) × (client_read_cb c ev_clients (received bs)
        ≡ use_after_free d (delete_client ev_clients c.id))
      × (d.written ≡ c.written ++ acks c.message_length (payload ∷ ps))
unfolding client_read_cb
client_read_cb_last ps payload part bs c ev_clients st v room small some_bytes e sizes size last =
    let (b, stored, valid, bytes) = readfd_stores c.input_buffer bs v room in
    let whole = bytes ∙ e in
    let more = (htonl c.message_length ++ payload) ++ part in
    let enough : length ps < readable_bytes b + 2 = omega (
      arith,
      readable_bytes-contents b valid,
      ap length whole,
      length-append (frames c.message_length ps) more,
      length-frames c.message_length ps,
    ) in
    let (d, end, acked) =
      loop_last ps payload part (readable_bytes b + 2) (record c { input_buffer = b }) ev_clients st
        valid small sizes size whole last enough in
    (d, ground (arith, stored, end, some_bytes), acked)
