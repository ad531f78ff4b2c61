-- ===== src/EventRot13.antt =====
-- libevent_test/simper_rot13_server.cpp: the callback that answers the lines that have arrived.
-- `evbuffer` of libevent is not part of this repository: it is an interface with the documented
-- behaviour of its calls as its laws. `rot13_char` is the one of the other rot13 server.
pub mod Setup
pub mod Lines
mod Tests
use linux_socket_test.Prelude.{
  ℕ, zero, suc, ◌≡◌, List, [], ◌∷◌, ◌++◌, Option, none, some, leb, ltb, if◌then◌else◌, map, length,
  take, drop, break_at, refl, ◌∙◌,
}
use linux_socket_test.Rot13.{rot13_char}

pub record EvBufferOps : Type 1 where
  pub Buffer : Type 0
  -- The bytes of the buffer, whose number `evbuffer_get_length` gives.
  pub content : Buffer → List ℕ
  -- `evbuffer_readln` with EVBUFFER_EOL_LF: the line without its end, and what is left.
  pub readln : Buffer → Option (List ℕ × Buffer)
  -- `evbuffer_remove` of at most so many bytes.
  pub remove : Buffer → ℕ → List ℕ × Buffer
  -- `evbuffer_add`.
  pub add : Buffer → List ℕ → Buffer
  pub readln-none : (b : Buffer) → break_at 10 (content b) ≡ none → readln b ≡ none
  pub readln-some :
      (b : Buffer) (l r : List ℕ)
      → break_at 10 (content b) ≡ some (l, r)
      → (b' : Buffer) × (readln b ≡ some (l, b')) × (content b' ≡ r)
  pub remove-content :
      (b : Buffer) (n : ℕ)
      → ((remove b n).0 ≡ take n (content b)) × (content ((remove b n).1) ≡ drop n (content b))
  pub content-add : (b : Buffer) (bs : List ℕ) → content (add b bs) ≡ content b ++ bs

-- Byte lists have these operations, so the laws can be met.
abbrev pub list_buffer : EvBufferOps
list_buffer = record {
  Buffer = List ℕ;
  content = λ b. b;
  readln = break_at 10;
  remove = λ b n. (take n b, drop n b);
  add = λ b bs. b ++ bs;
  readln-none = λ b h. h;
  readln-some = λ b l r h. (r, h, refl);
  remove-content = λ b n. (refl, refl);
  content-add = λ b bs. refl;
}

-- `MAX_LINE`, and the size of `buf`.
abbrev pub max_line : ℕ
max_line = 16384

abbrev pub chunk : ℕ
chunk = 1024

module _ (m : EvBufferOps) where
  open m use {Buffer, content, readln, remove, add}

  -- The loop over the lines, on fuel, with the input and the output.
  unfoldable pub echo_lines : ℕ → Buffer → Buffer → Option (Buffer × Buffer)
  echo_lines zero input output = none
  echo_lines (suc fuel) input output = elim (readln input) [
    | none ↦ some (input, output)
    | some (line, rest) ↦ echo_lines fuel rest (add (add output (map rot13_char line)) (10 ∷ []))
  ]

  -- The loop that takes what is there, on fuel.
  unfoldable pub drain : ℕ → Buffer → Buffer → Option (Buffer × Buffer)
  drain zero input output = none
  drain (suc fuel) input output =
      let (buf, rest) = remove input chunk in
      let more = drain fuel rest (add output (map rot13_char buf)) in
      if ltb 0 (length (content input)) then more else some (input, output)

  unfoldable pub finish_long : ℕ → Buffer × Buffer → Option (Buffer × Buffer)
  finish_long fuel (input, output) =
      let drained = drain fuel input output in
      if leb max_line (length (content input))
      then elim drained [
        | none ↦ none
        | some (input', output') ↦ some (input', add output' (10 ∷ []))
      ]
      else some (input, output)

  -- `readcb`; `none` is the end of the fuel.
  unfoldable pub readcb : ℕ → Buffer → Buffer → Option (Buffer × Buffer)
  readcb fuel input output = elim (echo_lines fuel input output) [
    | none ↦ none
    | some bufs ↦ finish_long fuel bufs
  ]
