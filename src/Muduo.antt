-- ===== src/Muduo.antt =====
-- What the servers use of muduo's network buffer, which is not part of this repository: an
-- interface with the documented behaviour of the calls as its laws.
use linux_socket_test.Prelude.{
  ℕ, ◌+◌, ◌≤◌, ◌≡◌, refl, sym, ap, ◌∙◌, List, ◌∷◌, ◌++◌, Option, none, some, arith, length, take,
  drop, length-append, drop-drop, take-length-append, drop-length-append, first_crlf, Free,
  first_crlf-append,
}

pub record BufferOps : Type 1 where
  pub Buffer : Type 0
  -- The readable bytes, from `peek()` on.
  pub peek : Buffer → List ℕ
  -- The address of `peek()`, which any call that changes the buffer may change.
  pub address : Buffer → ℕ
  -- `findCRLF(peek() + s)`, as a distance from `peek()`; `none` is the null pointer.
  pub find_crlf : Buffer → ℕ → Option ℕ
  -- `retrieve(n)`, and `retrieveUntil(peek() + n)`.
  pub retrieve : Buffer → ℕ → Buffer
  -- `append`, which the event loop calls when bytes arrive.
  pub append : Buffer → List ℕ → Buffer
  pub find_crlf_lem :
      (b : Buffer) (s : ℕ)
      → s ≤ length (peek b)
      → find_crlf b s ≡ elim (first_crlf (drop s (peek b))) [ none ↦ none | some i ↦ some (s + i) ]
  pub peek-retrieve :
      (b : Buffer) (n : ℕ) → n ≤ length (peek b) → peek (retrieve b n) ≡ drop n (peek b)
  pub peek-append : (b : Buffer) (bs : List ℕ) → peek (append b bs) ≡ peek b ++ bs

-- Byte lists have these operations, so the laws can be met.
abbrev pub list_buffer : BufferOps
list_buffer = record {
  Buffer = List ℕ;
  peek = λ b. b;
  address = λ b. 0;
  find_crlf = λ b s. elim (first_crlf (drop s b)) [ none ↦ none | some i ↦ some (s + i) ];
  retrieve = λ b n. drop n b;
  append = λ b bs. b ++ bs;
  find_crlf_lem = λ b s h. refl;
  peek-retrieve = λ b n h. refl;
  peek-append = λ b bs. refl;
}

-- A complete line at the front of the buffer: it is found, read and removed with its "\r\n".
module _ (m : BufferOps) where
  open m use {Buffer, peek, find_crlf, retrieve, find_crlf_lem, peek-retrieve}

  pub line_found :
      (b : Buffer) (l rest : List ℕ)
      → peek b ≡ l ++ 13 ∷ 10 ∷ rest
      → Free 13 l
      → find_crlf b 0 ≡ some (length l)
  line_found b l rest e free =
      find_crlf_lem b 0 (omega arith)
      ∙ rw (e, first_crlf-append l rest free) (ap some (omega arith))

  pub line_bytes :
      (b : Buffer) (l rest : List ℕ) → peek b ≡ l ++ 13 ∷ 10 ∷ rest → take (length l) (peek b) ≡ l
  line_bytes b l rest e = rw e (take-length-append l (13 ∷ 10 ∷ rest))

  pub line_rest :
      (b : Buffer) (l rest : List ℕ)
      → peek b ≡ l ++ 13 ∷ 10 ∷ rest
      → peek (retrieve b (length l + 2)) ≡ rest
  line_rest b l rest e =
      let size = ap length e ∙ length-append l (13 ∷ 10 ∷ rest) in
      peek-retrieve b (length l + 2) (omega (arith, size))
      ∙ rw e (
          sym (drop-drop 2 (length l) (l ++ 13 ∷ 10 ∷ rest))
          ∙ ap (drop 2) (drop-length-append l (13 ∷ 10 ∷ rest)))

  pub no_line : (b : Buffer) → first_crlf (peek b) ≡ none → find_crlf b 0 ≡ none
  no_line b h = find_crlf_lem b 0 (omega arith) ∙ rw h
