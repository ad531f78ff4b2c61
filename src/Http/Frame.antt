-- ===== src/Http/Frame.antt =====
-- A response that keeps the connection open, as the other side of it reads it.
use linux_socket_test.Prelude.{
  ℕ, ◌≤◌, ◌≡◌, refl, sym, ap, ◌∙◌, List, [], ◌∷◌, ◌++◌, false, arith, codes, length, take_ge,
  length-append, append_assoc,
}
use linux_socket_test.Prelude.Decimal.{show_nat, decimal_value, show_nat-value}
use linux_socket_test.Muduo.{BufferOps}
use linux_socket_test.Http.StdMap.{Headers}
use linux_socket_test.Http.Message.{Header, headers_str}
use linux_socket_test.Http.Response.{
  HttpResponse, status_start, length_line, append_connection, append_headers, append_to_buffer,
}

-- The headers of the response as header lines: a blank stands behind the colon.
unfoldable pub header_lines : Headers → List Header
header_lines [] = []
header_lines ((k, v) ∷ hs) = (k, b' ' ∷ v) ∷ header_lines hs

regroup :
    (start k v rest : List ℕ)
    → start ++ k ++ codes ": " ++ v ++ codes "\r\n" ++ rest
      ≡ start ++ (k ++ 58 ∷ 32 ∷ v ++ 13 ∷ 10 ∷ rest)
regroup start k v rest =
    append_assoc (start ++ k ++ codes ": " ++ v) (codes "\r\n") rest
    ∙ append_assoc (start ++ k ++ codes ": ") v (codes "\r\n" ++ rest)
    ∙ append_assoc (start ++ k) (codes ": ") (v ++ (codes "\r\n" ++ rest))
    ∙ append_assoc start k (codes ": " ++ (v ++ (codes "\r\n" ++ rest)))
    ∙ ap (λ x. start ++ x) (sym (append_assoc k (58 ∷ 32 ∷ v) (13 ∷ 10 ∷ rest)))

module _ (m : BufferOps) where
  open m use {Buffer, peek, append, peek-append}

  peek-append_headers :
      (hs : Headers) (b : Buffer) (body : List ℕ)
      → peek (append (append (append_headers m hs b) (codes "\r\n")) body)
        ≡ peek b ++ headers_str (header_lines hs) body
  unfolding append_headers header_lines headers_str
  peek-append_headers [] b body =
      peek-append (append b (codes "\r\n")) body
      ∙ ap (λ x. x ++ body) (peek-append b (codes "\r\n"))
      ∙ append_assoc (peek b) (codes "\r\n") body
  peek-append_headers ((k, v) ∷ hs) b body =
      let b1 = append b k in
      let b2 = append b1 (codes ": ") in
      let b3 = append b2 v in
      let rest = headers_str (header_lines hs) body in
      peek-append_headers hs (append b3 (codes "\r\n")) body
      ∙ rw
          (
            peek-append b3 (codes "\r\n"),
            peek-append b2 v,
            peek-append b1 (codes ": "),
            peek-append b k,
          )
          (regroup (peek b) k v rest)

  peek-append_connection :
      (r : HttpResponse) (b : Buffer) (rest : List ℕ)
      → r.close_connection ≡ false
      → length (show_nat (length r.body)) ≤ 13
      → peek (append_connection m r b) ++ headers_str (header_lines r.headers) rest
        ≡ peek b
          ++ headers_str
              ((codes "Content-Length", b' ' ∷ show_nat (length r.body))
                ∷ (codes "Connection", codes " Keep-Alive")
                ∷ header_lines r.headers)
              rest
  unfolding append_connection headers_str
  peek-append_connection r b rest open_ fits =
      let n = show_nat (length r.body) in
      let whole = codes "Content-Length: " ++ n ++ codes "\r\n" in
      let kept : length_line r ≡ whole =
        take_ge 31 whole (omega (arith, length-append n (codes "\r\n"))) in
      let alive = codes "Connection: Keep-Alive\r\n" in
      let others = headers_str (header_lines r.headers) rest in
      let bytes : peek (append_connection m r b) ≡ peek b ++ whole ++ alive =
        rw
          (open_, peek-append (append b (length_line r)) alive, peek-append b (length_line r), kept)
          refl in
      rw bytes (
        append_assoc (peek b ++ whole) alive others
        ∙ append_assoc (peek b) whole (alive ++ others)
        ∙ ap (λ x. peek b ++ (codes "Content-Length: " ++ x))
            (append_assoc n (codes "\r\n") (alive ++ others)))

  -- A response that keeps the connection open is written as its status line and then, as header
  -- lines, an empty line and a body in the form that `parse_request` reads them, the length of the
  -- body, "Keep-Alive" and the headers in their order; the length that is written is the length of
  -- the body. (Its decimal digits are at most 13, so that the line fits `char buf[32]`.)
  pub append_to_buffer-headers_str :
      (r : HttpResponse) (b : Buffer)
      → r.close_connection ≡ false
      → length (show_nat (length r.body)) ≤ 13
      → (peek (append_to_buffer m r b)
          ≡ peek b
            ++ status_start r
            ++ r.status_message
            ++ codes "\r\n"
            ++ headers_str
                ((codes "Content-Length", b' ' ∷ show_nat (length r.body))
                  ∷ (codes "Connection", codes " Keep-Alive")
                  ∷ header_lines r.headers)
                r.body)
        × (decimal_value 0 (show_nat (length r.body)) ≡ length r.body)
  unfolding append_to_buffer
  append_to_buffer-headers_str r b open_ fits =
      let b1 = append b (status_start r) in
      let b2 = append b1 r.status_message in
      let b3 = append b2 (codes "\r\n") in
      let start : peek b3 ≡ peek b ++ status_start r ++ r.status_message ++ codes "\r\n" =
        rw
          (
            peek-append b2 (codes "\r\n"),
            peek-append b1 r.status_message,
            peek-append b (status_start r),
          )
          refl in
      (
        peek-append_headers r.headers (append_connection m r b3) r.body
            ∙ peek-append_connection r b3 r.body open_ fits
            ∙ rw start refl,
        show_nat-value (length r.body),
      )
