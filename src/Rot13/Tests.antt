-- ===== src/Rot13/Tests.antt =====
-- Runs of the rot13 server, and its theorems at short lines.
use linux_socket_test.Prelude.{ℕ, ◌≡◌, refl, List, [], ◌∷◌, map, arith, codes, false, Free}
use linux_socket_test.Rot13.{
  FdState, rot13_char, alloc_fd_state, read_bytes, again, do_write, aborted,
}
use linux_socket_test.Rot13.Lines.{ArePositive, none_left, one_more, tail_aborts}

hello : map rot13_char (codes "Hello, World\n") ≡ codes "Uryyb, Jbeyq\n"
unfolding rot13_char
hello = refl

abbrev line : List ℕ
line = codes "abc\nd"

two_calls : ArePositive (1 ∷ 3 ∷ [])
two_calls = one_more 1 (omega arith) (one_more 3 (omega arith) none_left)

abbrev whole_line : FdState
whole_line = record {
  buffer = codes "nop\n";
  buffer_used = 4;
  n_written = 0;
  write_upto = 4;
  writing = false;
}

free : Free b'\n' (codes "d")
free = ((λ e. omega (arith, e)), tt)

tail_aborts_example :
    do_write (read_bytes alloc_fd_state (codes "abc\nd")) (1 ∷ 3 ∷ []) again ≡ aborted
tail_aborts_example =
    tail_aborts (codes "abc") (codes "d") (1 ∷ 3 ∷ []) again free (omega arith) two_calls refl
