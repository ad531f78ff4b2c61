-- ===== src/Ttcp/Exact.antt =====
-- ttcp/ttcp_blocking.cpp: `write_n` and `read_n` move all their bytes, however the calls cut them up.
use linux_socket_test.Prelude.{
  ℕ, suc, ◌+◌, ◌-◌, ◌≤◌, ◌≡◌, refl, ap, sym, ◌∙◌, List, [], ◌∷◌, ◌++◌, arith, take, drop, length,
  length-append, length-take, length-drop, drop-drop, take-append_le, drop-append_le,
  take-append-drop, append-nil, append_assoc, min, drop_whole, drop-length-append,
}
use mathlib.Core.Path.{subst}
use native.Mathlib.Decide.{dec_lt}
use linux_socket_test.Ttcp.{
  Call, moved, ended, interrupted, broken, Conn, done, write_loop, write_n, read_loop, read_n,
}

-- How many of the calls move bytes before one gives an end or an error.
unfoldable pub serving : List Call → ℕ
serving [] = 0
serving (moved k ∷ cs) = serving cs + 1
serving (interrupted ∷ cs) = serving cs
serving (ended ∷ cs) = 0
serving (broken ∷ cs) = 0

-- From `c` to `d` the bytes `ins` are read and `outs` are written, in no more calls than bytes.
pub record Passes (ins outs : List ℕ) (c d : Conn) : Type 0 where
  pub taken : c.input ≡ ins ++ d.input
  pub given : d.output ≡ c.output ++ outs
  pub served : serving c.calls ≤ serving d.calls + (length ins + length outs)

pub Passes-nothing : (c : Conn) → Passes [] [] c c
Passes-nothing c = record { taken = refl; given = sym (append-nil c.output); served = omega arith }

pub Passes-then :
    {ins₁ outs₁ ins₂ outs₂ : List ℕ} {c d e : Conn}
    → Passes ins₁ outs₁ c d
    → Passes ins₂ outs₂ d e
    → Passes (ins₁ ++ ins₂) (outs₁ ++ outs₂) c e
Passes-then {ins₁} {outs₁} {ins₂} {outs₂} {c} {d} {e} p q = record {
  taken = p.taken ∙ ap (λ x. ins₁ ++ x) q.taken ∙ sym (append_assoc ins₁ ins₂ e.input);
  given = q.given ∙ ap (λ x. x ++ outs₂) p.given ∙ append_assoc c.output outs₁ outs₂;
  served = omega (arith, p.served, q.served, length-append ins₁ ins₂, length-append outs₁ outs₂);
}

pub Passes-read_write :
    {ins outs : List ℕ} {c d e : Conn}
    → Passes ins [] c d
    → Passes [] outs d e
    → Passes ins outs c e
Passes-read_write {ins} {outs} {c} {d} {e} p q =
    subst (λ i. Passes i outs c e) (append-nil ins) (Passes-then p q)

pub Passes-write_read :
    {ins outs : List ℕ} {c d e : Conn}
    → Passes [] outs c d
    → Passes ins [] d e
    → Passes ins outs c e
Passes-write_read {ins} {outs} {c} {d} {e} p q =
    subst (λ o. Passes ins o c e) (append-nil outs) (Passes-then p q)

-- What is left behind the bytes that were read.
pub Passes-input :
    {ins outs : List ℕ} {c d : Conn} (rest : List ℕ)
    → Passes ins outs c d
    → c.input ≡ ins ++ rest
    → d.input ≡ rest
Passes-input {ins} {outs} {c} {d} rest p e =
    sym (drop-length-append ins d.input)
    ∙ ap (drop (length ins)) (sym p.taken ∙ e)
    ∙ drop-length-append ins rest

abbrev conn : List Call → List ℕ → List ℕ → Conn
conn cs i o = record { calls = cs; input = i; output = o }

write_loop_all :
    (cs : List Call) (buf : List ℕ) (w : ℕ) (i o : List ℕ)
    → w ≡ length buf
    → write_loop cs buf w i o ≡ done (length buf) (conn cs i o)
unfolding write_loop
write_loop_all [] buf w i o h = ground (arith, h)
write_loop_all (moved k ∷ cs) buf w i o h = ground (arith, h)
write_loop_all (interrupted ∷ cs) buf w i o h = ground (arith, h)
write_loop_all (ended ∷ cs) buf w i o h = ground (arith, h)
write_loop_all (broken ∷ cs) buf w i o h = ground (arith, h)

write_loop_end :
    (cs : List Call) (buf : List ℕ) (w : ℕ) (i o : List ℕ)
    → w ≡ length buf
    → (d : Conn) × (write_loop cs buf w i o ≡ done (length buf) d)
      × Passes [] (drop w buf) (conn cs i o) d
write_loop_end cs buf w i o h =
    let rest : drop w buf ≡ [] = ap (λ n. drop n buf) h ∙ drop_whole buf in
    (conn cs i o, write_loop_all cs buf w i o h, rw rest (Passes-nothing (conn cs i o)))

write_loop_exact :
    (cs : List Call) (buf : List ℕ) (w : ℕ) (i o : List ℕ)
    → w ≤ length buf
    → length buf - w ≤ serving cs
    → (d : Conn) × (write_loop cs buf w i o ≡ done (length buf) d)
      × Passes [] (drop w buf) (conn cs i o) d
unfolding write_loop serving
write_loop_exact [] buf w i o h s = write_loop_end [] buf w i o (omega (arith, h, s))
write_loop_exact (moved k ∷ cs) buf w i o h s = elim (dec_lt w (length buf)) [
  | yes more ↦
      let n = min (suc k) (length buf - w) in
      let (d, end, p) =
        write_loop_exact cs buf (w + n) i (o ++ take n (drop w buf)) (omega arith)
          (omega (arith, s)) in
      let split : take n (drop w buf) ++ drop (w + n) buf ≡ drop w buf =
        ap (λ x. take n (drop w buf) ++ x) (sym (drop-drop n w buf))
        ∙ take-append-drop n (drop w buf) in
      (
        d,
        ground (arith, end),
        record {
          taken = p.taken;
          given =
              p.given
              ∙ append_assoc o (take n (drop w buf)) (drop (w + n) buf)
              ∙ ap (λ x. o ++ x) split;
          served = omega (arith, p.served, length-drop w buf, length-drop (w + n) buf);
        },
      )
  | no all ↦ write_loop_end (moved k ∷ cs) buf w i o (omega (arith, h))
]
write_loop_exact (interrupted ∷ cs) buf w i o h s = elim (dec_lt w (length buf)) [
  | yes more ↦
      let (d, end, p) = write_loop_exact cs buf w i o h s in
      (d, ground (arith, end), record { taken = p.taken; given = p.given; served = p.served })
  | no all ↦ write_loop_end (interrupted ∷ cs) buf w i o (omega (arith, h))
]
write_loop_exact (ended ∷ cs) buf w i o h s =
    write_loop_end (ended ∷ cs) buf w i o (omega (arith, h, s))
write_loop_exact (broken ∷ cs) buf w i o h s =
    write_loop_end (broken ∷ cs) buf w i o (omega (arith, h, s))

-- `write_n` writes all of the bytes, in order, and reports their number, however its calls cut them up
-- and however often they are interrupted, provided that enough calls move bytes.
pub write_n_exact :
    (buf : List ℕ) (c : Conn)
    → length buf ≤ serving c.calls
    → (d : Conn) × (write_n buf c ≡ done (length buf) d) × Passes [] buf c d
unfolding write_n
write_n_exact buf c h =
    write_loop_exact c.calls buf 0 c.input c.output (omega arith) (omega (arith, h))

read_loop_all :
    (cs : List Call) (size : ℕ) (got i o : List ℕ)
    → length got ≡ size
    → read_loop cs size got i o ≡ done got (conn cs i o)
unfolding read_loop
read_loop_all [] size got i o h = ground (arith, h)
read_loop_all (moved k ∷ cs) size got [] o h = ground (arith, h)
read_loop_all (moved k ∷ cs) size got (b ∷ i) o h = ground (arith, h)
read_loop_all (interrupted ∷ cs) size got i o h = ground (arith, h)
read_loop_all (ended ∷ cs) size got i o h = ground (arith, h)
read_loop_all (broken ∷ cs) size got i o h = ground (arith, h)

same_behind : (x y w r i : List ℕ) → x ++ y ≡ w → y ++ r ≡ y ++ i → w ++ r ≡ w ++ i
same_behind x y w r i e h =
    ap (λ v. v ++ r) (sym e)
    ∙ append_assoc x y r
    ∙ ap (λ v. x ++ v) h
    ∙ sym (append_assoc x y i)
    ∙ ap (λ v. v ++ i) e

read_loop_exact :
    (cs : List Call) (size : ℕ) (got bs rest o : List ℕ)
    → length got + length bs ≡ size
    → length bs ≤ serving cs
    → (d : Conn) × (read_loop cs size got (bs ++ rest) o ≡ done (got ++ bs) d)
      × Passes bs [] (conn cs (bs ++ rest) o) d
unfolding read_loop serving
read_loop_exact cs size got [] rest o h s = (
  conn cs rest o,
  read_loop_all cs size got rest o (omega (arith, h))
      ∙ ap (λ x. done x (conn cs rest o)) (sym (append-nil got)),
  Passes-nothing (conn cs rest o),
)
read_loop_exact [] size got (b ∷ bs) rest o h s = absurd (omega (arith, s))
read_loop_exact (moved k ∷ cs) size got (b ∷ bs) rest o h s =
    let n = min (suc k) (size - length got) in
    let small : n ≤ length (b ∷ bs) = omega (arith, h) in
    let (d, end, p) =
      read_loop_exact cs size (got ++ take n (b ∷ bs)) (drop n (b ∷ bs)) rest o
        (omega (
          arith,
          h,
          length-append got (take n (b ∷ bs)),
          length-take n (b ∷ bs),
          length-drop n (b ∷ bs),
        ))
        (omega (arith, s, length-drop n (b ∷ bs))) in
    let parts = take-append-drop n (b ∷ bs) in
    let whole : (got ++ take n (b ∷ bs)) ++ drop n (b ∷ bs) ≡ got ++ b ∷ bs =
      append_assoc got (take n (b ∷ bs)) (drop n (b ∷ bs)) ∙ ap (λ x. got ++ x) parts in
    (
      d,
      ground (
        arith,
        end,
        whole,
        h,
        take-append_le n (b ∷ bs) rest small,
        drop-append_le n (b ∷ bs) rest small,
      ),
      record {
        taken = same_behind (take n (b ∷ bs)) (drop n (b ∷ bs)) (b ∷ bs) rest d.input parts p.taken;
        given = p.given;
        served = omega (arith, p.served, s, length-drop n (b ∷ bs));
      },
    )
read_loop_exact (interrupted ∷ cs) size got (b ∷ bs) rest o h s =
    let (d, end, p) = read_loop_exact cs size got (b ∷ bs) rest o h s in
    (d, ground (arith, end, h), record { taken = p.taken; given = p.given; served = p.served })
read_loop_exact (ended ∷ cs) size got (b ∷ bs) rest o h s = absurd (omega (arith, s))
read_loop_exact (broken ∷ cs) size got (b ∷ bs) rest o h s = absurd (omega (arith, s))

-- `read_n` reads exactly the bytes that are asked for, however its calls cut them up and however often
-- they are interrupted, provided that they arrive and that enough calls move bytes.
pub read_n_exact :
    (bs rest : List ℕ) (c : Conn)
    → c.input ≡ bs ++ rest
    → length bs ≤ serving c.calls
    → (d : Conn) × (read_n (length bs) c ≡ done bs d) × Passes bs [] c d
unfolding read_n
read_n_exact bs rest c e h =
    let (d, end, p) = read_loop_exact c.calls (length bs) [] bs rest c.output (omega arith) h in
    (
      d,
      ap (λ x. read_loop c.calls (length bs) [] x c.output) e ∙ end,
      record { taken = e ∙ p.taken; given = p.given; served = p.served },
    )
