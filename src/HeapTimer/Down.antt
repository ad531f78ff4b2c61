-- ===== src/HeapTimer/Down.antt =====
-- min_heap_timer.h, `percolate_down`: a timer sinks from its hole to its place.
use linux_socket_test.Prelude.{
  ℕ, zero, suc, ◌+◌, ◌*◌, ◌-◌, ◌≤◌, ◌<◌, ◌≡◌, ◌≢◌, ap, ◌∙◌, none, some, arith, length, set,
  get_or-set_ne, Option-cases, inl, inr, length-set,
}
use mathlib.Core.Path.{subst}
use linux_socket_test.HeapTimer.{
  HeapTimer, Cells, cell, parent, store, smaller_child, percolate_loop, percolate_down,
}
use linux_socket_test.HeapTimer.Order.{time, key, total-set, key-set, filled-set, Places}
use native.Mathlib.Decide.{ℕ_discrete, dec_le, dec_lt}

-- With the timer in the hole, only the edges below the hole may be out of order.
pub record DownInv (lo : ℕ) (a : Cells) (n hole : ℕ) (timer : HeapTimer) : Type 0 where
  pub inside : hole < n
  pub room : n ≤ length a
  pub filled : (i : ℕ) → i < n → i ≢ hole → cell a i ≢ none
  pub edges :
      (c : ℕ)
      → 0 < c
      → c < n
      → lo ≤ parent c
      → c ≢ hole
      → parent c ≢ hole
      → key a (parent c) ≤ key a c
  pub above : 0 < hole → lo ≤ parent hole → key a (parent hole) ≤ timer.expire
  pub bridged :
      (c : ℕ)
      → 0 < c
      → c < n
      → parent c ≡ hole
      → 0 < hole
      → lo ≤ parent hole
      → key a (parent hole) ≤ key a c

-- `m` is a child of the hole that expires no later than the other, and `t` is in it.
record IsSmallerChild (a : Cells) (n hole m : ℕ) (t : HeapTimer) : Type 0 where
  pub inside : m < n
  pub child : parent m ≡ hole
  pub positive : 0 < m
  pub there : cell a m ≡ some t
  pub least : (c : ℕ) → 0 < c → c < n → parent c ≡ hole → t.expire ≤ key a c

least_child :
    (a : Cells) (hole m c : ℕ)
    → m ≤ key a (hole * 2 + 1)
    → m ≤ key a (hole * 2 + 1 + 1)
    → 0 < c
    → parent c ≡ hole
    → m ≤ key a c
least_child a hole m c hl hr p e = elim (ℕ_discrete c (hole * 2 + 1)) [
  | yes l ↦ rw l hl
  | no n ↦ let r : c ≡ hole * 2 + 1 + 1 = omega arith in rw r hr
]

smaller_child-IsSmallerChild :
    (lo : ℕ) (a : Cells) (n hole : ℕ) (timer : HeapTimer)
    → DownInv lo a n hole timer
    → hole * 2 + 2 ≤ n
    → (m : ℕ) × (t : HeapTimer) × (smaller_child a n hole ≡ some m) × IsSmallerChild a n hole m t
unfolding smaller_child
smaller_child-IsSmallerChild lo a n hole timer v h = elim (Option-cases (cell a (hole * 2 + 1))) [
  | inl e ↦ absurd (v.filled (hole * 2 + 1) (omega arith) (omega arith) e)
  | inr (l, el) ↦
      let kl : key a (hole * 2 + 1) ≡ l.expire = ap time el in
      elim (dec_le (hole * 2 + 1 + 2) n) [
        | no only ↦ (
          hole * 2 + 1,
          l,
          ground (arith, only),
          record {
            inside = omega arith;
            child = omega arith;
            positive = omega arith;
            there = el;
            least = λ c p q r. let e : c ≡ hole * 2 + 1 = omega arith in rw e (omega (arith, kl));
          },
        )
        | yes both ↦ elim (Option-cases (cell a (hole * 2 + 1 + 1))) [
          | inl e ↦ absurd (v.filled (hole * 2 + 1 + 1) (omega arith) (omega arith) e)
          | inr (r, er) ↦
              let kr : key a (hole * 2 + 1 + 1) ≡ r.expire = ap time er in
              let least_of =
                λ (m : ℕ) (hl : m ≤ l.expire) (hr : m ≤ r.expire) (c : ℕ) (p : 0 < c) (q : c < n)
                    (e : parent c ≡ hole).
                  (least_child a hole m c (omega (arith, kl)) (omega (arith, kr)) p e) in
              elim (dec_lt r.expire l.expire) [
                | yes right ↦ (
                  hole * 2 + 1 + 1,
                  r,
                  ground (arith, both, el, er, right),
                  record {
                    inside = omega arith;
                    child = omega arith;
                    positive = omega arith;
                    there = er;
                    least = least_of r.expire (omega arith) (omega arith);
                  },
                )
                | no left ↦ (
                  hole * 2 + 1,
                  l,
                  ground (arith, both, el, er, left),
                  record {
                    inside = omega arith;
                    child = omega arith;
                    positive = omega arith;
                    there = el;
                    least = least_of l.expire (omega arith) (omega arith);
                  },
                )
              ]
        ]
      ]
]

settled :
    (lo : ℕ) (a : Cells) (n hole : ℕ) (timer : HeapTimer)
    → DownInv lo a n hole timer
    → ((c : ℕ) → 0 < c → c < n → parent c ≡ hole → timer.expire ≤ key a c)
    → Places lo n a (cell a hole) (some timer) (store a hole (some timer))
unfolding store
settled lo a n hole timer v h =
    let k : hole < length a = omega (arith, v.inside, v.room) in
    let at = λ (i : ℕ). key-set a hole i (some timer) k in
    record {
      cells = set a hole (some timer);
      returned = ground (arith, k);
      size = length-set a hole (some timer);
      order = record {
        room = rw (length-set a hole (some timer)) v.room;
        filled = λ i l. filled-set a hole i timer k (v.filled i l);
        edges = λ c p q r. ground (arith, at c, at (parent c), v.edges c, v.above, h c);
      };
      same = λ f. total-set f n a hole (some timer) v.inside k;
    }

-- The child rises into the hole, and the hole sinks.
sink :
    (lo : ℕ) (a : Cells) (n hole m : ℕ) (timer c : HeapTimer)
    → DownInv lo a n hole timer
    → IsSmallerChild a n hole m c
    → c.expire < timer.expire
    → DownInv lo (set a hole (some c)) n m timer
sink lo a n hole m timer c v s lt =
    let k : hole < length a = omega (arith, v.inside, v.room) in
    let at = λ (i : ℕ). key-set a hole i (some c) k in
    let km : key a m ≡ c.expire = ap time s.there in
    record {
      inside = s.inside;
      room = rw (length-set a hole (some c)) v.room;
      filled = λ i l x. filled-set a hole i c k (v.filled i l);
      edges =
          λ i p q r x y. ground (arith, at i, at (parent i), v.edges i, v.bridged m, s.least i, km);
      above = λ p q. ground (arith, at (parent m), s.child, lt);
      bridged = λ i p q r x y. ground (arith, at i, at (parent m), v.edges i, s.child, km);
    }

percolate_loop-Places :
    (fuel lo : ℕ) (a : Cells) (n hole : ℕ) (timer : HeapTimer)
    → n - hole < fuel
    → DownInv lo a n hole timer
    → Places lo n a (cell a hole) (some timer) (percolate_loop fuel a n hole (some timer))
unfolding percolate_loop store
percolate_loop-Places zero lo a n hole timer h v = absurd (omega arith)
percolate_loop-Places (suc fuel) lo a n hole timer h v = elim (dec_le (hole * 2 + 2) n) [
  | no leaf ↦
      let e : percolate_loop (suc fuel) a n hole (some timer) ≡ store a hole (some timer) =
        ground (arith, leaf) in
      rw e (settled lo a n hole timer v (λ c p q r. absurd (omega arith)))
  | yes inner ↦
      let (m, c, found, s) = smaller_child-IsSmallerChild lo a n hole timer v inner in
      elim (dec_lt c.expire timer.expire) [
        | no le ↦
            let e : percolate_loop (suc fuel) a n hole (some timer) ≡ store a hole (some timer) =
              ground (arith, inner, found, s.there, le) in
            rw e (settled lo a n hole timer v (λ i p q r. omega (arith, s.least i p q r)))
        | yes lt ↦
            let k : hole < length a = omega (arith, v.inside, v.room) in
            let b = set a hole (some c) in
            let e : percolate_loop (suc fuel) a n hole (some timer)
                ≡ percolate_loop fuel b n m (some timer) =
              ground (arith, inner, found, s.there, lt, k) in
            let down = sink lo a n hole m timer c v s lt in
            let deeper : hole < m = omega (arith, s.child, s.positive) in
            let ih = percolate_loop-Places fuel lo b n m timer (omega (arith, s.inside)) down in
            let was : cell b m ≡ some c =
              get_or-set_ne a hole m (some c) none (omega arith) ∙ s.there in
            rw e (record {
              cells = ih.cells;
              returned = ih.returned;
              size = ih.size ∙ length-set a hole (some c);
              order = ih.order;
              same = λ f.
                  let step = total-set f n a hole (some c) v.inside k in
                  let w : f (cell b m) ≡ f (some c) = ap f was in omega (arith, ih.same f, step, w);
            })
      ]
]

-- `percolate_down` puts the timer at a position above two heaps in its place below.
pub percolate_down-Places :
    (lo : ℕ) (a : Cells) (n hole : ℕ) (timer : HeapTimer)
    → cell a hole ≡ some timer
    → DownInv lo a n hole timer
    → Places lo n a (some timer) (some timer) (percolate_down a n hole)
unfolding percolate_down
percolate_down-Places lo a n hole timer e v =
    let p = percolate_loop-Places (n + 1) lo a n hole timer (omega arith) v in
    rw (percolate_down, e)
      (subst (λ x. Places lo n a x (some timer) (percolate_loop (n + 1) a n hole (some timer))) e p)
