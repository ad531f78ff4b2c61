-- ===== src/Procmon/Keys.antt =====
-- procmon/procmon.cpp: the searches for keys in a query and in a status file.
use linux_socket_test.Prelude.{
  ℕ, ◌≡◌, refl, ap, sym, ◌∙◌, append-nil, List, [], ◌∷◌, ◌++◌, none, some, true, arith,
}
use linux_socket_test.Prelude.Int.{ℤ, fits}
use linux_socket_test.Prelude.Scan.{show_int, Stops, atol-show_int}
use linux_socket_test.Procmon.Host.{strip, behind, get_long}

-- A key is found nowhere in front of `text` before the end of `pre`.
abbrev pub Misses : List ℕ → List ℕ → List ℕ → Type 0
Misses key [] text = Unit
Misses key (c ∷ pre) text = (strip key (c ∷ pre ++ text) ≡ none) × Misses key pre text

strip-append : (key rest : List ℕ) → strip key (key ++ rest) ≡ some rest
unfolding strip
strip-append [] rest = refl
strip-append (k ∷ ks) rest = ground (arith, strip-append ks rest)

behind_here : (key text rest : List ℕ) → strip key text ≡ some rest → behind key text ≡ some rest
unfolding behind
behind_here key [] rest h = h
behind_here key (c ∷ cs) rest h = rw (h, behind) refl

pub behind-none :
    (key text : List ℕ) → strip key [] ≡ none → Misses key text [] → behind key text ≡ none
unfolding behind
behind-none key [] e h = e
behind-none key (c ∷ cs) e h =
    let here : strip key (c ∷ cs) ≡ none =
      ap (λ x. strip key (c ∷ x)) (sym (append-nil cs)) ∙ h.0 in
    rw (here, behind) (behind-none key cs e h.1)

pub behind-append :
    (key pre rest : List ℕ)
    → Misses key pre (key ++ rest)
    → behind key (pre ++ (key ++ rest)) ≡ some rest
unfolding behind
behind-append key [] rest h = behind_here key (key ++ rest) rest (strip-append key rest)
behind-append key (c ∷ pre) rest h = rw (h.0, behind) (behind-append key pre rest h.1)

-- The number behind the first place of the key.
pub get_long-behind :
    (key pre : List ℕ) (z : ℤ) (rest : List ℕ)
    → fits 63 z ≡ true
    → Stops rest
    → Misses key pre (key ++ (show_int z ++ rest))
    → get_long (pre ++ (key ++ (show_int z ++ rest))) key ≡ z
unfolding get_long
get_long-behind key pre z rest small stops h =
    rw (behind-append key pre (show_int z ++ rest) h, get_long) (atol-show_int z rest small stops)
