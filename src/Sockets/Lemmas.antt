-- ===== src/Sockets/Lemmas.antt =====
-- What the calls do in a sequence of calls.
use linux_socket_test.Prelude.{ℕ, ◌≡◌, ◌≢◌, refl, List, ◌∷◌, Option, none, some, arith}
use linux_socket_test.Sockets.{
  Socket, Kernel, died, Calls, ◌>>=◌, set_entry, make, change, connection, accepts, accept, exit,
  or_die,
}

abbrev pub kernel : List (Option ℕ) → (ℕ → Option Socket) → Kernel
kernel rest t = record { answers = rest; table = t }

-- An entry that has just been set, and one that has not.
pub entry_set : (t : ℕ → Option Socket) (fd : ℕ) (s : Option Socket) → set_entry t fd s fd ≡ s
entry_set t fd s = ground arith

pub entry_kept :
    (t : ℕ → Option Socket) (fd n : ℕ) (s : Option Socket) → n ≢ fd → set_entry t fd s n ≡ t n
entry_kept t fd n s h = ground (arith, h)

module _ {A : Type 0} where
  pub make-then :
      (s : Socket) (f : ℕ → Calls A) (fd : ℕ) (rest : List (Option ℕ)) (t : ℕ → Option Socket)
      → (or_die (make s) >>= f) (kernel (some fd ∷ rest) t)
        ≡ f fd (kernel rest (set_entry t fd (some s)))
  unfolding ◌>>=◌ or_die make
  make-then s f fd rest t = refl

  pub make-dies :
      (s : Socket) (f : ℕ → Calls A) (rest : List (Option ℕ)) (t : ℕ → Option Socket)
      → (or_die (make s) >>= f) (kernel (none ∷ rest) t) ≡ died (kernel rest t)
  unfolding ◌>>=◌ or_die make exit
  make-dies s f rest t = refl

  pub change-then :
      (g : Socket → Option Socket) (f : ℕ → Calls A) (fd r : ℕ) (s s' : Socket)
      (rest : List (Option ℕ)) (t : ℕ → Option Socket)
      → t fd ≡ some s
      → g s ≡ some s'
      → (or_die (change g fd) >>= f) (kernel (some r ∷ rest) t)
        ≡ f r (kernel rest (set_entry t fd (some s')))
  unfolding ◌>>=◌ or_die change
  change-then g f fd r s s' rest t e h = rw (e, ◌>>=◌, or_die, change) (rw h refl)

  pub change-dies :
      (g : Socket → Option Socket) (f : ℕ → Calls A) (fd : ℕ) (rest : List (Option ℕ))
      (t : ℕ → Option Socket)
      → (or_die (change g fd) >>= f) (kernel (none ∷ rest) t) ≡ died (kernel rest t)
  unfolding ◌>>=◌ or_die change exit
  change-dies g f fd rest t = refl

  pub accept-then :
      (f : ℕ → Calls A) (fd r : ℕ) (s s' : Socket) (rest : List (Option ℕ)) (t : ℕ → Option Socket)
      → t fd ≡ some s
      → accepts s ≡ some s'
      → (or_die (accept fd) >>= f) (kernel (some r ∷ rest) t)
        ≡ f r (kernel rest (set_entry t r (some connection)))
  unfolding ◌>>=◌ or_die accept make
  accept-then f fd r s s' rest t e h = rw (e, ◌>>=◌, or_die, accept) (rw h refl)

  pub accept-dies :
      (f : ℕ → Calls A) (fd : ℕ) (s s' : Socket) (rest : List (Option ℕ)) (t : ℕ → Option Socket)
      → t fd ≡ some s
      → accepts s ≡ some s'
      → (or_die (accept fd) >>= f) (kernel (none ∷ rest) t) ≡ died (kernel rest t)
  unfolding ◌>>=◌ or_die accept make exit
  accept-dies f fd s s' rest t e h = rw (e, ◌>>=◌, or_die, accept) (rw h refl)
