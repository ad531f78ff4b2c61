-- ===== src/Deadlock/Codes.antt =====
-- deadlock.cpp: states as lists of numbers, to compare them.
use linux_socket_test.Prelude.{
  ℕ, zero, suc, ◌≡◌, refl, sym, ap, ◌∙◌, List, [], ◌∷◌, Bool, true, eq_bytes, eq_bytes→eq,
}
use linux_socket_test.Deadlock.{
  Holder, free, parent, child, Pc, lock_first, bump, lock_second, add, unlock_second, unlock_first,
  finished, State, init,
}

-- A state as a list of numbers, and back.
abbrev holder_code : Holder → ℕ
holder_code free = 0
holder_code parent = 1
holder_code child = 2

abbrev holder_of : ℕ → Holder
holder_of zero = free
holder_of (suc zero) = parent
holder_of (suc (suc n)) = child

holder_of-code : (h : Holder) → holder_of (holder_code h) ≡ h
holder_of-code free = refl
holder_of-code parent = refl
holder_of-code child = refl

abbrev pc_code : Pc → ℕ
pc_code lock_first = 0
pc_code bump = 1
pc_code lock_second = 2
pc_code add = 3
pc_code unlock_second = 4
pc_code unlock_first = 5
pc_code finished = 6

abbrev pc_of : ℕ → Pc
pc_of zero = lock_first
pc_of (suc zero) = bump
pc_of (suc (suc zero)) = lock_second
pc_of (suc (suc (suc zero))) = add
pc_of (suc (suc (suc (suc zero)))) = unlock_second
pc_of (suc (suc (suc (suc (suc zero))))) = unlock_first
pc_of (suc (suc (suc (suc (suc (suc n)))))) = finished

pc_of-code : (p : Pc) → pc_of (pc_code p) ≡ p
pc_of-code lock_first = refl
pc_of-code bump = refl
pc_of-code lock_second = refl
pc_of-code add = refl
pc_of-code unlock_second = refl
pc_of-code unlock_first = refl
pc_of-code finished = refl

abbrev code : State → List ℕ
code s =
    s.a
    ∷ s.b
    ∷ holder_code s.mutex_a
    ∷ holder_code s.mutex_b
    ∷ pc_code s.main_pc
    ∷ pc_code s.another_pc
    ∷ []

abbrev decode : List ℕ → State
decode (a ∷ b ∷ m ∷ n ∷ p ∷ q ∷ []) = record {
  a = a;
  b = b;
  mutex_a = holder_of m;
  mutex_b = holder_of n;
  main_pc = pc_of p;
  another_pc = pc_of q;
}
decode _ = init

decode-code : (s : State) → decode (code s) ≡ s
decode-code s =
    rw
      (
        holder_of-code s.mutex_a,
        holder_of-code s.mutex_b,
        pc_of-code s.main_pc,
        pc_of-code s.another_pc,
      )
      refl

abbrev pub same : State → State → Bool
same s t = eq_bytes (code s) (code t)

pub same→eq : (s t : State) → same s t ≡ true → s ≡ t
same→eq s t h = sym (decode-code s) ∙ ap decode (eq_bytes→eq (code s) (code t) h) ∙ decode-code t
