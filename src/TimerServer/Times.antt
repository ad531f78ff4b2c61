-- ===== src/TimerServer/Times.antt =====
-- When the timer of a descriptor expires, after each operation on the list.
use linux_socket_test.Prelude.{
  ℕ, ◌≡◌, refl, List, [], ◌∷◌, Option, none, some, Bool, true, false, ◌&&◌, leb, ◌==◌,
  if◌then◌else◌, arith,
}
use linux_socket_test.ListTimer.{UtilTimer, add_after, locate, del_timer}
use linux_socket_test.ListTimer.Expiry.{pending}

unfoldable pub expire_of : ℕ → List UtilTimer → Option ℕ
expire_of fd [] = none
expire_of fd (x ∷ xs) =
    let rest = expire_of fd xs in if x.user_data == fd then some x.expire else rest

abbrev pub is_none : Option ℕ → Bool
is_none none = true
is_none (some e) = false

-- Each descriptor has one timer at most.
unfoldable pub are_unique : List UtilTimer → Bool
are_unique [] = true
are_unique (x ∷ xs) = is_none (expire_of x.user_data xs) && are_unique xs

unfoldable pub remove : ℕ → List UtilTimer → List UtilTimer
remove fd [] = []
remove fd (x ∷ xs) = let rest = remove fd xs in if x.user_data == fd then xs else x ∷ rest

pub del_timer-remove : (fd : ℕ) (ts : List UtilTimer) → del_timer (some fd) ts ≡ remove fd ts
unfolding del_timer remove locate
del_timer-remove fd [] = refl
del_timer-remove fd (x ∷ xs) = ground (arith, del_timer-remove fd xs)

pub expire_of-add_after :
    (fd : ℕ) (t : UtilTimer) (ts : List UtilTimer)
    → expire_of t.user_data ts ≡ none
    → expire_of fd (add_after t ts) ≡ (if t.user_data == fd then some t.expire else expire_of fd ts)
unfolding expire_of add_after
expire_of-add_after fd t [] h = refl
expire_of-add_after fd t (x ∷ xs) h = ground (arith, h, expire_of-add_after fd t xs)

pub are_unique-add_after :
    (t : UtilTimer) (ts : List UtilTimer)
    → expire_of t.user_data ts ≡ none
    → are_unique ts ≡ true
    → are_unique (add_after t ts) ≡ true
unfolding are_unique add_after expire_of
are_unique-add_after t [] h u = ground (arith, h)
are_unique-add_after t (x ∷ xs) h u =
    ground (arith, h, u, are_unique-add_after t xs, expire_of-add_after x.user_data t xs)

pub expire_of-remove :
    (fd x : ℕ) (ts : List UtilTimer)
    → are_unique ts ≡ true
    → expire_of fd (remove x ts) ≡ (if x == fd then none else expire_of fd ts)
unfolding expire_of remove are_unique
expire_of-remove fd x [] u = ground arith
expire_of-remove fd x (t ∷ ts) u = ground (arith, u, expire_of-remove fd x ts)

pub are_unique-remove :
    (x : ℕ) (ts : List UtilTimer) → are_unique ts ≡ true → are_unique (remove x ts) ≡ true
unfolding remove are_unique expire_of
are_unique-remove x [] u = refl
are_unique-remove x (t ∷ ts) u =
    ground (arith, u, are_unique-remove x ts, expire_of-remove t.user_data x ts)

pub expire_of-pending :
    (fd cur : ℕ) (ts : List UtilTimer)
    → are_unique ts ≡ true
    → expire_of fd (pending cur ts)
      ≡ elim (expire_of fd ts) [ none ↦ none | some e ↦ if leb e cur then none else some e ]
unfolding expire_of pending are_unique
expire_of-pending fd cur [] u = refl
expire_of-pending fd cur (t ∷ ts) u = ground (arith, u, expire_of-pending fd cur ts)

pub are_unique-pending :
    (cur : ℕ) (ts : List UtilTimer) → are_unique ts ≡ true → are_unique (pending cur ts) ≡ true
unfolding pending are_unique expire_of
are_unique-pending cur [] u = refl
are_unique-pending cur (t ∷ ts) u =
    ground (arith, u, are_unique-pending cur ts, expire_of-pending t.user_data cur ts)
