-- ===== src/TimerServer/Moves.antt =====
-- Extending and dropping a connection, as operations on the sorted list of timers.
use linux_socket_test.Prelude.{
  ℕ, ◌≤◌, ◌≡◌, refl, ap, ap₂, sym, ◌∙◌, List, [], ◌∷◌, ◌++◌, none, some, arith,
}
use mathlib.Core.Path.{subst}
use native.Mathlib.Decide.{ℕ_discrete}
use linux_socket_test.ListTimer.{UtilTimer, add_after, locate, adjust_timer, del_timer}
use linux_socket_test.ListTimer.Sorted.{IsSortedFrom, add_timer-add_after}
use linux_socket_test.ListTimer.Adjust.{adjust_timer_moves, del_timer_removes}
use linux_socket_test.TimerServer.{set_expire}
use linux_socket_test.TimerServer.Times.{expire_of, remove, del_timer-remove}

-- Where the timer of a descriptor stands.
pub record Found (fd e : ℕ) (ts : List UtilTimer) : Type 0 where
  pub before : List UtilTimer
  pub timer : UtilTimer
  pub after : List UtilTimer
  pub split : ts ≡ before ++ timer ∷ after
  pub owner : timer.user_data ≡ fd
  pub expires : timer.expire ≡ e
  pub first : locate fd before ≡ none
  pub located : locate fd ts ≡ some (before, timer, after)

pub expire_of-Found : (fd e : ℕ) (ts : List UtilTimer) → expire_of fd ts ≡ some e → Found fd e ts
unfolding expire_of locate
expire_of-Found fd e [] h = absurd (ground (arith, h))
expire_of-Found fd e (x ∷ xs) h = elim (ℕ_discrete x.user_data fd) [
  | yes same ↦ record {
    before = [];
    timer = x;
    after = xs;
    split = refl;
    owner = same;
    expires = ground (arith, h, same);
    first = refl;
    located = ground (arith, same);
  }
  | no other ↦
      let f = expire_of-Found fd e xs (ground (arith, h, other)) in
      record {
        before = x ∷ f.before;
        timer = f.timer;
        after = f.after;
        split = ap (λ l. x ∷ l) f.split;
        owner = f.owner;
        expires = f.expires;
        first = ground (arith, f.first, other);
        located = ground (arith, f.located, other);
      }
]

set_expire-append :
    (fd e : ℕ) (before : List UtilTimer) (t : UtilTimer) (after : List UtilTimer)
    → t.user_data ≡ fd
    → locate fd before ≡ none
    → set_expire fd e (before ++ t ∷ after) ≡ before ++ (record t { expire = e }) ∷ after
unfolding set_expire locate
set_expire-append fd e [] t after same h = ground (arith, same)
set_expire-append fd e (x ∷ before) t after same h =
    ground (arith, h, set_expire-append fd e before t after same)

-- The timer of `fd` is taken out, and a timer with the new time put in.
abbrev pub IsMoved : ℕ → ℕ → List UtilTimer → Type 0
IsMoved e fd ts =
    let adjusted = adjust_timer (some fd) (set_expire fd e ts) in
    (adjusted ≡ add_after (record { expire = e; user_data = fd }) (remove fd ts))
    × IsSortedFrom 0 adjusted

adjust_timer-IsMoved :
    (before : List UtilTimer) (t : UtilTimer) (after : List UtilTimer) (e : ℕ)
    → locate t.user_data before ≡ none
    → IsSortedFrom 0 (before ++ t ∷ after)
    → t.expire ≤ e
    → IsMoved e t.user_data (before ++ t ∷ after)
adjust_timer-IsMoved before t after e h s k =
    let moves = adjust_timer_moves before t after e h s k in
    let removed = del_timer-remove t.user_data (before ++ t ∷ after) in
    let set = set_expire-append t.user_data e before t after refl h in
    let there =
      add_timer-add_after (record { expire = e; user_data = t.user_data })
        (del_timer (some t.user_data) (before ++ t ∷ after)) in
    rw set (
      moves.0 ∙ there ∙ ap (add_after (record { expire = e; user_data = t.user_data })) removed,
      moves.1,
    )

pub set_expire-IsMoved :
    (fd old e : ℕ) (ts : List UtilTimer)
    → expire_of fd ts ≡ some old
    → IsSortedFrom 0 ts
    → old ≤ e
    → IsMoved e fd ts
set_expire-IsMoved fd old e ts h s k =
    let f = expire_of-Found fd old ts h in
    let at =
      adjust_timer-IsMoved f.before f.timer f.after e
        (ap (λ d. locate d f.before) f.owner ∙ f.first) (subst (IsSortedFrom 0) f.split s)
        (omega (arith, f.expires, k)) in
    subst (IsMoved e fd) (sym f.split)
      (subst (λ d. IsMoved e d (f.before ++ f.timer ∷ f.after)) f.owner at)

pub remove-IsSorted :
    (fd e : ℕ) (ts : List UtilTimer)
    → expire_of fd ts ≡ some e
    → IsSortedFrom 0 ts
    → IsSortedFrom 0 (remove fd ts)
remove-IsSorted fd e ts h s =
    let f = expire_of-Found fd e ts h in
    let left =
      del_timer_removes f.before f.timer f.after (ap (λ d. locate d f.before) f.owner ∙ f.first)
        (subst (IsSortedFrom 0) f.split s) in
    let same : remove fd ts ≡ f.before ++ f.after =
      sym (del_timer-remove fd ts)
      ∙ ap₂ (λ d l. del_timer (some d) l) (sym f.owner) f.split
      ∙ left.0 in
    subst (IsSortedFrom 0) (sym same) (left.1)
