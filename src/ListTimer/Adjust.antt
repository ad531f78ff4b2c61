-- ===== src/ListTimer/Adjust.antt =====
-- list_timer.h: moving a timer whose time is extended, and deleting a timer.
use linux_socket_test.Prelude.{
  ℕ, ◌≤◌, ◌≡◌, ◌≢◌, refl, ap, sym, ◌∙◌, List, [], ◌∷◌, ◌++◌, none, some, arith, Option-cases, inl,
  inr,
}
use linux_socket_test.ListTimer.{
  UtilTimer, add_after, add_timer, locate, adjust_node, adjust_timer, del_timer,
}
use linux_socket_test.ListTimer.Sorted.{
  IsSortedFrom, cons, lower, add_after-IsSorted, add_timer-add_after,
}
use native.Mathlib.Decide.{ℕ_discrete}

adjust_node-add_after :
    (before : List UtilTimer) (timer : UtilTimer) (after : List UtilTimer)
    → adjust_node before timer after ≡ before ++ add_after timer after
unfolding adjust_node add_after
adjust_node-add_after before timer [] = refl
adjust_node-add_after before timer (tmp ∷ rest) = ground arith

head_le : {m : ℕ} (t : UtilTimer) (ts : List UtilTimer) → IsSortedFrom m (t ∷ ts) → m ≤ t.expire
head_le t ts (cons _ h rest) = h

tail-IsSorted :
    {m : ℕ} (t : UtilTimer) (ts : List UtilTimer)
    → IsSortedFrom m (t ∷ ts)
    → IsSortedFrom t.expire ts
tail-IsSorted t ts (cons _ h rest) = rest

middle_le :
    {m : ℕ} (before : List UtilTimer) (t : UtilTimer) (after : List UtilTimer)
    → IsSortedFrom m (before ++ t ∷ after)
    → m ≤ t.expire
middle_le [] t after s = head_le t after s
middle_le (x ∷ before) t after s =
    let l = middle_le before t after (tail-IsSorted x (before ++ t ∷ after) s) in
    let k = head_le x (before ++ t ∷ after) s in omega arith

-- A sorted list without one of its timers is sorted.
without-IsSorted :
    {m : ℕ} (before : List UtilTimer) (t : UtilTimer) (after : List UtilTimer)
    → IsSortedFrom m (before ++ t ∷ after)
    → IsSortedFrom m (before ++ after)
without-IsSorted [] t after s = lower (head_le t after s) (tail-IsSorted t after s)
without-IsSorted (x ∷ before) t after s =
    cons x (head_le x (before ++ t ∷ after) s)
      (without-IsSorted before t after (tail-IsSorted x (before ++ t ∷ after) s))

-- Behind timers that do not expire later, the place is looked for in what follows them.
add_after-append :
    (timer : UtilTimer) {m : ℕ} (before : List UtilTimer) (old : UtilTimer) (after : List UtilTimer)
    → old.expire ≤ timer.expire
    → IsSortedFrom m (before ++ old ∷ after)
    → add_after timer (before ++ after) ≡ before ++ add_after timer after
unfolding add_after
add_after-append timer [] old after h s = refl
add_after-append timer (t ∷ before) old after h s =
    let rest = tail-IsSorted t (before ++ old ∷ after) s in
    let l = middle_le before old after rest in
    let ih = add_after-append timer before old after h rest in ground arith

absent_head :
    (user_data : ℕ) (x : UtilTimer) (xs : List UtilTimer)
    → locate user_data (x ∷ xs) ≡ none
    → (x.user_data ≢ user_data) × (locate user_data xs ≡ none)
unfolding locate
absent_head user_data x xs h = elim (ℕ_discrete x.user_data user_data) [
  | yes e ↦ absurd (ground (arith, h, e))
  | no n ↦ elim (Option-cases (locate user_data xs)) [
    | inl e ↦ (n, e)
    | inr (r, e) ↦ absurd (ground (arith, h, e, n))
  ]
]

locate-append :
    (t : UtilTimer) (before after : List UtilTimer)
    → locate t.user_data before ≡ none
    → locate t.user_data (before ++ t ∷ after) ≡ some (before, t, after)
unfolding locate
locate-append t [] after h = ground arith
locate-append t (x ∷ before) after h =
    let (n, rest) = absent_head t.user_data x before h in
    let ih = locate-append t before after rest in rw ih (ground (arith, n))

-- Deleting the only timer of an owner from a sorted list takes exactly that timer out, and keeps
-- the list sorted; deleting through a null pointer does nothing.
pub del_timer_removes :
    (before : List UtilTimer) (t : UtilTimer) (after : List UtilTimer)
    → locate t.user_data before ≡ none
    → IsSortedFrom 0 (before ++ t ∷ after)
    → (del_timer (some t.user_data) (before ++ t ∷ after) ≡ before ++ after)
      × IsSortedFrom 0 (before ++ after)
      × (del_timer none (before ++ t ∷ after) ≡ before ++ t ∷ after)
unfolding del_timer
del_timer_removes before t after h s =
    (rw (del_timer, locate-append t before after h) refl, without-IsSorted before t after s, refl)

-- Adjusting a timer of a sorted list whose time has been extended is the same as deleting it and
-- adding it again with the new time, and the list is sorted again.
pub adjust_timer_moves :
    (before : List UtilTimer) (t : UtilTimer) (after : List UtilTimer) (e : ℕ)
    → locate t.user_data before ≡ none
    → IsSortedFrom 0 (before ++ t ∷ after)
    → t.expire ≤ e
    → let t' = record t { expire = e } in
      let adjusted = adjust_timer (some t.user_data) (before ++ t' ∷ after) in
      (adjusted ≡ add_timer (some t') (del_timer (some t.user_data) (before ++ t ∷ after)))
      × IsSortedFrom 0 adjusted
unfolding adjust_timer
adjust_timer_moves before t after e h s k =
    let t' : UtilTimer = record { expire = e; user_data = t.user_data } in
    let removed = (del_timer_removes before t after h s).0 in
    let there : adjust_timer (some t.user_data) (before ++ t' ∷ after)
        ≡ add_after t' (before ++ after) =
      rw (adjust_timer, locate-append t' before after h)
        (adjust_node-add_after before t' after ∙ sym (add_after-append t' before t after k s)) in
    (
      there
          ∙ sym (add_timer-add_after t' (before ++ after))
          ∙ ap (add_timer (some t')) (sym removed),
      rw there (add_after-IsSorted t' (omega arith) (without-IsSorted before t after s)),
    )
