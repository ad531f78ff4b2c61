-- ===== src/WheelTimer/Agenda.antt =====
-- The wheel as an agenda: for each number of ticks to come, the timers that fire then.
use linux_socket_test.Prelude.{
  ℕ, zero, suc, ◌+◌, ◌/◌, ◌%◌, ◌<◌, ◌≡◌, refl, sym, ap, ◌∙◌, List, [], ◌∷◌, none, ◌==◌,
  if◌then◌else◌, get_or, set, length, length-set, get_or-set_self, get_or-set_ne, arith,
}
use linux_socket_test.Prelude.Int.{ℤ, pos, negsuc}
use linux_socket_test.WheelTimer.{
  TwTimer, TimeWheel, slot_count, ticks_of, new_timer, add_timer, del_timer, unlink, tick_slot,
  tick,
}
use native.Mathlib.Decide.{ℕ_discrete}

pub record IsValid (w : TimeWheel) : Type 0 where
  pub size : length w.slots ≡ slot_count
  pub current : w.cur_slot < slot_count

-- The timers of a slot with a given rotation.
unfoldable pub at_rotation : ℕ → List TwTimer → List ℕ
at_rotation r [] = []
at_rotation r (x ∷ xs) =
    let rest = at_rotation r xs in if x.rotation == r then x.user_data ∷ rest else rest

-- The timers that fire after `d` more ticks.
unfoldable pub due : TimeWheel → ℕ → List ℕ
due w d = at_rotation (d / slot_count) (get_or w.slots ((w.cur_slot + d) % slot_count) [])

tick_slot-fired : (xs : List TwTimer) → (tick_slot xs).0 ≡ at_rotation 0 xs
unfolding tick_slot at_rotation
tick_slot-fired [] = refl
tick_slot-fired (x ∷ xs) = let ih = tick_slot-fired xs in ground arith

tick_slot-kept :
    (r : ℕ) (xs : List TwTimer) → at_rotation r ((tick_slot xs).1) ≡ at_rotation (suc r) xs
unfolding tick_slot at_rotation
tick_slot-kept r [] = refl
tick_slot-kept r (x ∷ xs) = let ih = tick_slot-kept r xs in ground arith

-- What a slot that has been ticked holds for later.
tick-later :
    (w : TimeWheel) (d : ℕ)
    → IsValid w
    → let ts = (w.cur_slot + suc d) % slot_count in
      at_rotation
        (d / slot_count)
        (get_or (set w.slots w.cur_slot ((tick_slot (get_or w.slots w.cur_slot [])).1)) ts [])
      ≡ at_rotation (suc d / slot_count) (get_or w.slots ts [])
tick-later w d v =
    let ts = (w.cur_slot + suc d) % slot_count in
    let kept = (tick_slot (get_or w.slots w.cur_slot [])).1 in
    elim (ℕ_discrete w.cur_slot ts) [
      | yes h ↦
          let turn : suc d / slot_count ≡ suc (d / slot_count) = omega (arith, v.current) in
          rw
            (
              sym h,
              get_or-set_self w.slots w.cur_slot kept [] (omega (arith, v.size, v.current)),
              turn,
            )
            (tick_slot-kept (d / slot_count) (get_or w.slots w.cur_slot []))
      | no h ↦
          let turn : suc d / slot_count ≡ d / slot_count = omega (arith, v.current) in
          rw (get_or-set_ne w.slots w.cur_slot ts kept [] h, turn) refl
    ]

-- On a valid wheel `tick` fires exactly the timers that are due now, in the order of their slot,
-- and moves every other timer one tick nearer; the wheel stays valid.
pub tick_fires :
    (w : TimeWheel)
    → IsValid w
    → ((tick w).0 ≡ due w 0) × IsValid ((tick w).1) × ((d : ℕ) → due ((tick w).1) d ≡ due w (suc d))
unfolding tick due
tick_fires w v =
    let here : (w.cur_slot + 0) % slot_count ≡ w.cur_slot = omega (arith, v.current) in
    (
      tick_slot-fired (get_or w.slots w.cur_slot [])
          ∙ ap (λ i. at_rotation 0 (get_or w.slots i [])) (sym here),
      record {
        size =
            length-set w.slots w.cur_slot ((tick_slot (get_or w.slots w.cur_slot [])).1) ∙ v.size;
        current = omega arith;
      },
      λ d.
          let e : ((w.cur_slot + 1) % slot_count + d) % slot_count
              ≡ (w.cur_slot + suc d) % slot_count =
            omega (arith, v.current) in
          rw e (tick-later w d v),
    )

add-later :
    (w : TimeWheel) (user_data t d : ℕ)
    → IsValid w
    → let ts = (w.cur_slot + t % slot_count) % slot_count in
      let x = new_timer w user_data t in
      let i = (w.cur_slot + d) % slot_count in
      let before = at_rotation (d / slot_count) (get_or w.slots i []) in
      at_rotation (d / slot_count) (get_or (set w.slots ts (x ∷ get_or w.slots ts [])) i [])
      ≡ (if d == t then user_data ∷ before else before)
unfolding at_rotation
add-later w user_data t d v =
    let ts = (w.cur_slot + t % slot_count) % slot_count in
    let x = new_timer w user_data t in
    let i = (w.cur_slot + d) % slot_count in
    elim (ℕ_discrete ts i) [
      | yes h ↦
          rw
            (
              sym h,
              get_or-set_self w.slots ts (x ∷ get_or w.slots ts []) [] (omega (arith, v.size)),
            )
            (ground (arith, v.current, h))
      | no h ↦ rw (get_or-set_ne w.slots ts i (x ∷ get_or w.slots ts []) [] h) (ground (arith, h))
    ]

-- On a valid wheel a timer added with a timeout that is not negative is due, in front of the
-- others, after exactly the number of ticks that its timeout stands for; nothing else changes.
-- A negative timeout adds nothing.
pub add_timer-due :
    (w : TimeWheel) (user_data : ℕ)
    → IsValid w
    → ((timeout : ℕ)
        → let w' = (add_timer w user_data (pos timeout)).1 in
          IsValid w'
          × ((d : ℕ) → due w' d ≡ (if d == ticks_of timeout then user_data ∷ due w d else due w d)))
      × ((n : ℕ) → add_timer w user_data (negsuc n) ≡ (none, w))
unfolding add_timer due
add_timer-due w user_data v = (
  λ timeout.
      let t = ticks_of timeout in
      let ts = (w.cur_slot + t % slot_count) % slot_count in
      let x = new_timer w user_data t in
      (
        record {
          size = length-set w.slots ts (x ∷ get_or w.slots ts []) ∙ v.size;
          current = v.current;
        },
        λ d. add-later w user_data t d v,
      ),
  λ n. refl,
)

-- The wheel after `k` ticks.
abbrev pub after : ℕ → TimeWheel → TimeWheel
after zero w = w
after (suc k) w = after k ((tick w).1)

after-IsValid : (k : ℕ) (w : TimeWheel) → IsValid w → IsValid (after k w)
after-IsValid zero w v = v
after-IsValid (suc k) w v = after-IsValid k ((tick w).1) ((tick_fires w v).1)

after-fires : (k : ℕ) (w : TimeWheel) → IsValid w → (tick (after k w)).0 ≡ due w k
after-fires zero w v = (tick_fires w v).0
after-fires (suc k) w v = after-fires k ((tick w).1) ((tick_fires w v).1) ∙ (tick_fires w v).2 k

-- A timer added to a valid wheel fires on time and once: of the ticks that follow, exactly the one
-- behind as many ticks as its timeout stands for fires it, and every tick fires the other timers
-- as it would have done without it.
pub fires_on_time :
    (w : TimeWheel) (user_data timeout k : ℕ)
    → IsValid w
    → let others = (tick (after k w)).0 in
      (tick (after k ((add_timer w user_data (pos timeout)).1))).0
      ≡ (if k == ticks_of timeout then user_data ∷ others else others)
fires_on_time w user_data timeout k v =
    let (valid, agenda) = (add_timer-due w user_data v).0 timeout in
    rw (after-fires k w v)
      (after-fires k ((add_timer w user_data (pos timeout)).1) valid ∙ agenda k)

-- Putting a slot's own list back.
restored :
    (slots : List (List TwTimer)) (ts i : ℕ) (x : TwTimer)
    → ts < length slots
    → let added = set slots ts (x ∷ get_or slots ts []) in
      get_or (set added ts (unlink x.user_data (get_or added ts []))) i [] ≡ get_or slots i []
unfolding unlink
restored slots ts i x h =
    let own = get_or slots ts [] in
    let added = set slots ts (x ∷ own) in
    let size : ts < length added = omega (arith, length-set slots ts (x ∷ own)) in
    let head : unlink x.user_data (x ∷ own) ≡ own = ground arith in
    rw (get_or-set_self slots ts (x ∷ own) [] h, head)
      (elim (ℕ_discrete ts i) [
        | yes e ↦ rw (sym e) (get_or-set_self added ts own [] size)
        | no n ↦ get_or-set_ne added ts i own [] n ∙ get_or-set_ne slots ts i (x ∷ own) [] n
      ])

-- On a valid wheel a timer that is added and deleted again leaves the agenda as it was; deleting
-- through a null pointer does nothing.
pub del_timer-add_timer :
    (w : TimeWheel) (user_data : ℕ) (timeout : ℤ)
    → IsValid w
    → ((d : ℕ)
        → let (timer, w') = add_timer w user_data timeout in due (del_timer w' timer) d ≡ due w d)
      × (del_timer w none ≡ w)
unfolding add_timer del_timer due
del_timer-add_timer w user_data (negsuc n) v = (λ d. refl, refl)
del_timer-add_timer w user_data (pos timeout) v = (
  λ d.
      let t = ticks_of timeout in
      let ts = (w.cur_slot + t % slot_count) % slot_count in
      let x = new_timer w user_data t in
      ap (at_rotation (d / slot_count))
        (restored w.slots ts ((w.cur_slot + d) % slot_count) x (omega (arith, v.size))),
  refl,
)
