-- ===== src/Prelude/Slices.antt =====
-- Slices of lists: how `take`, `drop`, `set` and `++` meet.
use Prim.Native.Nat.{ℕ, zero, suc, ◌+◌, ◌-◌, ◌≤◌, ◌<◌}
use mathlib.Core.Path.{◌≡◌, refl, ap, sym, ◌∙◌}
use mathlib.Core.Logic.{◌≢◌}
use mathlib.Core.List.{List, [], ◌∷◌, ◌++◌}
use native.Mathlib.Omega.{arith}
use linux_socket_test.Prelude.Lists.{
  length, get_or, set, take, drop, length-append, length-take, length-drop,
}

module _ {ℓ} {A : Type ℓ} where
  pub take-append_le : (n : ℕ) (xs ys : List A) → n ≤ length xs → take n (xs ++ ys) ≡ take n xs
  take-append_le zero xs ys h = refl
  take-append_le (suc n) [] ys h = absurd (omega arith)
  take-append_le (suc n) (x ∷ xs) ys h = ap (◌∷◌ x) (take-append_le n xs ys (omega arith))

  pub take-append_ge :
      (n : ℕ) (xs ys : List A) → length xs ≤ n → take n (xs ++ ys) ≡ xs ++ take (n - length xs) ys
  take-append_ge n [] ys h = ap (λ k. take k ys) (omega arith)
  take-append_ge zero (x ∷ xs) ys h = absurd (omega arith)
  take-append_ge (suc n) (x ∷ xs) ys h = ap (◌∷◌ x) (
      let e : suc n - suc (length xs) ≡ n - length xs = omega arith in
      rw e (take-append_ge n xs ys (omega arith)))

  pub drop-append_le :
      (n : ℕ) (xs ys : List A) → n ≤ length xs → drop n (xs ++ ys) ≡ drop n xs ++ ys
  drop-append_le zero xs ys h = refl
  drop-append_le (suc n) [] ys h = absurd (omega arith)
  drop-append_le (suc n) (x ∷ xs) ys h = drop-append_le n xs ys (omega arith)

  pub take_whole : (xs : List A) → take (length xs) xs ≡ xs
  take_whole [] = refl
  take_whole (x ∷ xs) = ap (◌∷◌ x) (take_whole xs)

  pub drop_whole : (xs : List A) → drop (length xs) xs ≡ []
  drop_whole [] = refl
  drop_whole (x ∷ xs) = drop_whole xs

  pub take_ge : (n : ℕ) (xs : List A) → length xs ≤ n → take n xs ≡ xs
  take_ge zero [] h = refl
  take_ge zero (x ∷ xs) h = absurd (omega arith)
  take_ge (suc n) [] h = refl
  take_ge (suc n) (x ∷ xs) h = ap (◌∷◌ x) (take_ge n xs (omega arith))

  pub drop_ge : (n : ℕ) (xs : List A) → length xs ≤ n → drop n xs ≡ []
  drop_ge zero [] h = refl
  drop_ge zero (x ∷ xs) h = absurd (omega arith)
  drop_ge (suc n) [] h = refl
  drop_ge (suc n) (x ∷ xs) h = drop_ge n xs (omega arith)

  pub take-length-append : (xs ys : List A) → take (length xs) (xs ++ ys) ≡ xs
  take-length-append [] ys = refl
  take-length-append (x ∷ xs) ys = ap (◌∷◌ x) (take-length-append xs ys)

  pub drop-length-append : (xs ys : List A) → drop (length xs) (xs ++ ys) ≡ ys
  drop-length-append [] ys = refl
  drop-length-append (x ∷ xs) ys = drop-length-append xs ys

  pub take_cons : (n : ℕ) (x : A) (xs : List A) → n ≢ 0 → take n (x ∷ xs) ≡ x ∷ take (n - 1) xs
  take_cons zero x xs h = absurd (h refl)
  take_cons (suc n) x xs h = let e : suc n - 1 ≡ n = omega arith in rw e

  pub take_nil : (n : ℕ) → take {A = A} n [] ≡ []
  take_nil n = take_ge n [] (omega arith)

  pub drop_nil : (n : ℕ) → drop {A = A} n [] ≡ []
  drop_nil n = drop_ge n [] (omega arith)

  pub drop-drop : (m n : ℕ) (xs : List A) → drop m (drop n xs) ≡ drop (n + m) xs
  drop-drop m zero xs = let e : m ≡ 0 + m = omega arith in ap (λ k. drop k xs) e
  drop-drop m (suc n) [] = drop_nil m ∙ sym (drop_nil (suc n + m))
  drop-drop m (suc n) (x ∷ xs) =
      let e : suc n + m ≡ suc (n + m) = omega arith in rw e (drop-drop m n xs)

  -- The element at a valid index is the head of what follows it.
  pub drop_cons :
      (n : ℕ) (xs : List A) (d : A) → n < length xs → drop n xs ≡ get_or xs n d ∷ drop (suc n) xs
  drop_cons n [] d h = absurd (omega arith)
  drop_cons zero (x ∷ xs) d h = refl
  drop_cons (suc n) (x ∷ xs) d h = drop_cons n xs d (omega arith)

  pub take-set :
      (i : ℕ) (xs : List A) (v : A)
      → i < length xs
      → take (suc i) (set xs i v) ≡ take i xs ++ (v ∷ [])
  take-set i [] v h = absurd (omega arith)
  take-set zero (x ∷ xs) v h = refl
  take-set (suc i) (x ∷ xs) v h = ap (◌∷◌ x) (take-set i xs v (omega arith))

  pub drop-set_lt : (n i : ℕ) (xs : List A) (v : A) → i < n → drop n (set xs i v) ≡ drop n xs
  drop-set_lt n i [] v h = refl
  drop-set_lt zero i (x ∷ xs) v h = absurd (omega arith)
  drop-set_lt (suc n) zero (x ∷ xs) v h = refl
  drop-set_lt (suc n) (suc i) (x ∷ xs) v h = drop-set_lt n i xs v (omega arith)

  pub drop-set_ge :
      (n i : ℕ) (xs : List A) (v : A) → n ≤ i → drop n (set xs i v) ≡ set (drop n xs) (i - n) v
  drop-set_ge zero i xs v h = ap (λ k. set xs k v) (omega arith)
  drop-set_ge (suc n) i [] v h = refl
  drop-set_ge (suc n) zero (x ∷ xs) v h = absurd (omega arith)
  drop-set_ge (suc n) (suc i) (x ∷ xs) v h =
      let e : suc i - suc n ≡ i - n = omega arith in rw e (drop-set_ge n i xs v (omega arith))

  -- `std::copy(src.begin(), src.end(), dst.begin() + i)`, where the target has room.
  abbrev pub copy_to : List A → List A → ℕ → List A
  copy_to src dst i = take i dst ++ (src ++ drop (i + length src) dst)

  pub length-copy_to :
      (src dst : List A) (i : ℕ)
      → i + length src ≤ length dst
      → length (copy_to src dst i) ≡ length dst
  length-copy_to src dst i h = omega (
    arith,
    length-append (take i dst) (src ++ drop (i + length src) dst),
    length-append src (drop (i + length src) dst),
    length-take i dst,
    length-drop (i + length src) dst,
  )

  -- Two copies side by side at the front of a list.
  pub take-copy_to_twice :
      (a b dst : List A)
      → take (length b + length a) (copy_to a (copy_to b dst 0) (length b)) ≡ b ++ a
  take-copy_to_twice a b dst =
      let rest = drop (length b + length a) (copy_to b dst 0) in
      let e : length b + length a - length b ≡ length a = omega arith in
      rw take-length-append (
        take-append_ge (length b + length a) b (a ++ rest) (omega arith)
        ∙ rw (e, take-length-append) refl)

  pub drop-take : (r w : ℕ) (xs : List A) → r ≤ w → drop r (take w xs) ≡ take (w - r) (drop r xs)
  drop-take zero w xs h = ap (λ k. take k xs) (omega arith)
  drop-take (suc r) zero xs h = absurd (omega arith)
  drop-take (suc r) (suc w) [] h = sym (take_nil (suc w - suc r))
  drop-take (suc r) (suc w) (x ∷ xs) h =
      let e : suc w - suc r ≡ w - r = omega arith in rw e (drop-take r w xs (omega arith))

  -- Copying a list right behind a slice extends the slice by it.
  pub slice-copy_to :
      (xs s : List A) (r w : ℕ)
      → r ≤ w
      → w ≤ length xs
      → take (w + length s - r) (drop r (copy_to s xs w)) ≡ take (w - r) (drop r xs) ++ s
  slice-copy_to xs s r w h k =
      let rest = s ++ drop (w + length s) xs in
      let front = take (w - r) (drop r xs) in
      let n : length front ≡ w - r =
        omega (arith, length-take (w - r) (drop r xs), length-drop r xs) in
      let split : drop r (take w xs ++ rest) ≡ front ++ rest =
        drop-append_le r (take w xs) rest (omega (arith, length-take w xs))
        ∙ ap (λ l. l ++ rest) (drop-take r w xs h) in
      let e : w + length s - r - length front ≡ length s = omega arith in
      rw split (
        take-append_ge (w + length s - r) front rest (omega arith)
        ∙ ap (λ l. front ++ l)
            (ap (λ m. take m rest) e ∙ take-length-append s (drop (w + length s) xs)))

  get_or-take : (n i : ℕ) (xs : List A) (d : A) → i < n → get_or (take n xs) i d ≡ get_or xs i d
  get_or-take zero i xs d h = absurd (omega arith)
  get_or-take (suc n) i [] d h = refl
  get_or-take (suc n) zero (x ∷ xs) d h = refl
  get_or-take (suc n) (suc i) (x ∷ xs) d h = get_or-take n i xs d (omega arith)

  get_or_nil : (i : ℕ) (d : A) → get_or [] i d ≡ d
  get_or_nil i d = refl

  get_or-drop : (r i : ℕ) (xs : List A) (d : A) → get_or (drop r xs) i d ≡ get_or xs (r + i) d
  get_or-drop zero i xs d = let e : i ≡ 0 + i = omega arith in ap (λ k. get_or xs k d) e
  get_or-drop (suc r) i [] d = refl
  get_or-drop (suc r) i (x ∷ xs) d =
      let e : suc r + i ≡ suc (r + i) = omega arith in rw e (get_or-drop r i xs d)

  pub get_or-slice :
      (n r i : ℕ) (xs : List A) (d : A)
      → i < n
      → get_or xs (r + i) d ≡ get_or (take n (drop r xs)) i d
  get_or-slice n r i xs d h = sym (get_or-take n i (drop r xs) d h ∙ get_or-drop r i xs d)
