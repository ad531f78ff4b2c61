-- ===== src/Chargen/Pattern.antt =====
-- chargen/chargen.cpp: the bytes of the message, and that every byte that is sent is counted.
use linux_socket_test.Prelude.{
  ℕ, zero, suc, ◌+◌, ◌-◌, ◌*◌, ◌%◌, ◌≤◌, ◌<◌, ◌≡◌, refl, ap, ap₂, sym, ◌∙◌, List, [], ◌∷◌, ◌++◌,
  arith, length, length-append, take, drop, get_or, length-take, length-drop, get_or-slice, ltb,
  if◌then◌else◌,
}
use native.Mathlib.Decide.{dec_lt, ℕ_discrete}
use linux_socket_test.Chargen.{fill_line, line, add_rows, new}

length-fill_line : (k c : ℕ) → length (fill_line k c) ≡ k
unfolding fill_line
length-fill_line zero c = refl
length-fill_line (suc k) c = ap suc (length-fill_line k (c + 1))

get_or-fill_line : (k c i : ℕ) → i < k → get_or (fill_line k c) i 0 ≡ c + i
unfolding fill_line
get_or-fill_line zero c i h = absurd (omega (arith, h))
get_or-fill_line (suc k) c zero h = omega arith
get_or-fill_line (suc k) c (suc i) h =
    omega (arith, get_or-fill_line k (c + 1) i (omega (arith, h)))

get_or-append :
    (xs ys : List ℕ) (i : ℕ)
    → get_or (xs ++ ys) i 0
      ≡ (if ltb i (length xs) then get_or xs i 0 else get_or ys (i - length xs) 0)
get_or-append [] ys i =
    let whole : i ≡ i - 0 = omega arith in ground (arith, ap (λ n. get_or ys n 0) whole)
get_or-append (x ∷ xs) ys zero = ground arith
get_or-append (x ∷ xs) ys (suc i) = ground (arith, get_or-append xs ys i)

length-line : length line ≡ 188
length-line =
    omega (arith, length-append (fill_line 94 33) (fill_line 94 33), length-fill_line 94 33)

get_or-line : (i : ℕ) → i < 188 → get_or line i 0 ≡ 33 + i % 94
get_or-line i h = ground (
  arith,
  h,
  get_or-append (fill_line 94 33) (fill_line 94 33) i,
  length-fill_line 94 33,
  get_or-fill_line 94 33 i,
  get_or-fill_line 94 33 (i - 94),
)

abbrev row : ℕ → List ℕ
row i = take 72 (drop i line) ++ 10 ∷ []

length-row : (i : ℕ) → i ≤ 94 → length (row i) ≡ 73
length-row i h = omega (
  arith,
  h,
  length-append (take 72 (drop i line)) (10 ∷ []),
  length-take 72 (drop i line),
  length-drop i line,
  length-line,
)

get_or-row :
    (i j : ℕ) → i ≤ 94 → j < 73 → get_or (row i) j 0 ≡ (if ltb j 72 then 33 + (i + j) % 94 else 10)
get_or-row i j h k =
    let part = take 72 (drop i line) in
    let size : length part ≡ 72 =
      omega (arith, h, length-take 72 (drop i line), length-drop i line, length-line) in
    let at = get_or-append part (10 ∷ []) j in
    elim (dec_lt j 72) [
      | yes inside ↦ ground (
        arith,
        at,
        size,
        inside,
        get_or-slice 72 i j line 0 inside,
        get_or-line (i + j) (omega (arith, h, k)),
      )
      | no end ↦
          let last : j - 72 ≡ 0 = omega (arith, end, k) in ground (arith, at, size, end, last)
    ]

get_or-add_rows :
    (k i n : ℕ) (message : List ℕ)
    → n < length message
    → get_or (add_rows k i message) n 0 ≡ get_or message n 0
unfolding add_rows
get_or-add_rows zero i n message h = refl
get_or-add_rows (suc k) i n message h =
    let more = length-append message (row i) in
    get_or-add_rows k (i + 1) n (message ++ row i) (omega (arith, h, more))
    ∙ ground (arith, h, get_or-append message (row i) n)

length-add_rows :
    (k i : ℕ) (message : List ℕ)
    → i + k ≤ 94
    → length (add_rows k i message) ≡ length message + k * 73
unfolding add_rows
length-add_rows zero i message few = omega arith
length-add_rows (suc k) i message few = omega (
  arith,
  length-add_rows k (i + 1) (message ++ row i) (omega (arith, few)),
  length-append message (row i),
  length-row i (omega (arith, few)),
)

add_rows-row :
    (k i q j : ℕ) (message : List ℕ)
    → length message ≡ i * 73
    → i + k ≤ 94
    → i ≤ q
    → q < i + k
    → j < 73
    → get_or (add_rows k i message) (q * 73 + j) 0 ≡ get_or (row q) j 0
unfolding add_rows
add_rows-row zero i q j message size few from to inside = absurd (omega (arith, from, to))
add_rows-row (suc k) i q j message size few from to inside =
    let more : length (message ++ row i) ≡ (i + 1) * 73 =
      omega (arith, size, length-append message (row i), length-row i (omega (arith, few))) in
    elim (ℕ_discrete q i) [
      | yes here ↦
          let behind : q * 73 + j - length message ≡ j = omega (arith, here, size) in
          get_or-add_rows k (i + 1) (q * 73 + j) (message ++ row i)
            (omega (arith, here, more, inside))
          ∙ ground (arith, get_or-append message (row i) (q * 73 + j), size, here)
          ∙ ap₂ (λ p n. get_or (row p) n 0) (sym here) behind
      | no later ↦
          add_rows-row k (i + 1) q j (message ++ row i) more (omega (arith, few))
            (omega (arith, from, later)) (omega (arith, to)) inside
    ]

-- The message consists of 94 lines, each of 72 printable bytes and a line feed, of which every line
-- starts one byte later in the ring of the 94 printable bytes than the one before it; there is nothing
-- else in it.
pub new_rotates :
    (now q j : ℕ)
    → q < 94
    → j < 73
    → (length (new now).message ≡ 94 * 73)
      × (get_or (new now).message (q * 73 + j) 0 ≡ (if ltb j 72 then 33 + (q + j) % 94 else 10))
unfolding new
new_rotates now q j h k = (
  length-add_rows 94 0 [] (omega arith),
  add_rows-row 94 0 q j [] refl (omega arith) (omega arith) (omega (arith, h)) k
      ∙ get_or-row q j (omega (arith, h)) k,
)
