-- ===== src/Common/Lists.antt =====
-- Lists measured and indexed by native numbers, under the library's names, and writes into a buffer.
use Prim.Native.Nat.{ℕ, zero, suc, ◌+◌, ◌-◌, ◌≤◌, min}
use mathlib.Core.Path.{◌≡◌, refl, ap}
use mathlib.Core.List.{List, [], ◌∷◌, ◌++◌}
use mathlib.Core.Option.{Option, none, some}
use native.Mathlib.Omega.{arith}

module _ {ℓ} {A : Type ℓ} where
  abbrev pub length : List A → ℕ
  length [] = 0
  length (x ∷ xs) = suc (length xs)

  abbrev pub get_elem? : List A → ℕ → Option A
  get_elem? [] i = none
  get_elem? (x ∷ xs) zero = some x
  get_elem? (x ∷ xs) (suc i) = get_elem? xs i

  -- A write out of bounds changes nothing.
  abbrev pub set : List A → ℕ → A → List A
  set [] i v = []
  set (x ∷ xs) zero v = v ∷ xs
  set (x ∷ xs) (suc i) v = x ∷ set xs i v

  abbrev pub take : ℕ → List A → List A
  take zero xs = []
  take (suc n) [] = []
  take (suc n) (x ∷ xs) = x ∷ take n xs

  abbrev pub drop : ℕ → List A → List A
  drop zero xs = xs
  drop (suc n) [] = []
  drop (suc n) (x ∷ xs) = drop n xs

  abbrev pub replicate : ℕ → A → List A
  replicate zero a = []
  replicate (suc n) a = a ∷ replicate n a

  -- `buf[i..i + bs.len()].copy_from_slice(bs)`: what would go past the end is dropped.
  abbrev pub copy_at : List A → ℕ → List A → List A
  copy_at [] i bs = []
  copy_at (x ∷ xs) zero [] = x ∷ xs
  copy_at (x ∷ xs) zero (b ∷ bs) = b ∷ copy_at xs zero bs
  copy_at (x ∷ xs) (suc i) bs = x ∷ copy_at xs i bs

-- `buf[i..i + n]`
abbrev pub slice {ℓ} : {A : Type ℓ} → List A → ℕ → ℕ → List A
slice buf i n = take n (drop i buf)

module _ {ℓ} {A : Type ℓ} where
  pub length-append : (xs ys : List A) → length (xs ++ ys) ≡ length xs + length ys
  length-append [] ys = omega arith
  length-append (x ∷ xs) ys = omega (arith, length-append xs ys)

  pub length-take : (n : ℕ) (xs : List A) → length (take n xs) ≡ min n (length xs)
  length-take zero xs = omega arith
  length-take (suc n) [] = omega arith
  length-take (suc n) (x ∷ xs) = omega (arith, length-take n xs)

  pub length-drop : (n : ℕ) (xs : List A) → length (drop n xs) ≡ length xs - n
  length-drop zero xs = omega arith
  length-drop (suc n) [] = omega arith
  length-drop (suc n) (x ∷ xs) = omega (arith, length-drop n xs)

  pub length-replicate : (n : ℕ) (a : A) → length (replicate n a) ≡ n
  length-replicate zero a = refl
  length-replicate (suc n) a = ap suc (length-replicate n a)

  pub length-set : (xs : List A) (i : ℕ) (v : A) → length (set xs i v) ≡ length xs
  length-set [] i v = refl
  length-set (x ∷ xs) zero v = refl
  length-set (x ∷ xs) (suc i) v = ap suc (length-set xs i v)

  pub length-copy_at : (xs : List A) (i : ℕ) (bs : List A) → length (copy_at xs i bs) ≡ length xs
  length-copy_at [] i bs = refl
  length-copy_at (x ∷ xs) zero [] = refl
  length-copy_at (x ∷ xs) zero (b ∷ bs) = ap suc (length-copy_at xs zero bs)
  length-copy_at (x ∷ xs) (suc i) bs = ap suc (length-copy_at xs i bs)

module _ {ℓ} {A : Type ℓ} where
  pub take-append-drop : (n : ℕ) (xs : List A) → take n xs ++ drop n xs ≡ xs
  take-append-drop zero xs = refl
  take-append-drop (suc n) [] = refl
  take-append-drop (suc n) (x ∷ xs) = ap (λ t. x ∷ t) (take-append-drop n xs)

  pub take_all : (n : ℕ) (xs : List A) → length xs ≤ n → take n xs ≡ xs
  take_all zero [] h = refl
  take_all zero (x ∷ xs) h = absurd (omega arith)
  take_all (suc n) [] h = refl
  take_all (suc n) (x ∷ xs) h = ap (λ t. x ∷ t) (take_all n xs (omega arith))

  pub drop_all : (n : ℕ) (xs : List A) → length xs ≤ n → drop n xs ≡ []
  drop_all zero [] h = refl
  drop_all zero (x ∷ xs) h = absurd (omega arith)
  drop_all (suc n) [] h = refl
  drop_all (suc n) (x ∷ xs) h = drop_all n xs (omega arith)

  pub take-append : (xs ys : List A) → take (length xs) (xs ++ ys) ≡ xs
  take-append [] ys = refl
  take-append (x ∷ xs) ys = ap (λ t. x ∷ t) (take-append xs ys)

  pub drop-append : (xs ys : List A) → drop (length xs) (xs ++ ys) ≡ ys
  drop-append [] ys = refl
  drop-append (x ∷ xs) ys = drop-append xs ys

  pub drop-nil : (n : ℕ) → drop {A = A} n [] ≡ []
  drop-nil zero = refl
  drop-nil (suc n) = refl

  pub take-nil : (n : ℕ) → take {A = A} n [] ≡ []
  take-nil zero = refl
  take-nil (suc n) = refl

  pub drop-drop : (n m k : ℕ) (xs : List A) → n + m ≡ k → drop m (drop n xs) ≡ drop k xs
  drop-drop zero m k xs e = ap (λ (j : ℕ). drop j xs) (omega arith)
  drop-drop (suc n) m k [] e = rw (drop-nil m, drop-nil k)
  drop-drop (suc n) m zero (x ∷ xs) e = absurd (omega arith)
  drop-drop (suc n) m (suc k) (x ∷ xs) e = drop-drop n m k xs (omega arith)

  -- What `copy_at` wrote, and what it left alone, before and behind.
  pub slice-copy_at :
      (xs : List A) (i : ℕ) (bs : List A)
      → i + length bs ≤ length xs
      → slice (copy_at xs i bs) i (length bs) ≡ bs
  slice-copy_at [] zero [] h = refl
  slice-copy_at [] zero (b ∷ bs) h = absurd (omega arith)
  slice-copy_at [] (suc i) bs h = absurd (omega arith)
  slice-copy_at (x ∷ xs) zero [] h = refl
  slice-copy_at (x ∷ xs) zero (b ∷ bs) h = ap (λ t. b ∷ t) (slice-copy_at xs zero bs (omega arith))
  slice-copy_at (x ∷ xs) (suc i) bs h = slice-copy_at xs i bs (omega arith)

  pub take-copy_at :
      (xs : List A) (i : ℕ) (bs : List A) (n : ℕ) → n ≤ i → take n (copy_at xs i bs) ≡ take n xs
  take-copy_at xs i bs zero h = refl
  take-copy_at [] i bs (suc n) h = refl
  take-copy_at (x ∷ xs) zero bs (suc n) h = absurd (omega arith)
  take-copy_at (x ∷ xs) (suc i) bs (suc n) h =
      ap (λ t. x ∷ t) (take-copy_at xs i bs n (omega arith))

  pub drop-copy_at :
      (xs : List A) (i : ℕ) (bs : List A) (j : ℕ)
      → i + length bs ≤ j
      → drop j (copy_at xs i bs) ≡ drop j xs
  drop-copy_at [] i bs j h = refl
  drop-copy_at (x ∷ xs) zero [] j h = refl
  drop-copy_at (x ∷ xs) zero (b ∷ bs) zero h = absurd (omega arith)
  drop-copy_at (x ∷ xs) zero (b ∷ bs) (suc j) h = drop-copy_at xs zero bs j (omega arith)
  drop-copy_at (x ∷ xs) (suc i) bs zero h = absurd (omega arith)
  drop-copy_at (x ∷ xs) (suc i) bs (suc j) h = drop-copy_at xs i bs j (omega arith)

  pub slice-copy_at_before :
      (xs : List A) (i : ℕ) (bs : List A) (j n : ℕ)
      → j + n ≤ i
      → slice (copy_at xs i bs) j n ≡ slice xs j n
  slice-copy_at_before xs i bs zero n h = take-copy_at xs i bs n (omega arith)
  slice-copy_at_before [] i bs (suc j) n h = refl
  slice-copy_at_before (x ∷ xs) zero bs (suc j) n h = absurd (omega arith)
  slice-copy_at_before (x ∷ xs) (suc i) bs (suc j) n h =
      slice-copy_at_before xs i bs j n (omega arith)

module _ {ℓ} {A : Type ℓ} where
  -- Two writes in a row are one.
  pub copy_at-append :
      (xs : List A) (i j : ℕ) (bs cs : List A)
      → i + length bs ≡ j
      → copy_at (copy_at xs i bs) j cs ≡ copy_at xs i (bs ++ cs)
  copy_at-append [] i j bs cs e = refl
  copy_at-append (x ∷ xs) zero zero [] cs e = refl
  copy_at-append (x ∷ xs) zero (suc j) [] cs e = absurd (omega arith)
  copy_at-append (x ∷ xs) zero zero (b ∷ bs) cs e = absurd (omega arith)
  copy_at-append (x ∷ xs) zero (suc j) (b ∷ bs) cs e =
      ap (λ t. b ∷ t) (copy_at-append xs zero j bs cs (omega arith))
  copy_at-append (x ∷ xs) (suc i) zero bs cs e = absurd (omega arith)
  copy_at-append (x ∷ xs) (suc i) (suc j) bs cs e =
      ap (λ t. x ∷ t) (copy_at-append xs i j bs cs (omega arith))

  -- A cut of a concatenation falls into the first list or behind it.
  pub take_append_left : (n : ℕ) (xs ys : List A) → n ≤ length xs → take n (xs ++ ys) ≡ take n xs
  take_append_left zero xs ys h = refl
  take_append_left (suc n) [] ys h = absurd (omega arith)
  take_append_left (suc n) (x ∷ xs) ys h = ap (λ t. x ∷ t) (take_append_left n xs ys (omega arith))

  pub take_append_right :
      (n m : ℕ) (xs ys : List A) → m + length xs ≡ n → take n (xs ++ ys) ≡ xs ++ take m ys
  take_append_right n m [] ys e = ap (λ (k : ℕ). take k ys) (omega arith)
  take_append_right zero m (x ∷ xs) ys e = absurd (omega arith)
  take_append_right (suc n) m (x ∷ xs) ys e =
      ap (λ t. x ∷ t) (take_append_right n m xs ys (omega arith))

  pub drop_append_left :
      (n : ℕ) (xs ys : List A) → n ≤ length xs → drop n (xs ++ ys) ≡ drop n xs ++ ys
  drop_append_left zero xs ys h = refl
  drop_append_left (suc n) [] ys h = absurd (omega arith)
  drop_append_left (suc n) (x ∷ xs) ys h = drop_append_left n xs ys (omega arith)

  pub drop_append_right :
      (n m : ℕ) (xs ys : List A) → m + length xs ≡ n → drop n (xs ++ ys) ≡ drop m ys
  drop_append_right n m [] ys e = ap (λ (k : ℕ). drop k ys) (omega arith)
  drop_append_right zero m (x ∷ xs) ys e = absurd (omega arith)
  drop_append_right (suc n) m (x ∷ xs) ys e = drop_append_right n m xs ys (omega arith)

  -- A count past the end may be any other.
  pub take_past : (n m : ℕ) (xs : List A) → m ≡ min n (length xs) → take m xs ≡ take n xs
  take_past n m [] e = rw (take-nil {A = A} n, take-nil {A = A} m)
  take_past zero m (x ∷ xs) e = let none_left : m ≡ 0 = omega arith in rw none_left
  take_past (suc n) zero (x ∷ xs) e = absurd (omega arith)
  take_past (suc n) (suc m) (x ∷ xs) e = ap (λ t. x ∷ t) (take_past n m xs (omega arith))

-- An index in range finds an element.
pub get_in {ℓ} :
    {A : Type ℓ} (xs : List A) (i : ℕ) → suc i ≤ length xs → (a : A) × (get_elem? xs i ≡ some a)
get_in [] i h = absurd (omega arith)
get_in (x ∷ xs) zero h = (x, refl)
get_in (x ∷ xs) (suc i) h = get_in xs i (omega arith)
