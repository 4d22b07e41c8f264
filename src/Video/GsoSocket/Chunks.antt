-- ===== src/Video/GsoSocket/Chunks.antt =====
-- `chunks` cuts without loss, and cutting in two rounds is cutting in one.
use moonshine.Common.{
  ℕ, zero, suc, ◌+◌, ◌*◌, ◌≤◌, ◌<◌, ◌≡◌, refl, ap, List, [], ◌∷◌, ◌++◌, arith, length, take, drop,
  length-drop, length-take, take-nil, drop-nil, drop-drop,
}
use moonshine.Video.GsoSocket.{chunks_fuel, chunks}

-- Any fuel that covers the bytes gives the same chunks.
enough :
    (f g size : ℕ) (xs : List ℕ)
    → 0 < size
    → length xs ≤ f
    → length xs ≤ g
    → chunks_fuel f size xs ≡ chunks_fuel g size xs
unfolding chunks_fuel
enough zero zero size [] p hf hg = refl
enough zero (suc g) size [] p hf hg = refl
enough (suc f) zero size [] p hf hg = refl
enough (suc f) (suc g) size [] p hf hg = refl
enough zero g size (x ∷ xs) p hf hg = absurd (omega arith)
enough (suc f) zero size (x ∷ xs) p hf hg = absurd (omega arith)
enough (suc f) (suc g) size (x ∷ xs) p hf hg =
    ap (λ t. take size (x ∷ xs) ∷ t)
      (enough f g size (drop size (x ∷ xs)) p (omega (arith, length-drop size (x ∷ xs)))
        (omega (arith, length-drop size (x ∷ xs))))

pub chunks-nil : (size : ℕ) → chunks size [] ≡ []
unfolding chunks chunks_fuel
chunks-nil size = refl

pub chunks-cons :
    (size : ℕ) (x : ℕ) (xs : List ℕ)
    → 0 < size
    → chunks size (x ∷ xs) ≡ take size (x ∷ xs) ∷ chunks size (drop size (x ∷ xs))
unfolding chunks chunks_fuel
chunks-cons size x xs p =
    ap (λ t. take size (x ∷ xs) ∷ t)
      (enough (length xs) (length (drop size (x ∷ xs))) size (drop size (x ∷ xs)) p
        (omega (arith, length-drop size (x ∷ xs))) (omega arith))

-- The first `k` chunks are the chunks of the first `k * size` bytes.
take-take : (n m : ℕ) (xs : List ℕ) → n ≤ m → take n (take m xs) ≡ take n xs
take-take zero m xs h = refl
take-take (suc n) zero xs h = absurd (omega arith)
take-take (suc n) (suc m) [] h = refl
take-take (suc n) (suc m) (x ∷ xs) h = ap (λ t. x ∷ t) (take-take n m xs (omega arith))

drop-take : (n m t : ℕ) (xs : List ℕ) → n + m ≡ t → drop n (take t xs) ≡ take m (drop n xs)
drop-take n m t [] e = rw (take-nil {A = ℕ} t, drop-nil {A = ℕ} n, take-nil {A = ℕ} m)
drop-take zero m t (x ∷ xs) e = ap (λ (k : ℕ). take k (x ∷ xs)) (omega arith)
drop-take (suc n) m zero (x ∷ xs) e = absurd (omega arith)
drop-take (suc n) m (suc t) (x ∷ xs) e = drop-take n m t xs (omega arith)

chunks_step :
    (size : ℕ) (xs : List ℕ)
    → 0 < size
    → 0 < length xs
    → chunks size xs ≡ take size xs ∷ chunks size (drop size xs)
chunks_step size [] p h = absurd (omega arith)
chunks_step size (x ∷ xs) p h = chunks-cons size x xs p

pub chunks_split :
    (k size : ℕ) (xs : List ℕ)
    → 0 < size
    → chunks size xs ≡ chunks size (take (k * size) xs) ++ chunks size (drop (k * size) xs)
chunks_split zero size xs p = let e : 0 * size ≡ 0 = omega arith in rw (e, chunks-nil size)
chunks_split (suc k) size [] p =
    rw (take-nil {A = ℕ} (suc k * size), drop-nil {A = ℕ} (suc k * size), chunks-nil size)
chunks_split (suc k) size (x ∷ xs) p = rw (
  chunks-cons size x xs p,
  chunks_split k size (drop size (x ∷ xs)) p,
  chunks_step size (take (suc k * size) (x ∷ xs)) p long,
  take-take size (suc k * size) (x ∷ xs) (omega arith),
  drop-take size (k * size) (suc k * size) (x ∷ xs) (omega arith),
  drop-drop size (k * size) (suc k * size) (x ∷ xs) (omega arith),
)
  where
    long : 0 < length (take (suc k * size) (x ∷ xs))
    long = omega (arith, length-take (suc k * size) (x ∷ xs))

-- Every chunk cut into chunks again, in order.
abbrev pub cuts : ℕ → List (List ℕ) → List (List ℕ)
cuts size [] = []
cuts size (c ∷ cs) = chunks size c ++ cuts size cs

-- Cutting into chunks of whole shards and then into shards is cutting into shards.
cuts-chunks_below :
    (n k size : ℕ) (xs : List ℕ)
    → 0 < size
    → 0 < k
    → length xs ≤ n
    → cuts size (chunks (k * size) xs) ≡ chunks size xs
cuts-chunks_below n k size [] p q h = rw (chunks-nil (k * size), chunks-nil size)
cuts-chunks_below zero k size (x ∷ xs) p q h = absurd (omega arith)
cuts-chunks_below (suc n) k size (x ∷ xs) p q h = rw (
  chunks-cons (k * size) x xs wide,
  cuts-chunks_below n k size (drop (k * size) (x ∷ xs)) p q
      (omega (arith, length-drop (k * size) (x ∷ xs), wide)),
  chunks_split k size (x ∷ xs) p,
)
  where
    wide : 0 < k * size
    wide = grind arith

pub cuts-chunks :
    (k size : ℕ) (xs : List ℕ)
    → 0 < size
    → 0 < k
    → cuts size (chunks (k * size) xs) ≡ chunks size xs
cuts-chunks k size xs p q = cuts-chunks_below (length xs) k size xs p q (omega arith)

-- No chunk is longer than its size.
abbrev pub AllWithin : ℕ → List (List ℕ) → Type 0
AllWithin n [] = Unit {0}
AllWithin n (c ∷ cs) = (length c ≤ n) × AllWithin n cs

chunks_fuel-AllWithin : (f size : ℕ) (xs : List ℕ) → AllWithin size (chunks_fuel f size xs)
unfolding chunks_fuel
chunks_fuel-AllWithin zero size xs = tt
chunks_fuel-AllWithin (suc f) size [] = tt
chunks_fuel-AllWithin (suc f) size (x ∷ xs) =
    (omega (arith, length-take size (x ∷ xs)), chunks_fuel-AllWithin f size (drop size (x ∷ xs)))

pub chunks-AllWithin : (size : ℕ) (xs : List ℕ) → AllWithin size (chunks size xs)
unfolding chunks
chunks-AllWithin size xs = chunks_fuel-AllWithin (length xs) size xs
