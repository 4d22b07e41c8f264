-- ===== src/Video/Packetizer/Frame/Receive.antt =====
-- How a receiver puts a frame together from the batch of its shards.
use moonshine.Common.{
  ℕ, zero, suc, ◌+◌, ◌-◌, ◌*◌, ◌≤◌, ◌≡◌, refl, sym, ap, ◌∙◌, min, List, [], ◌∷◌, ◌++◌, length, take,
  drop, length-append, length-take, length-drop, take_append_left, take_append_right,
  drop_append_left, take_all, arith, dec_lt,
}

-- What `n` shards of `stride` bytes hold behind their headers of 32 bytes
abbrev pub payloads : ℕ → ℕ → List ℕ → List ℕ
payloads stride zero bytes = []
payloads stride (suc n) bytes = drop 32 (take stride bytes) ++ payloads stride n (drop stride bytes)

-- The payloads of the data shards, block after block; a block has so many data and parity shards.
abbrev pub receive : ℕ → List (ℕ × ℕ) → List ℕ → List ℕ
receive stride [] bytes = []
receive stride ((n, parity) ∷ blocks) bytes =
    payloads stride n bytes ++ receive stride blocks (drop ((n + parity) * stride) bytes)

pub suc_mul : (n s : ℕ) → suc n * s ≡ s + n * s
suc_mul n s = omega arith

take_add {ℓ} :
    {A : Type ℓ} (n m k : ℕ) (xs : List A) → n + m ≡ k → take k xs ≡ take n xs ++ take m (drop n xs)
take_add zero m k xs e = ap (λ (j : ℕ). take j xs) (omega arith)
take_add (suc n) m zero xs e = absurd (omega arith)
take_add (suc n) zero (suc k) [] e = refl
take_add (suc n) (suc m) (suc k) [] e = refl
take_add (suc n) m (suc k) (x ∷ xs) e = ap (λ t. x ∷ t) (take_add n m k xs (omega arith))

-- Where the first part agrees with a list, and the second with what is left of it, so do both
-- together, each as far as it goes and up to a count of `k`.
pub join :
    (p q k : ℕ) (first second whole : List ℕ)
    → length first ≡ p
    → take (min p k) first ≡ take (min p k) whole
    → take (min q (k - p)) second ≡ take (min q (k - p)) (drop p whole)
    → take (min (p + q) k) (first ++ second) ≡ take (min (p + q) k) whole
join p q k first second whole size starts goes_on = elim (dec_lt p k) [
  | no short ↦
      let same : min (p + q) k ≡ min p k = omega arith in
      rw same (take_append_left (min p k) first second (omega (arith, size)) ∙ starts)
  | yes long ↦
      let m = min q (k - p) in
      let count : min (p + q) k ≡ p + m = omega arith in
      let all : min p k ≡ p = omega arith in
      let first_is : first ≡ take p whole =
        sym (take_all p first (omega (arith, size)))
        ∙ ap (λ (j : ℕ). take j first) (sym all)
        ∙ starts
        ∙ ap (λ (j : ℕ). take j whole) all in
      rw count (
        take_append_right (p + m) m first second (omega (arith, size))
        ∙ ap (λ (t : List ℕ). t ++ take m second) first_is
        ∙ ap (λ (t : List ℕ). take p whole ++ t) goes_on
        ∙ sym (take_add p m (p + m) whole refl))
]

pub length-payloads :
    (stride n : ℕ) (bytes : List ℕ)
    → 32 ≤ stride
    → n * stride ≤ length bytes
    → length (payloads stride n bytes) ≡ n * (stride - 32)
length-payloads stride zero bytes h room = omega arith
length-payloads stride (suc n) bytes h room =
    let more = suc_mul n stride in
    let rest =
      length-payloads stride n (drop stride bytes) h
        (omega (arith, length-drop stride bytes, more)) in
    omega (
      arith,
      length-append (drop 32 (take stride bytes)) (payloads stride n (drop stride bytes)),
      length-drop 32 (take stride bytes),
      length-take stride bytes,
      rest,
      more,
      suc_mul n (stride - 32),
    )

pub payloads-append :
    (stride n : ℕ) (bytes rest : List ℕ)
    → n * stride ≤ length bytes
    → payloads stride n (bytes ++ rest) ≡ payloads stride n bytes
payloads-append stride zero bytes rest room = refl
payloads-append stride (suc n) bytes rest room =
    let more = suc_mul n stride in
    rw
      (
        take_append_left stride bytes rest (omega (arith, more)),
        drop_append_left stride bytes rest (omega (arith, more)),
      )
      (ap (λ (t : List ℕ). drop 32 (take stride bytes) ++ t)
        (payloads-append stride n (drop stride bytes) rest
          (omega (arith, length-drop stride bytes, more))))
