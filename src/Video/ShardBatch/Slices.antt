-- ===== src/Video/ShardBatch/Slices.antt =====
-- video/shard_batch.rs: the views that an encoder gets of all shards, and what it writes through them.
use moonshine.Common.{
  ℕ, zero, suc, ◌+◌, ◌≤◌, ◌<◌, ◌≡◌, refl, sym, ap, ◌∙◌, List, [], ◌∷◌, some, length, get_elem?,
  arith,
}
use moonshine.Common.Results.{ok}
use moonshine.Video.ShardBatch.{ShardBuf, shard, set_shard, slices_from, set_slices_from}
use moonshine.Video.ShardBatch.Slots.{
  IsValid, set_shard-IsValid, shard-ok, length-shard, set_shard_lem,
}

abbrev pub AllLong : ℕ → List (List ℕ) → Type 0
AllLong size [] = Unit
AllLong size (s ∷ ss) = (length s ≡ size) × AllLong size ss

-- Two buffers of the same shape
pub record HasShapeOf (old new : ShardBuf) : Type 0 where
  pub valid : IsValid new
  pub stride : new.stride ≡ old.stride
  pub prefix_size : new.prefix_size ≡ old.prefix_size
  pub data_size : new.data_size ≡ old.data_size
  pub shard_count : new.shard_count ≡ old.shard_count

pub length-slices_from : (b : ShardBuf) (i n : ℕ) → length (slices_from b i n) ≡ n
unfolding slices_from
length-slices_from b i zero = refl
length-slices_from b i (suc n) = ap suc (length-slices_from b (i + 1) n)

pub slices_from-AllLong :
    (b : ShardBuf) (i n : ℕ)
    → IsValid b
    → i + n ≤ b.shard_count
    → AllLong b.data_size (slices_from b i n)
unfolding slices_from
slices_from-AllLong b i zero v h = tt
slices_from-AllLong b i (suc n) v h =
    (length-shard v i (omega arith), slices_from-AllLong b (i + 1) n v (omega arith))

-- A view is the shard.
pub get-slices_from :
    (b : ShardBuf) (i n k : ℕ) (s : List ℕ)
    → IsValid b
    → i + n ≤ b.shard_count
    → k < n
    → shard b (i + k) ≡ ok s
    → get_elem? (slices_from b i n) k ≡ some s
unfolding slices_from
get-slices_from b i zero k s v h lt found = absurd (omega arith)
get-slices_from b i (suc n) zero s v h lt found =
    let here : i + 0 ≡ i = omega arith in
    let view = shard-ok v i (omega arith) in
    let shown : shard b i ≡ ok s = ap (λ (j : ℕ). shard b j) (sym here) ∙ found in cc
get-slices_from b i (suc n) (suc k) s v h lt found =
    let next : i + suc k ≡ i + 1 + k = omega arith in
    get-slices_from b (i + 1) n k s v (omega arith) (omega arith)
      (ap (λ (j : ℕ). shard b j) (sym next) ∙ found)

-- The first slot, and those behind it
shown :
    (b : ShardBuf) (i : ℕ) (t : List ℕ) (ss : List (List ℕ))
    → shard b i ≡ ok t
    → ((k : ℕ) (s : List ℕ) → get_elem? ss k ≡ some s → shard b (i + 1 + k) ≡ ok s)
    → (k : ℕ) (s : List ℕ) → get_elem? (t ∷ ss) k ≡ some s
    → shard b (i + k) ≡ ok s
shown b i t ss first later zero s e =
    let here : i + 0 ≡ i = omega arith in
    let same : t ≡ s = cc in ap (λ (j : ℕ). shard b j) here ∙ first ∙ ap ok same
shown b i t ss first later (suc k) s e =
    let next : i + suc k ≡ i + 1 + k = omega arith in ap (λ (j : ℕ). shard b j) next ∙ later k s e

-- What is written through the views from `i` on is found in the shards, and the others stay.
pub set_slices_from_lem :
    (ss : List (List ℕ)) (b : ShardBuf) (i : ℕ)
    → IsValid b
    → i + length ss ≤ b.shard_count
    → AllLong b.data_size ss
    → HasShapeOf b (set_slices_from b i ss)
      × (((j : ℕ) → j < i → shard (set_slices_from b i ss) j ≡ shard b j)
          × ((k : ℕ) (s : List ℕ)
              → get_elem? ss k ≡ some s
              → shard (set_slices_from b i ss) (i + k) ≡ ok s))
unfolding set_slices_from set_shard
set_slices_from_lem [] b i v h long = (
  record { valid = v; stride = refl; prefix_size = refl; data_size = refl; shard_count = refl },
  ((λ j lt. refl), (λ k s e. absurd cc)),
)
set_slices_from_lem (t ∷ ss) b i v h (size, long) =
    let b' = set_shard b i t in
    let (shape, (before, found)) =
      set_slices_from_lem ss b' (i + 1) (set_shard-IsValid v i t) (omega arith) long in
    let first = set_shard_lem v i i t (omega arith) (omega arith) size in
    (
      record {
        valid = shape.valid;
        stride = shape.stride;
        prefix_size = shape.prefix_size;
        data_size = shape.data_size;
        shard_count = shape.shard_count;
      },
      (
        (λ j lt.
            before j (omega arith)
            ∙ (set_shard_lem v i j t (omega arith) (omega arith) size).1
                (λ e. absurd (omega (arith, e)))),
        shown (set_slices_from b' (i + 1) ss) i t ss (before i (omega arith) ∙ first.0) found,
      ),
    )
