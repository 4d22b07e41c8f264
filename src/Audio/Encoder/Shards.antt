-- ===== src/Audio/Encoder/Shards.antt =====
-- moonshine-core/src/session/stream/audio/encoder.rs: the buffers of the shards keep their sizes, and
-- what fits into them is written and sent without a panic.
use moonshine.Common.{
  ℕ, zero, suc, ◌≤◌, ◌<◌, ◌≡◌, refl, ap, ◌∙◌, true, List, [], ◌∷◌, ◌++◌, length, set, take, drop,
  copy_at, length-copy_at, leb-true, arith,
}
use moonshine.Common.Results.{Result, ok, err, panic, ◌>>=◌}
use moonshine.Audio.Encoder.{
  write_data_packet, write_parity_packet, rtp_header, parity_rtp_fields, fec_header, shard_at, crop,
  fits, write_back,
}

-- There is a value, and `P` holds of it.
abbrev pub Returns : {A : Type 0} → (A → Type 0) → Result A → Type 0
Returns P (ok a) = P a
Returns P err = ⊥
Returns P panic = ⊥

pub bind-Returns :
    {A B : Type 0} (P : A → Type 0) (Q : B → Type 0) (m : Result A) (f : A → Result B)
    → Returns P m
    → ((a : A) → P a → Returns Q (f a))
    → Returns Q (m >>= f)
bind-Returns P Q (ok a) f h next = next a h
bind-Returns P Q err f h next = h
bind-Returns P Q panic f h next = h

pub imply-Returns :
    {A : Type 0} (P Q : A → Type 0) (m : Result A)
    → ((a : A) → P a → Q a)
    → Returns P m
    → Returns Q m
imply-Returns P Q (ok a) f h = f a h
imply-Returns P Q err f h = h
imply-Returns P Q panic f h = h

abbrev pub AllSized : List (List ℕ) → Type 0
AllSized [] = Unit
AllSized (s ∷ ss) = (length s ≡ 2048) × AllSized ss

pub set-AllSized :
    (ss : List (List ℕ)) (i : ℕ) (s : List ℕ)
    → length s ≡ 2048
    → AllSized ss
    → AllSized (set ss i s)
set-AllSized [] i s e h = tt
set-AllSized (s' ∷ ss) zero s e (_, h) = (e, h)
set-AllSized (s' ∷ ss) (suc i) s e (e', h) = (e', set-AllSized ss i s e h)

pub shard_at-Returns :
    (ss : List (List ℕ)) (i : ℕ)
    → i < length ss
    → AllSized ss
    → Returns (λ s. length s ≡ 2048) (shard_at ss i)
unfolding shard_at
shard_at-Returns [] i lt h = absurd (omega arith)
shard_at-Returns (s ∷ ss) zero lt (e, _) = e
shard_at-Returns (s ∷ ss) (suc i) lt (_, h) = shard_at-Returns ss i (omega arith) h

pub take-AllSized : (n : ℕ) (ss : List (List ℕ)) → AllSized ss → AllSized (take n ss)
take-AllSized zero ss h = tt
take-AllSized (suc n) [] h = tt
take-AllSized (suc n) (s ∷ ss) (e, h) = (e, take-AllSized n ss h)

pub drop-AllSized : (n : ℕ) (ss : List (List ℕ)) → AllSized ss → AllSized (drop n ss)
drop-AllSized zero ss h = h
drop-AllSized (suc n) [] h = tt
drop-AllSized (suc n) (s ∷ ss) (_, h) = drop-AllSized n ss h

pub append-AllSized : (ss ts : List (List ℕ)) → AllSized ss → AllSized ts → AllSized (ss ++ ts)
append-AllSized [] ts h k = k
append-AllSized (s ∷ ss) ts (e, h) k = (e, append-AllSized ss ts h k)

pub write_back-AllSized : (ss vs : List (List ℕ)) → AllSized ss → AllSized (write_back ss vs)
unfolding write_back
write_back-AllSized [] vs h = tt
write_back-AllSized (s ∷ ss) [] h = h
write_back-AllSized (s ∷ ss) (v ∷ vs) (e, h) =
    (length-copy_at s 0 v ∙ e, write_back-AllSized ss vs h)

pub length-write_back : (ss vs : List (List ℕ)) → length (write_back ss vs) ≡ length ss
unfolding write_back
length-write_back [] vs = refl
length-write_back (s ∷ ss) [] = refl
length-write_back (s ∷ ss) (v ∷ vs) = ap suc (length-write_back ss vs)

pub fits-AllSized :
    (size : ℕ) (ss : List (List ℕ)) → size ≤ 2048 → AllSized ss → fits size ss ≡ true
unfolding fits
fits-AllSized size [] le h = refl
fits-AllSized size (s ∷ ss) le (e, h) =
    rw (leb-true size (length s) (omega (arith, e))) (fits-AllSized size ss le h)

pub crop-Returns : (s : List ℕ) (n : ℕ) → n ≤ length s → crop s n ≡ ok (take n s)
unfolding crop
crop-Returns s n h = rw (leb-true n (length s) h) refl

pub length-write_data_packet :
    (s : List ℕ) (n t : ℕ) (payload : List ℕ) → length (write_data_packet s n t payload) ≡ length s
unfolding write_data_packet
length-write_data_packet s n t payload =
    length-copy_at (copy_at s 0 (rtp_header n t)) 12 payload ∙ length-copy_at s 0 (rtp_header n t)

pub length-write_parity_packet :
    (s : List ℕ) (index n base t len : ℕ)
    → length (write_parity_packet s index n base t len) ≡ length s
unfolding write_parity_packet
length-write_parity_packet s index n base t len =
    let headed = copy_at s 1 (parity_rtp_fields n index) in
    let m = take len (drop 12 headed) in
    length-copy_at (copy_at headed 24 m) 12 (fec_header index base t)
    ∙ length-copy_at headed 24 m
    ∙ length-copy_at s 1 (parity_rtp_fields n index)
