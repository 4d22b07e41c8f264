-- ===== src/Video/Packetizer/Block/Seal.antt =====
-- One shard of a block, sealed.
use moonshine.Common.{
  ℕ, suc, ◌+◌, ◌*◌, ◌%◌, ◌^◌, ◌<◌, ◌≡◌, refl, sym, ap, ◌∙◌, List, [], ◌∷◌, ◌++◌, some, arith,
  length, slice, copy_at, copy_at-append, length-append, ◌==◌, if◌then◌else◌,
}
use moonshine.Common.Bytes.{le32}
use moonshine.Common.Results.{ok}
use moonshine.Video.ShardBatch.{ShardBuf, shard, prefix, set_shard, set_prefix}
use moonshine.Video.ShardBatch.Slots.{
  IsValid, set_shard-IsValid, set_prefix-IsValid, prefix-ok, length-prefix, shard-set_shard,
  prefix-set_prefix,
}
use moonshine.Video.Packetizer.Crates.{Crates}
use moonshine.Video.Packetizer.Block.{video_iv, encrypt_shards}

copy_whole : (xs bs : List ℕ) → length bs ≡ length xs → copy_at xs 0 bs ≡ bs
copy_whole [] [] e = refl
copy_whole [] (b ∷ bs) e = absurd (omega arith)
copy_whole (x ∷ xs) [] e = absurd (omega arith)
copy_whole (x ∷ xs) (b ∷ bs) e = ap (λ t. b ∷ t) (copy_whole xs bs (omega arith))

-- Three writes, one behind the other, that fill a prefix.
fill :
    (old iv frame tag : List ℕ)
    → length iv ≡ 12
    → length frame ≡ 4
    → length tag ≡ 16
    → length old ≡ 32
    → copy_at (copy_at (copy_at old 0 iv) 12 frame) 16 tag ≡ iv ++ frame ++ tag
fill old iv frame tag i f t o =
    ap (λ x. copy_at x 16 tag) (copy_at-append old 0 12 iv frame (omega arith))
    ∙ copy_at-append old 0 16 (iv ++ frame) tag (omega (arith, length-append iv frame))
    ∙ copy_whole old (iv ++ frame ++ tag)
        (omega (arith, length-append (iv ++ frame) tag, length-append iv frame))

length-video_iv : (counter : ℕ) → length (video_iv counter) ≡ 12
unfolding video_iv
length-video_iv counter = refl

module _ (c : Crates) where
  open c use {Cipher, encrypt}

  -- The documented behaviour of the cipher: it takes every shard, keeps its length, and gives a tag
  -- of sixteen bytes.
  pub record Seals (cipher : Cipher) (iv plain : List ℕ) : Type 0 where
    pub text : List ℕ
    pub tag : List ℕ
    pub sealed : encrypt cipher iv plain ≡ some (text, tag)
    pub same_length : length text ≡ length plain
    pub tag_length : length tag ≡ 16

  module _ (cipher : Cipher) (frame_number : ℕ)
      (seals : (iv plain : List ℕ) → Seals cipher iv plain) where
    -- The prefix of a sealed shard.
    abbrev pub sealed_prefix : ℕ → List ℕ → List ℕ
    sealed_prefix counter tag = video_iv counter ++ le32 frame_number ++ tag

    sealed_length :
        (counter : ℕ) (tag : List ℕ) → length tag ≡ 16 → length (sealed_prefix counter tag) ≡ 32
    sealed_length counter tag t = omega (
      arith,
      length-append (video_iv counter ++ le32 frame_number) tag,
      length-append (video_iv counter) (le32 frame_number),
      length-video_iv counter,
    )

    abbrev pub sealed_buf : ℕ → ℕ → List ℕ → ShardBuf → ShardBuf
    sealed_buf index counter plain old =
        let s = seals (video_iv counter) plain in
        set_prefix (set_shard old index s.text) index (sealed_prefix counter s.tag)

    pub step :
        (n index counter : ℕ) (old : ShardBuf) (plain : List ℕ)
        → IsValid old
        → old.prefix_size ≡ 32
        → index < old.shard_count
        → shard old index ≡ ok plain
        → encrypt_shards c cipher frame_number (suc n) index counter old
          ≡ encrypt_shards c cipher frame_number n
              (index + 1)
              ((counter + 1) % 2 ^ 64)
              (sealed_buf index counter plain old)
    unfolding encrypt_shards set_shard
    step n index counter old plain v p inside e =
        let s = seals (video_iv counter) plain in
        let mid = set_shard old index s.text in
        let w = set_shard-IsValid v index s.text in
        let blank = slice mid.bytes (index * mid.stride) mid.prefix_size in
        rw
          (
            e,
            encrypt_shards,
            s.sealed,
            prefix-ok w index inside,
            fill blank (video_iv counter) (le32 frame_number) s.tag (length-video_iv counter) refl
                s.tag_length (length-prefix w index inside ∙ p),
          )
          refl

    -- One slot sealed: what each slot holds then.
    pub sealed_slot :
        (index counter j : ℕ) (old : ShardBuf) (plain : List ℕ)
        → IsValid old
        → old.prefix_size ≡ 32
        → index < old.shard_count
        → j < old.shard_count
        → length plain ≡ old.data_size
        → let s = seals (video_iv counter) plain in
          (shard (sealed_buf index counter plain old) j
            ≡ (if index == j then ok s.text else shard old j))
          × (prefix (sealed_buf index counter plain old) j
              ≡ (if index == j then ok (sealed_prefix counter s.tag) else prefix old j))
    unfolding set_shard
    sealed_slot index counter j old plain v p inside within sized =
        let s = seals (video_iv counter) plain in
        let w = set_shard-IsValid v index s.text in
        let text = shard-set_shard v index j s.text inside within (s.same_length ∙ sized) in
        let head =
          prefix-set_prefix w index j (sealed_prefix counter s.tag) inside within
            (sealed_length counter s.tag s.tag_length ∙ sym p) in
        (
          head.1 ∙ text.0,
          head.0 ∙ ap (λ r. if index == j then ok (sealed_prefix counter s.tag) else r) (text.1),
        )

    pub sealed-IsValid :
        (index counter : ℕ) (plain : List ℕ) (old : ShardBuf)
        → IsValid old
        → IsValid (sealed_buf index counter plain old)
    sealed-IsValid index counter plain old v =
        set_prefix-IsValid (set_shard-IsValid v index _) index _

    -- What a slot holds once it is sealed: the ciphertext and, before it, the vector, the frame's number
    -- and the tag.
    abbrev pub SealedSlot : ℕ → ℕ → List ℕ → ShardBuf → Type 0
    SealedSlot counter j plain new =
        (shard new j ≡ ok (seals (video_iv counter) plain).text)
        × (prefix new j ≡ ok (sealed_prefix counter (seals (video_iv counter) plain).tag))
