-- ===== src/Video/Packetizer/Block/Encrypt.antt =====
-- What the loop that encrypts the shards of a block leaves in the buffer.
use mathlib.Core.Path.{subst}
use moonshine.Common.{
  ℕ, zero, suc, ◌+◌, ◌-◌, ◌*◌, ◌%◌, ◌^◌, ◌≤◌, ◌<◌, ◌≡◌, refl, sym, ap, ◌∙◌, List, arith, slice,
  dec_lt, ◌==◌, if◌then◌else◌, true, false,
}
use moonshine.Common.Results.{ok}
use moonshine.Video.ShardBatch.{ShardBuf, shard, prefix, set_shard, set_prefix}
use moonshine.Video.ShardBatch.Slots.{IsValid, shard-ok, length-shard}
use moonshine.Video.Packetizer.Crates.{Crates}
use moonshine.Video.Packetizer.Block.{video_iv, encrypt_shards}
use moonshine.Video.Packetizer.Block.Seal.{
  Seals, sealed_prefix, sealed_buf, step, sealed_slot, sealed-IsValid, SealedSlot,
}

ok_same : (a b : List ℕ) → ok a ≡ ok b → a ≡ b
ok_same a b e = cc

module _ (c : Crates) where
  open c use {Cipher}

  module _ (cipher : Cipher) (frame_number : ℕ)
      (seals : (iv plain : List ℕ) → Seals c cipher iv plain) where
    -- The plain shard in slot `index`.
    abbrev plain_shard : ℕ → ShardBuf → List ℕ
    plain_shard index old = slice old.bytes (index * old.stride + old.prefix_size) old.data_size

    -- The buffer after the loop.
    sealed_all : ℕ → ℕ → ℕ → ShardBuf → ShardBuf
    sealed_all zero index counter old = old
    sealed_all (suc n) index counter old =
        sealed_all n (index + 1) ((counter + 1) % 2 ^ 64)
          (sealed_buf c cipher frame_number seals index counter (plain_shard index old) old)

    run_all :
        (n index counter : ℕ) (old : ShardBuf)
        → IsValid old
        → old.prefix_size ≡ 32
        → index + n ≤ old.shard_count
        → counter < 2 ^ 64
        → encrypt_shards c cipher frame_number n index counter old
          ≡ (ok (sealed_all n index counter old), (counter + n) % 2 ^ 64)
    unfolding encrypt_shards sealed_all set_shard set_prefix
    run_all zero index counter old v p room small =
        let same : (counter + 0) % 18446744073709551616 ≡ counter = omega arith in rw same refl
    run_all (suc n) index counter old v p room small =
        let next =
          sealed_buf c cipher frame_number seals index counter (plain_shard index old) old in
        let same : ((counter + 1) % 18446744073709551616 + n) % 18446744073709551616
            ≡ (counter + suc n) % 18446744073709551616 =
          omega arith in
        step c cipher frame_number seals n index counter old (plain_shard index old) v p
          (omega arith) (shard-ok v index (omega arith))
        ∙ run_all n (index + 1) ((counter + 1) % 2 ^ 64) next
            (sealed-IsValid c cipher frame_number seals index counter (plain_shard index old) old v)
            p (omega arith) (omega arith)
        ∙ ap (λ k. (ok (sealed_all n (index + 1) ((counter + 1) % 2 ^ 64) next), k)) same

    -- A slot that the rounds do not reach.
    outside :
        (n index counter j : ℕ) (old : ShardBuf)
        → IsValid old
        → old.prefix_size ≡ 32
        → index + n ≤ old.shard_count
        → j < old.shard_count
        → j < index
        → (shard (sealed_all n index counter old) j ≡ shard old j)
          × (prefix (sealed_all n index counter old) j ≡ prefix old j)
    unfolding sealed_all set_shard set_prefix
    outside zero index counter j old v p room within out = (refl, refl)
    outside (suc n) index counter j old v p room within out =
        let plain = plain_shard index old in
        let slot =
          sealed_slot c cipher frame_number seals index counter j old plain v p (omega arith) within
            (length-shard v index (omega arith)) in
        let rest =
          outside n (index + 1) ((counter + 1) % 2 ^ 64) j
            (sealed_buf c cipher frame_number seals index counter plain old)
            (sealed-IsValid c cipher frame_number seals index counter plain old v) p (omega arith)
            within (omega arith) in
        let apart : (index == j) ≡ false = ground arith in
        (
          rest.0
              ∙ slot.0
              ∙ ap (λ t. if t then ok (seals (video_iv counter) plain).text else shard old j) apart,
          rest.1
              ∙ slot.1
              ∙ ap
                  (λ t.
                    if t
                    then ok (
                        sealed_prefix c cipher frame_number seals counter
                          (seals (video_iv counter) plain).tag)
                    else prefix old j)
                  apart,
        )

    inside :
        (n index counter j : ℕ) (old : ShardBuf) (plain : List ℕ)
        → IsValid old
        → old.prefix_size ≡ 32
        → index + n ≤ old.shard_count
        → counter < 2 ^ 64
        → index ≤ j
        → j < index + n
        → shard old j ≡ ok plain
        → SealedSlot c cipher frame_number seals
            ((counter + (j - index)) % 2 ^ 64)
            j
            plain
            (sealed_all n index counter old)
    unfolding sealed_all set_shard set_prefix
    inside zero index counter j old plain v p room small lo hi e = absurd (omega arith)
    inside (suc n) index counter j old plain v p room small lo hi e =
        let first = plain_shard index old in
        let slot =
          sealed_slot c cipher frame_number seals index counter j old first v p (omega arith)
            (omega arith) (length-shard v index (omega arith)) in
        let w = sealed-IsValid c cipher frame_number seals index counter first old v in
        let next = sealed_buf c cipher frame_number seals index counter first old in
        elim (dec_lt index j) [
          | yes later ↦
              let apart : (index == j) ≡ false = ground arith in
              let same : ((counter + 1) % 18446744073709551616 + (j - (index + 1)))
                    % 18446744073709551616
                  ≡ (counter + (j - index)) % 18446744073709551616 =
                omega arith in
              subst
                (λ (k : ℕ).
                  SealedSlot c cipher frame_number seals k j plain
                    (sealed_all n (index + 1) ((counter + 1) % 2 ^ 64) next))
                same
                (inside n (index + 1) ((counter + 1) % 2 ^ 64) j next plain w p (omega arith)
                  (omega arith) (omega arith) (omega arith)
                  (slot.0
                    ∙ ap (λ t. if t then ok (seals (video_iv counter) first).text else shard old j)
                        apart
                    ∙ e))
          | no now ↦
              let here : index ≡ j = omega arith in
              let hit : (index == j) ≡ true = ground arith in
              let same : counter ≡ (counter + (j - index)) % 18446744073709551616 = omega arith in
              let alike =
                ok_same first plain
                  (sym (shard-ok v index (omega arith)) ∙ ap (λ (k : ℕ). shard old k) here ∙ e) in
              let rest =
                outside n (index + 1) ((counter + 1) % 2 ^ 64) j next w p (omega arith)
                  (omega arith) (omega arith) in
              subst
                (λ (k : ℕ).
                  SealedSlot c cipher frame_number seals k j plain
                    (sealed_all n (index + 1) ((counter + 1) % 2 ^ 64) next))
                same
                (subst
                  (λ t.
                    SealedSlot c cipher frame_number seals counter j t
                      (sealed_all n (index + 1) ((counter + 1) % 2 ^ 64) next))
                  alike
                  (
                    rest.0
                        ∙ slot.0
                        ∙ ap
                            (λ t.
                              if t then ok (seals (video_iv counter) first).text else shard old j)
                            hit,
                    rest.1
                        ∙ slot.1
                        ∙ ap
                            (λ t.
                              if t
                              then ok (
                                  sealed_prefix c cipher frame_number seals counter
                                    (seals (video_iv counter) first).tag)
                              else prefix old j)
                            hit,
                  ))
        ]

    -- Where the cipher takes every shard, keeps its length and gives a 16-byte tag, the loop over `n`
    -- shards, on a buffer with 32 bytes before each, ends without an error and counts the IV counter on
    -- by one for each. Slot `j` then holds the ciphertext of the shard that it held, and before it the
    -- vector of that shard's own counter, the frame's number and the tag.
    pub encrypt_shards_lem :
        (n index counter j : ℕ) (old : ShardBuf) (plain : List ℕ)
        → IsValid old
        → old.prefix_size ≡ 32
        → index + n ≤ old.shard_count
        → counter < 2 ^ 64
        → index ≤ j
        → j < index + n
        → shard old j ≡ ok plain
        → (new : ShardBuf) × (encrypt_shards c cipher frame_number n index counter old
            ≡ (ok new, (counter + n) % 2 ^ 64))
          × SealedSlot c cipher frame_number seals ((counter + (j - index)) % 2 ^ 64) j plain new
    encrypt_shards_lem n index counter j old plain v p room small lo hi e = (
      sealed_all n index counter old,
      run_all n index counter old v p room small,
      inside n index counter j old plain v p room small lo hi e,
    )
