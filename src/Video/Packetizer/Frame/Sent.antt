-- ===== src/Video/Packetizer/Frame/Sent.antt =====
-- The loop of `packetize` over the blocks, up to what a receiver reads from the batch.
use moonshine.Common.{
  ℕ, zero, suc, ◌+◌, ◌*◌, ◌%◌, ◌^◌, ◌≤◌, ◌<◌, ◌≡◌, refl, sym, ap, ◌∙◌, ◌==◌, ◌⊎◌, Bool-cases, true,
  false, inl, inr, List, [], ◌∷◌, ◌++◌, length, length-append, pos==zero, if◌then◌else◌, arith,
}
use mathlib.Core.Path.{subst}
use mathlib.Core.List.{append_assoc}
use moonshine.Common.Results.{Result, ok}
use moonshine.Video.ShardBatch.{ShardBatch, ShardBuf, extend_from, into_batch}
use moonshine.Video.Packetizer.Layout.{nr_blocks}
use moonshine.Video.Packetizer.Crates.{Crates}
use moonshine.Video.Packetizer.Frame.{
  Request, block_params, total_data_shards, frame_blocks, State, block, blocks,
}
use moonshine.Video.Packetizer.Frame.Coded.{MakesCodes, IsReady}
use moonshine.Video.Packetizer.Frame.Filled.{IsFilled, block-IsFilled}
use moonshine.Video.Packetizer.Frame.Laid.{
  IsSized, IsLaid, laid, sent_blocks, frame_params-IsFrame, requested_shard_size_lem,
}
use moonshine.Video.Packetizer.Frame.Held.{
  layout, shards_of, size, Holds, filled_length, last_Holds, next_Holds,
}

pub some_frame_block : (r : Request) → 0 < frame_blocks r
unfolding frame_blocks nr_blocks
some_frame_block r = omega arith

module _ (c : Crates) (r : Request) (v : IsSized r) (makes : MakesCodes c) where
  only :
      (i rounds : ℕ)
      → (i == 3) ≡ true
      → layout r (suc rounds) i
        ≡ ((block_params r i).nr_data_shards, (block_params r i).nr_parity_shards) ∷ []
  only i rounds e = rw e refl

  more :
      (i rounds : ℕ)
      → (i == 3) ≡ false
      → layout r (suc rounds) i
        ≡ ((block_params r i).nr_data_shards, (block_params r i).nr_parity_shards)
          ∷ layout r rounds (i + 1)
  more i rounds e = rw e refl

  blocks_run :
      (rounds i : ℕ) (batch : ShardBatch) (s s' : State c) (buf : ShardBuf)
      → block c r i s ≡ (ok buf, s')
      → blocks c r (suc rounds) i batch s ≡ (
          if i == 3
          then (ok (extend_from batch (into_batch buf)), s')
          else blocks c r rounds (i + 1) (extend_from batch (into_batch buf)) s')
  unfolding blocks
  blocks_run rounds i batch s s' buf e = elim (Bool-cases (i == 3)) [
    | inl at_end ↦ rw at_end (rw e refl)
    | inr going ↦ rw going (rw e refl)
  ]

  -- What the loop over such blocks, from block `i` on, leaves and sends
  abbrev pub IsSent : List (ℕ × ℕ) → ℕ → ShardBatch → State c → Result ShardBatch × State c → Type 0
  IsSent blocks' i batch s result =
      (out : ShardBatch) × ((s' : State c) × ((result ≡ (ok out, s'))
          × (IsReady c s'
              × ((s'.sequence_number ≡ (s.sequence_number + shards_of blocks') % 2 ^ 32)
                  × ((out.shard_size ≡ 32 + size r)
                      × ((bytes : List ℕ) × ((out.bytes ≡ batch.bytes ++ bytes)
                            × ((length bytes ≡ shards_of blocks' * (32 + size r))
                                × Holds r blocks' i bytes))))))))

  abbrev pub FitsBatch : ShardBatch → Type 0
  FitsBatch batch = (batch.shard_size ≡ 0) ⊎ (batch.shard_size ≡ 32 + size r)

  -- The batch keeps one size of shards.
  extended :
      (i : ℕ) (batch : ShardBatch) (buf : ShardBuf)
      → FitsBatch batch
      → IsFilled c r i buf
      → (extend_from batch (into_batch buf)).shard_size ≡ 32 + size r
  unfolding extend_from into_batch
  extended i batch buf shape (plain, _) =
      let stride_is : buf.stride ≡ 32 + size r =
        omega (arith, plain.valid.split, plain.prefix_free, plain.shard_size) in
      elim shape [
        | inl fresh ↦ rw fresh stride_is
        | inr same ↦ rw (same, pos==zero (32 + size r) (omega arith)) refl
      ]

  last_IsSent :
      (i : ℕ) (batch : ShardBatch) (s s' : State c) (buf : ShardBuf)
      → IsLaid r i
      → (i + 1 == sent_blocks r) ≡ true
      → FitsBatch batch
      → IsReady c s'
      → let b = block_params r i in
        s'.sequence_number ≡ (s.sequence_number + b.nr_data_shards + b.nr_parity_shards) % 2 ^ 32
        → IsFilled c r i buf
        → IsSent
            ((b.nr_data_shards, b.nr_parity_shards) ∷ [])
            i
            batch
            s
            (ok (extend_from batch (into_batch buf)), s')
  last_IsSent i batch s s' buf here last shape ready counted filled = (
    extend_from batch (into_batch buf),
    (
      s',
      (
        refl,
        (
          ready,
          (
            omega (arith, counted),
            (
              extended i batch buf shape filled,
              (
                buf.bytes,
                (
                  unfold extend_from into_batch in refl,
                  (
                    omega (arith, filled_length c r i buf filled),
                    last_Holds c r i buf here last filled,
                  ),
                ),
              ),
            ),
          ),
        ),
      ),
    ),
  )

  next_IsSent :
      (i : ℕ) (blocks' : List (ℕ × ℕ)) (batch : ShardBatch) (s s' : State c) (buf : ShardBuf)
      (result : Result ShardBatch × State c)
      → IsLaid r i
      → (i + 1 == sent_blocks r) ≡ false
      → (block_params r (i + 1)).start ≤ total_data_shards r
      → let b = block_params r i in
        s'.sequence_number ≡ (s.sequence_number + b.nr_data_shards + b.nr_parity_shards) % 2 ^ 32
        → IsFilled c r i buf
        → IsSent blocks' (i + 1) (extend_from batch (into_batch buf)) s' result
        → IsSent ((b.nr_data_shards, b.nr_parity_shards) ∷ blocks') i batch s result
  next_IsSent i blocks' batch s s' buf result here going inside counted filled
        (out, (s'', (run, (ready, (counted', (shape, (bytes, (appended, (long, holds))))))))) =
      (
        out,
        (
          s'',
          (
            run,
            (
              ready,
              (
                omega (arith, counted, counted'),
                (
                  shape,
                  (
                    buf.bytes ++ bytes,
                    (
                      appended
                          ∙ unfold extend_from into_batch in
                            append_assoc batch.bytes buf.bytes bytes,
                      (
                        omega (
                          arith,
                          length-append buf.bytes bytes,
                          filled_length c r i buf filled,
                          long,
                        ),
                        next_Holds c r i blocks' buf bytes here going filled inside holds,
                      ),
                    ),
                  ),
                ),
              ),
            ),
          ),
        ),
      )

  moved :
      (l l' : List (ℕ × ℕ)) (i : ℕ) (batch : ShardBatch) (s : State c)
      (t t' : Result ShardBatch × State c)
      → l ≡ l'
      → t ≡ t'
      → IsSent l' i batch s t'
      → IsSent l i batch s t
  moved l l' i batch s t t' e f h =
      subst (λ x. IsSent x i batch s t) (sym e) (subst (λ x. IsSent l' i batch s x) (sym f) h)

  at_end :
      (i rounds : ℕ)
      → i + suc rounds ≡ frame_blocks r
      → i ≤ 3
      → (i + 1 == sent_blocks r) ≡ true
      → ((i == 3) ≡ true) ⊎ (((i == 3) ≡ false) × (rounds ≡ 0))
  at_end i rounds total early last = ground arith

  before_end :
      (i rounds : ℕ)
      → i + suc rounds ≡ frame_blocks r
      → i ≤ 3
      → (i + 1 == sent_blocks r) ≡ false
      → ((i == 3) ≡ false) × ((0 < rounds) × (i + 1 < sent_blocks r))
  before_end i rounds total early going = ground arith

  pub blocks-IsSent :
      (rounds i : ℕ) (batch : ShardBatch) (s : State c)
      → 0 < rounds
      → i + rounds ≡ frame_blocks r
      → i ≤ 3
      → FitsBatch batch
      → IsReady c s
      → IsSent (layout r rounds i) i batch s (blocks c r rounds i batch s)
  unfolding blocks
  blocks-IsSent zero i batch s some_round total early shape ready = absurd (omega arith)
  blocks-IsSent (suc rounds) i batch s some_round total early shape ready =
      let b = block_params r i in
      let here = laid r v i (omega (arith, total)) in
      let (buf, (s', (run, (ready', (counted, filled))))) =
        block-IsFilled c r i s makes ready (frame_params-IsFrame r) (requested_shard_size_lem r v)
          here.some_data here.few here.starts in
      let batch' = extend_from batch (into_batch buf) in
      let step = blocks_run rounds i batch s s' buf run in
      elim (Bool-cases (i + 1 == sent_blocks r)) [
        | inl last ↦
            let done = last_IsSent i batch s s' buf here last shape ready' counted filled in
            elim (at_end i rounds total early last) [
              | inl third ↦
                  moved _ _ i batch s _ (ok batch', s') (only i rounds third) (step ∙ rw third refl)
                    done
              | inr (earlier, no_round) ↦
                  moved _ _ i batch s _ (ok batch', s')
                    (more i rounds earlier
                      ∙ ap (λ t. (b.nr_data_shards, b.nr_parity_shards) ∷ layout r t (i + 1))
                          no_round)
                    (step ∙ rw earlier (ap (λ t. blocks c r t (i + 1) batch' s') no_round)) done
            ]
        | inr going ↦
            let (earlier, (some_round', inside)) = before_end i rounds total early going in
            let after_it = laid r v (i + 1) inside in
            let rest =
              blocks-IsSent rounds (i + 1) batch' s' some_round' (omega (arith, total))
                (omega (arith, inside)) (inr (extended i batch buf shape filled)) ready' in
            moved _ _ i batch s _ (blocks c r rounds (i + 1) batch' s') (more i rounds earlier)
              (step ∙ rw earlier refl)
              (next_IsSent i (layout r rounds (i + 1)) batch s s' buf
                (blocks c r rounds (i + 1) batch' s') here going (omega (arith, after_it.within))
                counted filled rest)
      ]
