-- ===== src/Video/Packetizer/Frame/Filled.antt =====
-- One block of a frame: the body of the loop ends, and its data shards carry their part of the frame.
use moonshine.Common.{
  ℕ, ◌+◌, ◌*◌, ◌%◌, ◌^◌, ◌≤◌, ◌<◌, ◌≡◌, refl, sym, ap, ◌∙◌, Option, none, some, List, arith,
}
use moonshine.Common.Results.{Result, ok}
use moonshine.Video.ShardBatch.{ShardBuf, shard, alloc, as_fec_slices, slices_from, set_slices_from}
use moonshine.Video.ShardBatch.Slots.{alloc-IsValid}
use moonshine.Video.ShardBatch.Slices.{
  length-slices_from, slices_from-AllLong, get-slices_from, set_slices_from_lem,
}
use moonshine.Video.Packetizer.Crates.{Crates}
use moonshine.Video.Packetizer.Block.{
  FrameParams, BlockParams, write_data_shards, write_parity_shards,
}
use moonshine.Video.Packetizer.Block.Write.{IsFrame, write_data_shards-Wrote}
use moonshine.Video.Packetizer.Block.Parity.{write_parity_shards-KeepsData}
use moonshine.Video.Packetizer.Frame.{
  Request, M, after, block_encoder, frame_params, block_params, requested_shard_size, State,
  numbered, block_total, new_buf, write_data, write_parity, encrypt_all, block,
}
use moonshine.Video.Packetizer.Frame.Carried.{Carries, IsPlain}
use moonshine.Video.Packetizer.Frame.Coded.{MakesCodes, IsReady, EncoderFor, block_encoder-ok}

module _ (c : Crates) (r : Request) (i : ℕ) where
  abbrev f : FrameParams
  f = frame_params r

  abbrev b : BlockParams
  b = block_params r i

  -- The buffer of the block, with its data shards written
  abbrev pub IsFilled : ShardBuf → Type 0
  IsFilled buf =
      IsPlain f.payload_size buf
      × ((buf.shard_count ≡ b.nr_data_shards + b.nr_parity_shards)
          × Carries f b buf 0 b.nr_data_shards)

  new_buf-plain :
      (s : State c)
      → s.packetizer.cipher ≡ none
      → new_buf c r i s
        ≡ (ok (alloc (b.nr_data_shards + b.nr_parity_shards) (requested_shard_size r) 0), s)
  unfolding new_buf block_total
  new_buf-plain s plain = rw (plain, new_buf) refl

  encrypt_all-plain :
      (s : State c) (buf : ShardBuf)
      → s.packetizer.cipher ≡ none
      → encrypt_all c r i buf s ≡ (ok buf, s)
  unfolding encrypt_all
  encrypt_all-plain s buf plain = simp (plain, encrypt_all) refl

  numbered_run :
      (loop : ℕ → Result (ShardBuf × ℕ)) (s : State c) (buf : ShardBuf) (next : ℕ)
      → loop s.sequence_number ≡ ok (buf, next)
      → numbered c loop s ≡ (ok buf, record s { sequence_number = next })
  unfolding numbered
  numbered_run loop s buf next e = rw (e, numbered) refl

  write_data-ok :
      (s : State c) (buf : ShardBuf)
      → IsFrame f
      → s.sequence_number < 2 ^ 32
      → IsPlain f.payload_size buf
      → buf.shard_count ≡ b.nr_data_shards + b.nr_parity_shards
      → ((j : ℕ) → j < b.nr_data_shards → (b.start + j) * f.payload_size ≤ f.packet_data_len)
      → (new : ShardBuf) × ((write_data c r i buf s ≡ (
        ok new,
        record s { sequence_number = (s.sequence_number + b.nr_data_shards) % 2 ^ 32 },
      ))
          × IsFilled new)
  unfolding write_data
  write_data-ok s buf v lt plain count starts =
      let (new, run, wrote) =
        write_data_shards-Wrote f b v b.nr_data_shards 0 s.sequence_number buf plain.valid lt
          plain.shard_size (omega (arith, count)) (λ j h. starts j (omega arith)) in
      (
        new,
        (
          numbered_run (λ seq. write_data_shards f b b.nr_data_shards 0 seq buf) s new _ run,
          (
            record {
              valid = wrote.valid;
              prefix_free = wrote.prefix_size ∙ plain.prefix_free;
              shard_size = wrote.size ∙ plain.shard_size;
            },
            (
              wrote.count ∙ count,
              (λ j lo hi.
                  let (s', found, good) = wrote.data_shards j lo (omega arith) in
                  (s', (_, (found, good)))),
            ),
          ),
        ),
      )

  write_parity_run :
      (e : c.Encoder) (s : State c) (buf new : ShardBuf) (out : List (List ℕ)) (next : ℕ)
      → c.encode e (as_fec_slices buf) ≡ some out
      → write_parity_shards f b b.nr_parity_shards 0 s.sequence_number (set_slices_from buf 0 out)
        ≡ ok (new, next)
      → write_parity c r i (some e) buf s ≡ (ok new, record s { sequence_number = next })
  unfolding write_parity
  write_parity_run e s buf new out next coded headed = rw coded (
      numbered_run
        (λ seq. write_parity_shards f b b.nr_parity_shards 0 seq (set_slices_from buf 0 out)) s new
        next headed)

  write_parity-ok :
      (enc : Option c.Encoder) (s : State c) (buf : ShardBuf)
      → s.sequence_number < 2 ^ 32
      → EncoderFor c b enc
      → IsFilled buf
      → (new : ShardBuf) × ((write_parity c r i enc buf s ≡ (
        ok new,
        record s { sequence_number = (s.sequence_number + b.nr_parity_shards) % 2 ^ 32 },
      ))
          × IsFilled new)
  unfolding write_parity as_fec_slices
  write_parity-ok none s buf lt no_parity filled =
      let same : (s.sequence_number + b.nr_parity_shards) % 2 ^ 32 ≡ s.sequence_number =
        omega (arith, no_parity) in
      (buf, (ap (λ n. (ok buf, record s { sequence_number = n })) (sym same), filled))
  write_parity-ok (some e) s buf lt keeps (plain, (count, carries)) =
      let slices = slices_from buf 0 buf.shard_count in
      let (out, (run, (size, (long, same)))) =
        keeps slices buf.data_size (length-slices_from buf 0 buf.shard_count ∙ count)
          (slices_from-AllLong buf 0 buf.shard_count plain.valid (omega arith)) in
      let coded = set_slices_from buf 0 out in
      let (shape, (_, written)) =
        set_slices_from_lem out buf 0 plain.valid
          (omega (arith, size, length-slices_from buf 0 buf.shard_count)) long in
      let (new, (headed, (shape', stays))) =
        write_parity_shards-KeepsData f b b.nr_parity_shards 0 s.sequence_number coded shape.valid
          lt (omega (arith, shape.data_size, plain.shard_size))
          (omega (arith, shape.shard_count, count)) in
      (
        new,
        (
          write_parity_run e s buf new out ((s.sequence_number + b.nr_parity_shards) % 2 ^ 32) run
              headed,
          (
            record {
              valid = shape'.valid;
              prefix_free = shape'.prefix_size ∙ shape.prefix_size ∙ plain.prefix_free;
              shard_size = shape'.data_size ∙ shape.data_size ∙ plain.shard_size;
            },
            (
              shape'.shard_count ∙ shape.shard_count ∙ count,
              (λ j lo hi.
                  let (s', (seq, (found, good))) = carries j lo hi in
                  let from_zero : 0 + j ≡ j = omega arith in
                  let view =
                    get-slices_from buf 0 buf.shard_count j s' plain.valid (omega arith)
                      (omega (arith, count)) (ap (λ (k : ℕ). shard buf k) from_zero ∙ found) in
                  (
                    s',
                    (
                      seq,
                      (
                        stays j hi
                            ∙ ap (λ (k : ℕ). shard coded k) (sym from_zero)
                            ∙ written j s' (same j s' hi view),
                        good,
                      ),
                    ),
                  )),
            ),
          ),
        ),
      )

  pub after_run :
      {A B : Type 0} (a : A) (s : State c) (x : Result A × State c) (k : A → M c B)
      (t : Result B × State c)
      → x ≡ (ok a, s)
      → k a s ≡ t
      → after c x k ≡ t
  after_run a s x k t e f = ap (λ y. after c y k) e ∙ f

  block_run :
      (enc : Option c.Encoder) (s s1 s2 s3 : State c) (empty buf2 buf3 : ShardBuf)
      → block_encoder c b s ≡ (ok enc, s1)
      → new_buf c r i s1 ≡ (ok empty, s1)
      → write_data c r i empty s1 ≡ (ok buf2, s2)
      → write_parity c r i enc buf2 s2 ≡ (ok buf3, s3)
      → encrypt_all c r i buf3 s3 ≡ (ok buf3, s3)
      → block c r i s ≡ (ok buf3, s3)
  unfolding block
  block_run enc s s1 s2 s3 empty buf2 buf3 e1 e2 e3 e4 e5 =
      let code : ShardBuf → M c ShardBuf =
        (λ x t. after c (write_parity c r i enc x t) (encrypt_all c r i)) in
      let fill : ShardBuf → M c ShardBuf = (λ x t. after c (write_data c r i x t) code) in
      after_run enc s1 _ _ _ e1 (
        after_run empty s1 _ fill _ e2
          (after_run buf2 s2 _ code _ e3 (after_run buf3 s3 _ (encrypt_all c r i) _ e4 e5)))

  -- The body of the loop over the blocks, where nothing is encrypted
  pub block-IsFilled :
      (s : State c)
      → MakesCodes c
      → IsReady c s
      → IsFrame f
      → requested_shard_size r ≡ 32 + f.payload_size
      → 0 < b.nr_data_shards
      → (0 < b.nr_parity_shards → b.nr_data_shards + b.nr_parity_shards ≤ 255)
      → ((j : ℕ) → j < b.nr_data_shards → (b.start + j) * f.payload_size ≤ f.packet_data_len)
      → (buf : ShardBuf) × ((s' : State c) × ((block c r i s ≡ (ok buf, s'))
            × (IsReady c s'
                × ((s'.sequence_number
                      ≡ (s.sequence_number + b.nr_data_shards + b.nr_parity_shards) % 2 ^ 32)
                    × IsFilled buf))))
  block-IsFilled s makes ready v size some_data few starts =
      let (enc, (s1, (got, (ready1, (same, good))))) =
        block_encoder-ok c b s makes ready some_data few in
      let (lt1, ((plain1, encrypt1), keep1)) = ready1 in
      let empty = alloc (b.nr_data_shards + b.nr_parity_shards) (requested_shard_size r) 0 in
      let empty-IsPlain : IsPlain f.payload_size empty = record {
        valid = alloc-IsValid (b.nr_data_shards + b.nr_parity_shards) (requested_shard_size r) 0;
        prefix_free = unfold alloc in refl;
        shard_size = unfold alloc in size;
      } in
      let (buf2, (wrote, filled2)) =
        write_data-ok s1 empty v lt1 empty-IsPlain (unfold alloc in refl) starts in
      let s2 : State c = record s1 {
        sequence_number = (s1.sequence_number + b.nr_data_shards) % 2 ^ 32;
      } in
      let (buf3, (coded, filled3)) = write_parity-ok enc s2 buf2 (omega arith) good filled2 in
      let s3 : State c = record s2 {
        sequence_number = (s2.sequence_number + b.nr_parity_shards) % 2 ^ 32;
      } in
      (
        buf3,
        (
          s3,
          (
            block_run enc s s1 s2 s3 empty buf2 buf3 got (new_buf-plain s1 plain1) wrote coded
                (encrypt_all-plain s3 buf3 plain1),
            ((omega arith, ((plain1, encrypt1), keep1)), (omega (arith, same), filled3)),
          ),
        ),
      )
