-- ===== src/Video/GsoSocket/Sends.antt =====
-- What is handed to the socket does not depend on segmentation offload, nor on the kernel's answers.
use moonshine.Common.{
  ℕ, suc, ◌+◌, ◌*◌, ◌/◌, ◌≤◌, ◌<◌, ◌≡◌, refl, ap, ◌∙◌, List, [], ◌∷◌, ◌++◌, arith, length, Option,
  some, Bool, true, false, ltb, pos==zero, Bool-cases, inl, inr, min, max,
}
use moonshine.Video.ShardBatch.{ShardBatch}
use moonshine.Video.GsoSocket.{
  max_udp_payload, gso_segments_per_send, chunks, Answer, accepted, would_block, rejected, Send,
  gso, datagram, datagrams, send_shards, try_chunk, send_chunks, send_batch_gso, send_batch,
  handed_over, sent_out,
}
use moonshine.Video.GsoSocket.Chunks.{cuts, cuts-chunks, AllWithin, chunks-AllWithin}
use mathlib.Core.Path.{subst}
use mathlib.Core.List.{append_assoc}
use native.Mathlib.Nat.{le_trans, div-mul-le_self}

-- The answers that end the wait of a chunk.
abbrev pub decisive : List Answer → ℕ
decisive [] = 0
decisive (would_block ∷ answers) = decisive answers
decisive (accepted ∷ answers) = suc (decisive answers)
decisive (rejected ∷ answers) = suc (decisive answers)

try_chunk_total :
    (answers : List Answer)
    → 0 < decisive answers
    → (r : Bool × List Answer) × (try_chunk answers ≡ some r)
      × (suc (decisive r.1) ≡ decisive answers)
unfolding try_chunk
try_chunk_total [] h = absurd (omega arith)
try_chunk_total (would_block ∷ answers) h = try_chunk_total answers h
try_chunk_total (accepted ∷ answers) h = ((true, answers), refl, refl)
try_chunk_total (rejected ∷ answers) h = ((false, answers), refl, refl)

handed_over-append : (ss ts : List Send) → handed_over (ss ++ ts) ≡ handed_over ss ++ handed_over ts
unfolding handed_over
handed_over-append [] ts = refl
handed_over-append (gso c s ∷ ss) ts = rw (handed_over-append ss ts, append_assoc)
handed_over-append (datagram d ∷ ss) ts = ap (λ t. d ∷ t) (handed_over-append ss ts)

handed_over-datagrams : (cs : List (List ℕ)) → handed_over (datagrams cs) ≡ cs
unfolding handed_over datagrams
handed_over-datagrams [] = refl
handed_over-datagrams (c ∷ cs) = ap (λ t. c ∷ t) (handed_over-datagrams cs)

handed_over-send_shards :
    (bytes : List ℕ) (s : ℕ) → 0 < s → handed_over (send_shards bytes s) ≡ chunks s bytes
unfolding send_shards
handed_over-send_shards bytes s p = rw (pos==zero s p) (handed_over-datagrams (chunks s bytes))

-- No super-packet is larger than a datagram may be, nor has more segments than the kernel takes.
abbrev pub WithinCaps : ℕ → List Send → Type 0
WithinCaps segments [] = Unit {0}
WithinCaps segments (gso c s ∷ ss) =
    (length c ≤ max_udp_payload) × (length c ≤ segments * s) × WithinCaps segments ss
WithinCaps segments (datagram d ∷ ss) = WithinCaps segments ss

WithinCaps-append :
    (n : ℕ) (ss ts : List Send) → WithinCaps n ss → WithinCaps n ts → WithinCaps n (ss ++ ts)
WithinCaps-append n [] ts a b = b
WithinCaps-append n (gso c s ∷ ss) ts a b = (a.0, a.1, WithinCaps-append n ss ts a.2 b)
WithinCaps-append n (datagram d ∷ ss) ts a b = WithinCaps-append n ss ts a b

WithinCaps-datagrams : (n : ℕ) (cs : List (List ℕ)) → WithinCaps n (datagrams cs)
unfolding datagrams
WithinCaps-datagrams n [] = tt
WithinCaps-datagrams n (c ∷ cs) = WithinCaps-datagrams n cs

WithinCaps-send_shards :
    (n : ℕ) (bytes : List ℕ) (s : ℕ) → 0 < s → WithinCaps n (send_shards bytes s)
unfolding send_shards
WithinCaps-send_shards n bytes s p = rw (pos==zero s p) (WithinCaps-datagrams n (chunks s bytes))

module _ (n s : ℕ) where
  -- The loop ends, and hands over the shards of the chunks.
  abbrev Ends : List (List ℕ) → List Answer → ℕ → Type 0
  Ends cs answers failed =
      (r : List Send × ℕ) × (send_chunks s cs answers failed ≡ some r)
      × (handed_over r.0 ≡ cuts s cs)
      × WithinCaps n r.0
      × (r.1 ≤ failed + length cs)

module _ (n s : ℕ) (p : 0 < s) (c : List ℕ) (cs : List (List ℕ)) (answers rest : List Answer)
    (failed : ℕ) (small : length c ≤ max_udp_payload) (few : length c ≤ n * s) where
  after_answer :
      (b : Bool)
      → try_chunk answers ≡ some (b, rest)
      → Ends n s cs rest failed
      → Ends n s cs rest (failed + 1)
      → Ends n s (c ∷ cs) answers failed
  unfolding send_chunks handed_over
  after_answer true e ((sends, k), run, got, caps, bound) other =
      ((gso c s ∷ sends, k), rw (e, send_chunks, run), rw got, (small, few, caps), omega arith)
  after_answer false e other ((sends, k), run, got, caps, bound) = (
    (send_shards c s ++ sends, k),
    rw (e, send_chunks, run),
    rw (handed_over-append (send_shards c s) sends, handed_over-send_shards c s p, got),
    WithinCaps-append n (send_shards c s) sends (WithinCaps-send_shards n c s p) caps,
    omega arith,
  )

module _ (n s : ℕ) (p : 0 < s) where
  send_chunks-Ends :
      (cs : List (List ℕ)) (answers : List Answer) (failed : ℕ)
      → length cs ≤ decisive answers
      → AllWithin max_udp_payload cs
      → AllWithin (n * s) cs
      → Ends n s cs answers failed
  unfolding send_chunks handed_over
  send_chunks-Ends [] answers failed h a b = (([], failed), refl, refl, tt, omega arith)
  send_chunks-Ends (c ∷ cs) answers failed h a b =
      let ((answer, rest), e, d) = try_chunk_total answers (omega arith) in
      after_answer n s p c cs answers rest failed a.0 b.0 answer e
        (send_chunks-Ends cs rest failed (omega arith) a.1 b.1)
        (send_chunks-Ends cs rest (failed + 1) (omega arith) a.1 b.1)

AllWithin-mono : (n m : ℕ) (cs : List (List ℕ)) → n ≤ m → AllWithin n cs → AllWithin m cs
AllWithin-mono n m [] h a = tt
AllWithin-mono n m (c ∷ cs) h a = (omega arith, AllWithin-mono n m cs h a.1)

-- A chunk of whole shards fits one datagram, and one call of the kernel, when one shard does.
pub segments_fit :
    (segments s : ℕ)
    → 0 < s
    → s ≤ max_udp_payload
    → 0 < segments
    → (gso_segments_per_send segments s * s ≤ max_udp_payload)
      × (gso_segments_per_send segments s ≤ segments)
      × (0 < gso_segments_per_send segments s)
unfolding gso_segments_per_send
segments_fit segments s p h k =
    rw (pos==zero s p) (le_trans (widen narrow) whole, omega arith, omega arith)
  where
    one : 0 < max_udp_payload / s
    one = grind arith

    narrow : max (min segments (max_udp_payload / s)) 1 ≤ max_udp_payload / s
    narrow = omega (arith, one)

    whole : max_udp_payload / s * s ≤ max_udp_payload
    whole = div-mul-le_self max_udp_payload s

    widen : {a b : ℕ} → a ≤ b → a * s ≤ b * s
    widen le = grind arith

-- The chunks that a batch is cut into for segmentation offload.
abbrev pub gso_chunks : ℕ → ShardBatch → List (List ℕ)
gso_chunks segments batch =
    chunks (gso_segments_per_send segments batch.shard_size * batch.shard_size) batch.bytes

module _ (segments : ℕ) (batch : ShardBatch) (answers : List Answer)
    (p : 0 < batch.shard_size) where
  abbrev Sent : Option (List Send × ℕ) → Type 0
  Sent out =
      (r : List Send × ℕ) × (out ≡ some r)
      × (handed_over r.0 ≡ chunks batch.shard_size batch.bytes)
      × WithinCaps segments r.0
      × (r.1 ≤ length (gso_chunks segments batch))

  gso-run :
      send_batch_gso segments batch answers
      ≡ send_chunks batch.shard_size (gso_chunks segments batch) answers 0
  unfolding send_batch_gso
  gso-run = rw (pos==zero batch.shard_size p)

  send_batch_gso-Sent :
      batch.shard_size ≤ max_udp_payload
      → 0 < segments
      → length (gso_chunks segments batch) ≤ decisive answers
      → Sent (send_batch_gso segments batch answers)
  send_batch_gso-Sent small some_segments enough =
      let (fits, few, wide) = segments_fit segments batch.shard_size p small some_segments in
      let within = chunks-AllWithin _ batch.bytes in
      let (r, run, got, caps, bound) =
        send_chunks-Ends segments batch.shard_size p (gso_chunks segments batch) answers 0 enough
          (AllWithin-mono _ _ (gso_chunks segments batch) fits within)
          (AllWithin-mono _ _ (gso_chunks segments batch) (widen few) within) in
      (
        r,
        gso-run ∙ run,
        got ∙ cuts-chunks _ batch.shard_size batch.bytes p wide,
        caps,
        omega (arith, bound),
      )
    where
      widen : {a b : ℕ} → a ≤ b → a * batch.shard_size ≤ b * batch.shard_size
      widen le = grind arith

hands_over :
    (segments : ℕ) (batch : ShardBatch) (answers : List Answer)
    → 0 < batch.shard_size
    → batch.shard_size ≤ max_udp_payload
    → length (gso_chunks segments batch) ≤ decisive answers
    → (r : List Send × ℕ) × (send_batch segments batch answers ≡ some r)
      × (handed_over r.0 ≡ chunks batch.shard_size batch.bytes)
      × WithinCaps segments r.0
      × (r.1 ≤ length (gso_chunks segments batch))
unfolding send_batch
hands_over segments batch answers p small enough = elim (Bool-cases (ltb 1 segments)) [
  | inr off ↦ (
    (send_shards batch.bytes batch.shard_size, 0),
    rw off,
    handed_over-send_shards batch.bytes batch.shard_size p,
    WithinCaps-send_shards segments batch.bytes batch.shard_size p,
    omega arith,
  )
  | inl on ↦ rw on (send_batch_gso-Sent segments batch answers p small (ground arith) enough)
]

-- Some of the elements of a list, in their order.
pub data IsPart : List (List ℕ) → List (List ℕ) → Type 0 where
  done : IsPart [] []
  keep : {xs ys : List (List ℕ)} (x : List ℕ) → IsPart xs ys → IsPart (x ∷ xs) (x ∷ ys)
  skip : {xs ys : List (List ℕ)} (x : List ℕ) → IsPart xs ys → IsPart xs (x ∷ ys)

append-IsPart :
    (front : List (List ℕ)) {xs ys : List (List ℕ)}
    → IsPart xs ys
    → IsPart (front ++ xs) (front ++ ys)
append-IsPart [] part = part
append-IsPart (x ∷ front) part = keep x (append-IsPart front part)

sent_out-IsPart :
    (sends : List Send) (outcomes : List Bool)
    → IsPart (sent_out sends outcomes) (handed_over sends)
unfolding sent_out handed_over
sent_out-IsPart [] outcomes = done
sent_out-IsPart (gso c s ∷ sends) outcomes =
    append-IsPart (chunks s c) (sent_out-IsPart sends outcomes)
sent_out-IsPart (datagram d ∷ sends) [] = skip d (sent_out-IsPart sends [])
sent_out-IsPart (datagram d ∷ sends) (true ∷ outcomes) = keep d (sent_out-IsPart sends outcomes)
sent_out-IsPart (datagram d ∷ sends) (false ∷ outcomes) = skip d (sent_out-IsPart sends outcomes)

-- Sending a batch ends when every chunk gets an answer other than "would block". The shards of the
-- batch are then handed to the socket, each once and in order, whether the kernel supports
-- segmentation offload or not and whichever chunks it rejects. Whichever calls of `send_to` fail, what
-- goes out is some of the shards, none twice, in their order. No super-packet exceeds the size of a
-- datagram or the number of segments that the kernel takes, and the count of failed chunks is at most
-- the number of chunks. It is assumed that a shard is not empty and fits a datagram.
pub send_batch_total :
    (segments : ℕ) (batch : ShardBatch) (answers : List Answer)
    → 0 < batch.shard_size
    → batch.shard_size ≤ max_udp_payload
    → length (gso_chunks segments batch) ≤ decisive answers
    → (r : List Send × ℕ) × (send_batch segments batch answers ≡ some r)
      × (handed_over r.0 ≡ chunks batch.shard_size batch.bytes)
      × WithinCaps segments r.0
      × (r.1 ≤ length (gso_chunks segments batch))
      × ((outcomes : List Bool)
          → IsPart (sent_out r.0 outcomes) (chunks batch.shard_size batch.bytes))
send_batch_total segments batch answers p small enough =
    let (r, run, got, caps, bound) = hands_over segments batch answers p small enough in
    (
      r,
      run,
      got,
      caps,
      bound,
      λ outcomes. subst (λ t. IsPart (sent_out r.0 outcomes) t) got (sent_out-IsPart r.0 outcomes),
    )
