-- ===== src/Audio/Encoder/Rounds.antt =====
-- moonshine-core/src/session/stream/audio/encoder.rs: a round of the loop.
use moonshine.Common.{
  ℕ, ◌+◌, ◌/◌, ◌%◌, ◌^◌, ◌≤◌, ◌≡◌, refl, sym, ap, ◌∙◌, inl, inr, Bool, true, some, List, [], ◌∷◌,
  length, take, drop, Bool-cases, Option-cases, arith,
}
use mathlib.Core.Path.{subst}
use moonshine.Common.Results.{Result, ok, err, panic}
use moonshine.Audio.Encoder.{
  Crates, Round, write_data_packet, shard_at, AudioEncoder, payload_of, store, encode_shards,
  sent_data, send_frame, send_payload, round,
}
use moonshine.Audio.Encoder.Packets.{take-write_data_packet}
use moonshine.Audio.Encoder.Shards.{
  Returns, bind-Returns, imply-Returns, shard_at-Returns, crop-Returns, length-write_data_packet,
}
use moonshine.Audio.Encoder.Numbers.{IsDataAt, rtp_header-IsDataAt, heard, payload-heard}
use moonshine.Audio.Encoder.Group.{
  IsPassable, IsReady, IsStored, IsStep, IsHeard, IsAnswer, sendable, round_payload, store-IsStored,
  encode_shards-Returns, sent_data-Returns,
}

module _ (c : Crates) where
  send_frame-Returns :
      (r : Round) (payload : List ℕ) (e : AudioEncoder c)
      → length payload ≤ 1416
      → IsReady c e
      → Returns
          (IsAnswer c e.sequence_number (r.accepts 0) (payload ∷ []))
          (send_frame c r payload e)
  unfolding send_frame
  send_frame-Returns r payload e le ready =
      let (lt, (anchor, (count, all))) = ready in
      let n = e.sequence_number in
      let t = r.elapsed / 11 % 2 ^ 32 in
      bind-Returns (λ s. length s ≡ 2048) (IsAnswer c n (r.accepts 0) (payload ∷ []))
        (shard_at e.shards (n % 4)) _ (shard_at-Returns e.shards (n % 4) (omega (arith, count)) all)
        (λ s size.
          (let s' = write_data_packet s n t payload in
            let size' : length s' ≡ 2048 = length-write_data_packet s n t payload ∙ size in
            let p = take (12 + length payload) s' in
            let is_data : IsDataAt n p =
              subst (IsDataAt n) (sym (take-write_data_packet s n t payload (omega (arith, size))))
                (rtp_header-IsDataAt n t payload lt) in
            let payload_kept : drop 12 p ≡ payload =
              ap (drop 12) (take-write_data_packet s n t payload (omega (arith, size)))
              ∙ payload-heard n t payload in
            rw (crop-Returns s' (12 + length payload) (omega (arith, size')))
              (elim (Bool-cases (r.accepts 0)) [
                | inl open_ ↦ rw open_ (
                    bind-Returns (IsStored c n) (IsAnswer c n true (payload ∷ []))
                      (encode_shards c (12 + length payload) (store c t s' e))
                      (sent_data c r (length payload) p)
                      (encode_shards-Returns c (12 + length payload) n (store c t s' e)
                        (omega arith) (store-IsStored c t s' e size' ready))
                      (λ e' stored.
                        imply-Returns
                          (λ answer. IsStep c n answer × IsHeard c (drop 12 p ∷ []) answer)
                          (IsAnswer c n true (payload ∷ [])) (sent_data c r (length payload) p e')
                          (λ answer (step, (goes_on, sent)). (
                            step,
                            (λ _. (goes_on, sent ∙ ap (λ (q : List ℕ). q ∷ []) payload_kept)),
                          ))
                          (sent_data-Returns c r (length payload) n p e' (omega arith) lt is_data
                            stored)))
                | inr closed ↦ rw closed (tt, (λ h. absurd cc))
              ])))

  send_payload-Returns :
      (r : Round) (e : AudioEncoder c) (m : Result (List ℕ))
      → IsPassable m
      → IsReady c e
      → Returns (IsAnswer c e.sequence_number (r.accepts 0) (sendable c m)) (send_payload c r e m)
  unfolding send_payload
  send_payload-Returns r e (ok payload) le ready = send_frame-Returns r payload e le ready
  send_payload-Returns r e err le ready =
      ((ready, (λ rest k. k)), (λ _. unfold heard in (refl, refl)))
  send_payload-Returns r e panic le ready = le

  pub round-Returns :
      (encrypt : Bool) (r : Round) (e : AudioEncoder c)
      → ((encoded : List ℕ)
          → r.encoded ≡ some encoded
          → IsPassable (payload_of c encrypt r.keys e.sequence_number encoded))
      → IsReady c e
      → Returns
          (IsAnswer c e.sequence_number
            (r.accepts 0)
            (round_payload c encrypt r.keys e.sequence_number r.encoded))
          (round c encrypt r e)
  unfolding round send_payload send_frame sent_data
  round-Returns encrypt r e passable ready = elim (Option-cases r.encoded) [
    | inl failed ↦ rw failed ((ready, (λ rest k. k)), (λ _. unfold heard in (refl, refl)))
    | inr (encoded, made) ↦ rw made (
        send_payload-Returns r e (payload_of c encrypt r.keys e.sequence_number encoded)
          (passable encoded made) ready)
  ]
