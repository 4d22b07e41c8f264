-- ===== src/Audio/Encoder/Group.antt =====
-- moonshine-core/src/session/stream/audio/encoder.rs: what holds before and after a data packet, and
-- the steps of a round up to the end of its group.
use moonshine.Common.{
  ℕ, suc, ◌+◌, ◌-◌, ◌%◌, ◌^◌, ◌≤◌, ◌<◌, ◌==◌, ◌≡◌, refl, ap, ◌∙◌, inl, inr, Bool, true, false,
  Option, none, some, List, [], ◌∷◌, ◌++◌, length, set, take, drop, replicate, length-append,
  length-replicate, length-take, length-drop, length-set, Bool-cases, Option-cases, ==_iff, arith,
}
use mathlib.Core.Path.{subst}
use moonshine.Common.Results.{Result, ok, err, panic}
use moonshine.Video.Packetizer.State.{SessionKeyData}
use moonshine.Audio.Encoder.{
  Crates, Round, encrypt_cbc, audio_iv, AudioEncoder, payload_of, store, encode_shards, send_parity,
  sent_data,
}
use moonshine.Audio.Encoder.Shards.{
  Returns, bind-Returns, AllSized, set-AllSized, take-AllSized, drop-AllSized, append-AllSized,
  write_back-AllSized, length-write_back, fits-AllSized,
}
use moonshine.Audio.Encoder.Parity.{IsWritten, parity_shards-Returns}
use moonshine.Audio.Encoder.Numbers.{
  IsDataAt, IsNumbered, AllParity, parity-IsNumbered, heard, parity-heard, data-heard,
}

-- `encrypt_padded` gives a part of the buffer that it is lent.
abbrev pub StaysInBuffer : Crates → Type 0
StaysInBuffer c =
    (key iv buffer out : List ℕ) (n : ℕ)
    → c.encrypt_padded key iv buffer n ≡ some out
    → length out ≤ length buffer

abbrev pub IsPassable : Result (List ℕ) → Type 0
IsPassable (ok payload) = length payload ≤ 1416
IsPassable err = Unit
IsPassable panic = ⊥

module _ (c : Crates) where
  abbrev pub IsSized : AudioEncoder c → Type 0
  IsSized e = (length e.shards ≡ 6) × AllSized e.shards

  -- Before a round: within a group the base is the number of its first packet.
  abbrev pub IsReady : AudioEncoder c → Type 0
  IsReady e =
      (e.sequence_number < 2 ^ 16)
      × (((k : ℕ)
            → e.sequence_number % 4 ≡ suc k
            → e.base_sequence_number + suc k ≡ e.sequence_number)
          × IsSized e)

  -- Once the data packet with the number `n` is stored
  abbrev pub IsStored : ℕ → AudioEncoder c → Type 0
  IsStored n e =
      (e.sequence_number ≡ (n + 1) % 2 ^ 16) × ((e.base_sequence_number + n % 4 ≡ n) × IsSized e)

  -- After a round from the number `n` on
  abbrev pub IsStep : ℕ → AudioEncoder c × (List (List ℕ) × Bool) → Type 0
  IsStep n (e, (ps, true)) =
      IsReady e
      × ((rest : List (List ℕ)) → IsNumbered e.sequence_number rest → IsNumbered n (ps ++ rest))
  IsStep n (e, (ps, false)) = IsNumbered n ps

  -- The loop goes on, and the data packets carry these payloads.
  abbrev pub IsHeard : List (List ℕ) → AudioEncoder c × (List (List ℕ) × Bool) → Type 0
  IsHeard payloads answer = (answer.1.1 ≡ true) × (heard answer.1.0 ≡ payloads)

  -- The same, where the channel takes every packet
  abbrev pub IsAnswer : ℕ → Bool → List (List ℕ) → AudioEncoder c × (List (List ℕ) × Bool) → Type 0
  IsAnswer n open_ payloads answer = IsStep n answer × (open_ ≡ true → IsHeard payloads answer)

  -- What there is to send of an attempt and of a round
  abbrev pub sendable : Result (List ℕ) → List (List ℕ)
  sendable (ok payload) = payload ∷ []
  sendable err = []
  sendable panic = []

  abbrev pub round_payload : Bool → SessionKeyData → ℕ → Option (List ℕ) → List (List ℕ)
  round_payload encrypt keys n none = []
  round_payload encrypt keys n (some encoded) = sendable (payload_of c encrypt keys n encoded)

  stored-IsReady : (n : ℕ) (e : AudioEncoder c) → n < 2 ^ 16 → IsStored n e → IsReady e
  stored-IsReady n e lt (next, (base, sized)) =
      (omega (arith, next), ((λ k h. omega (arith, next, base, h)), sized))

  encrypt_cbc-IsPassable :
      (bytes key iv : List ℕ)
      → StaysInBuffer c
      → length bytes ≤ 1400
      → IsPassable (encrypt_cbc c bytes key iv)
  unfolding encrypt_cbc
  encrypt_cbc-IsPassable bytes key iv stays le =
      let buffer = bytes ++ replicate (16 - length bytes % 16) 0 in
      let size : length buffer ≤ 1416 = omega (
        arith,
        length-append bytes (replicate (16 - length bytes % 16) 0),
        length-replicate {A = ℕ} (16 - length bytes % 16) 0,
      ) in
      elim (Bool-cases (length key == 16)) [
        | inr short ↦ rw short tt
        | inl e ↦ rw e (elim (Bool-cases (length iv == 16)) [
          | inr short ↦ rw short tt
          | inl e' ↦ rw e' (elim (Option-cases (c.encrypt_padded key iv buffer (length bytes))) [
            | inl refused ↦ rw refused tt
            | inr (out, given) ↦
                rw given (omega (arith, stays key iv buffer out (length bytes) given, size))
          ])
        ])
      ]

  pub payload_of-IsPassable :
      (encrypt : Bool) (keys : SessionKeyData) (n : ℕ) (encoded : List ℕ)
      → StaysInBuffer c
      → length encoded ≤ 1400
      → IsPassable (payload_of c encrypt keys n encoded)
  unfolding payload_of
  payload_of-IsPassable false keys n encoded stays le = omega arith
  payload_of-IsPassable true keys n encoded stays le =
      encrypt_cbc-IsPassable encoded keys.remote_input_key (audio_iv keys n) stays le

  pub store-IsStored :
      (t : ℕ) (s : List ℕ) (e : AudioEncoder c)
      → length s ≡ 2048
      → IsReady e
      → IsStored e.sequence_number (store c t s e)
  unfolding store
  store-IsStored t s e size (lt, (anchor, (count, all))) =
      let n = e.sequence_number in
      let shards' = set e.shards (n % 4) s in
      let sized : (length shards' ≡ 6) × AllSized shards' =
        (length-set e.shards (n % 4) s ∙ count, set-AllSized e.shards (n % 4) s size all) in
      elim (Bool-cases (n % 4 == 0)) [
        | inl first ↦ rw first (refl, (omega (arith, (==_iff (n % 4) 0).0 first), sized))
        | inr later ↦
            let within : n % 4 ≡ suc (n % 4 - 1) = ground arith in
            rw later (refl, (omega (arith, within, anchor (n % 4 - 1) within), sized))
      ]

  pub encode_shards-Returns :
      (size n : ℕ) (e : AudioEncoder c)
      → size ≤ 2048
      → IsStored n e
      → Returns (IsStored n) (encode_shards c size e)
  unfolding encode_shards
  encode_shards-Returns size n e le (next, (base, (count, all))) =
      rw (fits-AllSized size e.shards le all)
        (next, (base, (length-write_back e.shards _ ∙ count, write_back-AllSized e.shards _ all)))

  -- What `send_parity` leaves and sends after the data packet with the number `n`
  abbrev pub IsSent : ℕ → AudioEncoder c × List (List ℕ) → Type 0
  IsSent n (e, ps) = IsStored n e × AllParity ((n + 1) % 2 ^ 16) ps

  send_parity-Returns :
      (accepts : ℕ → Bool) (len n : ℕ) (e : AudioEncoder c)
      → 24 + len ≤ 2048
      → n < 2 ^ 16
      → (n + 1) % 4 ≡ 0
      → IsStored n e
      → Returns (IsSent n) (send_parity c accepts len e)
  unfolding send_parity
  send_parity-Returns accepts len n e fit lt last (next, (base, (count, all))) =
      elim (Bool-cases (c.reset e.fec_encoder).1) [
        | inl ready ↦ rw ready (
            bind-Returns (IsWritten e.sequence_number (length (drop 4 e.shards))) (IsSent n) _ _
              (parity_shards-Returns (drop 4 e.shards) 0 e.sequence_number e.base_sequence_number
                e.base_timestamp len accepts (drop-AllSized 4 e.shards all) fit
                (omega (arith, length-drop 4 e.shards, count)) (omega (arith, next))
                (omega (arith, next, last)) (omega (arith, base)) (omega (arith, next, base, last)))
              (λ sent (sizes, ps). (
                (
                  next,
                  (
                    base,
                    (
                      omega (
                        arith,
                        length-append (take 4 e.shards) sent.0,
                        sizes.0,
                        length-drop 4 e.shards,
                        length-take 4 e.shards,
                        count,
                      ),
                      append-AllSized (take 4 e.shards) sent.0 (take-AllSized 4 e.shards all)
                          sizes.1,
                    ),
                  ),
                ),
                subst (λ k. AllParity k sent.1) next ps,
              )))
        | inr unready ↦ rw unready ((next, (base, (count, all))), tt)
      ]

  pub sent_data-Returns :
      (r : Round) (len n : ℕ) (p : List ℕ) (e : AudioEncoder c)
      → 24 + len ≤ 2048
      → n < 2 ^ 16
      → IsDataAt n p
      → IsStored n e
      → Returns
          (λ answer. IsStep n answer × IsHeard (drop 12 p ∷ []) answer)
          (sent_data c r len p e)
  unfolding sent_data
  sent_data-Returns r len n p e fit lt is_data stored =
      elim (Bool-cases (e.sequence_number % 4 == 0)) [
        | inl last ↦ rw last (
            bind-Returns (IsSent n) (λ answer. IsStep n answer × IsHeard (drop 12 p ∷ []) answer)
              (send_parity c r.accepts len e) _
              (send_parity-Returns r.accepts len n e fit lt
                (omega (arith, (==_iff (e.sequence_number % 4) 0).0 last, stored.0)) stored)
              (λ sent (kept, ps). (
                (
                  stored-IsReady n sent.0 lt kept,
                  (λ rest k. inl (
                    is_data,
                    parity-IsNumbered ((n + 1) % 2 ^ 16) sent.1 rest ps
                        (subst (λ j. IsNumbered j rest) kept.0 k),
                  )),
                ),
                (
                  refl,
                  data-heard p sent.1 is_data.0
                      ∙ ap (λ (t : List (List ℕ)). drop 12 p ∷ t)
                          (parity-heard ((n + 1) % 2 ^ 16) sent.1 ps),
                ),
              )))
        | inr within ↦ rw within (
          (
            stored-IsReady n e lt stored,
            (λ rest k. inl (is_data, subst (λ j. IsNumbered j rest) stored.0 k)),
          ),
          (refl, data-heard p [] is_data.0 ∙ unfold heard in refl),
        )
      ]
