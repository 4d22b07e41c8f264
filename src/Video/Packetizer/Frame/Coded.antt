-- ===== src/Video/Packetizer/Frame/Coded.antt =====
-- A block of a frame from its encoder to its parity shards, where the crate keeps the data shards.
use moonshine.Common.{
  ℕ, ◌+◌, ◌^◌, ◌≤◌, ◌<◌, ◌≡◌, refl, ◌==◌, ltb, Bool-cases, Option-cases, ◌&&◌, false, inl, inr,
  Option, none, some, List, [], ◌∷◌, length, get_elem?, arith,
}
use mathlib.Core.Path.{subst}
use moonshine.Common.Results.{ok}
use moonshine.Video.ShardBatch.Slices.{AllLong}
use moonshine.Video.Packetizer.Crates.{Crates}
use moonshine.Video.Packetizer.State.{Packetizer, lookup, get_fec_encoder}
use moonshine.Video.Packetizer.Block.{BlockParams}
use moonshine.Video.Packetizer.Frame.{State, block_encoder}

module _ (c : Crates) where
  -- The code overwrites the parity shards and nothing else.
  abbrev pub KeepsShards : c.Encoder → ℕ → ℕ → Type 0
  KeepsShards e n m =
      (slices : List (List ℕ)) (size : ℕ)
      → length slices ≡ n + m
      → AllLong size slices
      → (out : List (List ℕ)) × ((c.encode e slices ≡ some out)
          × ((length out ≡ length slices)
              × (AllLong size out
                  × ((k : ℕ) (s : List ℕ)
                      → k < n
                      → get_elem? slices k ≡ some s
                      → get_elem? out k ≡ some s))))

  -- `ReedSolomon::new` takes any numbers of shards that fit its field.
  abbrev pub MakesCodes : Type 0
  MakesCodes =
      (n m : ℕ)
      → 0 < n
      → 0 < m
      → n + m ≤ 255
      → (e : c.Encoder) × ((c.new_encoder n m ≡ some e) × KeepsShards e n m)

  abbrev pub AllKeep : List ((ℕ × ℕ) × c.Encoder) → Type 0
  AllKeep [] = Unit
  AllKeep (((n, m), e) ∷ es) = KeepsShards e n m × AllKeep es

  lookup-KeepsShards :
      (n m : ℕ) (e : c.Encoder) (es : List ((ℕ × ℕ) × c.Encoder))
      → AllKeep es
      → lookup c n m es ≡ some e
      → KeepsShards e n m
  unfolding lookup
  lookup-KeepsShards n m e [] keep found = absurd cc
  lookup-KeepsShards n m e (((i, j), e') ∷ es) (first, keep) found =
      elim (Bool-cases ((i == n) && (j == m))) [
        | inl hit ↦
            let at_n : i ≡ n = ground arith in
            let at_m : j ≡ m = ground arith in
            let hit_is : ◌≡◌ {A = Option c.Encoder} (some e') (some e) = rw hit at found in
            let is_e : e' ≡ e = cc in
            subst (λ x. KeepsShards x n m) is_e
              (subst (λ x. KeepsShards e' n x) at_m (subst (λ x. KeepsShards e' x j) at_n first))
        | inr miss ↦ lookup-KeepsShards n m e es keep (rw miss at found)
      ]

  -- Nothing is encrypted.
  abbrev pub IsUnsealed : Packetizer c → Type 0
  IsUnsealed p = (p.cipher ≡ none) × (p.encrypt ≡ false)

  -- And the encoders in the map are good ones.
  abbrev pub IsReady : State c → Type 0
  IsReady s =
      (s.sequence_number < 2 ^ 32) × (IsUnsealed s.packetizer × AllKeep s.packetizer.fec_encoders)

  get_fec_encoder-ok :
      (n m : ℕ) (p : Packetizer c)
      → MakesCodes
      → AllKeep p.fec_encoders
      → 0 < n
      → 0 < m
      → n + m ≤ 255
      → (e : c.Encoder) × ((p' : Packetizer c) × ((get_fec_encoder c n m p ≡ (ok e, p'))
            × ((IsUnsealed p → IsUnsealed p') × (AllKeep p'.fec_encoders × KeepsShards e n m))))
  unfolding get_fec_encoder
  get_fec_encoder-ok n m p makes keep data_ parity few =
      elim (Option-cases (lookup c n m p.fec_encoders)) [
        | inr (e, found) ↦ (
          e,
          (
            p,
            (
              rw (found, get_fec_encoder) refl,
              (λ plain. plain, (keep, lookup-KeepsShards n m e p.fec_encoders keep found)),
            ),
          ),
        )
        | inl missing ↦
            let (e, (made, keeps)) = makes n m data_ parity few in
            (
              e,
              (
                record p { fec_encoders = ((n, m), e) ∷ p.fec_encoders },
                (
                  rw (missing, get_fec_encoder, made) refl,
                  (λ plain. plain, ((keeps, keep), keeps)),
                ),
              ),
            )
      ]

  abbrev pub EncoderFor : BlockParams → Option c.Encoder → Type 0
  EncoderFor b none = b.nr_parity_shards ≡ 0
  EncoderFor b (some e) = KeepsShards e b.nr_data_shards b.nr_parity_shards

  pub block_encoder-ok :
      (b : BlockParams) (s : State c)
      → MakesCodes
      → IsReady s
      → 0 < b.nr_data_shards
      → (0 < b.nr_parity_shards → b.nr_data_shards + b.nr_parity_shards ≤ 255)
      → (enc : Option c.Encoder) × ((s' : State c) × ((block_encoder c b s ≡ (ok enc, s'))
            × (IsReady s' × ((s'.sequence_number ≡ s.sequence_number) × EncoderFor b enc))))
  unfolding block_encoder
  block_encoder-ok b s makes (lt, (plain, keep)) data_ few =
      elim (Bool-cases (ltb 0 b.nr_parity_shards)) [
        | inr without ↦ (none, (s, (rw without refl, ((lt, (plain, keep)), (refl, ground arith)))))
        | inl with_parity ↦
            let some_parity : 0 < b.nr_parity_shards = ground arith in
            let (e, (p', (got, (same, (keep', keeps))))) =
              get_fec_encoder-ok b.nr_data_shards b.nr_parity_shards s.packetizer makes keep data_
                some_parity (few some_parity) in
            (
              some e,
              (
                record s { packetizer = p' },
                (rw (with_parity, got) refl, ((lt, (same plain, keep')), (refl, keeps))),
              ),
            )
      ]
