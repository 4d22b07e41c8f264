-- ===== src/Video/Packetizer/State/Encoders.antt =====
-- After `warm_up` no block within its limit needs a new encoder.
use moonshine.Common.{
  ℕ, zero, suc, ◌+◌, ◌≤◌, ◌<◌, ◌≡◌, refl, List, ◌∷◌, none, some, ◌&&◌, ◌==◌, ltb, arith, ◌⊎◌, inl,
  inr, Bool-cases, Option-cases, ltb-true, dec_lt,
}
use moonshine.Common.Results.{ok}
use moonshine.Video.Packetizer.Crates.{Crates}
use moonshine.Video.Packetizer.Layout.{nr_data_shards_per_block, nr_parity_shards}
use moonshine.Video.Packetizer.State.{Packetizer, lookup, get_fec_encoder, warm_up_from, warm_up}

module _ (c : Crates) where
  open c use {Encoder, new_encoder}

  -- The cache has the encoder, or the crate refuses to make it.
  abbrev pub Ready : ℕ → ℕ → Packetizer c → Type 0
  Ready n m p = ((e : Encoder) × (lookup c n m p.fec_encoders ≡ some e)) ⊎ (new_encoder n m ≡ none)

  lookup_head :
      (n m : ℕ) (e : Encoder) (es : List ((ℕ × ℕ) × Encoder))
      → lookup c n m (((n, m), e) ∷ es) ≡ some e
  unfolding lookup
  lookup_head n m e es = ground arith

  lookup_behind :
      (n m i j : ℕ) (d e : Encoder) (es : List ((ℕ × ℕ) × Encoder))
      → lookup c i j es ≡ some e
      → (e' : Encoder) × (lookup c i j (((n, m), d) ∷ es) ≡ some e')
  unfolding lookup
  lookup_behind n m i j d e es h = elim (Bool-cases ((n == i) && (m == j))) [
    | inl hit ↦ (d, rw hit)
    | inr miss ↦ (e, rw miss h)
  ]

  get_fec_encoder-Ready : (n m : ℕ) (p : Packetizer c) → Ready n m (get_fec_encoder c n m p).1
  unfolding get_fec_encoder
  get_fec_encoder-Ready n m p = elim (Option-cases (lookup c n m p.fec_encoders)) [
    | inr (e, old) ↦ rw (old, get_fec_encoder) (inl (e, old))
    | inl new ↦ elim (Option-cases (new_encoder n m)) [
      | inl refused ↦ rw (new, get_fec_encoder, refused) (inr refl)
      | inr (e, made) ↦ rw (new, get_fec_encoder, made) (inl (e, lookup_head n m e p.fec_encoders))
    ]
  ]

  get_fec_encoder-keeps :
      (n m i j : ℕ) (p : Packetizer c) → Ready i j p → Ready i j (get_fec_encoder c n m p).1
  unfolding get_fec_encoder
  get_fec_encoder-keeps n m i j p (inr refused) = inr refused
  get_fec_encoder-keeps n m i j p (inl (d, found)) =
      elim (Option-cases (lookup c n m p.fec_encoders)) [
        | inr (e, old) ↦ rw (old, get_fec_encoder) (inl (d, found))
        | inl new ↦ elim (Option-cases (new_encoder n m)) [
          | inl refused ↦ rw (new, get_fec_encoder, refused) (inl (d, found))
          | inr (e, made) ↦
              rw (new, get_fec_encoder, made) (inl (lookup_behind n m i j e d p.fec_encoders found))
        ]
      ]

  -- One that is ready and can be made is in the cache, and is not built again.
  cached :
      (n m : ℕ) (p : Packetizer c) (e0 : Encoder)
      → new_encoder n m ≡ some e0
      → Ready n m p
      → (e : Encoder) × ((lookup c n m p.fec_encoders ≡ some e)
          × (get_fec_encoder c n m p ≡ (ok e, p)))
  unfolding get_fec_encoder
  cached n m p e0 made (inl (e, found)) = (e, (found, rw (found, get_fec_encoder) refl))
  cached n m p e0 made (inr refused) = absurd cc

  module _ (fec_percentage minimum : ℕ) where
    warm_up_from-keeps :
        (n count i j : ℕ) (p : Packetizer c)
        → Ready i j p
        → Ready i j (warm_up_from c fec_percentage minimum n count p)
    unfolding warm_up_from
    warm_up_from-keeps n zero i j p r = r
    warm_up_from-keeps n (suc count) i j p r =
        warm_up_from-keeps (n + 1) count i j _
          (elim (Bool-cases (ltb 0 (nr_parity_shards fec_percentage minimum n))) [
            | inl on ↦ rw on (get_fec_encoder-keeps n _ i j p r)
            | inr off ↦ rw off r
          ])

    warm_up_from-Ready :
        (n count k : ℕ) (p : Packetizer c)
        → n ≤ k
        → k < n + count
        → 0 < nr_parity_shards fec_percentage minimum k
        → Ready k
            (nr_parity_shards fec_percentage minimum k)
            (warm_up_from c fec_percentage minimum n count p)
    unfolding warm_up_from
    warm_up_from-Ready n zero k p lo hi pos = absurd (omega arith)
    warm_up_from-Ready n (suc count) k p lo hi pos = elim (dec_lt n k) [
      | yes later ↦ warm_up_from-Ready (n + 1) count k _ (omega arith) (omega arith) pos
      | no now ↦
          let here : n ≡ k = omega arith in
          rw here (
            warm_up_from-keeps (k + 1) count k _ _
              (rw (ltb-true 0 _ pos) (get_fec_encoder-Ready k _ p)))
    ]

    -- After `warm_up`, the cache has an encoder for every count of data shards within the limit that
    -- gets parity shards and that the crate makes an encoder for, and asking for one gives the cached
    -- encoder and leaves the packetizer as it is.
    pub warm_up-covers :
        (k : ℕ) (p : Packetizer c)
        → 0 < k
        → k ≤ nr_data_shards_per_block fec_percentage
        → 0 < nr_parity_shards fec_percentage minimum k
        → (e0 : Encoder) → new_encoder k (nr_parity_shards fec_percentage minimum k) ≡ some e0
        → let m = nr_parity_shards fec_percentage minimum k in
          let warm = warm_up c fec_percentage minimum p in
          (e : Encoder) × ((lookup c k m warm.fec_encoders ≡ some e)
            × (get_fec_encoder c k m warm ≡ (ok e, warm)))
    unfolding warm_up
    warm_up-covers k p lo hi pos e0 made = cached k _ _ e0 made (
        warm_up_from-Ready 1 (nr_data_shards_per_block fec_percentage) k p (omega arith)
          (omega arith) pos)
