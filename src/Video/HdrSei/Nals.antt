-- ===== src/Video/HdrSei/Nals.antt =====
-- hdr_sei.rs, `find_first_vcl_nal`: the first place where a start code opens a coded slice.
use moonshine.Common.{
  ℕ, zero, suc, ◌+◌, ◌-◌, ◌≤◌, ◌<◌, ◌≡◌, ◌⊎◌, refl, Bool, true, false, ◌&&◌, ◌||◌, List, [], ◌∷◌,
  ◌++◌, none, some, length, drop, get_elem?, ◌==◌, arith, dec_lt, Bool-cases, ltb, leb, bit_and,
  ◌/◌, sym, ◌∙◌, inl, inr, drop-drop, length-drop,
}
use mathlib.Core.Path.{subst}
use moonshine.Video.HdrSei.{starts_with, is_vcl, scan_nals, find_first_vcl_nal}

-- The types of coded slices: 1 to 5 in H.264, below 32 in H.265.
unfoldable pub is_slice : Bool → ℕ → Bool
is_slice true header = ltb (bit_and (header / 2) 0x3f) 32
is_slice false header =
    let t = bit_and header 0x1f in (t == 1) || (t == 2) || (t == 3) || (t == 4) || (t == 5)

one_to_five :
    (t : ℕ) → (leb 1 t && leb t 5) ≡ ((t == 1) || (t == 2) || (t == 3) || (t == 4) || (t == 5))
one_to_five t = ground arith

below : (t : ℕ) → leb t 31 ≡ ltb t 32
below t = ground arith

is_vcl-is_slice : (is_hevc : Bool) (header : ℕ) → is_vcl is_hevc header ≡ is_slice is_hevc header
unfolding is_vcl is_slice
is_vcl-is_slice true header = below (bit_and (header / 2) 0x3f)
is_vcl-is_slice false header = one_to_five (bit_and header 0x1f)

-- The byte at `i` exists and is the header of a coded slice.
abbrev vcl_at : Bool → List ℕ → ℕ → Bool
vcl_at is_hevc bytes i = elim (get_elem? bytes i) [
  | none ↦ false
  | some header ↦ is_slice is_hevc header
]

-- These bytes begin with a start code, and a coded slice is behind it.
unfoldable pub opens_vcl : Bool → List ℕ → Bool
unfolding is_slice
opens_vcl is_hevc bytes =
    (starts_with (0 ∷ 0 ∷ 0 ∷ 1 ∷ []) bytes && vcl_at is_hevc bytes 4)
    || (starts_with (0 ∷ 0 ∷ 1 ∷ []) bytes && vcl_at is_hevc bytes 3)

-- A start code with no byte behind it.
unfoldable pub opens_nothing : List ℕ → Bool
opens_nothing bytes =
    (starts_with (0 ∷ 0 ∷ 0 ∷ 1 ∷ []) bytes && (length bytes == 4))
    || (starts_with (0 ∷ 0 ∷ 1 ∷ []) bytes && (length bytes == 3))

-- `k` is the place that the search is for: nothing before it opens a coded slice, and it is one, or
-- a start code cut off, or the end.
pub record IsFirst (is_hevc : Bool) (bytes : List ℕ) (k : ℕ) : Type 0 where
  pub inside : k ≤ length bytes
  pub none_before : (j : ℕ) → j < k → opens_vcl is_hevc (drop j bytes) ≡ false
  pub found :
      (opens_vcl is_hevc (drop k bytes) ≡ true)
      ⊎ ((opens_nothing (drop k bytes) ≡ true) ⊎ (k ≡ length bytes))

at_once :
    (is_hevc : Bool) (bytes : List ℕ)
    → (opens_vcl is_hevc bytes ≡ true) ⊎ ((opens_nothing bytes ≡ true) ⊎ (0 ≡ length bytes))
    → IsFirst is_hevc bytes 0
at_once is_hevc bytes f = record {
  inside = omega arith;
  none_before = λ j h. absurd (omega arith);
  found = f;
}

skip :
    (is_hevc : Bool) (bytes : List ℕ) (n k : ℕ)
    → n ≤ length bytes
    → ((j : ℕ) → j < n → opens_vcl is_hevc (drop j bytes) ≡ false)
    → IsFirst is_hevc (drop n bytes) k
    → IsFirst is_hevc bytes (n + k)
skip is_hevc bytes n k h before f = record {
  inside = omega (arith, f.inside, length-drop n bytes);
  none_before = λ j hj. elim (dec_lt j n) [
    | yes p ↦ before j p
    | no p ↦ rw (drop-drop n (j - n) j bytes (omega arith)) at (f.none_before (j - n) (omega arith))
  ];
  found = elim f.found [
    | inl e ↦ inl (rw (drop-drop n k (n + k) bytes refl) at e)
    | inr (inl e) ↦ inr (inl (rw (drop-drop n k (n + k) bytes refl) at e))
    | inr (inr e) ↦ inr (inr (omega (arith, e, length-drop n bytes)))
  ];
}

starts_with-shape :
    (code bytes : List ℕ) → starts_with code bytes ≡ true → code ++ drop (length code) bytes ≡ bytes
starts_with-shape [] bytes e = refl
starts_with-shape (c ∷ code) [] e = cc
starts_with-shape (c ∷ code) (b ∷ bytes) e = ground (arith, starts_with-shape code bytes)

-- Within a start code of four or three bytes no coded slice opens, if none is behind it.
four_before :
    (is_hevc : Bool) (header : ℕ) (more : List ℕ)
    → is_slice is_hevc header ≡ false
    → (j : ℕ) → j < 4
    → opens_vcl is_hevc (drop j (0 ∷ 0 ∷ 0 ∷ 1 ∷ header ∷ more)) ≡ false
unfolding opens_vcl
four_before is_hevc header more e zero h = rw e refl
four_before is_hevc header more e (suc zero) h = rw e refl
four_before is_hevc header more e (suc (suc zero)) h = refl
four_before is_hevc header more e (suc (suc (suc zero))) h = refl
four_before is_hevc header more e (suc (suc (suc (suc j)))) h = absurd (omega arith)

three_before :
    (is_hevc : Bool) (header : ℕ) (more : List ℕ)
    → is_slice is_hevc header ≡ false
    → (j : ℕ) → j < 3
    → opens_vcl is_hevc (drop j (0 ∷ 0 ∷ 1 ∷ header ∷ more)) ≡ false
unfolding opens_vcl
three_before is_hevc header more e zero h = rw e refl
three_before is_hevc header more e (suc zero) h = refl
three_before is_hevc header more e (suc (suc zero)) h = refl
three_before is_hevc header more e (suc (suc (suc j))) h = absurd (omega arith)

other_before :
    (is_hevc : Bool) (b : ℕ) (bytes : List ℕ)
    → starts_with (0 ∷ 0 ∷ 0 ∷ 1 ∷ []) (b ∷ bytes) ≡ false
    → starts_with (0 ∷ 0 ∷ 1 ∷ []) (b ∷ bytes) ≡ false
    → (j : ℕ) → j < 1
    → opens_vcl is_hevc (drop j (b ∷ bytes)) ≡ false
unfolding opens_vcl
other_before is_hevc b bytes not_four not_three zero h = rw (not_four, not_three) refl
other_before is_hevc b bytes not_four not_three (suc j) h = absurd (omega arith)

module _ (is_hevc : Bool) (rounds : ℕ) where
  abbrev Finds : ℕ → List ℕ → ℕ → Type 0
  Finds fuel bytes i =
      (k : ℕ) × ((scan_nals is_hevc fuel bytes i ≡ i + k) × IsFirst is_hevc bytes k)

  module _ (ih : (bytes : List ℕ) (i : ℕ) → length bytes ≤ rounds → Finds rounds bytes i) where
    at_four :
        (more : List ℕ) (i : ℕ) → length more ≤ rounds → Finds (suc rounds) (0 ∷ 0 ∷ 0 ∷ 1 ∷ more) i
    unfolding scan_nals opens_vcl opens_nothing
    at_four [] i h = (0, (omega arith, at_once is_hevc (0 ∷ 0 ∷ 0 ∷ 1 ∷ []) (inr (inl refl))))
    at_four (header ∷ more) i h = elim (Bool-cases (is_vcl is_hevc header)) [
      | inl e ↦ (
        0,
        (
          rw e (omega arith),
          at_once is_hevc (0 ∷ 0 ∷ 0 ∷ 1 ∷ header ∷ more)
              (inl (rw (sym (is_vcl-is_slice is_hevc header) ∙ e) refl)),
        ),
      )
      | inr e ↦
          let (k, (scanned, first)) = ih (header ∷ more) (i + 4) h in
          (
            4 + k,
            (
              rw e (omega (arith, scanned)),
              skip is_hevc (0 ∷ 0 ∷ 0 ∷ 1 ∷ header ∷ more) 4 k (omega arith)
                  (four_before is_hevc header more (sym (is_vcl-is_slice is_hevc header) ∙ e))
                  first,
            ),
          )
    ]

    at_three :
        (more : List ℕ) (i : ℕ) → length more ≤ rounds → Finds (suc rounds) (0 ∷ 0 ∷ 1 ∷ more) i
    unfolding scan_nals opens_vcl opens_nothing
    at_three [] i h = (0, (omega arith, at_once is_hevc (0 ∷ 0 ∷ 1 ∷ []) (inr (inl refl))))
    at_three (header ∷ more) i h = elim (Bool-cases (is_vcl is_hevc header)) [
      | inl e ↦ (
        0,
        (
          rw e (omega arith),
          at_once is_hevc (0 ∷ 0 ∷ 1 ∷ header ∷ more)
              (inl (rw (sym (is_vcl-is_slice is_hevc header) ∙ e) refl)),
        ),
      )
      | inr e ↦
          let (k, (scanned, first)) = ih (header ∷ more) (i + 3) h in
          (
            3 + k,
            (
              rw e (omega (arith, scanned)),
              skip is_hevc (0 ∷ 0 ∷ 1 ∷ header ∷ more) 3 k (omega arith)
                  (three_before is_hevc header more (sym (is_vcl-is_slice is_hevc header) ∙ e))
                  first,
            ),
          )
    ]

    at_other :
        (b : ℕ) (bytes : List ℕ) (i : ℕ)
        → length bytes ≤ rounds
        → starts_with (0 ∷ 0 ∷ 0 ∷ 1 ∷ []) (b ∷ bytes) ≡ false
        → starts_with (0 ∷ 0 ∷ 1 ∷ []) (b ∷ bytes) ≡ false
        → Finds (suc rounds) (b ∷ bytes) i
    unfolding scan_nals opens_vcl
    at_other b bytes i h not_four not_three =
        let (k, (scanned, first)) = ih bytes (i + 1) h in
        (
          1 + k,
          (
            rw (not_four, not_three) (omega (arith, scanned)),
            skip is_hevc (b ∷ bytes) 1 k (omega arith)
                (other_before is_hevc b bytes not_four not_three) first,
          ),
        )

    any_start :
        (b : ℕ) (bytes : List ℕ) (i : ℕ) → length bytes ≤ rounds → Finds (suc rounds) (b ∷ bytes) i
    any_start b bytes i h = elim (Bool-cases (starts_with (0 ∷ 0 ∷ 0 ∷ 1 ∷ []) (b ∷ bytes))) [
      | inl four ↦
          let shape = starts_with-shape (0 ∷ 0 ∷ 0 ∷ 1 ∷ []) (b ∷ bytes) four in
          subst (λ l. Finds (suc rounds) l i) shape
            (at_four (drop 3 bytes) i (omega (arith, length-drop 3 bytes)))
      | inr not_four ↦ elim (Bool-cases (starts_with (0 ∷ 0 ∷ 1 ∷ []) (b ∷ bytes))) [
        | inl three ↦
            let shape = starts_with-shape (0 ∷ 0 ∷ 1 ∷ []) (b ∷ bytes) three in
            subst (λ l. Finds (suc rounds) l i) shape
              (at_three (drop 2 bytes) i (omega (arith, length-drop 2 bytes)))
        | inr not_three ↦ at_other b bytes i h not_four not_three
      ]
    ]

scan_nals-IsFirst :
    (is_hevc : Bool) (rounds : ℕ) (bytes : List ℕ) (i : ℕ)
    → length bytes ≤ rounds
    → Finds is_hevc rounds rounds bytes i
unfolding scan_nals
scan_nals-IsFirst is_hevc zero [] i h = (0, (omega arith, at_once is_hevc [] (inr (inr refl))))
scan_nals-IsFirst is_hevc zero (b ∷ bytes) i h = absurd (omega arith)
scan_nals-IsFirst is_hevc (suc rounds) [] i h =
    (0, (omega arith, at_once is_hevc [] (inr (inr refl))))
scan_nals-IsFirst is_hevc (suc rounds) (b ∷ bytes) i h =
    any_start is_hevc rounds (scan_nals-IsFirst is_hevc rounds) b bytes i (omega arith)

-- On any bytes `find_first_vcl_nal` gives a place inside them, before which no start code opens a
-- coded slice. At that place one opens, or the bytes end in a start code, or the bytes end.
pub find_first_vcl_nal-IsFirst :
    (bytes : List ℕ) (is_hevc : Bool) → IsFirst is_hevc bytes (find_first_vcl_nal bytes is_hevc)
unfolding find_first_vcl_nal
find_first_vcl_nal-IsFirst bytes is_hevc =
    let (k, (scanned, first)) = scan_nals-IsFirst is_hevc (length bytes) bytes 0 (omega arith) in
    subst (λ (j : ℕ). IsFirst is_hevc bytes j) (omega (arith, scanned)) first
