-- ===== src/Webserver/Launch/Mode.antt =====
-- webserver/mod.rs, `launch`: the mode that a client writes is the one that the session gets.
use moonshine.Common.{
  ℕ, zero, suc, ◌+◌, ◌/◌, ◌%◌, ◌^◌, ◌<◌, ◌≡◌, refl, ◌++◌, ◌==◌, false, List, [], ◌∷◌, arith,
  Bool-cases, inl, inr,
}
use moonshine.Common.Text.{digits_of, to_string, split, parse-to_string}
use moonshine.Common.Results.{ok}
use moonshine.Webserver.Launch.{read_mode}

abbrev Lacks : ℕ → List ℕ → Type 0
Lacks c [] = Unit {0}
Lacks c (d ∷ s) = ((d == c) ≡ false) × Lacks c s

split-Lacks :
    (c : ℕ) (part rest : List ℕ) → Lacks c part → split c (part ++ (c ∷ rest)) ≡ part ∷ split c rest
unfolding split
split-Lacks c [] rest h = ground arith
split-Lacks c (d ∷ part) rest (h, hs) = rw (h, split-Lacks c part rest hs) refl

split-Lacks_last : (c : ℕ) (part : List ℕ) → Lacks c part → split c part ≡ part ∷ []
unfolding split
split-Lacks_last c [] h = refl
split-Lacks_last c (d ∷ part) (h, hs) = rw (h, split-Lacks_last c part hs) refl

digits_of-Lacks :
    (rounds n : ℕ) (tail : List ℕ) → Lacks b'x' tail → Lacks b'x' (digits_of rounds n tail)
unfolding digits_of
digits_of-Lacks zero n tail h = h
digits_of-Lacks (suc rounds) n tail h =
    let digit : ((b'0' + n % 10) == b'x') ≡ false = ground arith in
    elim (Bool-cases (n / 10 == 0)) [
      | inl e ↦ rw e (digit, h)
      | inr e ↦ rw e (digits_of-Lacks rounds (n / 10) ((b'0' + n % 10) ∷ tail) (digit, h))
    ]

to_string-Lacks : (n : ℕ) → Lacks b'x' (to_string n)
unfolding to_string
to_string-Lacks n = digits_of-Lacks (suc n) n [] tt

-- A mode of three numbers below 2 ^ 32, printed with an x between them, is read as these numbers.
read_mode-split :
    (width height rate : ℕ)
    → width < 2 ^ 32
    → height < 2 ^ 32
    → rate < 2 ^ 32
    → read_mode
        (split b'x' (to_string width ++ (b'x' ∷ (to_string height ++ (b'x' ∷ to_string rate)))))
      ≡ ok ((width, height), rate)
unfolding read_mode
read_mode-split width height rate w h r =
    rw
      (
        split-Lacks b'x' (to_string width) (to_string height ++ (b'x' ∷ to_string rate))
            (to_string-Lacks width),
        split-Lacks b'x' (to_string height) (to_string rate) (to_string-Lacks height),
        split-Lacks_last b'x' (to_string rate) (to_string-Lacks rate),
        parse-to_string (2 ^ 32) width w,
        parse-to_string (2 ^ 32) height h,
        parse-to_string (2 ^ 32) rate r,
      )
      refl
