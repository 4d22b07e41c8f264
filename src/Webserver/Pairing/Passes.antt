-- ===== src/Webserver/Pairing/Passes.antt =====
-- webserver/pairing.rs and `submit_pin`: every request is at most one event of the manager.
use moonshine.Common.{
  ℕ, ◌≡◌, ◌⊎◌, inl, inr, refl, Option, none, some, List, [], Option-cases, Bool-cases, length, ◌==◌,
}
use moonshine.Common.Text.{codes}
use moonshine.Common.Results.{ok, err, panic, Result}
use moonshine.Clients.{
  Crypto, ClientManager, same_bytes, client_challenge, server_challenge_response,
  check_client_pairing_secret,
}
use moonshine.Clients.Events.{Event, starts, pins, challenges, responds, finishes, receive}
use moonshine.Webserver.Query.{Codecs, Params, get_param, Response}
use moonshine.Webserver.Pairing.{
  Surroundings, require, answer, get_server_cert, pair_client_challenge,
  pair_server_challenge_response, pair_challenge, client_pairing_secret, handle_pair_request,
  submit_pin,
}

answer-state :
    {A : Type 0} (r : ClientManager × Result A) (inner : A → List ℕ) → (answer r inner).0 ≡ r.0
answer-state (m, ok a) inner = refl
answer-state (m, err) inner = refl
answer-state (m, panic) inner = refl

module _ (crypto : Crypto) (codecs : Codecs) where
  open codecs use {hex_decode}

  -- A request of the last step: none of the other steps' keys, and a secret in hex.
  abbrev pub IsLast : Params → List ℕ → List ℕ → Type 0
  IsLast params id secret =
      (text : List ℕ) × (get_param (codes "phrase") params ≡ none)
      × (get_param (codes "clientchallenge") params ≡ none)
      × (get_param (codes "serverchallengeresp") params ≡ none)
      × (get_param (codes "clientpairingsecret") params ≡ some text)
      × (hex_decode text ≡ some secret)
      × (get_param (codes "uniqueid") params ≡ some id)

  abbrev pub Reads : Params → Event crypto → Type 0
  Reads params (finishes id secret saved_cert saved_client) = IsLast params id secret
  Reads params e = Unit {0}

  -- A handler leaves the manager as it is, or passes it one event that the query holds.
  abbrev pub Passes : Params → ClientManager → ClientManager → Type 0
  Passes params m m' = (m' ≡ m) ⊎ ((e : Event crypto) × (m' ≡ receive crypto e m) × Reads params e)

  require-Passes :
      (params : Params) (v : Option (List ℕ)) (m : ClientManager)
      (rest : List ℕ → ClientManager × Response)
      → ((x : List ℕ) → v ≡ some x → Passes params m (rest x).0)
      → Passes params m (require v m rest).0
  require-Passes params none m rest f = inl refl
  require-Passes params (some x) m rest f = f x refl

  get_server_cert-Passes :
      (params : Params) (now : Surroundings) (m : ClientManager)
      → Passes params m (get_server_cert crypto codecs params now m).0
  unfolding get_server_cert receive
  get_server_cert-Passes params now m =
      require-Passes params (get_param (codes "clientcert") params) m _ λ cert _.
        require-Passes params (hex_decode cert) m _ λ pem _.
          elim (Bool-cases (codecs.valid_utf8 pem)) [
            | inr bad ↦ inl (rw bad refl)
            | inl valid ↦ rw valid (
                require-Passes params (get_param (codes "uniqueid") params) m _ λ id _.
                  require-Passes params (get_param (codes "salt") params) m _ λ text _.
                    require-Passes params (hex_decode text) m _ λ salt _.
                      elim (Bool-cases (length salt == 16)) [
                        | inr bad ↦ inl (rw bad refl)
                        | inl size ↦ inr (starts id pem salt, rw size refl, tt)
                      ])
          ]

  pair_client_challenge-Passes :
      (params : Params) (now : Surroundings) (m : ClientManager)
      → Passes params m (pair_client_challenge crypto codecs params now m).0
  unfolding pair_client_challenge receive
  pair_client_challenge-Passes params now m =
      require-Passes params (get_param (codes "uniqueid") params) m _ λ id _.
        require-Passes params (get_param (codes "clientchallenge") params) m _ λ text _.
          require-Passes params (hex_decode text) m _ λ challenge _. inr (
            challenges id challenge now.server_secret now.server_challenge,
            answer-state
                (client_challenge crypto id challenge now.server_secret now.server_challenge m) _,
            tt,
          )

  pair_server_challenge_response-Passes :
      (params : Params) (m : ClientManager)
      → Passes params m (pair_server_challenge_response crypto codecs params m).0
  unfolding pair_server_challenge_response receive
  pair_server_challenge_response-Passes params m =
      require-Passes params (get_param (codes "serverchallengeresp") params) m _ λ text _.
        require-Passes params (hex_decode text) m _ λ response _.
          require-Passes params (get_param (codes "uniqueid") params) m _ λ id _. inr (
            responds id response,
            answer-state (server_challenge_response crypto id response m) _,
            tt,
          )

  client_pairing_secret-Passes :
      (params : Params) (now : Surroundings) (m : ClientManager)
      → get_param (codes "phrase") params ≡ none
      → get_param (codes "clientchallenge") params ≡ none
      → get_param (codes "serverchallengeresp") params ≡ none
      → Passes params m (client_pairing_secret crypto codecs params now m).0
  unfolding client_pairing_secret receive
  client_pairing_secret-Passes params now m p c r =
      require-Passes params (get_param (codes "clientpairingsecret") params) m _ λ text t.
        require-Passes params (hex_decode text) m _ λ secret s.
          require-Passes params (get_param (codes "uniqueid") params) m _ λ id u. inr (
            finishes id secret now.saved_cert now.saved_client,
            answer-state
                (check_client_pairing_secret crypto id secret now.saved_cert now.saved_client m) _,
            (text, p, c, r, t, s, u),
          )

  pub handle_pair_request-Passes :
      (params : Params) (now : Surroundings) (m : ClientManager)
      → Passes params m (handle_pair_request crypto codecs params now m).0
  unfolding handle_pair_request pair_challenge
  handle_pair_request-Passes params now m =
      elim (Option-cases (get_param (codes "phrase") params)) [
        | inr (phrase, p) ↦
            rw (p, handle_pair_request)
              (elim (Bool-cases (same_bytes phrase (codes "getservercert"))) [
                | inl first ↦ rw first (get_server_cert-Passes params now m)
                | inr other ↦
                    rw other (elim (Bool-cases (same_bytes phrase (codes "pairchallenge"))) [
                      | inl fourth ↦ rw fourth (
                          require-Passes params (get_param (codes "uniqueid") params) m _
                            λ id _. inl refl)
                      | inr unknown ↦ rw unknown (inl refl)
                    ])
              ])
        | inl p ↦
            rw (p, handle_pair_request)
              (elim (Option-cases (get_param (codes "clientchallenge") params)) [
                | inr (_, c) ↦ rw c (pair_client_challenge-Passes params now m)
                | inl c ↦
                    rw c (elim (Option-cases (get_param (codes "serverchallengeresp") params)) [
                      | inr (_, r) ↦ rw r (pair_server_challenge_response-Passes params m)
                      | inl r ↦
                          rw r
                            (elim (Option-cases (get_param (codes "clientpairingsecret") params)) [
                              | inr (_, t) ↦ rw t (client_pairing_secret-Passes params now m p c r)
                              | inl t ↦ rw t (inl refl)
                            ])
                    ])
              ])
      ]

  pub submit_pin-Passes :
      (form : Option Params) (m : ClientManager) → Passes [] m (submit_pin crypto codecs form m).0
  unfolding submit_pin receive
  submit_pin-Passes none m = inl refl
  submit_pin-Passes (some params) m =
      require-Passes [] (get_param (codes "uniqueid") params) m _ λ id _.
        require-Passes [] (get_param (codes "pin") params) m _
          λ digits _. inr (pins id digits, refl, tt)
