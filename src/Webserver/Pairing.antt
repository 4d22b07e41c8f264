-- ===== src/Webserver/Pairing.antt =====
-- moonshine-core/src/webserver/pairing.rs: what `/pair` reads from a query and asks of the manager,
-- and `submit_pin` of webserver/mod.rs.
-- A text is its UTF-8 bytes. The text of an error answer, the notification of the desktop and the log
-- are left out.
pub mod Passes
pub mod Trust
use moonshine.Common.{
  ℕ, ◌++◌, length, ◌==◌, Bool, true, false, Option, none, some, List, [], ◌∷◌, if◌then◌else◌,
}
use moonshine.Common.Text.{codes}
use moonshine.Common.Results.{Result, ok, err, panic}
use moonshine.Clients.{
  Crypto, PendingClient, ClientManager, same_bytes, start_pairing, register_pin, client_challenge,
  server_challenge_response, check_client_pairing_secret,
}
use moonshine.Clients.Events.{fresh_client}
use moonshine.Webserver.Query.{
  Codecs, Params, get_param, Response, bad_request, plain, xml, element,
}

-- `paired_xml_response`
unfoldable pub paired_xml_response : List ℕ → Response
paired_xml_response inner =
    xml (codes "<root status_code=\"200\"><paired>1</paired>" ++ (inner ++ codes "</root>"))

-- `require_param!`, and the other early returns of a `bad_request`: they change nothing.
abbrev pub require :
    Option (List ℕ) → ClientManager → (List ℕ → ClientManager × Response) → ClientManager × Response
require none m rest = (m, bad_request)
require (some value) m rest = rest value

-- What a handler makes of the manager's answer.
abbrev pub answer {ℓ} :
    {A : Type ℓ} → ClientManager × Result A → (A → List ℕ) → ClientManager × Response
answer (m, ok a) inner = (m, paired_xml_response (inner a))
answer (m, err) inner = (m, bad_request)
answer (m, panic) inner = (m, bad_request)

abbrev pub pin_answer : Result (Unit {0}) → Response
pin_answer (ok _) = plain (codes "PIN accepted.")
pin_answer err = bad_request
pin_answer panic = bad_request

-- What a request meets: whether the PIN is given before a shutdown, the certificate of the server,
-- the bytes drawn, and whether the certificate and the client can be saved.
pub record Surroundings : Type 0 where
  pub notified : Bool
  pub server_certs : List ℕ
  pub server_secret : List ℕ
  pub server_challenge : List ℕ
  pub saved_cert : Bool
  pub saved_client : Bool

module _ (crypto : Crypto) (codecs : Codecs) where
  open codecs use {hex_encode, hex_decode, valid_utf8}

  -- `get_server_cert`: the manager is the one in which the request begins to wait for the PIN.
  unfoldable pub get_server_cert : Params → Surroundings → ClientManager → ClientManager × Response
  get_server_cert params now m = require (get_param (codes "clientcert") params) m (λ cert.
      require (hex_decode cert) m (λ client_pem.
        if valid_utf8 client_pem
        then require (get_param (codes "uniqueid") params) m (λ unique_id.
          require (get_param (codes "salt") params) m (λ salt_text.
            require (hex_decode salt_text) m (λ salt.
              if length salt == 16
              then (
                start_pairing crypto (fresh_client crypto unique_id client_pem salt) m,
                if now.notified
                    then paired_xml_response
                        (element (codes "plaincert") (hex_encode now.server_certs))
                    else bad_request,
              )
              else (m, bad_request))))
        else (m, bad_request)))

  -- The function `client_challenge` of this file
  unfoldable pub pair_client_challenge :
      Params → Surroundings → ClientManager → ClientManager × Response
  pair_client_challenge params now m = require (get_param (codes "uniqueid") params) m (λ unique_id.
      require (get_param (codes "clientchallenge") params) m (λ text.
        require (hex_decode text) m (λ challenge.
          answer
            (client_challenge crypto unique_id challenge now.server_secret now.server_challenge m)
            (λ response. element (codes "challengeresponse") (hex_encode response)))))

  -- The function `server_challenge_response` of this file
  unfoldable pub pair_server_challenge_response : Params → ClientManager → ClientManager × Response
  pair_server_challenge_response params m =
      require (get_param (codes "serverchallengeresp") params) m (λ text.
        require (hex_decode text) m (λ response.
          require (get_param (codes "uniqueid") params) m (λ unique_id.
            answer (server_challenge_response crypto unique_id response m)
              (λ secret. element (codes "pairingsecret") (hex_encode secret)))))

  -- `pair_challenge`
  unfoldable pub pair_challenge : Params → ClientManager → ClientManager × Response
  pair_challenge params m =
      require (get_param (codes "uniqueid") params) m (λ _. (m, paired_xml_response []))

  -- `client_pairing_secret`
  unfoldable pub client_pairing_secret :
      Params → Surroundings → ClientManager → ClientManager × Response
  client_pairing_secret params now m =
      require (get_param (codes "clientpairingsecret") params) m (λ text.
        require (hex_decode text) m (λ secret.
          require (get_param (codes "uniqueid") params) m (λ unique_id.
            answer
              (check_client_pairing_secret crypto unique_id secret now.saved_cert now.saved_client
                m)
              (λ _. []))))

  -- `handle_pair_request`
  unfoldable pub handle_pair_request :
      Params → Surroundings → ClientManager → ClientManager × Response
  handle_pair_request params now m = elim (get_param (codes "phrase") params) [
    | some phrase ↦
        if same_bytes phrase (codes "getservercert")
        then get_server_cert params now m
        else if same_bytes phrase (codes "pairchallenge")
        then pair_challenge params m
        else (m, bad_request)
    | none ↦ elim (get_param (codes "clientchallenge") params) [
      | some _ ↦ pair_client_challenge params now m
      | none ↦ elim (get_param (codes "serverchallengeresp") params) [
        | some _ ↦ pair_server_challenge_response params m
        | none ↦ elim (get_param (codes "clientpairingsecret") params) [
          | some _ ↦ client_pairing_secret params now m
          | none ↦ (m, bad_request)
        ]
      ]
    ]
  ]

  -- `submit_pin`: the form's fields, or none where the body is longer than a kilobyte or not read.
  unfoldable pub submit_pin : Option Params → ClientManager → ClientManager × Response
  submit_pin none m = (m, bad_request)
  submit_pin (some params) m = require (get_param (codes "uniqueid") params) m (λ unique_id.
      require (get_param (codes "pin") params) m (λ pin.
        let (m', registered) = register_pin crypto unique_id pin m in (m', pin_answer registered)))
