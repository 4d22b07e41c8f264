-- ===== src/Tests/Clients.antt =====
-- The pairing theorems at concrete inputs.
use moonshine.Common.{◌≡◌, ◌⊎◌, refl, true, List, [], ◌∷◌, ◌++◌, some, take, replicate}
use moonshine.Clients.{
  start_pairing, register_pin, client_challenge, server_challenge_response,
  check_client_pairing_secret, find, insert, aes_decrypt_ecb, ecb, ecb_blocks,
  verify_pairing_secret, hashed, persist_cert, add_paired_cert, add_client, Crypto, ClientManager,
  is_cert_paired,
}
use moonshine.Clients.Events.{
  receive, Event, starts, pins, challenges, responds, finishes, receive_all,
}
use moonshine.Clients.Persist.{OneProves, paired-proved}
use moonshine.Common.Text.{codes}
use moonshine.Webserver.Query.{Codecs, Params, get_param}
use moonshine.Webserver.Pairing.{
  Surroundings, get_server_cert, pair_client_challenge, pair_server_challenge_response,
  client_pairing_secret, handle_pair_request, submit_pin,
}
use moonshine.Webserver.Pairing.Trust.{
  Arrival, query, pin, serve, serve_all, OneAsks, serve_all-OneAsks,
}
use moonshine.Clients.Honest.{Client}

-- A cipher that changes nothing, and a digest that is the first bytes.
abbrev pub toy : Crypto
toy = record {
  sha256 = λ bytes. take 32 (bytes ++ replicate 32 0);
  encrypt_block = λ key block. block;
  decrypt_block = λ key block. block;
  certificate_signature = λ pem. some (9 ∷ pem);
  sign = λ key text. some (key ++ text);
  verify_client_signature = λ pem text signature. true;
  cert_pem_fingerprint = λ pem. some pem;
}

abbrev pub nobody : ClientManager
nobody = record {
  pending_clients = [];
  state = record { unique_id = 1 ∷ []; clients = []; paired_certs = [] };
  server_cert_pem = 2 ∷ [];
  server_private_key_pem = 3 ∷ [];
}

abbrev alice : Client
alice = record {
  id = 7 ∷ [];
  pem = 8 ∷ [];
  salt = replicate 16 4;
  signature = 9 ∷ 8 ∷ [];
  fingerprint = 8 ∷ [];
  challenge = replicate 16 5;
  secret = replicate 16 6;
  signed = 1 ∷ [];
}

-- The same conversation as it comes in.
abbrev requests : List (Event toy)
requests =
    starts (7 ∷ []) (8 ∷ []) (replicate 16 4)
    ∷ pins (7 ∷ []) (1 ∷ 2 ∷ 3 ∷ 4 ∷ [])
    ∷ challenges (7 ∷ []) (replicate 16 5) (replicate 16 1) (replicate 16 2)
    ∷ responds (7 ∷ []) (take 32 (replicate 16 2 ++ (9 ∷ 8 ∷ []) ++ replicate 16 6))
    ∷ finishes (7 ∷ []) (replicate 16 6 ++ 1 ∷ []) true true
    ∷ []

paired-proved_example :
    (is_cert_paired (8 ∷ []) nobody ≡ true) ⊎ OneProves toy requests nobody (8 ∷ [])
unfolding receive_all receive is_cert_paired start_pairing register_pin client_challenge
    server_challenge_response check_client_pairing_secret find insert aes_decrypt_ecb ecb ecb_blocks
    verify_pairing_secret hashed persist_cert add_paired_cert add_client
paired-proved_example = paired-proved toy requests nobody (8 ∷ []) tt refl

-- And as its queries.
abbrev pub plain : Codecs
plain = record { hex_encode = λ b. b; hex_decode = λ t. some t; valid_utf8 = λ b. true }

abbrev pub around : Surroundings
around = record {
  notified = true;
  server_certs = 2 ∷ [];
  server_secret = replicate 16 1;
  server_challenge = replicate 16 2;
  saved_cert = true;
  saved_client = true;
}

abbrev named : Params
named = (codes "uniqueid", 7 ∷ []) ∷ []

abbrev arrivals : List (Arrival toy plain)
arrivals =
    query
      ((codes "phrase", codes "getservercert")
        ∷ (codes "clientcert", 8 ∷ [])
        ∷ (codes "salt", replicate 16 4)
        ∷ named)
      around
    ∷ pin (some ((codes "pin", 1 ∷ 2 ∷ 3 ∷ 4 ∷ []) ∷ named))
    ∷ query ((codes "clientchallenge", replicate 16 5) ∷ named) around
    ∷ query
        ((codes "serverchallengeresp", take 32 (replicate 16 2 ++ (9 ∷ 8 ∷ []) ++ replicate 16 6))
          ∷ named)
        around
    ∷ query ((codes "clientpairingsecret", replicate 16 6 ++ 1 ∷ []) ∷ named) around
    ∷ []

serve_all-OneAsks_example :
    (is_cert_paired (8 ∷ []) nobody ≡ true) ⊎ OneAsks toy plain arrivals nobody (8 ∷ [])
unfolding serve_all serve handle_pair_request get_param get_server_cert pair_client_challenge
    pair_server_challenge_response client_pairing_secret is_cert_paired start_pairing register_pin
    client_challenge server_challenge_response check_client_pairing_secret find insert
    aes_decrypt_ecb ecb ecb_blocks verify_pairing_secret hashed persist_cert add_paired_cert
    add_client moonshine.Clients.aes_encrypt_ecb submit_pin
serve_all-OneAsks_example = serve_all-OneAsks toy plain arrivals nobody (8 ∷ []) tt refl
