-- ===== src/Tests/Puzzle.antt =====
-- The theorems on puzzles at concrete inputs.
use iot_server.Prelude.{ℕ, zero, suc, ◌≡◌, ◌↔◌, refl, String, true, false, some, List, [], ◌∷◌}
use iot_server.Http.{ok}
use iot_server.Puzzle.{Bytes, PuzzleLibrary, PuzzlePayload, valid, decrypt_payload, verify}
use iot_server.Puzzle.Verified.{Solves, verify-valid}
use iot_server.Puzzle.Gate.{Entity, Sessions, opened, Opened, authenticate, authenticate-Opened}

abbrev zeros : ℕ → Bytes
zeros zero = []
zeros (suc n) = 0 ∷ zeros n

-- Tags of zeros, and a cipher that always gives the answer to the puzzle at the second 0.
abbrev toy : PuzzleLibrary
toy = record {
  utf8 = λ s. [];
  strip = λ s. s;
  from_hex = λ s. some (zeros 32);
  sha256 = λ b. zeros 32;
  hmac_sha256 = λ k msg. zeros 32;
  b64decode = λ s. some [];
  cbc_decrypt_unpad = λ k iv c. some (zeros 72);
  hmac-length = λ k msg. refl;
}

abbrev puzzle : PuzzlePayload
puzzle = record { ciphertext = ""; iv = "" }

verify-valid_example :
    (verify toy (zeros 32) (zeros 32) puzzle 30 ≡ valid)
    ↔ Solves toy (zeros 32) (zeros 32) 30 (decrypt_payload toy (zeros 32) puzzle (zeros 32))
verify-valid_example = verify-valid toy (zeros 32) (zeros 32) puzzle 30

accepted_in_time : verify toy (zeros 32) (zeros 32) puzzle 30 ≡ valid
unfolding verify
accepted_in_time = refl

abbrev device : Entity
device = record { id = "d1"; name = "sensor"; is_active = true; key = some "00" }

-- Sessions as the list of the ids that have one.
abbrev counted : Sessions (List String) String
counted = record {
  get_session = λ id s. (ok false, s);
  create_session_with_tokens = λ id claims s. (ok "token", id ∷ s);
}

authenticate-Opened_example :
    Opened toy (zeros 32) counted "device" 30 puzzle "d1" (device ∷ []) [] "token" ("d1" ∷ [])
authenticate-Opened_example =
    authenticate-Opened toy (zeros 32) counted "device" 30 puzzle "d1" (device ∷ []) [] done
  where
    done :
        authenticate toy (zeros 32) counted "device" 30 puzzle "d1" (device ∷ []) []
        ≡ (ok (opened "token"), "d1" ∷ [])
    done = unfold authenticate in refl
