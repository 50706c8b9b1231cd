-- ===== src/Tests/Signatures.antt =====
-- The theorems on challenges and signatures at concrete inputs.
use iot_server.Prelude.{◌≡◌, true, none, some, arith}
use iot_server.Http.{ok}
use iot_server.Puzzle.{valid}
use iot_server.Xmss.Adapters.{Drawn, Challenge, create_challenge, authenticate_device}
use iot_server.Xmss.Verify.{honest}
use iot_server.Xmss.Forgery.{
  forged, create_challenge-authenticate_device, authenticate_device-forged,
}
use iot_server.Tests.Payments.{python_library, json_bytes}

abbrev drawn : Drawn
drawn = record { challenge = "c"; sk_seed = "seed"; pub_seed = "pub" }

create_challenge-authenticate_device_example :
    (c : Challenge) × (create_challenge python_library 120 1000 drawn "device" "dev" 3 2 none
      ≡ ok c)
    × (authenticate_device python_library json_bytes true (record {
      payload = some (honest python_library "seed" 2 "device" "dev" c.challenge 3);
      public_root = some c.public_root;
    })
        ≡ ok valid)
create_challenge-authenticate_device_example =
    create_challenge-authenticate_device python_library json_bytes 120 1000 drawn "dev" 3 2
      (omega arith)

issued :
    (c : Challenge) × (create_challenge python_library 120 1000 drawn "device" "dev" 3 2 none
      ≡ ok c)
    × (authenticate_device python_library json_bytes true (record {
      payload = some (honest python_library "seed" 2 "device" "dev" c.challenge 3);
      public_root = some c.public_root;
    })
        ≡ ok valid)
issued =
    create_challenge-authenticate_device python_library json_bytes 120 1000 drawn "dev" 3 2
      (omega arith)

abbrev made : Challenge
made = issued.0

authenticate_device-forged_example :
    authenticate_device python_library json_bytes true (record {
      payload = some (
          forged python_library
            (honest python_library "seed" 2 "device" "dev" made.challenge 3)
            "other"
            "later"
            1);
      public_root = some made.public_root;
    })
    ≡ ok valid
authenticate_device-forged_example =
    authenticate_device-forged python_library json_bytes true
      (honest python_library "seed" 2 "device" "dev" made.challenge 3) (some made.public_root)
      "other" "later" 1 issued.2
