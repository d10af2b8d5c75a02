-- ===== src/Codec.antt =====
-- What the program takes from Go's encoding, crypto and JSON packages, as a parameter: base64
-- (`encode`, `decode`), the hexadecimal SHA-256 (`sha256`), and the text under a key of the JSON
-- object in a payload (`json_text`). Of these only the round trip of base64 is relied on.
use inferno_sim.Prelude.{String, ◌≡◌, Option, some}

pub record Codec : Type 0 where
  pub encode : String → String
  pub decode : String → Option String
  pub sha256 : String → String
  pub json_text : String → String → Option String
  pub decode-encode : (s : String) → decode (encode s) ≡ some s
