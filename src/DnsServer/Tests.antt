-- ===== src/DnsServer/Tests.antt =====
-- The theorems on the DNS server at concrete packets, and runs of the code.
use opensx_serial_server.Prelude.{ℕ, ◌+◌, ◌≡◌, refl, List, [], ◌∷◌, ◌++◌, length, take, arith}
use opensx_serial_server.Prelude.Text.{c_str}
use opensx_serial_server.DnsServer.{name, reply, parse_dns_name, parse_dns_request}
use opensx_serial_server.DnsServer.Names.{encode, dotted, parse_dns_name-encode}
use opensx_serial_server.DnsServer.Bounds.{InBounds, parse_dns_request-InBounds}
use opensx_serial_server.DnsServer.Answer.{
  Query, IsAnswered, header, question, packet, response_flags, answer_record,
  parse_dns_request-answers,
}

abbrev local_ip : List ℕ
local_ip = 192 ∷ 168 ∷ 4 ∷ 1 ∷ []

parse_dns_name-encode_example :
    parse_dns_name 128 (7 ∷ (encode (c_str "esp" ∷ c_str "com" ∷ []) ++ (0 ∷ 0 ∷ 1 ∷ []))) 1
    ≡ name (dotted (c_str "esp" ∷ c_str "com" ∷ [])) (1 + 8 + 1)
parse_dns_name-encode_example =
    parse_dns_name-encode (7 ∷ []) (c_str "esp") (c_str "com" ∷ []) (0 ∷ 1 ∷ []) 128
      (omega arith, tt) (omega arith)

esp_com : dotted (c_str "esp" ∷ c_str "com" ∷ []) ≡ c_str "esp.com"
esp_com = refl

abbrev query : Query
query = record {
  id_high = 18;
  id_low = 52;
  flags_high = 1;
  flags_low = 0;
  counts = (0, 0, 0, 0, 0, 0);
  label = c_str "esp";
  labels = c_str "com" ∷ [];
  class_high = 0;
  class_low = 1;
  extra = [];
}

query-IsAnswered : IsAnswered local_ip query
query-IsAnswered = record {
  address = refl;
  full_labels = (omega arith, tt);
  name_fits = omega arith;
  packet_fits = omega arith;
  flags_clear = refl;
  flag_byte = omega arith;
}

parse_dns_request-answers_example :
    (bs : List ℕ) × (parse_dns_request local_ip (packet query)
      ≡ reply bs (16 + length (packet query)))
    × (take (16 + length (packet query)) bs
        ≡ header query (response_flags 1) 0 1 ++ (question query ++ answer_record local_ip query))
parse_dns_request-answers_example = parse_dns_request-answers local_ip query query-IsAnswered

parse_dns_request-InBounds_example :
    InBounds (length (packet query)) (parse_dns_request local_ip (packet query))
parse_dns_request-InBounds_example = parse_dns_request-InBounds local_ip (packet query) refl

-- a standard query with recursion desired and the bit of authentic data
