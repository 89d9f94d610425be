-- ===== src/UrlDecode/Tests.antt =====
-- The theorems on `urlDecode` at concrete texts.
use opensx_serial_server.Prelude.{ℕ, ◌≡◌, refl, Bool, not, ◌&&◌, some, leb, arith}
use opensx_serial_server.Prelude.Text.{c_str}
use opensx_serial_server.UrlDecode.{url_decode}
use opensx_serial_server.UrlDecode.Ends.{has_stray, is_some, url_decode-ends}
use opensx_serial_server.UrlDecode.Encoded.{encode, url_decode-encode}

url_decode-ends_example :
    is_some (url_decode 9 (c_str "a%2Fb%2")) ≡ not (has_stray (c_str "a%2Fb%2"))
url_decode-ends_example = url_decode-ends 9 (c_str "a%2Fb%2") (omega arith)

-- that text has no result, the whole one has
runs :
    (has_stray (c_str "a%2Fb%2") ≡ Bool.true)
    × (url_decode 9 (c_str "a%2Fb+c") ≡ some (c_str "a/b c"))
unfolding has_stray url_decode
runs = (refl, refl)

abbrev letters : ℕ → Bool
letters c = leb b'a' c && leb c b'z'

url_decode-encode_example : url_decode 5 (encode letters (c_str "a+ %")) ≡ some (c_str "a+ %")
url_decode-encode_example =
    url_decode-encode letters (c_str "a+ %") 5 (refl, refl)
      (omega arith, (omega arith, (omega arith, (omega arith, tt)))) (omega arith)
