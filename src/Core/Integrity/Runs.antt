-- ===== src/Core/Integrity/Runs.antt =====
-- Runs of the base64 encoding.
use oath.Prelude.{◌≡◌, refl, arith, codes}
use oath.Core.Integrity.{char_at, base64_encode}
use oath.Core.Integrity.RoundTrip.{base64_decode, base64_decode-encode}

base64_decode-encode_example : base64_decode (base64_encode (codes "oath!")) ≡ codes "oath!"
base64_decode-encode_example =
    base64_decode-encode (codes "oath!")
      (omega arith, (omega arith, (omega arith, (omega arith, (omega arith, tt)))))

-- The test vectors of RFC 4648.
foobar_encodes :
    (base64_encode (codes "f") ≡ codes "Zg==")
    × (base64_encode (codes "fo") ≡ codes "Zm8=")
    × (base64_encode (codes "foobar") ≡ codes "Zm9vYmFy")
unfolding base64_encode char_at
foobar_encodes = (refl, refl, refl)
