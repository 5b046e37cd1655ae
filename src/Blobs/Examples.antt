-- ===== src/Blobs/Examples.antt =====
-- blobs.rs at concrete inputs, with the sample compressor and cipher.
use server_backup.Common.{◌+◌, ◌≤◌, ◌≡◌, refl, ◌↔◌, [], ◌∷◌, ◌++◌, arith, length}
use server_backup.Common.Texts.{Bytes, bytes, text_eq}
use server_backup.Common.Errors.{ok, err, malformed_blob}
use server_backup.Crypto.{RepoCrypto, hash, seal}
use server_backup.Crypto.Sample.{plain_cipher, plain_cipher_laws}
use server_backup.Blobs.{
  wrap, unwrap, encode, decode, choose_level, compress_payload, encrypt_and_encode,
  decrypt_and_decode,
}
use server_backup.Blobs.Envelope.{Known, unwrap_exact}
use server_backup.Blobs.Codec.{
  length-encode, decode-encode, decrypt_and_decode-encrypt_and_encode, decrypt_and_decode-encode,
}
use server_backup.Blobs.Sample.{long_payload, one_word, one_word_laws}

encode_long : encode one_word long_payload ≡ wrap 2 (0 ∷ [])
unfolding encode compress_payload choose_level long_payload text_eq
encode_long = refl

encode_short : encode one_word (bytes "hi") ≡ wrap 1 (bytes "hi")
unfolding encode compress_payload choose_level
encode_short = refl

unwrap_exact_example :
    (unwrap (bytes "AE1" ++ (1 ∷ 5 ∷ 9 ∷ [])) ≡ ok (5, 9 ∷ []))
    ↔ ((bytes "AE1" ++ (1 ∷ 5 ∷ 9 ∷ []) ≡ wrap 5 (9 ∷ [])) × Known 5)
unwrap_exact_example = unwrap_exact (bytes "AE1" ++ (1 ∷ 5 ∷ 9 ∷ [])) (9 ∷ []) 5 (omega arith)

length-encode_example : length (encode one_word long_payload) ≤ length long_payload + 5
length-encode_example = length-encode one_word long_payload

decode-encode_example : decode one_word (encode one_word long_payload) ≡ ok long_payload
decode-encode_example = decode-encode one_word one_word_laws long_payload

abbrev crypto : RepoCrypto
crypto = record { key_slot = bytes "default"; key = 7 ∷ [] }

abbrev nonce : Bytes
nonce = bytes "0123456789abcdefghijklmn"

abbrev sealed_zero : Bytes
sealed_zero = 0 ∷ 0 ∷ 0 ∷ 0 ∷ 0 ∷ 0 ∷ 0 ∷ 0 ∷ 0 ∷ 0 ∷ 0 ∷ 0 ∷ 0 ∷ 0 ∷ 0 ∷ 0 ∷ 0 ∷ []

encrypted_long :
    encrypt_and_encode one_word plain_cipher nonce crypto (hash (bytes "ab")) long_payload
    ≡ ok (wrap 6 (nonce ++ sealed_zero))
unfolding encrypt_and_encode compress_payload choose_level long_payload text_eq seal
encrypted_long = refl

decrypt_and_decode-encrypt_and_encode_example :
    decrypt_and_decode one_word plain_cipher crypto
      (hash (bytes "ab"))
      (wrap 6 (nonce ++ sealed_zero))
    ≡ ok long_payload
decrypt_and_decode-encrypt_and_encode_example =
    decrypt_and_decode-encrypt_and_encode one_word one_word_laws plain_cipher plain_cipher_laws
      crypto (hash (bytes "ab")) nonce long_payload (wrap 6 (nonce ++ sealed_zero)) refl
      encrypted_long

decrypt_and_decode-encode_example :
    decrypt_and_decode one_word plain_cipher crypto
      (hash (bytes "ab"))
      (encode one_word long_payload)
    ≡ err malformed_blob
decrypt_and_decode-encode_example =
    decrypt_and_decode-encode one_word plain_cipher crypto (hash (bytes "ab")) long_payload
