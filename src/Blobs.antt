-- ===== src/Blobs.antt =====
-- crates/aegis-core/src/blobs.rs: the envelope of a stored object, `AE1`, a version byte, a byte of
-- flags and the payload. zstd is the parameter `Zstd`, the cipher is that of Crypto.
pub mod Envelope
pub mod Codec
pub mod Sample
mod Examples
use Prim.Native.Nat.{bit_and, bit_or}
use server_backup.Common.{
  ℕ, zero, suc, ◌+◌, ◌-◌, ◌/◌, min, Bool, true, false, not, ◌||◌, Option, none, some, List, [], ◌∷◌,
  ◌++◌, ltb, leb, ◌==◌, if◌then◌else◌, length, take, drop,
}
use server_backup.Common.Texts.{Bytes, text_eq}
use server_backup.Common.Errors.{Result, ok, err, malformed_blob, decompress_failed, ◌>>=◌}
use server_backup.Crypto.{Aead, AeadContext, RepoCrypto, seal, open_sealed}

abbrev pub magic : Bytes
magic = b'A' ∷ b'E' ∷ b'1' ∷ 1 ∷ []

-- `Flags` is its byte.
abbrev pub plain : ℕ
plain = 1

abbrev pub zstd : ℕ
zstd = 2

abbrev pub enc : ℕ
enc = 4

-- `f & !ENC` on a byte.
abbrev pub without_enc : ℕ → ℕ
without_enc f = bit_and f (255 - enc)

unfoldable pub is_valid : ℕ → Bool
is_valid f = without_enc f == plain || without_enc f == zstd

unfoldable pub wrap : ℕ → Bytes → Bytes
wrap flags payload = magic ++ flags ∷ payload

-- What follows the magic; the length test has made sure that the flags byte is there.
unfoldable pub parse_flags : Bytes → Result (ℕ × Bytes)
unfolding is_valid
parse_flags [] = err malformed_blob
parse_flags (flags ∷ payload) = if is_valid flags then ok (flags, payload) else err malformed_blob

unfoldable pub unwrap : Bytes → Result (ℕ × Bytes)
unfolding parse_flags
unwrap blob =
    if ltb (length blob) (length magic + 1)
    then err malformed_blob
    else if text_eq (take (length magic) blob) magic
    then parse_flags (drop (length magic) blob)
    else err malformed_blob

-- `i += step` is a count of the bytes still to skip; `seen` is the array of 256 flags.
unfoldable pub probe : ℕ → Bytes → ℕ → (ℕ → Bool) → ℕ → ℕ
probe skip [] k seen distinct = 9
probe skip (b ∷ rest) (suc k) seen distinct = probe skip rest k seen distinct
probe skip (b ∷ rest) zero seen distinct =
    let next =
      probe skip rest skip (λ c. if c == b then true else seen c)
        (if seen b then distinct else distinct + 1) in
    if seen b then next else if ltb 200 (distinct + 1) then 1 else next

-- max(step, 1) - 1, the bytes between two samples
unfoldable pub choose_level : Bytes → ℕ
unfolding probe
choose_level payload =
    if ltb (length payload) 1024
    then 1
    else probe (length payload / min (length payload) 8192 - 1) payload 0 (λ c. false) 0

pub record Zstd : Type 0 where
  pub encode_all : Bytes → ℕ → Option Bytes
  pub decode_all : Bytes → Option Bytes

module _ (z : Zstd) where
  -- The match on the result of the encoder.
  unfoldable pub keep_smaller : Bytes → Option Bytes → ℕ × Bytes
  keep_smaller payload none = (plain, payload)
  keep_smaller payload (some c) =
      if ltb (length c) (length payload) then (zstd, c) else (plain, payload)

  unfoldable pub compress_payload : Bytes → ℕ × Bytes
  unfolding keep_smaller
  compress_payload payload =
      let level = choose_level payload in
      if leb level 1 then (plain, payload) else keep_smaller payload (z.encode_all payload level)

  unfoldable pub encode : Bytes → Bytes
  encode payload = wrap (compress_payload payload).0 (compress_payload payload).1

  unfoldable pub decode_zstd : Option Bytes → Result Bytes
  decode_zstd none = err decompress_failed
  decode_zstd (some p) = ok p

  unfoldable pub decompress_payload : ℕ → Bytes → Result Bytes
  unfolding decode_zstd
  decompress_payload flags payload =
      if not (bit_and flags zstd == 0) then decode_zstd (z.decode_all payload) else ok payload

  unfoldable pub decode : Bytes → Result Bytes
  decode blob = unwrap blob >>= λ (p : ℕ × Bytes). decompress_payload p.0 p.1

  module _ (cipher : Aead) where
    unfoldable pub encrypt_and_encode :
        (nonce : Bytes) → RepoCrypto → AeadContext → Bytes → Result Bytes
    encrypt_and_encode nonce crypto context payload = do
      sealed ← seal cipher nonce crypto context (compress_payload payload).1
      ok (wrap (bit_or (compress_payload payload).0 enc) sealed)

    -- What follows the header: refuse a plain blob, authenticate, decompress.
    unfoldable pub decrypt_payload : RepoCrypto → AeadContext → ℕ → Bytes → Result Bytes
    decrypt_payload crypto context flags payload =
        if bit_and flags enc == 0 then err malformed_blob else do
          plaintext ← open_sealed cipher crypto context payload
          decompress_payload (without_enc flags) plaintext

    unfoldable pub decrypt_and_decode : RepoCrypto → AeadContext → Bytes → Result Bytes
    decrypt_and_decode crypto context blob =
        unwrap blob >>= λ (p : ℕ × Bytes). decrypt_payload crypto context p.0 p.1
