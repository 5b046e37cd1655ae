-- ===== src/Crypto/Examples.antt =====
-- crypto.rs at concrete inputs.
use server_backup.Common.{◌≡◌, refl, [], ◌∷◌, ◌++◌}
use server_backup.Common.Texts.{Bytes, bytes}
use server_backup.Common.Errors.{ok}
use server_backup.Crypto.{RepoCrypto, hash, doc, seal, open_sealed}
use server_backup.Crypto.Laws.{open_sealed-seal, aad_injective}
use server_backup.Crypto.Sample.{plain_cipher, plain_cipher_laws}

abbrev crypto : RepoCrypto
crypto = record { key_slot = bytes "default"; key = 7 ∷ [] }

abbrev nonce : Bytes
nonce = bytes "0123456789abcdefghijklmn"

abbrev sealed : Bytes
sealed = nonce ++ (65 ∷ 66 ∷ 0 ∷ 0 ∷ 0 ∷ 0 ∷ 0 ∷ 0 ∷ 0 ∷ 0 ∷ 0 ∷ 0 ∷ 0 ∷ 0 ∷ 0 ∷ 0 ∷ 0 ∷ 0 ∷ [])

seal_runs : seal plain_cipher nonce crypto doc (65 ∷ 66 ∷ []) ≡ ok sealed
unfolding seal
seal_runs = refl

open_sealed-seal_example : open_sealed plain_cipher crypto doc sealed ≡ ok (65 ∷ 66 ∷ [])
open_sealed-seal_example =
    open_sealed-seal plain_cipher plain_cipher_laws crypto doc nonce (65 ∷ 66 ∷ []) sealed refl
      seal_runs

aad_injective_example : hash (1 ∷ []) ≡ hash (1 ∷ [])
aad_injective_example = aad_injective (hash (1 ∷ [])) (hash (1 ∷ [])) refl
