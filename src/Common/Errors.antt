-- ===== src/Common/Errors.antt =====
-- crates/aegis-core/src/error.rs: the errors that the modelled operations return. The message texts
-- are left out; a hash, a name or an id that an error carries is kept.
use mathlib.Core.Path.{◌≡◌, refl}
use server_backup.Common.Texts.{Text}

pub data Error : Type 0 where
  io repo_exists repo_not_found unsupported_format malformed_blob decompress_failed : Error
  kdf_failed encrypt_failed decrypt_failed corrupt_blob malformed key_error wrong_passphrase : Error
  invalid_chunker_config catalog unauthorized rate_limited invalid_input : Error
  snapshot_not_found missing_blob bad_path : Text → Error

pub data Result {ℓ} (A : Type ℓ) : Type ℓ where
  ok : A → Result A
  err : Error → Result A

-- The operator `?` of Rust: an error ends the function.
module _ {ℓ κ} {A : Type ℓ} {B : Type κ} where
  infixl 5 ◌>>=◌
  abbrev pub ◌>>=◌ : Result A → (A → Result B) → Result B
  err problem >>= next = err problem
  ok value >>= next = next value

module _ {ℓ} {B : Type ℓ} where
  infixl 5 ◌>>◌
  abbrev pub ◌>>◌ : Result (Unit {0}) → Result B → Result B
  check >> after = check >>= λ done. after

pub ok_injective : {A : Type 0} {a b : A} → ◌≡◌ {A = Result A} (ok a) (ok b) → a ≡ b
ok_injective h = cc

pub bind-eq_ok :
    {A B : Type 0} (r : Result A) (f : A → Result B) (b : B)
    → (r >>= f) ≡ ok b
    → (a : A) × (r ≡ ok a) × (f a ≡ ok b)
bind-eq_ok (ok a) f b h = (a, refl, h)
bind-eq_ok (err e) f b h = absurd (cc)

pub Result-cases {ℓ} :
    {A : Type ℓ} (r : Result A) (Q : Type 0)
    → ((a : A) → r ≡ ok a → Q)
    → ((e : Error) → r ≡ err e → Q)
    → Q
Result-cases (ok a) Q f g = f a refl
Result-cases (err e) Q f g = g e refl
