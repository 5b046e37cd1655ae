-- ===== src/Blobs/Sample.antt =====
-- A compressor for examples: it knows one long payload, and writes it as one byte.
use server_backup.Common.{
  ℕ, zero, suc, ◌≡◌, ap, sym, none, some, [], ◌∷◌, if◌then◌else◌, Bool-cases, inl, inr,
}
use server_backup.Common.Texts.{Bytes, text_eq, text_eq_sound}
use server_backup.Blobs.{Zstd}
use server_backup.Blobs.Codec.{ZstdLaws}

abbrev pub zeros : ℕ → Bytes
zeros zero = []
zeros (suc n) = 0 ∷ zeros n

-- The one payload, kept shut because it is long.
unfoldable pub long_payload : Bytes
long_payload = zeros 2000

abbrev pub one_word : Zstd
one_word = record {
  encode_all = λ payload level. if text_eq payload long_payload then some (0 ∷ []) else none;
  decode_all = λ c. some long_payload;
}

pub one_word_laws : ZstdLaws one_word
one_word_laws = record { decode_all-encode_all = λ payload c level e. undo payload c e }
  where
    undo :
        (payload c : Bytes)
        → (if text_eq payload long_payload then some (0 ∷ []) else none) ≡ some c
        → some long_payload ≡ some payload
    undo payload c e = elim (Bool-cases (text_eq payload long_payload)) [
      | inl y ↦ ap some (sym (text_eq_sound payload long_payload y))
      | inr n ↦ absurd (let e' : none ≡ some c = (rw n at e) in cc)
    ]
