-- ===== src/Backend.antt =====
-- crates/aegis-core/src/backend.rs: the key/value store under a repository, as the trait `Backend`
-- documents it. `faults` is what the operating system will answer: each call of a method takes one
-- entry, and fails with an I/O error where it is `true`; past its end no call fails.
pub mod Laws
pub mod Quiet
use server_backup.Common.{
  Bool, true, false, Option, none, some, List, [], ◌∷◌, ◌++◌, ◌==◌, ◌&&◌, if◌then◌else◌, map,
}
use server_backup.Common.Texts.{Text, Bytes, bytes, text_eq, strip_prefix, starts_with}
use server_backup.Common.Errors.{Result, ok, err, io}
use server_backup.Common.Actions.{Action, pure, throw, ◌>>=◌, ◌>>◌}

abbrev pub Objects : Type 0
Objects = List (Text × Bytes)

pub record Backend : Type 0 where
  pub objects : Objects
  pub faults : List Bool

unfoldable pub lookup : Text → Objects → Option Bytes
lookup key [] = none
lookup key ((k, v) ∷ rest) = if text_eq key k then some v else lookup key rest

unfoldable pub store : Text → Bytes → Objects → Objects
store key value [] = (key, value) ∷ []
store key value ((k, v) ∷ rest) =
    if text_eq key k then (k, value) ∷ rest else (k, v) ∷ store key value rest

unfoldable pub remove : Text → Objects → Objects
remove key [] = []
remove key ((k, v) ∷ rest) = if text_eq key k then remove key rest else (k, v) ∷ remove key rest

-- `prefix.trim_end_matches('/')`
unfoldable pub trim_slashes : Text → Text
trim_slashes [] = []
trim_slashes (c ∷ s) = elim (trim_slashes s) [
  | [] ↦ if c == b'/' then [] else c ∷ []
  | d ∷ rest ↦ c ∷ d ∷ rest
]

unfoldable pub is_under : Text → Text → Bool
unfolding starts_with trim_slashes
is_under prefix key = elim (trim_slashes prefix) [
  | [] ↦ true
  | _ ∷ _ ↦ starts_with (trim_slashes prefix ++ bytes "/") key
]

unfoldable pub keys_under : Text → Objects → List Text
keys_under prefix [] = []
keys_under prefix ((k, v) ∷ rest) =
    if is_under prefix k then k ∷ keys_under prefix rest else keys_under prefix rest

-- One call of the operating system.
unfoldable pub attempt : Action Backend (Unit {0})
attempt b = elim b.faults [
  | [] ↦ (ok tt, b)
  | fails ∷ later ↦
      if fails then (err io, record b { faults = later }) else (ok tt, record b { faults = later })
]

unfoldable pub or_missing : Option Bytes → Action Backend Bytes
or_missing none = throw io
or_missing (some v) = pure v

unfoldable pub get : Text → Action Backend Bytes
unfolding or_missing
get key = attempt >> λ b. or_missing (lookup key b.objects) b

unfoldable pub put : Text → Bytes → Action Backend (Unit {0})
put key value = attempt >> λ b. (ok tt, record b { objects = store key value b.objects })

unfoldable pub is_some : Option Bytes → Bool
is_some none = false
is_some (some v) = true

unfoldable pub exists : Text → Action Backend Bool
unfolding is_some
exists key = attempt >> λ b. (ok (is_some (lookup key b.objects)), b)

unfoldable pub list : Text → Action Backend (List Text)
list prefix = attempt >> λ b. (ok (keys_under prefix b.objects), b)

unfoldable pub delete : Text → Action Backend (Unit {0})
delete key = attempt >> λ b. (ok tt, record b { objects = remove key b.objects })
