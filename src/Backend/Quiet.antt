-- ===== src/Backend/Quiet.antt =====
-- backend.rs: a backend where no call fails.
use server_backup.Common.{◌≡◌, refl, ap, ◌∙◌, Option, none, some, []}
use server_backup.Common.Texts.{Text, Bytes}
use server_backup.Common.Errors.{Result, ok}
use server_backup.Backend.{Objects, Backend, lookup, get, exists, is_some, or_missing, attempt}

abbrev pub quiet : Objects → Backend
quiet m = record { objects = m; faults = [] }

pub get-quiet : (key : Text) (m : Objects) → get key (quiet m) ≡ or_missing (lookup key m) (quiet m)
unfolding get attempt
get-quiet key m = refl

pub get-quiet_objects : (key : Text) (m : Objects) → (get key (quiet m)).1 ≡ quiet m
unfolding or_missing
get-quiet_objects key m =
    ap (λ (p : Result Bytes × Backend). p.1) (get-quiet key m) ∙ left (lookup key m)
  where
    left : (o : Option Bytes) → (or_missing o (quiet m)).1 ≡ quiet m
    left none = refl
    left (some v) = refl

pub exists-quiet :
    (key : Text) (m : Objects) → exists key (quiet m) ≡ (ok (is_some (lookup key m)), quiet m)
unfolding exists attempt
exists-quiet key m = refl
