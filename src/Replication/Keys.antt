-- ===== src/Replication/Keys.antt =====
-- replication.rs: how the copy of one object ends.
use server_backup.Common.{
  ◌+◌, ◌≡◌, refl, sym, ap, ◌∙◌, inl, inr, Bool, true, false, Option, none, some, [], ◌∷◌, arith,
  if◌then◌else◌, Bool-cases,
}
use server_backup.Common.Texts.{Text, Bytes, text_eq, text_eq_sound}
use server_backup.Common.Errors.{ok}
use server_backup.Common.Actions.{Ends, returned, Ends-bind, ◌>>◌}
use server_backup.Backend.{Objects, lookup, is_some, get, put, exists}
use server_backup.Replication.{
  ReplicateMode, mirror, repair, ReplicateStats, Pair, on_source, on_target, skipped_one,
  repaired_one, copy_absent, copy_present, copy_key,
}
use server_backup.Replication.Expected.{expected, total, Holds}
use server_backup.Replication.Steps.{
  Stepped, Stopped, put_counted, keep_counted, copy_absent-Ends, source_get, target_get,
  target_exists,
}

module _ (key : Text) (stats : ReplicateStats) (s t : Objects) where
  pub repair_present-Ends :
      (p : Pair)
      → Holds s t p
      → Ends
          (Stepped repair (key ∷ []) s t (total stats + 1))
          (Stopped repair s t)
          (copy_present repair key stats p)
  unfolding copy_present
  repair_present-Ends p holds =
      Ends-bind _ _ _ (on_source (get key)) _ p (source_get repair p s t holds key)
        λ v q (found, h).
          Ends-bind _ _ _ (on_target (get key)) _ q (target_get repair q s t h key)
            λ w q' (there, h'). compare v w q' found there h'
    where
      compare :
          (v w : Bytes) (q : Pair)
          → lookup key s ≡ some v
          → lookup key t ≡ some w
          → Holds s t q
          → Ends (Stepped repair (key ∷ []) s t (total stats + 1)) (Stopped repair s t) (
              (if text_eq w v
                  then (λ p. (ok (skipped_one stats), p))
                  else (on_target (put key v) >> λ p. (ok (repaired_one stats), p)))
                q)
      compare v w q found there h = elim (Bool-cases (text_eq w v)) [
        | inl y ↦ rw y (
            returned (skipped_one stats) q refl (
              keep_counted repair key stats s t q h
                (found ∙ ap some (sym (text_eq_sound w v y)) ∙ sym there)))
        | inr n ↦
            rw n (
              put_counted repair key stats s t (repaired_one stats) v q h found found (omega arith))
      ]

  pub copy_present-Ends :
      (mode : ReplicateMode) (p : Pair)
      → Holds s t p
      → is_some (lookup key t) ≡ true
      → Ends
          (Stepped mode (key ∷ []) s t (total stats + 1))
          (Stopped mode s t)
          (copy_present mode key stats p)
  unfolding copy_present
  copy_present-Ends mirror p holds e =
      returned (skipped_one stats) p refl (keep_counted mirror key stats s t p holds kept)
    where
      kept : expected mirror (lookup key t) (lookup key s) ≡ lookup key t
      kept = unfold is_some in ground (arith, e)
  copy_present-Ends repair p holds e = repair_present-Ends p holds

  pub copy_key-Ends :
      (mode : ReplicateMode) (p : Pair)
      → Holds s t p
      → Ends
          (Stepped mode (key ∷ []) s t (total stats + 1))
          (Stopped mode s t)
          (copy_key mode key stats p)
  unfolding copy_key
  copy_key-Ends mode p holds =
      Ends-bind _ _ _ (on_target (exists key)) _ p (target_exists mode p s t holds key)
        λ there q (e, h). branch there q e h
    where
      missing : (o : Option Bytes) → false ≡ is_some o → o ≡ none
      missing none e = refl
      missing (some v) e = absurd (unfold is_some in cc)

      branch :
          (there : Bool) (q : Pair)
          → there ≡ is_some (lookup key t)
          → Holds s t q
          → Ends
              (Stepped mode (key ∷ []) s t (total stats + 1))
              (Stopped mode s t)
              ((if there then copy_present mode key stats else copy_absent key stats) q)
      branch true q e h = copy_present-Ends mode q h (sym e)
      branch false q e h = copy_absent-Ends mode key stats s t q h (missing (lookup key t) e)
