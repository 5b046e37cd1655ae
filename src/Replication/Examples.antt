-- ===== src/Replication/Examples.antt =====
-- replication.rs on a small repository.
use server_backup.Common.{◌+◌, ◌≡◌, refl, inl, true, false, [], ◌∷◌, length}
use server_backup.Common.Texts.{bytes, text_eq, strip_prefix}
use server_backup.Common.Errors.{ok, err, io}
use server_backup.Common.Actions.{Ends}
use server_backup.Backend.{
  Objects, lookup, store, keys_under, is_under, is_some, trim_slashes, attempt, get, put, exists,
  list,
}
use server_backup.Replication.{
  mirror, repair, Pair, get_config, copy_config, copy_absent, copy_present, copy_key, copy_keys,
  copy_prefixes, replicate,
}
use server_backup.Replication.Expected.{Updated, Partial}
use server_backup.Replication.Mirror.{repo_keys, replicate_lem}
use server_backup.Replication.Quiet.{quiet, Completes, replicate-Completes}

abbrev source : Objects
source =
    (bytes "config", 1 ∷ [])
    ∷ (bytes "blobs/aa/aab", 2 ∷ [])
    ∷ (bytes "snapshots/s.json", 3 ∷ [])
    ∷ (bytes "keys/default.json", 4 ∷ [])
    ∷ []

-- One object is there already, with other bytes.
abbrev target : Objects
target = (bytes "blobs/aa/aab", 9 ∷ []) ∷ []

program : Unit {0}
unfolding replicate copy_prefixes copy_keys copy_key copy_present copy_absent copy_config get_config
    get put exists list attempt lookup store keys_under is_under trim_slashes is_some text_eq
    strip_prefix
program = tt

mirror_runs :
    (replicate mirror (quiet source target)).0
    ≡ ok (record { copied = 3; skipped = 1; repaired = 0 })
unfolding program
mirror_runs = refl

repair_runs :
    (replicate repair (quiet source target)).0
    ≡ ok (record { copied = 3; skipped = 0; repaired = 1 })
unfolding program
repair_runs = refl

-- The target's second answer is a failure.
abbrev failing : Pair
failing = record {
  source = record { objects = source; faults = [] };
  target = record { objects = target; faults = false ∷ true ∷ [] };
}

fault_runs : (replicate mirror failing).0 ≡ err io
unfolding program
fault_runs = refl

replicate_lem_example :
    Ends
      (λ stats q.
        (q.source.objects ≡ source)
        × Updated mirror (repo_keys source) source target q.target.objects
        × (stats.copied + stats.skipped + stats.repaired ≡ length (repo_keys source)))
      (λ q. (q.source.objects ≡ source) × Partial mirror source target q.target.objects)
      (replicate mirror (quiet source target))
replicate_lem_example = replicate_lem mirror (quiet source target)

replicate-Completes_example : Completes source (replicate repair (quiet source target))
unfolding lookup text_eq
replicate-Completes_example = replicate-Completes repair source target (1 ∷ []) refl (inl refl)
