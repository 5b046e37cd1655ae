-- ===== src/Replication.antt =====
-- crates/aegis-core/src/replication.rs: copying a repository's objects to a second backend. The
-- state is the pair of backends; an error leaves what was copied before it.
pub mod Expected
pub mod Steps
pub mod Keys
pub mod Mirror
pub mod Quiet
mod Examples
use server_backup.Common.{ℕ, ◌+◌, Bool, true, false, List, [], ◌∷◌, if◌then◌else◌}
use server_backup.Common.Texts.{Text, Bytes, bytes, text_eq}
use server_backup.Common.Errors.{Result, ok, err, malformed_blob}
use server_backup.Common.Actions.{Action, pure, throw, map_error, ◌>>=◌, ◌>>◌}
use server_backup.Backend.{Backend, get, put, exists, list}

pub data ReplicateMode : Type 0 where
  mirror repair : ReplicateMode

pub record ReplicateStats : Type 0 where
  pub copied : ℕ
  pub skipped : ℕ
  pub repaired : ℕ

pub record Pair : Type 0 where
  pub source : Backend
  pub target : Backend

module _ {A : Type 0} where
  abbrev pub on_source : Action Backend A → Action Pair A
  on_source m p = ((m p.source).0, record { source = (m p.source).1; target = p.target })

  abbrev pub on_target : Action Backend A → Action Pair A
  on_target m p = ((m p.target).0, record { source = p.source; target = (m p.target).1 })

abbrev pub repo_prefixes : List Text
repo_prefixes = bytes "blobs/" ∷ bytes "snapshots/" ∷ bytes "index/" ∷ bytes "keys/" ∷ []

abbrev pub config_key : Text
config_key = bytes "config"

-- `source.get("config")` with its error replaced.
unfoldable pub get_config : Action Pair Bytes
get_config p = (
  map_error (λ e. malformed_blob) (on_source (get config_key) p).0,
  (on_source (get config_key) p).1,
)

abbrev pub copied_one : ReplicateStats → ReplicateStats
copied_one s = record s { copied = s.copied + 1 }

abbrev pub skipped_one : ReplicateStats → ReplicateStats
skipped_one s = record s { skipped = s.skipped + 1 }

abbrev pub repaired_one : ReplicateStats → ReplicateStats
repaired_one s = record s { repaired = s.repaired + 1 }

abbrev pub no_stats : ReplicateStats
no_stats = record { copied = 0; skipped = 0; repaired = 0 }

unfoldable pub copy_config : Action Pair ReplicateStats
copy_config = do
  config ← get_config
  there ← on_target (exists config_key)
  if there
      then (do
        existing ← on_target (get config_key)
        if text_eq existing config then pure (skipped_one no_stats) else throw malformed_blob)
      else (do on_target (put config_key config); pure (copied_one no_stats))

-- The three arms of the match on `(exists, mode)`.
unfoldable pub copy_absent : Text → ReplicateStats → Action Pair ReplicateStats
copy_absent key stats = do
  value ← on_source (get key)
  on_target (put key value)
  pure (copied_one stats)

unfoldable pub copy_present : ReplicateMode → Text → ReplicateStats → Action Pair ReplicateStats
copy_present mirror key stats = pure (skipped_one stats)
copy_present repair key stats = do
  value ← on_source (get key)
  existing ← on_target (get key)
  if text_eq existing value
      then pure (skipped_one stats)
      else (do on_target (put key value); pure (repaired_one stats))

unfoldable pub copy_key : ReplicateMode → Text → ReplicateStats → Action Pair ReplicateStats
copy_key mode key stats = do
  there ← on_target (exists key)
  if there then copy_present mode key stats else copy_absent key stats

unfoldable pub copy_keys : ReplicateMode → List Text → ReplicateStats → Action Pair ReplicateStats
copy_keys mode [] stats = pure stats
copy_keys mode (key ∷ keys) stats = do next ← copy_key mode key stats; copy_keys mode keys next

unfoldable pub copy_prefixes :
    ReplicateMode → List Text → ReplicateStats → Action Pair ReplicateStats
copy_prefixes mode [] stats = pure stats
copy_prefixes mode (prefix ∷ prefixes) stats = do
  keys ← on_source (list prefix)
  next ← copy_keys mode keys stats
  copy_prefixes mode prefixes next

unfoldable pub replicate : ReplicateMode → Action Pair ReplicateStats
replicate mode = do stats ← copy_config; copy_prefixes mode repo_prefixes stats
