-- ===== src/Catalog/Records.antt =====
-- Artifacts as records and as rows of the database:
-- packages/stackwarden/src/stackwarden/domain/models.py and catalog/models.py,
-- and the conversions of catalog/store.py. The clock of a time is a number of ticks.
use stack_warden.Base.{
  ℕ, ℤ, pos, negsuc, int_lt, int_eq, ◌==◌, refl, Text, Bool, true, false, Option, some, Eq, ◌≡◌,
  ◌↔◌, arith, if◌then◌else◌,
}

pub data ArtifactStatus : Type 0 where
  planned building built failed stale : ArtifactStatus

abbrev pub artifact_status_beq : ArtifactStatus → ArtifactStatus → Bool
artifact_status_beq planned planned = true
artifact_status_beq building building = true
artifact_status_beq built built = true
artifact_status_beq failed failed = true
artifact_status_beq stale stale = true
artifact_status_beq _ _ = false

pub artifact_status_beq_iff : (a b : ArtifactStatus) → (artifact_status_beq a b ≡ true) ↔ (a ≡ b)
artifact_status_beq_iff a b = ground arith

instance abbrev pub artifact_status_eq : Eq ArtifactStatus
artifact_status_eq = record { beq = artifact_status_beq; beq_iff = artifact_status_beq_iff }

-- A `datetime`: what its clock shows, and whether it carries its time zone, which is always UTC.
pub record DateTime : Type 0 where
  pub clock : ℕ
  pub has_zone : Bool

pub record ArtifactRecord : Type 0 where
  pub id : Option Text
  pub profile_id : Text
  pub stack_id : Text
  pub tag : Text
  pub fingerprint : Text
  pub image_id : Option Text
  pub digest : Option Text
  pub base_image : Text
  pub base_digest : Option Text
  pub build_strategy : Text
  pub template_hash : Option Text
  pub stack_schema_version : ℤ
  pub profile_schema_version : ℤ
  pub layer_schema_version : ℤ
  pub manifest_path : Option Text
  pub sbom_path : Option Text
  pub profile_snapshot_path : Option Text
  pub stack_snapshot_path : Option Text
  pub plan_path : Option Text
  pub variant_json : Option Text
  pub host_id : Option Text
  pub docker_context : Option Text
  pub daemon_arch : Option Text
  pub status : ArtifactStatus
  pub stale_reason : Option Text
  pub error_detail : Option Text
  pub created_at : DateTime

pub record ArtifactRow : Type 0 where
  pub id : Text
  pub profile_id : Text
  pub stack_id : Text
  pub tag : Text
  pub fingerprint : Text
  pub image_id : Option Text
  pub digest : Option Text
  pub base_image : Text
  pub base_digest : Option Text
  pub build_strategy : Text
  pub template_hash : Option Text
  pub stack_schema_version : ℤ
  pub profile_schema_version : ℤ
  pub layer_schema_version : ℤ
  pub block_schema_version : ℤ
  pub manifest_path : Option Text
  pub sbom_path : Option Text
  pub profile_snapshot_path : Option Text
  pub stack_snapshot_path : Option Text
  pub plan_path : Option Text
  pub variant_json : Option Text
  pub host_id : Option Text
  pub docker_context : Option Text
  pub daemon_arch : Option Text
  pub status : ArtifactStatus
  pub stale_reason : Option Text
  pub error_detail : Option Text
  pub created_at : ℕ

-- `_resolve_layer_schema_value` at the two attributes, 0 where one is missing
unfoldable pub resolve_layer_schema_value : (layer block : ℤ) → ℤ
resolve_layer_schema_value layer block =
    if int_lt (pos 1) layer
    then layer
    else if int_lt (pos 1) block
    then block
    else if int_lt (pos 0) layer
    then layer
    else if int_lt (pos 0) block
    then block
    else pos 1

-- `value or 1`
abbrev pub or_one : ℤ → ℤ
or_one n = if n == pos 0 then pos 1 else n

-- `value` where it is positive, else 1
abbrev pub positive_or_one : ℤ → ℤ
positive_or_one n = if int_lt (pos 0) n then n else pos 1

-- the row that `insert_artifact` adds; a record has no `block_schema_version`, and the column of the
-- time keeps no time zone
unfoldable pub row_of_record : Text → ArtifactRecord → ArtifactRow
row_of_record id r = record {
  id = id;
  profile_id = r.profile_id;
  stack_id = r.stack_id;
  tag = r.tag;
  fingerprint = r.fingerprint;
  image_id = r.image_id;
  digest = r.digest;
  base_image = r.base_image;
  base_digest = r.base_digest;
  build_strategy = r.build_strategy;
  template_hash = r.template_hash;
  stack_schema_version = r.stack_schema_version;
  profile_schema_version = r.profile_schema_version;
  layer_schema_version = resolve_layer_schema_value r.layer_schema_version (pos 0);
  block_schema_version = resolve_layer_schema_value r.layer_schema_version (pos 0);
  manifest_path = r.manifest_path;
  sbom_path = r.sbom_path;
  profile_snapshot_path = r.profile_snapshot_path;
  stack_snapshot_path = r.stack_snapshot_path;
  plan_path = r.plan_path;
  variant_json = r.variant_json;
  host_id = r.host_id;
  docker_context = r.docker_context;
  daemon_arch = r.daemon_arch;
  status = r.status;
  stale_reason = r.stale_reason;
  error_detail = r.error_detail;
  created_at = r.created_at.clock;
}

-- `_row_to_record`
unfoldable pub row_to_record : ArtifactRow → ArtifactRecord
row_to_record row = record {
  id = some row.id;
  profile_id = row.profile_id;
  stack_id = row.stack_id;
  tag = row.tag;
  fingerprint = row.fingerprint;
  image_id = row.image_id;
  digest = row.digest;
  base_image = row.base_image;
  base_digest = row.base_digest;
  build_strategy = row.build_strategy;
  template_hash = row.template_hash;
  stack_schema_version = or_one row.stack_schema_version;
  profile_schema_version = or_one row.profile_schema_version;
  layer_schema_version =
      resolve_layer_schema_value row.layer_schema_version row.block_schema_version;
  manifest_path = row.manifest_path;
  sbom_path = row.sbom_path;
  profile_snapshot_path = row.profile_snapshot_path;
  stack_snapshot_path = row.stack_snapshot_path;
  plan_path = row.plan_path;
  variant_json = row.variant_json;
  host_id = row.host_id;
  docker_context = row.docker_context;
  daemon_arch = row.daemon_arch;
  status = row.status;
  stale_reason = row.stale_reason;
  error_detail = row.error_detail;
  created_at = record { clock = row.created_at; has_zone = false };
}

-- What a record reads as once it is stored: a version 0 of the stack or the profile is read as 1, and
-- so is a version of the layers that is not positive; the time zone is lost.
abbrev pub as_stored : ArtifactRecord → ArtifactRecord
as_stored r = record r {
  stack_schema_version = or_one r.stack_schema_version;
  profile_schema_version = or_one r.profile_schema_version;
  layer_schema_version = positive_or_one r.layer_schema_version;
  created_at = record { clock = r.created_at.clock; has_zone = false };
}

resolve_twice :
    (n : ℤ)
    → resolve_layer_schema_value
        (resolve_layer_schema_value n (pos 0))
        (resolve_layer_schema_value n (pos 0))
      ≡ positive_or_one n
unfolding resolve_layer_schema_value
resolve_twice (pos n) = ground arith
resolve_twice (negsuc n) = refl

-- a record survives the database, but for what `as_stored` changes
pub row_to_record-row_of_record :
    (id : Text) (r : ArtifactRecord)
    → r.id ≡ some id
    → row_to_record (row_of_record id r) ≡ as_stored r
unfolding row_to_record row_of_record resolve_layer_schema_value
row_to_record-row_of_record id r h = rw (h, resolve_twice r.layer_schema_version) refl
