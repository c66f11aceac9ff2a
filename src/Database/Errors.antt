-- ===== src/Database/Errors.antt =====
-- The sentinel errors of internal/repository and internal/service, and `(T, error)` results.
use music_online_go.Prelude.{false, true, Bool}

pub data Error : Type 0 where
  -- whatever the database driver reports
  driver record_not_found : Error
  -- music_analysis_repository.go
  job_not_found lease_lost queue_full job_active job_cancelled invalid_job invalid_completion :
      Error
  analyzer_disabled source_missing : Error
  -- playlist_repository.go, playlist_service.go, music_repository.go
  playlist_not_found item_not_found items_mismatch playlist_full music_not_found : Error
  invalid_playlist : Error
  -- user_service.go, session_repository.go, user_repository.go
  session_not_found user_not_found username_exists email_exists : Error
  invalid_credentials account_inactive totp_code_required invalid_totp_code : Error
  old_password_incorrect last_active_admin invalid_refresh_token session_revoked : Error
  session_expired concurrent_refresh hash_failed random_failed sign_failed : Error
  password_too_short password_too_long invalid_hash bootstrap_admin_config : Error
  totp_already_enabled totp_not_set_up totp_not_enabled : Error
  -- media_library_repository.go
  media_root_not_found media_root_in_use scan_not_found scan_in_progress scan_lease_lost : Error
  -- mediametadata/reader.go
  unsafe_metadata : Error

pub data Result {ℓ} (A : Type ℓ) : Type ℓ where
  ok : A → Result A
  err : Error → Result A

abbrev pub is_ok {ℓ} : {A : Type ℓ} → Result A → Bool
is_ok (ok a) = true
is_ok (err e) = false
