-- ===== src/Constants.antt =====
-- constants/constants.go and the HTTP status codes of fiber that the scheduler's errors carry.
use minijob.Prelude.{ℕ}

abbrev pub error_cant_create_job : ℕ
error_cant_create_job = 1002

abbrev pub error_cant_delete_job : ℕ
error_cant_delete_job = 1003

abbrev pub error_cant_pull_any_job : ℕ
error_cant_pull_any_job = 1004

abbrev pub error_cant_pull_specific_job : ℕ
error_cant_pull_specific_job = 1005

abbrev pub error_cant_start_job : ℕ
error_cant_start_job = 1006

abbrev pub error_cant_clone_job : ℕ
error_cant_clone_job = 1007

abbrev pub error_cant_cancel_job : ℕ
error_cant_cancel_job = 1008

abbrev pub error_cant_set_job_as_successful : ℕ
error_cant_set_job_as_successful = 1009

abbrev pub error_cant_fail_job : ℕ
error_cant_fail_job = 1010

abbrev pub error_cant_enqueue_job : ℕ
error_cant_enqueue_job = 1011

abbrev pub error_resource_not_found : ℕ
error_resource_not_found = 1030

abbrev pub error_database_unavailable : ℕ
error_database_unavailable = 1440

abbrev pub status_bad_request : ℕ
status_bad_request = 400

abbrev pub status_not_found : ℕ
status_not_found = 404

abbrev pub status_precondition_failed : ℕ
status_precondition_failed = 412

abbrev pub status_internal_server_error : ℕ
status_internal_server_error = 500

abbrev pub status_service_unavailable : ℕ
status_service_unavailable = 503
