-- ===== src/Archive.antt =====
-- ZIP archives: the limits and the reasons of shared/archive-import.ts, and, in the children, the
-- reader of server/core/zip-reader.ts.
pub mod Bytes
pub mod Path
pub mod Scan
pub mod Spec
mod Examples
use maintainflow.Prelude.{ℕ, ◌*◌, Bool, true, false, Result, refuse}

abbrev pub max_bytes : ℕ
max_bytes = 10 * 1024 * 1024

abbrev pub max_records : ℕ
max_records = 256

abbrev pub max_path_bytes : ℕ
max_path_bytes = 1024

abbrev pub max_expanded_bytes : ℕ
max_expanded_bytes = 20 * 1024 * 1024

pub data ArchiveImportValidationReason : Type 0 where
  invalid_spec source_mismatch selection_mismatch zip_required invalid_archive unsupported_archive
        unsafe_path unsupported_entry path_encoding record_limit document_limit file_size_limit
        expansion_limit office_expansion_limit text_limit office_package :
      ArchiveImportValidationReason

-- The status code of `ArchiveImportValidationError`.
unfoldable pub status_code : ArchiveImportValidationReason → ℕ
status_code source_mismatch = 409
status_code record_limit = 413
status_code document_limit = 413
status_code file_size_limit = 413
status_code expansion_limit = 413
status_code office_expansion_limit = 413
status_code text_limit = 413
status_code _ = 400

-- What stops the reader: a reason that it gives, a read outside a buffer, or too little fuel.
pub data Fault : Type 0 where
  fail : ArchiveImportValidationReason → Fault
  out_of_range out_of_fuel : Fault

-- `if (test) fail(reason)`.
abbrev pub fail_if : Bool → ArchiveImportValidationReason → Result Fault (Unit {0})
fail_if test reason = refuse test (fail reason)
