-- ===== src/Archive/Examples.antt =====
-- Tests of server/core/zip-reader.ts, and the theorems at concrete inputs.
use maintainflow.Prelude.{ℕ, ◌≡◌, refl, true, false, [], ◌∷◌, some, length, Result, ok, err}
use maintainflow.Prelude.Text.{codes, split}
use maintainflow.Archive.{fail, invalid_archive}
use maintainflow.Archive.Bytes.{Bytes}
use maintainflow.Archive.Path.{
  TextHost, is_mac_archive_metadata_path, safe_archive_path, drop_slash, walk, IsInside,
  safe_archive_path-IsInside,
}
use maintainflow.Archive.Scan.Records.{ZipEntry, default_limits}
use maintainflow.Archive.Scan.{scan_zip, InflateError, bad_data, Inflated, inflate_zip_entry}
use maintainflow.Archive.Scan.Total.{IsAnswer}
use maintainflow.Archive.Scan.Answers.{scan_zip-IsAnswer}
use maintainflow.Archive.Scan.Layout.{IsSafeArchive, scan_zip-IsSafeArchive}

-- A decoder for ASCII only.
abbrev test_host : TextHost
test_host = record { decode_utf8 = some; byte_length = length; nfc = λ s. s }

abbrev no_inflate : Bytes → ℕ → Result InflateError Inflated
no_inflate input most = err bad_data

-- Two stored files, `d/a` and `b`.
abbrev archive : Bytes
archive =
    80 ∷ 75 ∷ 3 ∷ 4 ∷ 20 ∷ 0 ∷ 0 ∷ 0 ∷ 0 ∷ 0 ∷ 0 ∷ 0 ∷ 33 ∷ 0 ∷ 172 ∷ 42 ∷ 147 ∷ 216 ∷ 2 ∷ 0 ∷ 0 ∷ 0
    ∷ 2 ∷ 0 ∷ 0 ∷ 0 ∷ 3 ∷ 0 ∷ 0 ∷ 0 ∷ 100 ∷ 47 ∷ 97 ∷ 104 ∷ 105 ∷ 80 ∷ 75 ∷ 3 ∷ 4 ∷ 20 ∷ 0 ∷ 0 ∷ 0
    ∷ 0 ∷ 0 ∷ 0 ∷ 0 ∷ 33 ∷ 0 ∷ 211 ∷ 255 ∷ 107 ∷ 158 ∷ 1 ∷ 0 ∷ 0 ∷ 0 ∷ 1 ∷ 0 ∷ 0 ∷ 0 ∷ 1 ∷ 0 ∷ 0 ∷ 0
    ∷ 98 ∷ 33 ∷ 80 ∷ 75 ∷ 1 ∷ 2 ∷ 20 ∷ 3 ∷ 20 ∷ 0 ∷ 0 ∷ 0 ∷ 0 ∷ 0 ∷ 0 ∷ 0 ∷ 33 ∷ 0 ∷ 172 ∷ 42 ∷ 147
    ∷ 216 ∷ 2 ∷ 0 ∷ 0 ∷ 0 ∷ 2 ∷ 0 ∷ 0 ∷ 0 ∷ 3 ∷ 0 ∷ 0 ∷ 0 ∷ 0 ∷ 0 ∷ 0 ∷ 0 ∷ 0 ∷ 0 ∷ 0 ∷ 0 ∷ 164
    ∷ 129 ∷ 0 ∷ 0 ∷ 0 ∷ 0 ∷ 100 ∷ 47 ∷ 97 ∷ 80 ∷ 75 ∷ 1 ∷ 2 ∷ 20 ∷ 3 ∷ 20 ∷ 0 ∷ 0 ∷ 0 ∷ 0 ∷ 0 ∷ 0
    ∷ 0 ∷ 33 ∷ 0 ∷ 211 ∷ 255 ∷ 107 ∷ 158 ∷ 1 ∷ 0 ∷ 0 ∷ 0 ∷ 1 ∷ 0 ∷ 0 ∷ 0 ∷ 1 ∷ 0 ∷ 0 ∷ 0 ∷ 0 ∷ 0 ∷ 0
    ∷ 0 ∷ 0 ∷ 0 ∷ 0 ∷ 0 ∷ 164 ∷ 129 ∷ 35 ∷ 0 ∷ 0 ∷ 0 ∷ 98 ∷ 80 ∷ 75 ∷ 5 ∷ 6 ∷ 0 ∷ 0 ∷ 0 ∷ 0 ∷ 2 ∷ 0
    ∷ 2 ∷ 0 ∷ 96 ∷ 0 ∷ 0 ∷ 0 ∷ 67 ∷ 0 ∷ 0 ∷ 0 ∷ 0 ∷ 0 ∷ []

abbrev first : ZipEntry
first = record {
  index = 1;
  path = codes "d/a";
  directory = false;
  local_offset = 0;
  data_offset = 33;
  compressed_size = 2;
  byte_size = 2;
  crc32 = 3633523372;
  method = 0;
  flags = 0;
}

abbrev second : ZipEntry
second = record {
  index = 2;
  path = codes "b";
  directory = false;
  local_offset = 35;
  data_offset = 66;
  compressed_size = 1;
  byte_size = 1;
  crc32 = 2657877971;
  method = 0;
  flags = 0;
}

two_files : scan_zip test_host default_limits archive ≡ ok (first ∷ second ∷ [])
unfolding scan_zip
two_files = refl

scan_zip-IsSafeArchive_example :
    IsSafeArchive test_host default_limits archive (first ∷ second ∷ [])
scan_zip-IsSafeArchive_example =
    scan_zip-IsSafeArchive test_host default_limits archive (first ∷ second ∷ []) two_files

stored : inflate_zip_entry no_inflate archive first 100 ≡ ok (codes "hi")
unfolding inflate_zip_entry
stored = refl

safe_folder : safe_archive_path test_host (codes "d/a") ≡ true
unfolding safe_archive_path
safe_folder = refl

unsafe_parent : safe_archive_path test_host (codes "d/../../a") ≡ false
unfolding safe_archive_path
unsafe_parent = refl

safe_archive_path-IsInside_example :
    IsInside (codes "root" ∷ []) (walk (codes "root" ∷ []) (split b'/' (drop_slash (codes "d/a"))))
safe_archive_path-IsInside_example =
    safe_archive_path-IsInside test_host (codes "root" ∷ []) (codes "d/a") safe_folder

scan_zip-IsAnswer_example :
    IsAnswer (scan_zip test_host default_limits (0x50 ∷ 0x4b ∷ 3 ∷ 4 ∷ 20 ∷ []))
scan_zip-IsAnswer_example =
    scan_zip-IsAnswer test_host default_limits (0x50 ∷ 0x4b ∷ 3 ∷ 4 ∷ 20 ∷ [])

truncated :
    scan_zip test_host default_limits (0x50 ∷ 0x4b ∷ 3 ∷ 4 ∷ 20 ∷ []) ≡ err (fail invalid_archive)
unfolding scan_zip
truncated = refl

metadata_name : is_mac_archive_metadata_path (codes "d/._a") ≡ true
unfolding is_mac_archive_metadata_path
metadata_name = refl
