-- ===== src/Archive/Scan.antt =====
-- `scanZip` and `inflateZipEntry` of server/core/zip-reader.ts.
pub mod Extras
pub mod Records
pub mod Sound
pub mod Layout
pub mod Total
pub mod Loop
pub mod Answers
use maintainflow.Prelude.{
  ℕ, zero, suc, ◌+◌, ◌-◌, ◌/◌, ◌%◌, ◌^◌, ◌≤◌, Bool, true, false, not, ◌&&◌, ◌||◌, List, [], ◌∷◌,
  ◌++◌, Option, some, none, length, ltb, leb, ◌==◌, if◌then◌else◌, Result, ok, err, refuse, ◌>>=◌,
  ◌>>◌, max,
}
use maintainflow.Prelude.Text.{Str, str_eq, split}
use maintainflow.Archive.{
  Fault, fail, fail_if, zip_required, invalid_archive, unsupported_archive, record_limit,
  unsafe_path, expansion_limit,
}
use maintainflow.Archive.Bytes.{Bytes, read_u16, read_u32, subarray, zip_crc32}
use maintainflow.Archive.Path.{TextHost}
use Records.{ZipEntry, ZipReadLimits, ScanState, Names, scan_record}

-- The loop over the offsets `low + count - 1` down to `low`, for the end record.
unfoldable pub find_end : Bytes → ℕ → ℕ → Result Fault (Option ℕ)
unfolding read_u32 read_u16
find_end bytes low zero = ok none
find_end bytes low (suc count) =
    let at = low + count in
    let rest = find_end bytes low count in
    do
      signature ← read_u32 bytes at
      comment ← read_u16 bytes (at + 20)
      if signature == 0x06054b50 && at + 22 + comment == length bytes then ok (some at) else rest

pub record EndRecord : Type 0 where
  pub end : ℕ
  pub count : ℕ
  pub directory_size : ℕ
  pub directory_offset : ℕ

unfoldable pub read_end : Bytes → ℕ → Result Fault EndRecord
unfolding read_u32 read_u16
read_end bytes end = do
  count ← read_u16 bytes (end + 10)
  directory_size ← read_u32 bytes (end + 12)
  directory_offset ← read_u32 bytes (end + 16)
  disk ← read_u16 bytes (end + 4)
  directory_disk ← read_u16 bytes (end + 6)
  disk_count ← read_u16 bytes (end + 8)
  fail_if
      (not (disk == 0)
        || not (directory_disk == 0)
        || not (disk_count == count)
        || count == 0xffff
        || directory_offset == 0xffffffff
        || directory_size == 0xffffffff)
      unsupported_archive
  ok (record {
    end = end;
    count = count;
    directory_size = directory_size;
    directory_offset = directory_offset;
  })

-- `names.get(path) === false`: the path is the path of a file.
unfoldable pub is_file : Str → Names → Bool
is_file path [] = false
is_file path ((name, directory) ∷ names) =
    let rest = is_file path names in if str_eq path name then not directory else rest

abbrev pub in_front : ℕ → List Str → List Str
in_front c [] = []
in_front c (s ∷ ss) = (c ∷ s) ∷ in_front c ss

-- `segments.slice(0, i).join('/')` for each `i` from 1 on: what stands before each slash.
unfoldable pub parents : Str → List Str
parents [] = []
parents (c ∷ s) = let rest = in_front c (parents s) in if c == b'/' then [] ∷ rest else rest

unfoldable pub any_file : List Str → Names → Bool
unfolding is_file
any_file [] names = false
any_file (path ∷ paths) names = is_file path names || any_file paths names

-- The loop over the names: a file is no folder of another entry.
unfoldable pub check_parents : Names → Names → Result Fault (Unit {0})
unfolding any_file parents
check_parents [] names = ok tt
check_parents ((name, _) ∷ rest) names =
    let later = check_parents rest names in
    do fail_if (any_file (parents name) names) unsafe_path; later

-- `[...entries].sort((a, b) => a.localOffset - b.localOffset)`, which keeps the order of equal offsets.
unfoldable pub insert_entry : ZipEntry → List ZipEntry → List ZipEntry
insert_entry e [] = e ∷ []
insert_entry e (f ∷ fs) =
    let rest = insert_entry e fs in
    if leb e.local_offset f.local_offset then e ∷ f ∷ fs else f ∷ rest

unfoldable pub sort_entries : List ZipEntry → List ZipEntry
unfolding insert_entry
sort_entries [] = []
sort_entries (e ∷ es) = insert_entry e (sort_entries es)

-- `physical[i]?.localOffset ?? directoryOffset`.
unfoldable pub first_offset : List ZipEntry → ℕ → ℕ
first_offset [] directory_offset = directory_offset
first_offset (e ∷ _) directory_offset = e.local_offset

-- The data descriptor between `data_end` and `next`.
unfoldable pub check_descriptor : Bytes → ZipEntry → ℕ → ℕ → Result Fault (Unit {0})
unfolding read_u32
check_descriptor bytes e data_end next = do
  fail_if (not (next == data_end + 12) && not (next == data_end + 16)) invalid_archive
  let long = next == data_end + 16
  let descriptor = if long then data_end + 4 else data_end
  signature ← read_u32 bytes data_end
  fail_if (long && not (signature == 0x08074b50)) invalid_archive
  crc32 ← read_u32 bytes descriptor
  fail_if (not (crc32 == e.crc32)) invalid_archive
  compressed_size ← read_u32 bytes (descriptor + 4)
  fail_if (not (compressed_size == e.compressed_size)) invalid_archive
  byte_size ← read_u32 bytes (descriptor + 8)
  fail_if (not (byte_size == e.byte_size)) invalid_archive

-- What follows the data of an entry: nothing, or with bit 3 of the flags a descriptor.
unfoldable pub check_gap : Bytes → ZipEntry → ℕ → Result Fault (Unit {0})
unfolding check_descriptor
check_gap bytes e next =
    let data_end = e.data_offset + e.compressed_size in
    let described = check_descriptor bytes e data_end next in
    if e.flags / 8 % 2 == 0 then fail_if (not (data_end == next)) invalid_archive else described

unfoldable pub check_physical : Bytes → ℕ → List ZipEntry → Result Fault (Unit {0})
unfolding check_gap first_offset
check_physical bytes directory_offset [] = ok tt
check_physical bytes directory_offset (e ∷ es) =
    let later = check_physical bytes directory_offset es in
    do check_gap bytes e (first_offset es directory_offset); later

module _ (host : TextHost) (budget : ZipReadLimits) where
  -- The loop over the central directory, from the record `index` on.
  unfoldable pub scan_records :
      Bytes → EndRecord → ℕ → ℕ → ScanState → Result Fault (List ZipEntry × ScanState)
  unfolding scan_record
  scan_records bytes e zero index st = ok ([], st)
  scan_records bytes e (suc k) index st = do
    (entry, next) ← scan_record host budget bytes e.end e.directory_offset index st
    (entries, final) ← scan_records bytes e k (index + 1) next
    ok (entry ∷ entries, final)

  -- The directory is read; then the names, and the places of the entries, are checked.
  unfoldable pub scan_directory : Bytes → EndRecord → Result Fault (List ZipEntry)
  unfolding scan_records check_parents sort_entries first_offset check_physical
  scan_directory bytes e = do
    fail_if (ltb budget.max_records e.count) record_limit
    fail_if (not (e.directory_offset + e.directory_size == e.end)) invalid_archive
    (entries, final) ←
        scan_records bytes e e.count 1
          (record { names = []; cursor = e.directory_offset; expanded = 0 })
    fail_if (not (final.cursor == e.end)) invalid_archive
    check_parents final.names final.names
    let physical = sort_entries entries
    fail_if (not (first_offset physical e.directory_offset == 0)) invalid_archive
    check_physical bytes e.directory_offset physical
    ok entries

  unfoldable pub scan_zip : Bytes → Result Fault (List ZipEntry)
  unfolding read_u32 find_end read_end scan_directory
  scan_zip bytes = do
    fail_if (ltb (length bytes) 4) zip_required
    signature ← read_u32 bytes 0
    fail_if (not (signature == 0x04034b50 || signature == 0x06054b50)) zip_required
    let low = length bytes - 65557
    found ← find_end bytes low (length bytes - 21 - low)
    elim found [
      | none ↦ err (fail invalid_archive)
      | some end ↦ (do e ← read_end bytes end; scan_directory bytes e)
    ]

-- `inflateRawSync` with an output cap: the output and how much of the input it took, or the error.
pub data InflateError : Type 0 where
  too_large bad_data other_error : InflateError

pub record Inflated : Type 0 where
  pub buffer : Bytes
  pub bytes_written : ℕ

-- What leaves `inflateZipEntry` by an exception: a reason, or the error of the library itself.
pub data InflateFault : Type 0 where
  refused : Fault → InflateFault
  raised : InflateFault

unfoldable pub inflate_fault : InflateError → InflateFault
inflate_fault too_large = refused (fail expansion_limit)
inflate_fault bad_data = refused (fail invalid_archive)
inflate_fault other_error = raised

module _ (inflate_raw : Bytes → ℕ → Result InflateError Inflated) where
  unfoldable pub entry_output : Bytes → ZipEntry → ℕ → Result InflateFault Bytes
  unfolding inflate_fault
  entry_output bytes e most =
      let input = subarray bytes e.data_offset (e.data_offset + e.compressed_size) in
      let inflated : Result InflateFault Bytes = elim (inflate_raw input (max 1 most)) [
        | err x ↦ err (inflate_fault x)
        | ok r ↦ (do
          refuse (not (r.bytes_written == length input)) (refused (fail invalid_archive))
          ok r.buffer)
      ] in
      if e.method == 0 then ok input else inflated

  unfoldable pub inflate_zip_entry : Bytes → ZipEntry → ℕ → Result InflateFault Bytes
  unfolding entry_output zip_crc32
  inflate_zip_entry bytes e most = do
    output ← entry_output bytes e most
    refuse (ltb most (length output)) (refused (fail expansion_limit))
    refuse (not (length output == e.byte_size) || not (zip_crc32 output == e.crc32))
        (refused (fail invalid_archive))
    ok output
