-- ===== src/Archive/Scan/Records.antt =====
-- One record of the central directory: a round of the loop of `scanZip` of
-- server/core/zip-reader.ts. Tests joined by `||` are separate refusals where a read stands between.
use maintainflow.Prelude.{
  ℕ, ◌+◌, ◌/◌, ◌%◌, Bool, false, not, ◌&&◌, ◌||◌, List, [], ◌∷◌, ltb, ◌==◌, Result, ok, ◌>>=◌, ◌>>◌,
}
use maintainflow.Prelude.Text.{Str, str_eq}
use maintainflow.Archive.{
  Fault, fail_if, invalid_archive, unsupported_archive, unsafe_path, unsupported_entry,
  file_size_limit, expansion_limit, max_bytes, max_records, max_expanded_bytes,
}
use maintainflow.Archive.Bytes.{Bytes, read_u16, read_u32, subarray, same_bytes, and_bits}
use maintainflow.Archive.Scan.Extras.{extras}
use maintainflow.Archive.Path.{
  TextHost, decode_name, safe_archive_path, drop_slash, ends_with_slash,
}

pub record ZipEntry : Type 0 where
  pub index : ℕ
  pub path : Str
  pub directory : Bool
  pub local_offset : ℕ
  pub data_offset : ℕ
  pub compressed_size : ℕ
  pub byte_size : ℕ
  pub crc32 : ℕ
  pub method : ℕ
  pub flags : ℕ

pub record ZipReadLimits : Type 0 where
  pub max_records : ℕ
  pub max_expanded_bytes : ℕ
  pub max_file_bytes : ℕ

abbrev pub default_limits : ZipReadLimits
default_limits = record {
  max_records = max_records;
  max_expanded_bytes = max_expanded_bytes;
  max_file_bytes = max_bytes;
}

-- The map from a canonical name to whether it is a folder's, the last name first; no name is twice
-- in it.
abbrev pub Names : Type 0
Names = List (Str × Bool)

unfoldable pub has_name : Str → Names → Bool
has_name name [] = false
has_name name ((known, _) ∷ names) = str_eq name known || has_name name names

pub record ScanState : Type 0 where
  pub names : Names
  pub cursor : ℕ
  pub expanded : ℕ

-- The fields of a record of the central directory.
pub record Central : Type 0 where
  pub needed : ℕ
  pub flags : ℕ
  pub method : ℕ
  pub crc32 : ℕ
  pub compressed_size : ℕ
  pub byte_size : ℕ
  pub name_size : ℕ
  pub extra_size : ℕ
  pub disk : ℕ
  pub attrs : ℕ
  pub local_offset : ℕ
  pub next : ℕ

-- `flags & ~0x080e || ![0, 8].includes(method) || …`.
unfoldable pub is_unsupported : Central → Bool
unfolding and_bits
is_unsupported c =
    ltb 20 c.needed
    || not (c.disk == 0)
    || not (and_bits 16 c.flags 0xf7f1 == 0)
    || not (c.method == 0 || c.method == 8)
    || (c.method == 0 && not (and_bits 16 c.flags 6 == 0))
    || c.compressed_size == 0xffffffff
    || c.byte_size == 0xffffffff
    || c.local_offset == 0xffffffff

-- The record, unless something in it is unsupported.
unfoldable pub supported : Central → Result Fault Central
unfolding is_unsupported
supported c = do fail_if (is_unsupported c) unsupported_archive; ok c

unfoldable pub read_central : Bytes → ℕ → ℕ → Result Fault Central
unfolding read_u16 read_u32 supported
read_central bytes end cursor = do
  fail_if (ltb end (cursor + 46)) invalid_archive
  signature ← read_u32 bytes cursor
  fail_if (not (signature == 0x02014b50)) invalid_archive
  needed ← read_u16 bytes (cursor + 6)
  flags ← read_u16 bytes (cursor + 8)
  method ← read_u16 bytes (cursor + 10)
  crc32 ← read_u32 bytes (cursor + 16)
  compressed_size ← read_u32 bytes (cursor + 20)
  byte_size ← read_u32 bytes (cursor + 24)
  name_size ← read_u16 bytes (cursor + 28)
  extra_size ← read_u16 bytes (cursor + 30)
  comment_size ← read_u16 bytes (cursor + 32)
  attrs ← read_u32 bytes (cursor + 38)
  local_offset ← read_u32 bytes (cursor + 42)
  let next = cursor + 46 + name_size + extra_size + comment_size
  fail_if (ltb end next || name_size == 0) invalid_archive
  disk ← read_u16 bytes (cursor + 34)
  let c : Central = (record {
    needed = needed;
    flags = flags;
    method = method;
    crc32 = crc32;
    compressed_size = compressed_size;
    byte_size = byte_size;
    name_size = name_size;
    extra_size = extra_size;
    disk = disk;
    attrs = attrs;
    local_offset = local_offset;
    next = next;
  })
  supported c

-- The kind of file that the attributes name, against the name.
unfoldable pub check_kind : Central → Bool → Result Fault (Unit {0})
unfolding and_bits
check_kind c directory = do
  let mode = and_bits 16 (c.attrs / 0x10000) 0xf000
  fail_if
      ((not (mode == 0) && not (mode == 0x8000) && not (mode == 0x4000)) || c.attrs / 8 % 2 == 1)
      unsupported_entry
  fail_if
      ((mode == 0x4000 && not directory)
        || (mode == 0x8000 && directory)
        || (c.attrs / 16 % 2 == 1 && not directory))
      unsupported_entry
  fail_if (directory && (not (c.byte_size == 0) || not (c.crc32 == 0))) invalid_archive

-- A field of the local header: as in the directory, or 0 where a descriptor follows the data.
unfoldable pub check_field : Bytes → Central → ℕ → ℕ → Result Fault (Unit {0})
unfolding read_u32
check_field bytes c offset expected = do
  actual ← read_u32 bytes (c.local_offset + offset)
  fail_if (not (actual == expected) && (c.flags / 8 % 2 == 0 || not (actual == 0))) invalid_archive

-- The sizes of the local header: where the data begins, and how long the name is.
unfoldable pub local_place : Bytes → ℕ → Central → Result Fault (ℕ × ℕ)
unfolding read_u16 read_u32
local_place bytes directory_offset c = do
  let at = c.local_offset
  fail_if (ltb directory_offset (at + 30)) invalid_archive
  signature ← read_u32 bytes at
  fail_if (not (signature == 0x04034b50)) invalid_archive
  local_name_size ← read_u16 bytes (at + 26)
  local_extra_size ← read_u16 bytes (at + 28)
  let data_offset = at + 30 + local_name_size + local_extra_size
  fail_if
      (ltb directory_offset (data_offset + c.compressed_size)
        || not (local_name_size == c.name_size))
      invalid_archive
  ok (data_offset, local_name_size)

-- The fields of the local header that must be those of the directory.
unfoldable pub check_same : Bytes → Central → Bytes → ℕ → Result Fault (Unit {0})
unfolding read_u16 same_bytes
check_same bytes c raw_name local_name_size = do
  let at = c.local_offset
  needed ← read_u16 bytes (at + 4)
  flags ← read_u16 bytes (at + 6)
  method ← read_u16 bytes (at + 8)
  fail_if
      (not (needed == c.needed)
        || not (flags == c.flags)
        || not (method == c.method)
        || not (same_bytes (subarray bytes (at + 30) (at + 30 + local_name_size)) raw_name))
      invalid_archive

unfoldable pub check_fields : Bytes → Central → Result Fault (Unit {0})
unfolding check_field
check_fields bytes c = do
  check_field bytes c 14 c.crc32
  check_field bytes c 18 c.compressed_size
  check_field bytes c 22 c.byte_size

module _ (host : TextHost) where
  -- The local header, against the directory; the offset of the data.
  unfoldable pub check_local : Bytes → ℕ → Central → Bytes → Str → Result Fault ℕ
  unfolding local_place check_same extras check_fields
  check_local bytes directory_offset c raw_name name = do
    (data_offset, local_name_size) ← local_place bytes directory_offset c
    check_same bytes c raw_name local_name_size
    extras host (subarray bytes (c.local_offset + 30 + local_name_size) data_offset) raw_name name
    check_fields bytes c
    ok data_offset

  -- The name of a record: its bytes, its text and its canonical form.
  unfoldable pub record_name : Bytes → ℕ → Central → Names → Result Fault Str
  unfolding decode_name safe_archive_path has_name
  record_name bytes cursor c names = do
    name ← decode_name host (subarray bytes (cursor + 46) (cursor + 46 + c.name_size))
    fail_if (not (safe_archive_path host name)) unsafe_path
    fail_if (has_name (host.nfc (drop_slash name)) names) unsafe_path
    ok name

  module _ (budget : ZipReadLimits) where
    -- One round: the entry, and the state behind it.
    unfoldable pub scan_record : Bytes → ℕ → ℕ → ℕ → ScanState → Result Fault (ZipEntry × ScanState)
    unfolding read_central record_name check_kind extras check_local ends_with_slash
    scan_record bytes end directory_offset index st = do
      c ← read_central bytes end st.cursor
      let raw_name = subarray bytes (st.cursor + 46) (st.cursor + 46 + c.name_size)
      let extra_at = st.cursor + 46 + c.name_size
      name ← record_name bytes st.cursor c st.names
      let directory = ends_with_slash name
      check_kind c directory
      extras host (subarray bytes extra_at (extra_at + c.extra_size)) raw_name name
      fail_if (ltb budget.max_file_bytes c.byte_size) file_size_limit
      fail_if (ltb budget.max_expanded_bytes (st.expanded + c.byte_size)) expansion_limit
      data_offset ← check_local bytes directory_offset c raw_name name
      ok (
        record {
          index = index;
          path = name;
          directory = directory;
          local_offset = c.local_offset;
          data_offset = data_offset;
          compressed_size = c.compressed_size;
          byte_size = c.byte_size;
          crc32 = c.crc32;
          method = c.method;
          flags = c.flags;
        },
        record {
          names = (host.nfc (drop_slash name), directory) ∷ st.names;
          cursor = c.next;
          expanded = st.expanded + c.byte_size;
        },
      )
