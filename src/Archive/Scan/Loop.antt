-- ===== src/Archive/Scan/Loop.antt =====
-- The loop over the records of the central directory: its reads and its faults.
use maintainflow.Prelude.{ℕ, zero, suc, ◌+◌, ◌≤◌, not, ◌||◌, length, ltb, ◌==◌, arith}
use maintainflow.Prelude.Text.{Str}
use maintainflow.Archive.Bytes.{Bytes, read_u32, subarray}
use maintainflow.Archive.Path.{
  TextHost, decode_name, safe_archive_path, drop_slash, ends_with_slash,
}
use maintainflow.Archive.Scan.Extras.{extras}
use maintainflow.Archive.Scan.Records.{
  ZipReadLimits, ScanState, Central, Names, has_name, read_central, check_kind, check_fields,
  local_place, check_same, check_local, record_name, scan_record,
}
use maintainflow.Archive.Scan.{EndRecord, scan_records}
use maintainflow.Archive.Scan.Sound.{not_ltb, local_place-inside}
use maintainflow.Archive.Scan.Total.{
  IsAnswer, bind-IsAnswer, refuse-IsAnswer, read_u32-IsAnswer, u16_at, decode_name-IsAnswer,
  extras-IsAnswer, read_central-IsAnswer, check_kind-IsAnswer, check_fields-IsAnswer,
  check_same-IsAnswer,
}

local_place-IsAnswer :
    (bytes : Bytes) (directory_offset : ℕ) (c : Central)
    → directory_offset ≤ length bytes
    → IsAnswer (local_place bytes directory_offset c)
unfolding local_place
local_place-IsAnswer bytes directory_offset c h =
    refuse-IsAnswer (ltb directory_offset (c.local_offset + 30)) _ _ λ room.
      let inside : c.local_offset + 30 ≤ length bytes = omega (arith, not_ltb _ _ room, h) in
      bind-IsAnswer (read_u32 bytes c.local_offset) _
        (read_u32-IsAnswer bytes c.local_offset (omega (arith, inside)))
        λ signature _. refuse-IsAnswer (not (signature == 0x04034b50)) _ _ λ _.
          u16_at bytes c.local_offset 30 inside 26 _ (omega arith) λ name_size _.
            u16_at bytes c.local_offset 30 inside 28 _ (omega arith) λ extra_size _.
              refuse-IsAnswer
                (ltb directory_offset
                    (c.local_offset + 30 + name_size + extra_size + c.compressed_size)
                  || not (name_size == c.name_size))
                _ _ λ _. tt

module _ (host : TextHost) (budget : ZipReadLimits) where
  check_local-IsAnswer :
      (bytes : Bytes) (directory_offset : ℕ) (c : Central) (raw_name : Bytes) (name : Str)
      → directory_offset ≤ length bytes
      → IsAnswer (check_local host bytes directory_offset c raw_name name)
  unfolding check_local
  check_local-IsAnswer bytes directory_offset c raw_name name h =
      bind-IsAnswer (local_place bytes directory_offset c) _
        (local_place-IsAnswer bytes directory_offset c h)
        λ (at, size) place.
          let (header, packed) =
            local_place-inside host budget bytes directory_offset c at size place in
          let inside : c.local_offset + 30 ≤ length bytes = omega (arith, header, packed, h) in
          let extra = subarray bytes (c.local_offset + 30 + size) at in
          bind-IsAnswer (check_same bytes c raw_name size) _
            (check_same-IsAnswer bytes c inside raw_name size)
            λ _ _.
              bind-IsAnswer (extras host extra raw_name name) _
                (extras-IsAnswer host extra raw_name name)
                λ _ _.
                  bind-IsAnswer (check_fields bytes c) _ (check_fields-IsAnswer bytes c inside)
                    λ _ _. tt

  record_name-IsAnswer :
      (bytes : Bytes) (cursor : ℕ) (c : Central) (names : Names)
      → IsAnswer (record_name host bytes cursor c names)
  unfolding record_name
  record_name-IsAnswer bytes cursor c names =
      let raw = subarray bytes (cursor + 46) (cursor + 46 + c.name_size) in
      bind-IsAnswer (decode_name host raw) _ (decode_name-IsAnswer host raw) λ name _.
        refuse-IsAnswer (not (safe_archive_path host name)) _ _
          λ _. refuse-IsAnswer (has_name (host.nfc (drop_slash name)) names) _ _ λ _. tt

  scan_record-IsAnswer :
      (bytes : Bytes) (end directory_offset index : ℕ) (st : ScanState)
      → end ≤ length bytes
      → directory_offset ≤ length bytes
      → IsAnswer (scan_record host budget bytes end directory_offset index st)
  unfolding scan_record
  scan_record-IsAnswer bytes end directory_offset index st he hd =
      bind-IsAnswer (read_central bytes end st.cursor) _
        (read_central-IsAnswer bytes end st.cursor he)
        λ c _.
          let at = st.cursor + 46 in
          let raw_name = subarray bytes at (at + c.name_size) in
          let extra = subarray bytes (at + c.name_size) (at + c.name_size + c.extra_size) in
          bind-IsAnswer (record_name host bytes st.cursor c st.names) _
            (record_name-IsAnswer bytes st.cursor c st.names)
            λ name _.
              bind-IsAnswer (check_kind c (ends_with_slash name)) _
                (check_kind-IsAnswer c (ends_with_slash name))
                λ _ _.
                  bind-IsAnswer (extras host extra raw_name name) _
                    (extras-IsAnswer host extra raw_name name)
                    λ _ _. refuse-IsAnswer (ltb budget.max_file_bytes c.byte_size) _ _ λ _.
                      refuse-IsAnswer (ltb budget.max_expanded_bytes (st.expanded + c.byte_size)) _
                        _
                        λ _.
                          bind-IsAnswer (check_local host bytes directory_offset c raw_name name) _
                            (check_local-IsAnswer bytes directory_offset c raw_name name hd)
                            λ _ _. tt

  pub scan_records-IsAnswer :
      (bytes : Bytes) (r : EndRecord) (count index : ℕ) (st : ScanState)
      → r.end ≤ length bytes
      → r.directory_offset ≤ length bytes
      → IsAnswer (scan_records host budget bytes r count index st)
  unfolding scan_records
  scan_records-IsAnswer bytes r zero index st he hd = tt
  scan_records-IsAnswer bytes r (suc k) index st he hd =
      bind-IsAnswer (scan_record host budget bytes r.end r.directory_offset index st) _
        (scan_record-IsAnswer bytes r.end r.directory_offset index st he hd)
        λ (e, next) _.
          bind-IsAnswer (scan_records host budget bytes r k (index + 1) next) _
            (scan_records-IsAnswer bytes r k (index + 1) next he hd) λ _ _. tt
