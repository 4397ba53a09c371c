-- ===== src/Archive/Scan/Answers.antt =====
-- `scanZip` as a whole: its reads and its faults.
use maintainflow.Prelude.{
  ℕ, zero, suc, ◌+◌, ◌-◌, ◌/◌, ◌%◌, ◌≤◌, ◌≡◌, not, ◌&&◌, ◌||◌, List, [], ◌∷◌, Option, some, none,
  length, ltb, ◌==◌, if◌then◌else◌, err, ◌>>=◌, refl, arith, inl, ◌⊎◌, ◌∙◌,
}
use maintainflow.Archive.{fail, invalid_archive}
use maintainflow.Archive.Bytes.{Bytes, read_u32}
use maintainflow.Archive.Path.{TextHost}
use maintainflow.Archive.Scan.Records.{ZipEntry, ZipReadLimits, ScanState, Names}
use maintainflow.Archive.Scan.{
  EndRecord, find_end, read_end, sort_entries, first_offset, check_descriptor, check_gap,
  check_physical, check_parents, any_file, parents, scan_records, scan_directory, scan_zip,
}
use maintainflow.Archive.Scan.Sound.{AllSafe, not_ltb, not_differ, scan_records-IsRun}
use maintainflow.Archive.Scan.Layout.{find_end-bound, read_end-end, sort_entries-AllSafe}
use maintainflow.Archive.Scan.Total.{
  IsAnswer, bind-IsAnswer, refuse-IsAnswer, fail_if-IsAnswer, if_IsAnswer, read_u32-IsAnswer,
  u16_at, u32_at,
}
use maintainflow.Archive.Scan.Loop.{scan_records-IsAnswer}

-- The places of the entries, where the entries lie inside the buffer.
check_descriptor-IsAnswer :
    (bytes : Bytes) (e : ZipEntry) (data_end next : ℕ)
    → next ≤ length bytes
    → IsAnswer (check_descriptor bytes e data_end next)
unfolding check_descriptor
check_descriptor-IsAnswer bytes e data_end next h =
    refuse-IsAnswer (not (next == data_end + 12) && not (next == data_end + 16)) _ _ λ near.
      let long = next == data_end + 16 in
      let descriptor = if long then data_end + 4 else data_end in
      let inside : descriptor + 12 ≤ length bytes = ground arith in
      bind-IsAnswer (read_u32 bytes data_end) _ (read_u32-IsAnswer bytes data_end (ground arith))
        λ signature _. refuse-IsAnswer (long && not (signature == 0x08074b50)) _ _ λ _.
          bind-IsAnswer (read_u32 bytes descriptor) _
            (read_u32-IsAnswer bytes descriptor (omega (arith, inside)))
            λ crc32 _. refuse-IsAnswer (not (crc32 == e.crc32)) _ _ λ _.
              u32_at bytes descriptor 12 inside 4 _ (omega arith) λ compressed_size _.
                refuse-IsAnswer (not (compressed_size == e.compressed_size)) _ _ λ _.
                  u32_at bytes descriptor 12 inside 8 _ (omega arith)
                    λ byte_size _. fail_if-IsAnswer (not (byte_size == e.byte_size)) _

check_gap-IsAnswer :
    (bytes : Bytes) (e : ZipEntry) (next : ℕ)
    → next ≤ length bytes
    → IsAnswer (check_gap bytes e next)
unfolding check_gap
check_gap-IsAnswer bytes e next h =
    let data_end = e.data_offset + e.compressed_size in
    if_IsAnswer (e.flags / 8 % 2 == 0) _ _
      (λ _. fail_if-IsAnswer (not (data_end == next)) invalid_archive)
      (λ _. check_descriptor-IsAnswer bytes e data_end next h)

check_parents-IsAnswer : (rest names : Names) → IsAnswer (check_parents rest names)
unfolding check_parents
check_parents-IsAnswer [] names = tt
check_parents-IsAnswer ((name, d) ∷ rest) names =
    refuse-IsAnswer (any_file (parents name) names) _ _ λ _. check_parents-IsAnswer rest names

read_end-IsAnswer :
    (bytes : Bytes) (end : ℕ) → end + 22 ≤ length bytes → IsAnswer (read_end bytes end)
unfolding read_end
read_end-IsAnswer bytes end h = u16_at bytes end 22 h 10 _ (omega arith) λ count _.
    u32_at bytes end 22 h 12 _ (omega arith) λ directory_size _.
      u32_at bytes end 22 h 16 _ (omega arith) λ directory_offset _.
        u16_at bytes end 22 h 4 _ (omega arith) λ disk _.
          u16_at bytes end 22 h 6 _ (omega arith) λ directory_disk _.
            u16_at bytes end 22 h 8 _ (omega arith) λ disk_count _.
              refuse-IsAnswer
                (not (disk == 0)
                  || not (directory_disk == 0)
                  || not (disk_count == count)
                  || count == 0xffff
                  || directory_offset == 0xffffffff
                  || directory_size == 0xffffffff)
                _ _ λ _. tt

find_end-IsAnswer :
    (bytes : Bytes) (low count : ℕ)
    → low + count + 21 ≤ length bytes ⊎ (count ≡ 0)
    → IsAnswer (find_end bytes low count)
unfolding find_end
find_end-IsAnswer bytes low zero h = tt
find_end-IsAnswer bytes low (suc count) h =
    let at = low + count in
    let inside : at + 22 ≤ length bytes = ground arith in
    bind-IsAnswer (read_u32 bytes at) _ (read_u32-IsAnswer bytes at (omega (arith, inside)))
      λ signature _. u16_at bytes at 22 inside 20 _ (omega arith) λ comment _.
        if_IsAnswer (signature == 0x06054b50 && at + 22 + comment == length bytes) _ _ (λ _. tt)
          (λ _. find_end-IsAnswer bytes low count (inl (omega (arith, inside))))

module _ (host : TextHost) (budget : ZipReadLimits) where
  first_offset-inside :
      (d : ℕ) (es : List ZipEntry) → AllSafe host budget d es → first_offset es d ≤ d
  unfolding first_offset
  first_offset-inside d [] safe = omega arith
  first_offset-inside d (e ∷ es) safe = omega (arith, safe.0.header, safe.0.inside)

  check_physical-IsAnswer :
      (bytes : Bytes) (d : ℕ) (es : List ZipEntry)
      → d ≤ length bytes
      → AllSafe host budget d es
      → IsAnswer (check_physical bytes d es)
  unfolding check_physical
  check_physical-IsAnswer bytes d [] h safe = tt
  check_physical-IsAnswer bytes d (e ∷ es) h safe =
      let next = first_offset es d in
      bind-IsAnswer (check_gap bytes e next) _
        (check_gap-IsAnswer bytes e next (omega (arith, h, first_offset-inside d es safe.1)))
        λ _ _. check_physical-IsAnswer bytes d es h safe.1

  scan_directory-IsAnswer :
      (bytes : Bytes) (r : EndRecord)
      → r.end ≤ length bytes
      → IsAnswer (scan_directory host budget bytes r)
  unfolding scan_directory
  scan_directory-IsAnswer bytes r h =
      let start : ScanState = record { names = []; cursor = r.directory_offset; expanded = 0 } in
      refuse-IsAnswer (ltb budget.max_records r.count) _ _ λ few.
        refuse-IsAnswer (not (r.directory_offset + r.directory_size == r.end)) _ _ λ whole.
          let sum = not_differ _ _ whole in
          let inside : r.directory_offset ≤ length bytes = omega (arith, sum, h) in
          bind-IsAnswer (scan_records host budget bytes r r.count 1 start) _
            (scan_records-IsAnswer host budget bytes r r.count 1 start h inside)
            λ (found, final) run. refuse-IsAnswer (not (final.cursor == r.end)) _ _ λ _.
              bind-IsAnswer (check_parents final.names final.names) _
                (check_parents-IsAnswer final.names final.names)
                λ _ _.
                  let physical = sort_entries found in
                  refuse-IsAnswer (not (first_offset physical r.directory_offset == 0)) _ _ λ _.
                    let facts =
                      scan_records-IsRun host budget bytes r r.count 1 start found final run in
                    bind-IsAnswer (check_physical bytes r.directory_offset physical) _
                      (check_physical-IsAnswer bytes r.directory_offset physical inside
                        (sort_entries-AllSafe host budget r.directory_offset found facts.safe))
                      λ _ _. tt

  found_end-IsAnswer :
      (bytes : Bytes) (found : Option ℕ)
      → ((end : ℕ) → found ≡ some end → end + 22 ≤ length bytes)
      → IsAnswer (elim found [
        | none ↦ err (fail invalid_archive)
        | some end ↦ (do e ← read_end bytes end; scan_directory host budget bytes e)
      ])
  found_end-IsAnswer bytes none h = tt
  found_end-IsAnswer bytes (some end) h =
      let inside = h end refl in
      bind-IsAnswer (read_end bytes end) _ (read_end-IsAnswer bytes end inside) λ r read.
        scan_directory-IsAnswer bytes r (omega (arith, inside, read_end-end bytes end r read))

  -- For any bytes, the scan gives entries or one of the reasons for a refusal: no read is outside the
  -- buffer, and the loop over the extra fields has fuel enough.
  pub scan_zip-IsAnswer : (bytes : Bytes) → IsAnswer (scan_zip host budget bytes)
  unfolding scan_zip
  scan_zip-IsAnswer bytes =
      let low = length bytes - 65557 in
      refuse-IsAnswer (ltb (length bytes) 4) _ _ λ four.
        bind-IsAnswer (read_u32 bytes 0) _
          (read_u32-IsAnswer bytes 0 (omega (arith, not_ltb _ _ four)))
          λ signature _.
            refuse-IsAnswer (not (signature == 0x04034b50 || signature == 0x06054b50)) _ _ λ _.
              bind-IsAnswer (find_end bytes low (length bytes - 21 - low)) _
                (find_end-IsAnswer bytes low (length bytes - 21 - low) (ground arith))
                λ found search. found_end-IsAnswer bytes found λ end e.
                  find_end-bound bytes low (length bytes - 21 - low) end (search ∙ rw e refl)
