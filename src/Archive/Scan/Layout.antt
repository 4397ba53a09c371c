-- ===== src/Archive/Scan/Layout.antt =====
-- Where the entries of an accepted archive lie, and the scan as a whole.
use maintainflow.Prelude.{
  bind-ok, seq-ok, refuse-ok, ℕ, zero, suc, ◌+◌, ◌-◌, ◌/◌, ◌%◌, ◌≤◌, ◌≡◌, not, ◌&&◌, ◌||◌, List, [],
  ◌∷◌, some, length, ltb, leb, ◌==◌, ok, arith, Bool-cases, Option-cases, ◌∙◌, inl, inr,
}
use maintainflow.Archive.Bytes.{Bytes, read_u16, read_u32}
use maintainflow.Archive.Path.{TextHost}
use maintainflow.Archive.Scan.Records.{ZipEntry, ZipReadLimits, ScanState}
use maintainflow.Archive.Scan.{
  EndRecord, find_end, read_end, insert_entry, sort_entries, first_offset, check_descriptor,
  check_gap, check_physical, check_parents, scan_records, scan_directory, scan_zip,
}
use maintainflow.Archive.Scan.Sound.{
  not_ltb, not_differ, IsSafeEntry, AllSafe, AllDistinct, total_size, scan_records-IsRun,
  NewNames-AllDistinct,
}

-- The data of each entry ends before the next entry begins, and that of the last before the directory.
abbrev pub IsPacked : ℕ → List ZipEntry → Type 0
IsPacked directory_offset [] = Unit
IsPacked directory_offset (e ∷ es) =
    (e.data_offset + e.compressed_size ≤ first_offset es directory_offset)
    × IsPacked directory_offset es

check_descriptor-end :
    (bytes : Bytes) (e : ZipEntry) (data_end next : ℕ)
    → check_descriptor bytes e data_end next ≡ ok tt
    → data_end ≤ next
unfolding check_descriptor
check_descriptor-end bytes e data_end next h =
    refuse-ok (not (next == data_end + 12) && not (next == data_end + 16)) _ _ h λ t _. ground arith

check_gap-end :
    (bytes : Bytes) (e : ZipEntry) (next : ℕ)
    → check_gap bytes e next ≡ ok tt
    → e.data_offset + e.compressed_size ≤ next
unfolding check_gap
check_gap-end bytes e next h = elim (Bool-cases (e.flags / 8 % 2 == 0)) [
  | inl t ↦ ground arith
  | inr t ↦ check_descriptor-end bytes e (e.data_offset + e.compressed_size) next (rw t at h)
]

check_physical-IsPacked :
    (bytes : Bytes) (directory_offset : ℕ) (es : List ZipEntry)
    → check_physical bytes directory_offset es ≡ ok tt
    → IsPacked directory_offset es
unfolding check_physical
check_physical-IsPacked bytes directory_offset [] h = tt
check_physical-IsPacked bytes directory_offset (e ∷ es) h =
    bind-ok (check_gap bytes e (first_offset es directory_offset)) _ h λ _ gap later. (
      check_gap-end bytes e (first_offset es directory_offset) gap,
      check_physical-IsPacked bytes directory_offset es later,
    )

pub find_end-bound :
    (bytes : Bytes) (low count at : ℕ)
    → find_end bytes low count ≡ ok (some at)
    → at + 22 ≤ length bytes
unfolding find_end
find_end-bound bytes low zero at h = ground arith
find_end-bound bytes low (suc count) at h =
    bind-ok (read_u32 bytes (low + count)) _ h λ signature _ h1.
      bind-ok (read_u16 bytes (low + count + 20)) _ h1
        λ comment _ h2. ground (arith, find_end-bound bytes low count at)

pub read_end-end :
    (bytes : Bytes) (end : ℕ) (e : EndRecord) → read_end bytes end ≡ ok e → e.end ≡ end
unfolding read_end
read_end-end bytes end e h = bind-ok (read_u16 bytes (end + 10)) _ h λ count _ h1.
    bind-ok (read_u32 bytes (end + 12)) _ h1 λ size _ h2.
      bind-ok (read_u32 bytes (end + 16)) _ h2 λ offset _ h3.
        bind-ok (read_u16 bytes (end + 4)) _ h3 λ disk _ h4.
          bind-ok (read_u16 bytes (end + 6)) _ h4 λ directory_disk _ h5.
            bind-ok (read_u16 bytes (end + 8)) _ h5 λ disk_count _ h6. ground arith

module _ (host : TextHost) (budget : ZipReadLimits) where
  insert_entry-AllSafe :
      (d : ℕ) (e : ZipEntry) (es : List ZipEntry)
      → IsSafeEntry host budget d e
      → AllSafe host budget d es
      → AllSafe host budget d (insert_entry e es)
  unfolding insert_entry
  insert_entry-AllSafe d e [] h k = (h, k)
  insert_entry-AllSafe d e (f ∷ fs) h k = elim (Bool-cases (leb e.local_offset f.local_offset)) [
    | inl t ↦ rw t (h, k)
    | inr t ↦ rw t (k.0, insert_entry-AllSafe d e fs h k.1)
  ]

  pub sort_entries-AllSafe :
      (d : ℕ) (es : List ZipEntry)
      → AllSafe host budget d es
      → AllSafe host budget d (sort_entries es)
  unfolding sort_entries
  sort_entries-AllSafe d [] h = tt
  sort_entries-AllSafe d (e ∷ es) h =
      insert_entry-AllSafe d e (sort_entries es) h.0 (sort_entries-AllSafe d es h.1)

  -- The entries that a scan may give.
  pub record IsSafeArchive (bytes : Bytes) (es : List ZipEntry) : Type 0 where
    pub directory_offset : ℕ
    pub directory_inside : directory_offset ≤ length bytes
    pub few : length es ≤ budget.max_records
    pub small : total_size es ≤ budget.max_expanded_bytes
    pub safe : AllSafe host budget directory_offset es
    pub distinct : AllDistinct host budget es
    pub from_start : first_offset (sort_entries es) directory_offset ≡ 0
    pub packed : IsPacked directory_offset (sort_entries es)
    pub safe_in_order : AllSafe host budget directory_offset (sort_entries es)

  scan_directory-IsSafeArchive :
      (bytes : Bytes) (r : EndRecord) (es : List ZipEntry)
      → r.end ≤ length bytes
      → scan_directory host budget bytes r ≡ ok es
      → IsSafeArchive bytes es
  unfolding scan_directory
  scan_directory-IsSafeArchive bytes r es inside h =
      let start : ScanState = record { names = []; cursor = r.directory_offset; expanded = 0 } in
      refuse-ok (ltb budget.max_records r.count) _ _ h λ few h1.
        refuse-ok (not (r.directory_offset + r.directory_size == r.end)) _ _ h1 λ whole h2.
          bind-ok (scan_records host budget bytes r r.count 1 start) _ h2 λ (found, final) run h3.
            refuse-ok (not (final.cursor == r.end)) _ _ h3 λ _ h4.
              let physical = sort_entries found in
              let h5 = seq-ok (check_parents final.names final.names) _ h4 in
              refuse-ok (not (first_offset physical r.directory_offset == 0)) _ _ h5 λ first h6.
                bind-ok (check_physical bytes r.directory_offset physical) _ h6 λ _ packed h7.
                  let facts =
                    scan_records-IsRun host budget bytes r r.count 1 start found final run in
                  let same : found ≡ es = cc in
                  let sum = not_differ _ _ whole in
                  let bound = not_ltb _ _ few in
                  let size = facts.within (omega arith) in
                  let all : IsSafeArchive bytes found = record {
                    directory_offset = r.directory_offset;
                    directory_inside = omega (arith, inside, sum);
                    few = omega (arith, bound, facts.counted);
                    small = omega (arith, size, facts.expanded);
                    safe = facts.safe;
                    distinct = NewNames-AllDistinct host budget [] found facts.new;
                    from_start = not_differ _ _ first;
                    packed = check_physical-IsPacked bytes r.directory_offset physical packed;
                    safe_in_order = sort_entries-AllSafe r.directory_offset found facts.safe;
                  } in
                  rw same at all

  -- A ZIP is accepted only if its records are at most the budget's, and no larger, one by one and
  -- together, than the budget allows; each path is safe, and no two paths are the same in normal form
  -- and without a folder's slash; and in the order of their offsets the entries, each a header of 30
  -- bytes at least and its data, begin at the first byte of the file, and the data of each ends
  -- before the next entry, or the directory, begins.
  pub scan_zip-IsSafeArchive :
      (bytes : Bytes) (es : List ZipEntry)
      → scan_zip host budget bytes ≡ ok es
      → IsSafeArchive bytes es
  unfolding scan_zip
  scan_zip-IsSafeArchive bytes es h =
      let low = length bytes - 65557 in
      refuse-ok (ltb (length bytes) 4) _ _ h λ _ h1.
        bind-ok (read_u32 bytes 0) _ h1 λ signature _ h2.
          refuse-ok (not (signature == 0x04034b50 || signature == 0x06054b50)) _ _ h2 λ _ h3.
            bind-ok (find_end bytes low (length bytes - 21 - low)) _ h3 λ found search h4.
              elim (Option-cases found) [
                | inl e ↦ let h5 = rw e at h4 in cc
                | inr (end, e) ↦ bind-ok (read_end bytes end) _ (rw e at h4) λ r read h5.
                    let bound =
                      find_end-bound bytes low (length bytes - 21 - low) end (search ∙ rw e) in
                    scan_directory-IsSafeArchive bytes r es
                      (omega (arith, bound, read_end-end bytes end r read)) h5
              ]
