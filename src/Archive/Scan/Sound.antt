-- ===== src/Archive/Scan/Sound.antt =====
-- The loop of `scanZip`, of server/core/zip-reader.ts, where it accepts its records.
use maintainflow.Prelude.{
  bind-ok, seq-ok, refuse-ok, ℕ, zero, suc, ◌+◌, ◌≤◌, ◌≡◌, true, false, not, List, [], ◌∷◌, length,
  ltb, ◌==◌, Result, ok, refl, arith, Result-cases, inl, inr, ap, ◌≢◌,
}
use maintainflow.Prelude.Text.{Str, str_eq}
use maintainflow.Archive.{Fault}
use maintainflow.Archive.Bytes.{Bytes, subarray, read_u16, read_u32}
use maintainflow.Archive.Path.{
  TextHost, decode_name, safe_archive_path, drop_slash, ends_with_slash,
}
use maintainflow.Archive.Scan.Extras.{extras}
use maintainflow.Archive.Scan.Records.{
  ZipEntry, ZipReadLimits, ScanState, Names, Central, has_name, scan_record, read_central,
  local_place, check_same, check_fields, record_name, check_kind, check_local,
}
use maintainflow.Archive.Scan.{EndRecord, scan_records}

abbrev pub total_size : List ZipEntry → ℕ
total_size [] = 0
total_size (e ∷ es) = e.byte_size + total_size es

pub not_differ : (a b : ℕ) → not (a == b) ≡ false → a ≡ b
not_differ a b h = ground arith

pub not_ltb : (a b : ℕ) → ltb a b ≡ false → b ≤ a
not_ltb a b h = ground arith

module _ (host : TextHost) (budget : ZipReadLimits) where
  -- An entry whose data lies in front of the directory, within the budget and with a safe path.
  pub record IsSafeEntry (directory_offset : ℕ) (e : ZipEntry) : Type 0 where
    pub safe_path : safe_archive_path host e.path ≡ true
    pub small : e.byte_size ≤ budget.max_file_bytes
    pub header : e.local_offset + 30 ≤ e.data_offset
    pub inside : e.data_offset + e.compressed_size ≤ directory_offset

  record IsStep (directory_offset : ℕ) (st : ScanState) (e : ZipEntry) (next : ScanState)
      : Type 0 where
    pub good : IsSafeEntry directory_offset e
    pub fresh : has_name (host.nfc (drop_slash e.path)) st.names ≡ false
    pub names : next.names ≡ (host.nfc (drop_slash e.path), e.directory) ∷ st.names
    pub expanded : next.expanded ≡ st.expanded + e.byte_size
    pub within : next.expanded ≤ budget.max_expanded_bytes

  record_name-safe :
      (bytes : Bytes) (cursor : ℕ) (c : Central) (names : Names) (name : Str)
      → record_name host bytes cursor c names ≡ ok name
      → (safe_archive_path host name ≡ true) × (has_name (host.nfc (drop_slash name)) names ≡ false)
  unfolding record_name
  record_name-safe bytes cursor c names name h =
      elim (Result-cases
        (decode_name host (subarray bytes (cursor + 46) (cursor + 46 + c.name_size)))) [
          | inl (n, e) ↦ ground arith
          | inr (x, e) ↦ ground arith
        ]

  pub local_place-inside :
      (bytes : Bytes) (directory_offset : ℕ) (c : Central) (at size : ℕ)
      → local_place bytes directory_offset c ≡ ok (at, size)
      → (c.local_offset + 30 ≤ at) × (at + c.compressed_size ≤ directory_offset)
  unfolding local_place
  local_place-inside bytes directory_offset c at size h =
      elim (Result-cases (read_u32 bytes c.local_offset)) [
        | inr (x, e) ↦ ground arith
        | inl (s, e) ↦ elim (Result-cases (read_u16 bytes (c.local_offset + 26))) [
          | inr (x, e1) ↦ ground arith
          | inl (n, e1) ↦ elim (Result-cases (read_u16 bytes (c.local_offset + 28))) [
            | inr (x, e2) ↦ ground arith
            | inl (m, e2) ↦ ground arith
          ]
        ]
      ]

  check_local-inside :
      (bytes : Bytes) (directory_offset : ℕ) (c : Central) (raw_name : Bytes) (name : Str) (at : ℕ)
      → check_local host bytes directory_offset c raw_name name ≡ ok at
      → (c.local_offset + 30 ≤ at) × (at + c.compressed_size ≤ directory_offset)
  unfolding check_local
  check_local-inside bytes directory_offset c raw_name name at h =
      elim (Result-cases (local_place bytes directory_offset c)) [
        | inr (x, e) ↦ ground arith
        | inl ((place, size), e) ↦
            let same = check_same bytes c raw_name size in
            let rest = subarray bytes (c.local_offset + 30 + size) place in
            let h1 = seq-ok same _ (rw e at h) in
            let h2 = seq-ok (extras host rest raw_name name) _ h1 in
            let h3 = seq-ok (check_fields bytes c) _ h2 in
            ground (arith, local_place-inside bytes directory_offset c place size e)
      ]

  keep-IsStep :
      (directory_offset : ℕ) (st : ScanState) {x y : ZipEntry × ScanState}
      → ◌≡◌ {A = Result Fault (ZipEntry × ScanState)} (ok x) (ok y)
      → IsStep directory_offset st x.0 x.1
      → IsStep directory_offset st y.0 y.1
  keep-IsStep directory_offset st {x} {y} h step = let e : x ≡ y = cc in rw e at step

  scan_record-IsStep :
      (bytes : Bytes) (end directory_offset index : ℕ) (st : ScanState) (entry : ZipEntry)
      (next : ScanState)
      → scan_record host budget bytes end directory_offset index st ≡ ok (entry, next)
      → IsStep directory_offset st entry next
  unfolding scan_record
  scan_record-IsStep bytes end directory_offset index st entry next h =
      bind-ok (read_central bytes end st.cursor) _ h λ c _ h1.
        let at = st.cursor + 46 in
        let raw_name = subarray bytes at (at + c.name_size) in
        let extra = subarray bytes (at + c.name_size) (at + c.name_size + c.extra_size) in
        bind-ok (record_name host bytes st.cursor c st.names) _ h1 λ name named h2.
          let h3 = seq-ok (check_kind c (ends_with_slash name)) _ h2 in
          let h4 = seq-ok (extras host extra raw_name name) _ h3 in
          refuse-ok (ltb budget.max_file_bytes c.byte_size) _ _ h4 λ small h5.
            refuse-ok (ltb budget.max_expanded_bytes (st.expanded + c.byte_size)) _ _ h5
              λ within h6.
                bind-ok (check_local host bytes directory_offset c raw_name name) _ h6
                  λ place placed h7.
                    let (safe, fresh) = record_name-safe bytes st.cursor c st.names name named in
                    let (header, inside) =
                      check_local-inside bytes directory_offset c raw_name name place placed in
                    keep-IsStep directory_offset st h7 (record {
                      good = record {
                        safe_path = safe;
                        small = not_ltb _ _ small;
                        header = header;
                        inside = inside;
                      };
                      fresh = fresh;
                      names = refl;
                      expanded = refl;
                      within = not_ltb _ _ within;
                    })

  -- The name by which an entry is known: in normal form and without the slash of a folder.
  abbrev pub canonical_name : ZipEntry → Str
  canonical_name e = host.nfc (drop_slash e.path)

  abbrev pub AllSafe : ℕ → List ZipEntry → Type 0
  AllSafe directory_offset [] = Unit
  AllSafe directory_offset (e ∷ es) = IsSafeEntry directory_offset e × AllSafe directory_offset es

  abbrev pub NewNames : Names → List ZipEntry → Type 0
  NewNames names [] = Unit
  NewNames names (e ∷ es) =
      (has_name (canonical_name e) names ≡ false)
      × NewNames ((canonical_name e, e.directory) ∷ names) es

  abbrev pub IsAbsent : Str → List ZipEntry → Type 0
  IsAbsent name [] = Unit
  IsAbsent name (e ∷ es) = (canonical_name e ≢ name) × IsAbsent name es

  abbrev pub AllDistinct : List ZipEntry → Type 0
  AllDistinct [] = Unit
  AllDistinct (e ∷ es) = IsAbsent (canonical_name e) es × AllDistinct es

  str_eq_refl : (s : Str) → str_eq s s ≡ true
  str_eq_refl [] = refl
  str_eq_refl (c ∷ s) = ground (arith, str_eq_refl s)

  known-IsAbsent :
      (name : Str) (names : Names) (es : List ZipEntry)
      → has_name name names ≡ true
      → NewNames names es
      → IsAbsent name es
  unfolding has_name
  known-IsAbsent name names [] known new = tt
  known-IsAbsent name names (e ∷ es) known (fresh, new) = (
    λ same.
        let same_tests : has_name (canonical_name e) names ≡ has_name name names =
          ap (λ (n : Str). has_name n names) same in
        cc,
    known-IsAbsent name ((canonical_name e, e.directory) ∷ names) es (ground arith) new,
  )

  pub NewNames-AllDistinct :
      (names : Names) (es : List ZipEntry) → NewNames names es → AllDistinct es
  unfolding has_name
  NewNames-AllDistinct names [] new = tt
  NewNames-AllDistinct names (e ∷ es) (fresh, new) =
      let added = (canonical_name e, e.directory) ∷ names in
      (
        known-IsAbsent (canonical_name e) added es (rw (str_eq_refl (canonical_name e)) refl) new,
        NewNames-AllDistinct added es new,
      )

  pub record IsRun (directory_offset count : ℕ) (st : ScanState) (es : List ZipEntry)
      (final : ScanState) : Type 0 where
    pub counted : length es ≡ count
    pub safe : AllSafe directory_offset es
    pub new : NewNames st.names es
    pub expanded : final.expanded ≡ st.expanded + total_size es
    pub within :
        st.expanded ≤ budget.max_expanded_bytes → final.expanded ≤ budget.max_expanded_bytes

  keep-IsRun :
      (directory_offset count : ℕ) (st : ScanState) {x y : List ZipEntry × ScanState}
      → ◌≡◌ {A = Result Fault (List ZipEntry × ScanState)} (ok x) (ok y)
      → IsRun directory_offset count st x.0 x.1
      → IsRun directory_offset count st y.0 y.1
  keep-IsRun directory_offset count st {x} {y} h run = let e : x ≡ y = cc in rw e at run

  pub scan_records-IsRun :
      (bytes : Bytes) (r : EndRecord) (count index : ℕ) (st : ScanState) (es : List ZipEntry)
      (final : ScanState)
      → scan_records host budget bytes r count index st ≡ ok (es, final)
      → IsRun r.directory_offset count st es final
  unfolding scan_records
  scan_records-IsRun bytes r zero index st es final h =
      keep-IsRun r.directory_offset 0 st h
        (record { counted = refl; safe = tt; new = tt; expanded = omega arith; within = λ b. b })
  scan_records-IsRun bytes r (suc k) index st es final h =
      bind-ok (scan_record host budget bytes r.end r.directory_offset index st) _ h
        λ (e, next) step h1.
          bind-ok (scan_records host budget bytes r k (index + 1) next) _ h1
            λ (rest, last) steps h2.
              let one = scan_record-IsStep bytes r.end r.directory_offset index st e next step in
              let more = scan_records-IsRun bytes r k (index + 1) next rest last steps in
              keep-IsRun r.directory_offset (suc k) st h2 (record {
                counted = omega (arith, more.counted);
                safe = (one.good, more.safe);
                new = (one.fresh, rw one.names at more.new);
                expanded = omega (arith, more.expanded, one.expanded);
                within = λ b. more.within one.within;
              })
