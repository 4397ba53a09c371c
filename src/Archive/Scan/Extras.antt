-- ===== src/Archive/Scan/Extras.antt =====
-- `extras` of server/core/zip-reader.ts: the extra fields of a record.
use maintainflow.Prelude.{
  ℕ, zero, suc, ◌+◌, Bool, false, not, ◌||◌, List, [], ◌∷◌, length, ltb, ◌==◌, if◌then◌else◌,
  Result, ok, err, ◌>>=◌, ◌>>◌,
}
use maintainflow.Prelude.Text.{Str, str_eq}
use maintainflow.Archive.{
  Fault, fail_if, out_of_fuel, invalid_archive, unsupported_archive, unsafe_path,
}
use maintainflow.Archive.Bytes.{Bytes, byte_at, read_u16, read_u32, subarray, zip_crc32}
use maintainflow.Archive.Path.{TextHost, decode_name}

unfoldable pub was_read : ℕ → List ℕ → Bool
was_read id [] = false
was_read id (known ∷ seen) = id == known || was_read id seen

module _ (host : TextHost) where
  -- The Unicode path of an extra field, which must be the name itself.
  unfoldable pub unicode_path : Bytes → Bytes → Str → ℕ → ℕ → Result Fault (Unit {0})
  unfolding byte_at read_u32 zip_crc32 decode_name
  unicode_path bytes raw_name name cursor size = do
    fail_if (ltb size 5) invalid_archive
    version ← byte_at bytes cursor
    fail_if (not (version == 1)) invalid_archive
    crc ← read_u32 bytes (cursor + 1)
    fail_if (not (crc == zip_crc32 raw_name)) invalid_archive
    path ← decode_name host (subarray bytes (cursor + 5) (cursor + size))
    fail_if (not (str_eq path name)) unsafe_path

  -- The loop of `extras` on fuel: a round takes 4 bytes at least.
  unfoldable pub extras_from : ℕ → Bytes → Bytes → Str → List ℕ → ℕ → Result Fault (Unit {0})
  unfolding read_u16 was_read unicode_path
  extras_from zero bytes raw_name name seen cursor = err out_of_fuel
  extras_from (suc fuel) bytes raw_name name seen cursor =
      let round = (do
        fail_if (ltb (length bytes) (cursor + 4)) invalid_archive
        id ← read_u16 bytes cursor
        size ← read_u16 bytes (cursor + 2)
        fail_if (ltb (length bytes) (cursor + 4 + size) || was_read id seen) invalid_archive
        fail_if (id == 0x0001 || id == 0x9901) unsupported_archive
        if id == 0x7075 then unicode_path bytes raw_name name (cursor + 4) size else ok tt
        extras_from fuel bytes raw_name name (id ∷ seen) (cursor + 4 + size)) in
      if ltb cursor (length bytes) then round else ok tt

  unfoldable pub extras : Bytes → Bytes → Str → Result Fault (Unit {0})
  unfolding extras_from
  extras bytes raw_name name = extras_from (suc (length bytes)) bytes raw_name name [] 0
