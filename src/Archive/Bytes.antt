-- ===== src/Archive/Bytes.antt =====
-- Buffers of bytes, the bit operations that server/core/zip-reader.ts uses, and `zipCrc32`.
use maintainflow.Prelude.{
  ℕ, zero, suc, ◌+◌, ◌-◌, ◌*◌, ◌/◌, ◌%◌, Bool, true, false, List, [], ◌∷◌, some, none, get_elem?,
  take, drop, ◌==◌, if◌then◌else◌, Result, ok, err, ◌>>=◌,
}
use maintainflow.Archive.{Fault, out_of_range}

-- Each element is below 256.
abbrev pub Bytes : Type 0
Bytes = List ℕ

unfoldable pub byte_at : Bytes → ℕ → Result Fault ℕ
byte_at bytes i = elim (get_elem? bytes i) [ none ↦ err out_of_range | some b ↦ ok b ]

-- `readUInt16LE`.
unfoldable pub read_u16 : Bytes → ℕ → Result Fault ℕ
unfolding byte_at
read_u16 bytes i = do low ← byte_at bytes i; high ← byte_at bytes (i + 1); ok (low + 0x100 * high)

-- `readUInt32LE`.
unfoldable pub read_u32 : Bytes → ℕ → Result Fault ℕ
unfolding read_u16
read_u32 bytes i = do
  low ← read_u16 bytes i
  high ← read_u16 bytes (i + 2)
  ok (low + 0x10000 * high)

-- `bytes.subarray(from, to)` for `from ≤ to`.
abbrev pub subarray : Bytes → ℕ → ℕ → Bytes
subarray bytes from to = take (to - from) (drop from bytes)

unfoldable pub same_bytes : Bytes → Bytes → Bool
same_bytes [] [] = true
same_bytes [] (_ ∷ _) = false
same_bytes (_ ∷ _) [] = false
same_bytes (a ∷ s) (b ∷ t) = let rest = same_bytes s t in if a == b then rest else false

-- `a ^ b` of numbers of `w` bits.
unfoldable pub xor_bits : ℕ → ℕ → ℕ → ℕ
xor_bits zero a b = 0
xor_bits (suc w) a b = (a + b) % 2 + 2 * xor_bits w (a / 2) (b / 2)

-- `a & b` of numbers of `w` bits.
unfoldable pub and_bits : ℕ → ℕ → ℕ → ℕ
and_bits zero a b = 0
and_bits (suc w) a b = (a % 2) * (b % 2) + 2 * and_bits w (a / 2) (b / 2)

-- Rounds of `crc = (crc >>> 1) ^ (crc & 1 ? 0xedb88320 : 0)`.
unfoldable pub crc_rounds : ℕ → ℕ → ℕ
unfolding xor_bits
crc_rounds zero crc = crc
crc_rounds (suc k) crc =
    crc_rounds k (xor_bits 32 (crc / 2) (if crc % 2 == 1 then 0xedb88320 else 0))

-- An element of `crcTable`.
unfoldable pub crc_table : ℕ → ℕ
unfolding crc_rounds
crc_table value = crc_rounds 8 value

unfoldable pub crc_from : ℕ → Bytes → ℕ
unfolding crc_table
crc_from crc [] = crc
crc_from crc (byte ∷ bytes) =
    crc_from (xor_bits 32 (crc / 0x100) (crc_table (xor_bits 32 crc byte % 0x100))) bytes

unfoldable pub zip_crc32 : Bytes → ℕ
unfolding crc_from
zip_crc32 bytes = xor_bits 32 (crc_from 0xffffffff bytes) 0xffffffff
