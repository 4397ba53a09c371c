-- ===== src/Archive/Scan/Total.antt =====
-- Reads inside a buffer, `extras` and the headers of a record: what they fault on.
use maintainflow.Prelude.{
  ℕ, zero, suc, ◌+◌, ◌/◌, ◌%◌, ◌≤◌, ◌<◌, ◌≡◌, Bool, true, false, not, ◌&&◌, ◌||◌, List, [], ◌∷◌,
  length, ltb, ◌==◌, if◌then◌else◌, Result, ok, err, ◌>>=◌, ◌>>◌, refl, arith, Option-cases, inl,
  inr,
}
use maintainflow.Prelude.Text.{Str, str_eq}
use maintainflow.Archive.{
  Fault, fail, fail_if, out_of_range, out_of_fuel, path_encoding, unsupported_archive,
  max_path_bytes, ArchiveImportValidationReason,
}
use maintainflow.Archive.Bytes.{
  Bytes, and_bits, same_bytes, byte_at, read_u16, read_u32, subarray, zip_crc32,
}
use maintainflow.Archive.Path.{TextHost, is_empty_text, has_bad_point, decode_name}
use maintainflow.Archive.Scan.Extras.{unicode_path, extras_from, extras, was_read}
use maintainflow.Archive.Scan.Records.{
  Central, is_unsupported, supported, read_central, check_kind, check_field, check_fields,
  check_same,
}
use maintainflow.Archive.Scan.Sound.{not_ltb}

-- A value, or a reason that the reader gives.
abbrev pub IsAnswer : {A : Type 0} → Result Fault A → Type 0
IsAnswer (ok _) = Unit
IsAnswer (err (fail _)) = Unit
IsAnswer (err out_of_range) = ⊥
IsAnswer (err out_of_fuel) = ⊥

pub bind-IsAnswer :
    {A B : Type 0} (m : Result Fault A) (f : A → Result Fault B)
    → IsAnswer m
    → ((a : A) → m ≡ ok a → IsAnswer (f a))
    → IsAnswer (m >>= f)
bind-IsAnswer (ok a) f h k = k a refl
bind-IsAnswer (err (fail r)) f h k = tt
bind-IsAnswer (err out_of_range) f h k = h
bind-IsAnswer (err out_of_fuel) f h k = h

pub refuse-IsAnswer :
    {B : Type 0} (t : Bool) (r : ArchiveImportValidationReason) (k : Result Fault B)
    → (t ≡ false → IsAnswer k)
    → IsAnswer (fail_if t r >> k)
refuse-IsAnswer true r k h = tt
refuse-IsAnswer false r k h = h refl

pub fail_if-IsAnswer : (t : Bool) (r : ArchiveImportValidationReason) → IsAnswer (fail_if t r)
fail_if-IsAnswer true r = tt
fail_if-IsAnswer false r = tt

pub if_IsAnswer :
    {A : Type 0} (t : Bool) (m n : Result Fault A)
    → (t ≡ true → IsAnswer m)
    → (t ≡ false → IsAnswer n)
    → IsAnswer (if t then m else n)
if_IsAnswer true m n h k = h refl
if_IsAnswer false m n h k = k refl

or_false : (a b : Bool) → (a || b) ≡ false → a ≡ false
or_false a b h = ground arith

byte_at-IsAnswer : (bytes : Bytes) (i : ℕ) → i < length bytes → IsAnswer (byte_at bytes i)
unfolding byte_at
byte_at-IsAnswer [] i h = absurd (omega arith)
byte_at-IsAnswer (b ∷ bytes) zero h = tt
byte_at-IsAnswer (b ∷ bytes) (suc i) h = byte_at-IsAnswer bytes i (omega (arith, h))

pub read_u16-IsAnswer : (bytes : Bytes) (i : ℕ) → i + 2 ≤ length bytes → IsAnswer (read_u16 bytes i)
unfolding read_u16
read_u16-IsAnswer bytes i h =
    bind-IsAnswer (byte_at bytes i) _ (byte_at-IsAnswer bytes i (omega (arith, h))) λ low _.
      bind-IsAnswer (byte_at bytes (i + 1)) _ (byte_at-IsAnswer bytes (i + 1) (omega (arith, h)))
        λ high _. tt

pub read_u32-IsAnswer : (bytes : Bytes) (i : ℕ) → i + 4 ≤ length bytes → IsAnswer (read_u32 bytes i)
unfolding read_u32
read_u32-IsAnswer bytes i h =
    bind-IsAnswer (read_u16 bytes i) _ (read_u16-IsAnswer bytes i (omega (arith, h))) λ low _.
      bind-IsAnswer (read_u16 bytes (i + 2)) _ (read_u16-IsAnswer bytes (i + 2) (omega (arith, h)))
        λ high _. tt

-- Reads inside a part of the buffer that a guard has allowed.
module _ (bytes : Bytes) (from size : ℕ) (inside : from + size ≤ length bytes) where
  pub u16_at :
      {B : Type 0} (i : ℕ) (f : ℕ → Result Fault B)
      → i + 2 ≤ size
      → ((n : ℕ) → read_u16 bytes (from + i) ≡ ok n → IsAnswer (f n))
      → IsAnswer (read_u16 bytes (from + i) >>= f)
  u16_at i f h k =
      bind-IsAnswer (read_u16 bytes (from + i)) f
        (read_u16-IsAnswer bytes (from + i) (omega (arith, h, inside))) k

  pub u32_at :
      {B : Type 0} (i : ℕ) (f : ℕ → Result Fault B)
      → i + 4 ≤ size
      → ((n : ℕ) → read_u32 bytes (from + i) ≡ ok n → IsAnswer (f n))
      → IsAnswer (read_u32 bytes (from + i) >>= f)
  u32_at i f h k =
      bind-IsAnswer (read_u32 bytes (from + i)) f
        (read_u32-IsAnswer bytes (from + i) (omega (arith, h, inside))) k

module _ (host : TextHost) where
  pub decode_name-IsAnswer : (raw : Bytes) → IsAnswer (decode_name host raw)
  unfolding decode_name
  decode_name-IsAnswer raw = elim (Option-cases (host.decode_utf8 raw)) [
    | inl e ↦ rw (e, IsAnswer) tt
    | inr (name, e) ↦
        rw (e, IsAnswer)
          (refuse-IsAnswer
            (is_empty_text name || ltb max_path_bytes (length raw) || has_bad_point false name)
            path_encoding (ok name) λ _. tt)
  ]

  unicode_path-IsAnswer :
      (bytes raw_name : Bytes) (name : Str) (cursor size : ℕ)
      → cursor + size ≤ length bytes
      → IsAnswer (unicode_path host bytes raw_name name cursor size)
  unfolding unicode_path
  unicode_path-IsAnswer bytes raw_name name cursor size h = refuse-IsAnswer (ltb size 5) _ _ λ long.
      let five = not_ltb _ _ long in
      bind-IsAnswer (byte_at bytes cursor) _
        (byte_at-IsAnswer bytes cursor (omega (arith, five, h)))
        λ version _. refuse-IsAnswer (not (version == 1)) _ _ λ _.
          u32_at bytes cursor size h 1 _ (omega (arith, five)) λ crc _.
            refuse-IsAnswer (not (crc == zip_crc32 raw_name)) _ _ λ _.
              bind-IsAnswer (decode_name host (subarray bytes (cursor + 5) (cursor + size))) _
                (decode_name-IsAnswer _) λ path _. fail_if-IsAnswer (not (str_eq path name)) _

  extras_from-IsAnswer :
      (fuel : ℕ) (bytes raw_name : Bytes) (name : Str) (seen : List ℕ) (cursor : ℕ)
      → cursor ≤ length bytes
      → length bytes < cursor + fuel
      → IsAnswer (extras_from host fuel bytes raw_name name seen cursor)
  unfolding extras_from
  extras_from-IsAnswer zero bytes raw_name name seen cursor h k = absurd (omega (arith, h, k))
  extras_from-IsAnswer (suc fuel) bytes raw_name name seen cursor h k =
      if_IsAnswer (ltb cursor (length bytes)) _ _
        (λ _. refuse-IsAnswer (ltb (length bytes) (cursor + 4)) _ _ λ room.
          let four = not_ltb _ _ room in
          bind-IsAnswer (read_u16 bytes cursor) _
            (read_u16-IsAnswer bytes cursor (omega (arith, four)))
            λ id _.
              bind-IsAnswer (read_u16 bytes (cursor + 2)) _
                (read_u16-IsAnswer bytes (cursor + 2) (omega (arith, four)))
                λ size _.
                  refuse-IsAnswer (ltb (length bytes) (cursor + 4 + size) || was_read id seen) _ _
                    λ inside.
                      let whole : cursor + 4 + size ≤ length bytes =
                        not_ltb _ _ (or_false _ _ inside) in
                      refuse-IsAnswer (id == 0x0001 || id == 0x9901) _ _ λ _.
                        bind-IsAnswer
                          (if id == 0x7075
                            then unicode_path host bytes raw_name name (cursor + 4) size
                            else ok tt)
                          _
                          (if_IsAnswer (id == 0x7075) _ _
                            (λ _. unicode_path-IsAnswer bytes raw_name name (cursor + 4) size whole)
                            (λ _. tt))
                          λ _ _.
                            extras_from-IsAnswer fuel bytes raw_name name (id ∷ seen)
                              (cursor + 4 + size) whole (omega (arith, k)))
        (λ _. tt)

  pub extras-IsAnswer :
      (bytes raw_name : Bytes) (name : Str) → IsAnswer (extras host bytes raw_name name)
  unfolding extras
  extras-IsAnswer bytes raw_name name =
      extras_from-IsAnswer (suc (length bytes)) bytes raw_name name [] 0 (omega arith) (omega arith)

supported-IsAnswer : (c : Central) → IsAnswer (supported c)
unfolding supported
supported-IsAnswer c = refuse-IsAnswer (is_unsupported c) unsupported_archive (ok c) λ _. tt

pub read_central-IsAnswer :
    (bytes : Bytes) (end cursor : ℕ) → end ≤ length bytes → IsAnswer (read_central bytes end cursor)
unfolding read_central
read_central-IsAnswer bytes end cursor h = refuse-IsAnswer (ltb end (cursor + 46)) _ _ λ room.
    let inside : cursor + 46 ≤ length bytes = omega (arith, not_ltb _ _ room, h) in
    bind-IsAnswer (read_u32 bytes cursor) _ (read_u32-IsAnswer bytes cursor (omega (arith, inside)))
      λ signature _. refuse-IsAnswer (not (signature == 0x02014b50)) _ _ λ _.
        u16_at bytes cursor 46 inside 6 _ (omega arith) λ needed _.
          u16_at bytes cursor 46 inside 8 _ (omega arith) λ flags _.
            u16_at bytes cursor 46 inside 10 _ (omega arith) λ method _.
              u32_at bytes cursor 46 inside 16 _ (omega arith) λ crc32 _.
                u32_at bytes cursor 46 inside 20 _ (omega arith) λ compressed_size _.
                  u32_at bytes cursor 46 inside 24 _ (omega arith) λ byte_size _.
                    u16_at bytes cursor 46 inside 28 _ (omega arith) λ name_size _.
                      u16_at bytes cursor 46 inside 30 _ (omega arith) λ extra_size _.
                        u16_at bytes cursor 46 inside 32 _ (omega arith) λ comment_size _.
                          u32_at bytes cursor 46 inside 38 _ (omega arith) λ attrs _.
                            u32_at bytes cursor 46 inside 42 _ (omega arith) λ local_offset _.
                              refuse-IsAnswer
                                (ltb end (cursor + 46 + name_size + extra_size + comment_size)
                                  || name_size == 0)
                                _ _
                                λ _.
                                  u16_at bytes cursor 46 inside 34 _ (omega arith)
                                    λ disk _. search supported-IsAnswer

pub check_kind-IsAnswer : (c : Central) (directory : Bool) → IsAnswer (check_kind c directory)
unfolding check_kind
check_kind-IsAnswer c directory =
    let mode = and_bits 16 (c.attrs / 0x10000) 0xf000 in
    refuse-IsAnswer
      ((not (mode == 0) && not (mode == 0x8000) && not (mode == 0x4000)) || c.attrs / 8 % 2 == 1) _
      _
      λ _.
        refuse-IsAnswer
          ((mode == 0x4000 && not directory)
            || (mode == 0x8000 && directory)
            || (c.attrs / 16 % 2 == 1 && not directory))
          _ _ λ _. fail_if-IsAnswer (directory && (not (c.byte_size == 0) || not (c.crc32 == 0))) _

-- The local header of a record, where its 30 bytes lie inside the buffer.
module _ (bytes : Bytes) (c : Central) (inside : c.local_offset + 30 ≤ length bytes) where
  check_field-IsAnswer :
      (offset expected : ℕ) → offset + 4 ≤ 30 → IsAnswer (check_field bytes c offset expected)
  unfolding check_field
  check_field-IsAnswer offset expected h =
      u32_at bytes c.local_offset 30 inside offset _ h λ actual _.
        fail_if-IsAnswer (not (actual == expected) && (c.flags / 8 % 2 == 0 || not (actual == 0))) _

  pub check_fields-IsAnswer : IsAnswer (check_fields bytes c)
  unfolding check_fields
  check_fields-IsAnswer =
      bind-IsAnswer (check_field bytes c 14 c.crc32) _
        (check_field-IsAnswer 14 c.crc32 (omega arith))
        λ _ _.
          bind-IsAnswer (check_field bytes c 18 c.compressed_size) _
            (check_field-IsAnswer 18 c.compressed_size (omega arith))
            λ _ _. check_field-IsAnswer 22 c.byte_size (omega arith)

  pub check_same-IsAnswer :
      (raw_name : Bytes) (size : ℕ) → IsAnswer (check_same bytes c raw_name size)
  unfolding check_same
  check_same-IsAnswer raw_name size =
      u16_at bytes c.local_offset 30 inside 4 _ (omega arith) λ needed _.
        u16_at bytes c.local_offset 30 inside 6 _ (omega arith) λ flags _.
          u16_at bytes c.local_offset 30 inside 8 _ (omega arith) λ method _.
            fail_if-IsAnswer
              (not (needed == c.needed)
                || not (flags == c.flags)
                || not (method == c.method)
                || not (
                    same_bytes (subarray bytes (c.local_offset + 30) (c.local_offset + 30 + size))
                      raw_name))
              _
