-- ===== src/ByteBuffer/Fields.antt =====
-- A buffer as a sequence of fields: what is put is what is got.
use native.Mathlib.Nat.{suc-add}
use pega_s.Prelude.{
  ℕ, zero, suc, ◌+◌, ◌^◌, ◌≤◌, ◌<◌, ◌≡◌, refl, ap, true, false, Option, none, some, List, [], ◌∷◌,
  ◌++◌, ℤ, pos, minus_one, ltb, leb, if◌then◌else◌, arith, u64, set, store_in_bounds, take, drop,
  length, ◌>>=◌, Bool-cases, inl, inr,
}
use pega_s.ByteBuffer.{
  ByteBuffer, copy_in, append_bytes, bytes_of_uint16, bytes_of_uint32, bytebuffer_put_uint8,
  bytebuffer_put_uint16, bytebuffer_put_uint32, bytebuffer_put_bytes, bytebuffer_get_uint8,
  bytebuffer_get_uint16, bytebuffer_get_uint32, bytebuffer_get_bytes,
}

pub data Field : Type 0 where
  byte word long : ℕ → Field
  raw : List ℕ → Field

-- What a reader must know to read a field.
pub data Shape : Type 0 where
  byte_shape word_shape long_shape : Shape
  raw_shape : ℕ → Shape

abbrev pub shape_of : Field → Shape
shape_of (byte v) = byte_shape
shape_of (word v) = word_shape
shape_of (long v) = long_shape
shape_of (raw bytes) = raw_shape (length bytes)

-- The bytes that stand for a field.
abbrev pub bytes_of : Field → List ℕ
bytes_of (byte v) = v ∷ []
bytes_of (word v) = bytes_of_uint16 v
bytes_of (long v) = bytes_of_uint32 v
bytes_of (raw bytes) = bytes

abbrev pub IsField : Field → Type 0
IsField (byte v) = v < 256
IsField (word v) = v < 2 ^ 16
IsField (long v) = v < 2 ^ 32
IsField (raw bytes) = length bytes < 2 ^ 63

abbrev pub put_field : ByteBuffer → Field → Option (ℤ × ByteBuffer)
put_field buf (byte v) = bytebuffer_put_uint8 buf v
put_field buf (word v) = bytebuffer_put_uint16 buf v
put_field buf (long v) = bytebuffer_put_uint32 buf v
put_field buf (raw bytes) = bytebuffer_put_bytes buf bytes

abbrev as_field :
    {A : Type 0} → (A → Field) → ℤ × Option A × ByteBuffer → ℤ × Option Field × ByteBuffer
as_field f (code, none, buf) = (code, none, buf)
as_field f (code, some a, buf) = (code, some (f a), buf)

abbrev pub get_field : ByteBuffer → Shape → Option (ℤ × Option Field × ByteBuffer)
get_field buf byte_shape = bytebuffer_get_uint8 buf >>= λ r. some (as_field byte r)
get_field buf word_shape = bytebuffer_get_uint16 buf >>= λ r. some (as_field word r)
get_field buf long_shape = bytebuffer_get_uint32 buf >>= λ r. some (as_field long r)
get_field buf (raw_shape n) = bytebuffer_get_bytes buf n >>= λ r. some (as_field raw r)

pub record IsValid (buf : ByteBuffer) : Type 0 where
  pub block : length buf.data_block ≡ buf.capacity
  pub cursor : buf.position ≤ buf.capacity
  pub small : buf.capacity < 2 ^ 63

-- The buffer with some bytes written at the cursor.
abbrev pub appended : ByteBuffer → List ℕ → ByteBuffer
appended buf bytes = record buf {
  data_block =
      take buf.position buf.data_block
      ++ (bytes ++ drop (buf.position + length bytes) buf.data_block);
  position = buf.position + length bytes;
}

set-take-drop :
    (xs : List ℕ) (i v : ℕ) → i < length xs → set xs i v ≡ take i xs ++ (v ∷ drop (i + 1) xs)
set-take-drop [] i v h = absurd (omega arith)
set-take-drop (x ∷ xs) zero v h = refl
set-take-drop (x ∷ xs) (suc i) v h =
    rw (suc-add i 1) (ap (◌∷◌ x) (set-take-drop xs i v (omega arith)))

append_bytes_lem :
    (buf : ByteBuffer) (bytes : List ℕ)
    → IsValid buf
    → buf.position + length bytes ≤ buf.capacity
    → append_bytes buf bytes ≡ some (pos 0, appended buf bytes)
unfolding append_bytes copy_in
append_bytes_lem buf bytes v fits =
    let inside : ltb (length buf.data_block) (buf.position + length bytes) ≡ false =
      ground (arith, v.block) in
    rw inside refl

-- The guard of a put, where the sum does not wrap.
guarded :
    (buf : ByteBuffer) (bytes : List ℕ)
    → IsValid buf
    → length bytes < 2 ^ 63
    → (if ltb buf.capacity (u64 (buf.position + length bytes))
        then some (minus_one, buf)
        else append_bytes buf bytes)
      ≡ some (
          if ltb buf.capacity (buf.position + length bytes)
          then (minus_one, buf)
          else (pos 0, appended buf bytes))
guarded buf bytes v short =
    let same : u64 (buf.position + length bytes) ≡ buf.position + length bytes =
      omega (arith, v.cursor, v.small) in
    elim (Bool-cases (ltb buf.capacity (buf.position + length bytes))) [
      | inl over ↦ rw (same, over) refl
      | inr fits ↦ rw (same, fits) (append_bytes_lem buf bytes v (ground arith))
    ]

-- A put of a field whose value fits its width, on a valid buffer, does not fault. If the field fits
-- it returns 0, appends the field's bytes at the cursor and keeps every other byte; if it does not,
-- it returns -1 and changes nothing.
pub put_field_lem :
    (buf : ByteBuffer) (f : Field)
    → IsValid buf
    → IsField f
    → put_field buf f
      ≡ some (
          if ltb buf.capacity (buf.position + length (bytes_of f))
          then (minus_one, buf)
          else (pos 0, appended buf (bytes_of f)))
unfolding bytebuffer_put_uint8 bytebuffer_put_uint16 bytebuffer_put_uint32 bytebuffer_put_bytes
put_field_lem buf (byte v) ok w = elim (Bool-cases (leb buf.capacity buf.position)) [
  | inl full ↦
      let over : ltb buf.capacity (buf.position + 1) ≡ true = ground arith in rw (full, over) refl
  | inr room ↦
      let fits : ltb buf.capacity (buf.position + 1) ≡ false = ground arith in
      let inside : buf.position < length buf.data_block = ground (arith, ok.block) in
      rw
        (
          room,
          fits,
          store_in_bounds buf.data_block buf.position v inside,
          set-take-drop buf.data_block buf.position v inside,
        )
        refl
]
put_field_lem buf (word v) ok w = guarded buf (bytes_of_uint16 v) ok (omega arith)
put_field_lem buf (long v) ok w = guarded buf (bytes_of_uint32 v) ok (omega arith)
put_field_lem buf (raw bytes) ok w = guarded buf bytes ok w
