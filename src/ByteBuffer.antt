-- ===== src/ByteBuffer.antt =====
-- The buffer that packets are written to and read from: SupportStructure/bytebuffer.c. The host is
-- little-endian. `none` is an access outside the block.
pub mod Fields
pub mod Get
pub mod Round
mod Tests
use pega_s.Prelude.{
  ℕ, ◌+◌, ◌-◌, ◌*◌, ◌/◌, ◌%◌, ◌^◌, Bool, true, false, Option, none, some, List, [], ◌∷◌, ◌++◌, ℤ,
  pos, negsuc, minus_one, ltb, leb, ◌==◌, if◌then◌else◌, u64, load, store, take, drop, length,
  ◌>>=◌,
}

-- `bytebuffer_t`. A freed block is the empty list.
pub record ByteBuffer : Type 0 where
  pub data_block : List ℕ
  pub capacity : ℕ
  pub position : ℕ
  pub owner : ℕ

-- `record_block` says whether the first malloc succeeds, `block` what the second returns.
unfoldable pub bytebuffer_init : Bool → Option (List ℕ) → ℕ → Option ByteBuffer
bytebuffer_init false block capacity = none
bytebuffer_init true none capacity = none
bytebuffer_init true (some cells) capacity =
    some (record { data_block = cells; capacity = capacity; position = 0; owner = 1 })

unfoldable pub bytebuffer_wrap : Bool → List ℕ → ℕ → Option ByteBuffer
bytebuffer_wrap false bytes n = none
bytebuffer_wrap true bytes n =
    some (record { data_block = bytes; capacity = n; position = 0; owner = 0 })

-- What is left of the block.
unfoldable pub bytebuffer_clean : ByteBuffer → List ℕ
bytebuffer_clean buf = if buf.owner == 1 then [] else buf.data_block

unfoldable pub bytebuffer_get_data : ByteBuffer → List ℕ × ByteBuffer
bytebuffer_get_data buf = (buf.data_block, record buf { owner = 0 })

unfoldable pub bytebuffer_reset : ByteBuffer → ByteBuffer
bytebuffer_reset buf = record buf { position = 0 }

-- The difference of two `size_t` wraps.
unfoldable pub bytebuffer_remaining : ByteBuffer → ℕ
bytebuffer_remaining buf = u64 (buf.capacity + 2 ^ 64 - buf.position)

unfoldable pub bytebuffer_set_cursor : ByteBuffer → ℤ → ByteBuffer
bytebuffer_set_cursor buf (negsuc n) = buf
bytebuffer_set_cursor buf (pos n) = if ltb buf.capacity n then buf else record buf { position = n }

-- `memcpy(block + at, bytes, length)`.
unfoldable pub copy_in : List ℕ → ℕ → List ℕ → Option (List ℕ)
copy_in block at bytes =
    if ltb (length block) (at + length bytes)
    then none
    else some (take at block ++ (bytes ++ drop (at + length bytes) block))

-- `memcpy(out, block + at, n)`.
unfoldable pub copy_out : List ℕ → ℕ → ℕ → Option (List ℕ)
copy_out block at n = if ltb (length block) (at + n) then none else some (take n (drop at block))

-- The bytes of a word in memory, and the word that bytes make.
abbrev pub bytes_of_uint16 : ℕ → List ℕ
bytes_of_uint16 v = v % 256 ∷ v / 256 % 256 ∷ []

abbrev pub bytes_of_uint32 : ℕ → List ℕ
bytes_of_uint32 v = v % 256 ∷ v / 256 % 256 ∷ v / 65536 % 256 ∷ v / 16777216 % 256 ∷ []

unfoldable pub little_endian : List ℕ → ℕ
little_endian [] = 0
little_endian (b ∷ bytes) = b + 256 * little_endian bytes

unfoldable pub bytebuffer_put_uint8 : ByteBuffer → ℕ → Option (ℤ × ByteBuffer)
bytebuffer_put_uint8 buf value = if leb buf.capacity buf.position then some (minus_one, buf) else do
  block ← store buf.data_block buf.position value
  some (pos 0, record buf { data_block = block; position = buf.position + 1 })

-- The copy and the step of the cursor.
unfoldable pub append_bytes : ByteBuffer → List ℕ → Option (ℤ × ByteBuffer)
append_bytes buf bytes = do
  block ← copy_in buf.data_block buf.position bytes
  some (pos 0, record buf { data_block = block; position = buf.position + length bytes })

unfoldable pub bytebuffer_put_uint16 : ByteBuffer → ℕ → Option (ℤ × ByteBuffer)
bytebuffer_put_uint16 buf value =
    if ltb buf.capacity (u64 (buf.position + 2))
    then some (minus_one, buf)
    else append_bytes buf (bytes_of_uint16 value)

unfoldable pub bytebuffer_put_uint32 : ByteBuffer → ℕ → Option (ℤ × ByteBuffer)
bytebuffer_put_uint32 buf value =
    if ltb buf.capacity (u64 (buf.position + 4))
    then some (minus_one, buf)
    else append_bytes buf (bytes_of_uint32 value)

unfoldable pub bytebuffer_put_bytes : ByteBuffer → List ℕ → Option (ℤ × ByteBuffer)
bytebuffer_put_bytes buf bytes =
    if ltb buf.capacity (u64 (buf.position + length bytes))
    then some (minus_one, buf)
    else append_bytes buf bytes

-- The option in the results is what goes through the pointer.
unfoldable pub bytebuffer_get_uint8 : ByteBuffer → Option (ℤ × Option ℕ × ByteBuffer)
bytebuffer_get_uint8 buf = if leb buf.capacity buf.position then some (minus_one, none, buf) else do
  value ← load buf.data_block buf.position
  some (pos 0, some value, record buf { position = buf.position + 1 })

-- The copy of `n` bytes and the step of the cursor.
unfoldable pub take_bytes : ByteBuffer → ℕ → Option (List ℕ × ByteBuffer)
take_bytes buf n = do
  bytes ← copy_out buf.data_block buf.position n
  some (bytes, record buf { position = buf.position + n })

unfoldable pub bytebuffer_get_uint16 : ByteBuffer → Option (ℤ × Option ℕ × ByteBuffer)
bytebuffer_get_uint16 buf =
    if ltb buf.capacity (u64 (buf.position + 2))
    then some (minus_one, none, buf)
    else do (bytes, buf') ← take_bytes buf 2; some (pos 0, some (little_endian bytes), buf')

unfoldable pub bytebuffer_get_uint32 : ByteBuffer → Option (ℤ × Option ℕ × ByteBuffer)
bytebuffer_get_uint32 buf =
    if ltb buf.capacity (u64 (buf.position + 4))
    then some (minus_one, none, buf)
    else do (bytes, buf') ← take_bytes buf 4; some (pos 0, some (little_endian bytes), buf')

unfoldable pub bytebuffer_get_bytes : ByteBuffer → ℕ → Option (ℤ × Option (List ℕ) × ByteBuffer)
bytebuffer_get_bytes buf n =
    if ltb buf.capacity (u64 (buf.position + n))
    then some (minus_one, none, buf)
    else do (bytes, buf') ← take_bytes buf n; some (pos 0, some bytes, buf')
