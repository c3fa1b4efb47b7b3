-- ===== src/ByteBuffer/Get.antt =====
-- Gets of fields that stand at the cursor.
use pega_s.Prelude.{
  ℕ, zero, suc, ◌+◌, ◌*◌, ◌/◌, ◌%◌, ◌≤◌, ◌≡◌, refl, sym, ap, ◌∙◌, false, Option, some, List, [],
  ◌∷◌, ◌++◌, map, append_assoc, ℤ, pos, ltb, leb, arith, u64, load, take, drop, length,
  length-append, length-drop, take-append, take_all, drop-append, drop-drop, ◌>>=◌,
}
use pega_s.ByteBuffer.{
  ByteBuffer, copy_out, take_bytes, bytes_of_uint16, bytes_of_uint32, little_endian,
  bytebuffer_get_uint8, bytebuffer_get_uint16, bytebuffer_get_uint32, bytebuffer_get_bytes,
}
use pega_s.ByteBuffer.Fields.{
  Field, byte, word, long, raw, Shape, shape_of, bytes_of, IsField, IsValid, get_field,
}

-- A client that gets fields one after the other.
unfoldable pub get_all : ByteBuffer → List Shape → Option (List (ℤ × Option Field))
get_all buf [] = some []
get_all buf (s ∷ shapes) = do
  (code, f, buf') ← get_field buf s
  rest ← get_all buf' shapes
  some ((code, f) ∷ rest)

abbrev pub all_bytes : List Field → List ℕ
all_bytes [] = []
all_bytes (f ∷ fs) = bytes_of f ++ all_bytes fs

abbrev pub AllFields : List Field → Type 0
AllFields [] = Unit
AllFields (f ∷ fs) = IsField f × AllFields fs

-- The bytes from the cursor on begin with `bytes`.
abbrev pub Ahead : ByteBuffer → List ℕ → List ℕ → Type 0
Ahead buf bytes rest = drop buf.position buf.data_block ≡ bytes ++ rest

room_before :
    (buf : ByteBuffer) (bytes rest : List ℕ)
    → IsValid buf
    → Ahead buf bytes rest
    → buf.position + length bytes ≤ buf.capacity
room_before buf bytes rest v ahead =
    let total : length (drop buf.position buf.data_block) ≡ length bytes + length rest =
      ap length ahead ∙ length-append bytes rest in
    omega (arith, length-drop buf.position buf.data_block, v.block, v.cursor)

abbrev moved : ByteBuffer → ℕ → ByteBuffer
moved buf n = record buf { position = buf.position + n }

take_bytes_lem :
    (buf : ByteBuffer) (bytes rest : List ℕ)
    → IsValid buf
    → Ahead buf bytes rest
    → take_bytes buf (length bytes) ≡ some (bytes, moved buf (length bytes))
unfolding take_bytes copy_out
take_bytes_lem buf bytes rest v ahead =
    let room = room_before buf bytes rest v ahead in
    let inside : ltb (length buf.data_block) (buf.position + length bytes) ≡ false =
      ground (arith, v.block) in
    let prefix : take (length bytes) (bytes ++ rest) ≡ bytes =
      take-append (length bytes) bytes rest (omega arith)
      ∙ take_all (length bytes) bytes (omega arith) in
    rw (inside, ahead, prefix) refl

-- The guard of a get, where the sum does not wrap.
guard_open :
    (buf : ByteBuffer) (bytes rest : List ℕ)
    → IsValid buf
    → Ahead buf bytes rest
    → ltb buf.capacity (u64 (buf.position + length bytes)) ≡ false
guard_open buf bytes rest v ahead =
    let room = room_before buf bytes rest v ahead in
    let same : u64 (buf.position + length bytes) ≡ buf.position + length bytes =
      omega (arith, v.small) in
    rw same (ground arith)

load_ahead : (xs : List ℕ) (i v : ℕ) (rest : List ℕ) → drop i xs ≡ v ∷ rest → load xs i ≡ some v
load_ahead [] zero v rest h = absurd (cc)
load_ahead [] (suc i) v rest h = absurd (cc)
load_ahead (x ∷ xs) zero v rest h = cc
load_ahead (x ∷ xs) (suc i) v rest h = load_ahead xs i v rest h

get_field_lem :
    (buf : ByteBuffer) (f : Field) (rest : List ℕ)
    → IsValid buf
    → IsField f
    → Ahead buf (bytes_of f) rest
    → get_field buf (shape_of f) ≡ some (pos 0, some f, moved buf (length (bytes_of f)))
unfolding bytebuffer_get_uint8 bytebuffer_get_uint16 bytebuffer_get_uint32 bytebuffer_get_bytes
    little_endian
get_field_lem buf (byte v) rest ok w ahead =
    let room = room_before buf (v ∷ []) rest ok ahead in
    let open_guard : leb buf.capacity buf.position ≡ false = ground arith in
    rw (open_guard, load_ahead buf.data_block buf.position v rest ahead) refl
get_field_lem buf (word v) rest ok w ahead =
    let same : v % 256 + 256 * (v / 256 % 256 + 256 * 0) ≡ v = omega arith in
    rw
      (
        guard_open buf (bytes_of_uint16 v) rest ok ahead,
        take_bytes_lem buf (bytes_of_uint16 v) rest ok ahead,
        same,
      )
      refl
get_field_lem buf (long v) rest ok w ahead =
    let same : v % 256
          + 256 * (v / 256 % 256 + 256 * (v / 65536 % 256 + 256 * (v / 16777216 % 256 + 256 * 0)))
        ≡ v =
      omega arith in
    rw
      (
        guard_open buf (bytes_of_uint32 v) rest ok ahead,
        take_bytes_lem buf (bytes_of_uint32 v) rest ok ahead,
        same,
      )
      refl
get_field_lem buf (raw bytes) rest ok w ahead =
    rw (guard_open buf bytes rest ok ahead, take_bytes_lem buf bytes rest ok ahead) refl

abbrev pub found : Field → ℤ × Option Field
found f = (pos 0, some f)

pub get_all_lem :
    (buf : ByteBuffer) (fs : List Field) (rest : List ℕ)
    → IsValid buf
    → AllFields fs
    → Ahead buf (all_bytes fs) rest
    → get_all buf (map shape_of fs) ≡ some (map found fs)
unfolding get_all
get_all_lem buf [] rest v ok ahead = refl
get_all_lem buf (f ∷ fs) rest v ok ahead =
    let here : Ahead buf (bytes_of f) (all_bytes fs ++ rest) =
      ahead ∙ append_assoc (bytes_of f) (all_bytes fs) rest in
    let n = length (bytes_of f) in
    let v' : IsValid (moved buf n) = record {
      block = v.block;
      cursor = room_before buf (bytes_of f) (all_bytes fs ++ rest) v here;
      small = v.small;
    } in
    let there : Ahead (moved buf n) (all_bytes fs) rest =
      sym (drop-drop n buf.position buf.data_block)
      ∙ ap (drop n) here
      ∙ drop-append n (bytes_of f) (all_bytes fs ++ rest) refl in
    rw
      (
        get_field_lem buf f (all_bytes fs ++ rest) v ok.0 here,
        get_all_lem (moved buf n) fs rest v' ok.1 there,
      )
      refl
