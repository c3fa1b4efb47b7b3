-- ===== src/ByteBuffer/Round.antt =====
-- What is put into a buffer is what is got from it.
use pega_s.Prelude.{
  ℕ, ◌+◌, ◌≤◌, ◌≡◌, refl, sym, ap, ◌∙◌, false, Option, some, List, [], ◌∷◌, ◌++◌, map, append_assoc,
  pos, ltb, arith, take, drop, length, length-append, length-take, length-drop, take-append,
  take_all, drop-append, take-append-drop, ◌>>=◌, Returns,
}
use pega_s.ByteBuffer.{ByteBuffer, bytebuffer_set_cursor}
use pega_s.ByteBuffer.Fields.{
  Field, shape_of, bytes_of, IsValid, put_field, appended, put_field_lem,
}
use pega_s.ByteBuffer.Get.{get_all, all_bytes, AllFields, get_all_lem}

-- A client that puts fields one after the other, and does not look at the codes.
unfoldable pub put_all : ByteBuffer → List Field → Option ByteBuffer
put_all buf [] = some buf
put_all buf (f ∷ fs) = do (_, buf') ← put_field buf f; put_all buf' fs

appended-IsValid :
    (buf : ByteBuffer) (bytes : List ℕ)
    → IsValid buf
    → buf.position + length bytes ≤ buf.capacity
    → IsValid (appended buf bytes)
appended-IsValid buf bytes v fits = record {
  block =
      let tail = drop (buf.position + length bytes) buf.data_block in
      omega (
        arith,
        v.block,
        length-append (take buf.position buf.data_block) (bytes ++ tail),
        length-append bytes tail,
        length-take buf.position buf.data_block,
        length-drop (buf.position + length bytes) buf.data_block,
      );
  cursor = fits;
  small = v.small;
}

-- After the puts: the bytes before the cursor are kept, and those put follow them.
abbrev AllPut : ByteBuffer → List Field → ByteBuffer → Type 0
AllPut buf fs buf' =
    IsValid buf'
    × (rest : List ℕ) × (buf'.data_block
        ≡ take buf.position buf.data_block ++ (all_bytes fs ++ rest))

put_all-AllPut :
    (buf : ByteBuffer) (fs : List Field)
    → IsValid buf
    → AllFields fs
    → buf.position + length (all_bytes fs) ≤ buf.capacity
    → Returns (put_all buf fs) (AllPut buf fs)
unfolding put_all
put_all-AllPut buf [] v ok fits = (
  buf,
  refl,
  (v, drop buf.position buf.data_block, sym (take-append-drop buf.position buf.data_block)),
)
put_all-AllPut buf (f ∷ fs) v ok fits =
    let n = length (bytes_of f) in
    let total = length-append (bytes_of f) (all_bytes fs) in
    let here : ltb buf.capacity (buf.position + n) ≡ false = ground arith in
    let buf₁ = appended buf (bytes_of f) in
    let v₁ = appended-IsValid buf (bytes_of f) v (omega arith) in
    let (buf', e, (v', rest, same)) = put_all-AllPut buf₁ fs v₁ ok.1 (omega arith) in
    let start = take buf.position buf.data_block in
    let tail = drop (buf.position + n) buf.data_block in
    let start_length : length (start ++ bytes_of f) ≡ buf.position + n = omega (
      arith,
      length-append start (bytes_of f),
      length-take buf.position buf.data_block,
      v.block,
      v.cursor,
    ) in
    let prefix : take (buf.position + n) (start ++ (bytes_of f ++ tail)) ≡ start ++ bytes_of f =
      ap (take (buf.position + n)) (sym (append_assoc start (bytes_of f) tail))
      ∙ take-append (buf.position + n) (start ++ bytes_of f) tail (omega arith)
      ∙ take_all (buf.position + n) (start ++ bytes_of f) (omega arith) in
    rw (put_field_lem buf f v ok.0, here)
      (
        buf',
        e,
        (
          v',
          rest,
          same
              ∙ ap (λ (xs : List ℕ). xs ++ (all_bytes fs ++ rest)) prefix
              ∙ append_assoc start (bytes_of f) (all_bytes fs ++ rest)
              ∙ ap (λ (xs : List ℕ). start ++ xs)
                  (sym (append_assoc (bytes_of f) (all_bytes fs) rest)),
        ),
      )

-- Fields whose values fit their widths and that together fit a valid buffer are put without a fault,
-- and a reader that sets the cursor to where they begin and knows their shapes then gets them back,
-- each with code 0.
pub get_all-put_all :
    (buf : ByteBuffer) (fs : List Field)
    → IsValid buf
    → AllFields fs
    → buf.position + length (all_bytes fs) ≤ buf.capacity
    → Returns (put_all buf fs) (λ buf'.
      get_all (bytebuffer_set_cursor buf' (pos buf.position)) (map shape_of fs)
      ≡ some (map (λ f. (pos 0, some f)) fs))
unfolding bytebuffer_set_cursor
get_all-put_all buf fs v ok fits =
    let (buf', e, (v', rest, same)) = put_all-AllPut buf fs v ok fits in
    let start = take buf.position buf.data_block in
    let start_length : length start ≡ buf.position =
      omega (arith, length-take buf.position buf.data_block, v.block, v.cursor) in
    let room : length buf'.data_block ≡ buf.position + (length (all_bytes fs) + length rest) =
      ap length same
      ∙ length-append start (all_bytes fs ++ rest)
      ∙ omega (arith, length-append (all_bytes fs) rest) in
    let inside : ltb buf'.capacity buf.position ≡ false = ground (arith, v'.block) in
    let v'' : IsValid (record buf' { position = buf.position }) = record {
      block = v'.block;
      cursor = omega (arith, v'.block);
      small = v'.small;
    } in
    (
      buf',
      e,
      rw inside (
          get_all_lem (record buf' { position = buf.position }) fs rest v'' ok
            (ap (drop buf.position) same
              ∙ drop-append buf.position start (all_bytes fs ++ rest) (sym start_length))),
    )
