-- ===== src/ByteBuffer/Tests.antt =====
-- A buffer of eight bytes.
use pega_s.Prelude.{◌≡◌, refl, some, List, [], ◌∷◌, pos, arith, map, Returns}
use pega_s.ByteBuffer.{ByteBuffer, bytebuffer_set_cursor}
use pega_s.ByteBuffer.Fields.{
  Field, byte, word, raw, shape_of, IsValid, put_field, appended, put_field_lem,
}
use pega_s.ByteBuffer.Get.{get_all}
use pega_s.ByteBuffer.Round.{put_all, get_all-put_all}

abbrev eight : ByteBuffer
eight = record {
  data_block = 1 ∷ 0 ∷ 0 ∷ 0 ∷ 0 ∷ 0 ∷ 0 ∷ 0 ∷ [];
  capacity = 8;
  position = 1;
  owner = 1;
}

eight-IsValid : IsValid eight
eight-IsValid = record { block = refl; cursor = omega arith; small = omega arith }

put_field_lem_example : put_field eight (word 770) ≡ some (pos 0, appended eight (2 ∷ 3 ∷ []))
put_field_lem_example = put_field_lem eight (word 770) eight-IsValid (omega arith)

abbrev some_fields : List Field
some_fields = byte 7 ∷ word 300 ∷ raw (4 ∷ 5 ∷ []) ∷ []

get_all-put_all_example : Returns (put_all eight some_fields) (λ buf'.
    get_all (bytebuffer_set_cursor buf' (pos 1)) (map shape_of some_fields)
    ≡ some (map (λ f. (pos 0, some f)) some_fields))
get_all-put_all_example =
    get_all-put_all eight some_fields eight-IsValid (omega arith, (omega arith, (omega arith, tt)))
      (omega arith)
