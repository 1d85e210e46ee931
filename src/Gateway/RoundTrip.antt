-- ===== src/Gateway/RoundTrip.antt =====
-- The reader of apps/gateway/packet/reader.go gets back what the writer of writer.go wrote.
use athena_wow_cluster.Prelude.{
  ap, ℕ, append_assoc, length, sym, true, false, if◌then◌else◌, List, [], ◌∷◌, ◌++◌, ◌+◌, ◌*◌, ◌<◌,
  ◌≡◌, refl, arith, true, ◌==◌, ◌∙◌, append-nil,
}
use athena_wow_cluster.Gateway.Packet.{
  new_writer, to_packet, new_reader_with_data, write_number, write_uint8, write_bool, write_string,
  write_guid, read_number, read_string, read_packed, read_guid, Writer, Reader, ByteOrder,
  little_endian, big_endian, in_order, bytes_of, value_of, take_bytes, reader, pack_guid,
  unpack_guid,
}
use athena_wow_cluster.Gateway.Bytes.{
  bound, value_of-bytes_of, take_bytes-append, length-bytes_of, length-in_order, in_order_twice,
  split_string-append,
}
use athena_wow_cluster.Gateway.PackedGuids.{whole, unpack_guid-pack_guid}
use athena_wow_cluster.Gateway.Fields.{
  Field, number, byte, flag, text, packed, Fits, AllFit, write_field, read_field, write_fields,
  read_fields,
}

-- The bytes of a field.
unfoldable encoded : ByteOrder → Field → List ℕ
unfolding bytes_of pack_guid
encoded o (number n v) = in_order o (bytes_of n v)
encoded o (byte v) = v ∷ []
encoded o (flag v) = (if v then 1 else 0) ∷ []
encoded o (text s) = s ++ 0 ∷ []
encoded o (packed v) = (pack_guid 8 v).mark ∷ (pack_guid 8 v).parts

abbrev reading : ByteOrder → List ℕ → Reader
reading o bs = record { data_left = bs; order = o; failed = false }

write_field-encoded :
    (w : Writer) (f : Field)
    → write_field w f ≡ record w { payload = w.payload ++ encoded w.order f }
unfolding write_field write_number write_uint8 write_bool write_string write_guid encoded
write_field-encoded w (number n v) = refl
write_field-encoded w (byte v) = refl
write_field-encoded w (flag v) = refl
write_field-encoded w (text s) = refl
write_field-encoded w (packed v) = refl

read_number-encoded :
    (n v : ℕ) (o : ByteOrder) (bs : List ℕ)
    → v < bound n
    → read_number n (reading o (in_order o (bytes_of n v) ++ bs)) ≡ (v, reading o bs)
unfolding read_number
read_number-encoded n v o bs h =
    let bytes = in_order o (bytes_of n v) in
    let size : n ≡ length bytes = sym (length-in_order o (bytes_of n v) ∙ length-bytes_of n v) in
    let took : take_bytes n (bytes ++ bs) ≡ record { taken = bytes; rest = bs; is_enough = true } =
      ap (λ m. take_bytes m (bytes ++ bs)) size ∙ take_bytes-append bytes bs in
    rw took (
      ap (λ x. (x, reading o bs))
        (ap value_of (in_order_twice o (bytes_of n v)) ∙ value_of-bytes_of n v h))

read_byte-encoded :
    (v : ℕ) (o : ByteOrder) (bs : List ℕ) → read_number 1 (reading o (v ∷ bs)) ≡ (v, reading o bs)
unfolding read_number take_bytes value_of
read_byte-encoded v little_endian bs =
    let same : v + 256 * 0 ≡ v = omega arith in ap (λ x. (x, reading little_endian bs)) same
read_byte-encoded v big_endian bs =
    let same : v + 256 * 0 ≡ v = omega arith in ap (λ x. (x, reading big_endian bs)) same

read_field-encoded :
    (f : Field) (o : ByteOrder) (bs : List ℕ)
    → Fits f
    → read_field f (reading o (encoded o f ++ bs)) ≡ (f, reading o bs)
unfolding read_field read_string read_guid read_packed encoded Fits bound
read_field-encoded (number n v) o bs h =
    ap (λ p. (number n p.0, p.1)) (read_number-encoded n v o bs h)
read_field-encoded (byte v) o bs h = ap (λ p. (byte p.0, p.1)) (read_byte-encoded v o bs)
read_field-encoded (flag true) o bs h =
    ap (λ p. (flag (if p.0 == 0 then false else true), p.1)) (read_byte-encoded 1 o bs)
read_field-encoded (flag false) o bs h =
    ap (λ p. (flag (if p.0 == 0 then false else true), p.1)) (read_byte-encoded 0 o bs)
read_field-encoded (text s) o bs h =
    ap (λ p. (text p.0, reading o p.1)) (split_string-append s bs h)
read_field-encoded (packed v) o bs h =
    let unpacked : unpack_guid 8 (pack_guid 8 v).mark ((pack_guid 8 v).parts ++ bs) ≡ whole v bs =
      unpack_guid-pack_guid 8 v bs h in
    rw unpacked refl

-- The bytes of a list of fields.
unfoldable encoded_all : ByteOrder → List Field → List ℕ
unfolding encoded
encoded_all o [] = []
encoded_all o (f ∷ fs) = encoded o f ++ encoded_all o fs

write_fields-encoded :
    (w : Writer) (fs : List Field)
    → write_fields w fs ≡ record w { payload = w.payload ++ encoded_all w.order fs }
unfolding write_fields encoded_all
write_fields-encoded w [] = ap (λ bs. record w { payload = bs }) (sym (append-nil w.payload))
write_fields-encoded w (f ∷ fs) =
    ap (λ x. write_fields x fs) (write_field-encoded w f)
    ∙ write_fields-encoded (record w { payload = w.payload ++ encoded w.order f }) fs
    ∙ ap (λ bs. record w { payload = bs })
        (append_assoc w.payload (encoded w.order f) (encoded_all w.order fs))

read_fields-encoded :
    (fs : List Field) (o : ByteOrder)
    → AllFit fs
    → read_fields fs (reading o (encoded_all o fs)) ≡ (fs, reading o [])
unfolding read_fields encoded_all AllFit
read_fields-encoded [] o h = refl
read_fields-encoded (f ∷ fs) o (here, there) =
    rw (read_field-encoded f o (encoded_all o fs) here)
      (ap (λ p. (f ∷ p.0, p.1)) (read_fields-encoded fs o there))

-- Reading the fields that were written into a new packet, each as its kind, gives them back with
-- nothing left and no error, when numbers fit their bytes and no string contains a zero byte.
pub read_fields-write_fields :
    (opcode : ℕ) (fs : List Field)
    → AllFit fs
    → read_fields fs (reader (to_packet (write_fields (new_writer opcode) fs)))
      ≡ (fs, new_reader_with_data [])
unfolding reader to_packet new_writer new_reader_with_data
read_fields-write_fields opcode fs h =
    rw (write_fields-encoded (new_writer opcode) fs) (read_fields-encoded fs little_endian h)
