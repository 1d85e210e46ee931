-- ===== src/Gateway/Packet.antt =====
-- apps/gateway/packet/writer.go and reader.go: the payload of a packet, as bytes. A string is its
-- bytes. Writing to a buffer never fails, so the writer is its payload and its order of bytes.
use athena_wow_cluster.Prelude.{
  ℕ, zero, suc, Bool, true, false, List, [], ◌∷◌, ◌++◌, ◌+◌, ◌*◌, ◌/◌, ◌%◌, ◌==◌, ◌^◌, length,
  if◌then◌else◌,
}

pub data ByteOrder : Type 0 where
  little_endian big_endian : ByteOrder

pub record Writer : Type 0 where
  pub opcode : ℕ
  pub payload : List ℕ
  pub order : ByteOrder

-- `data` is what is left to read; `failed` tells whether `err` is set.
pub record Reader : Type 0 where
  pub data_left : List ℕ
  pub order : ByteOrder
  pub failed : Bool

pub record Packet : Type 0 where
  pub opcode : ℕ
  pub source : ℕ
  pub size : ℕ
  pub contents : List ℕ

unfoldable pub new_writer : ℕ → Writer
new_writer opcode = record { opcode = opcode; payload = []; order = little_endian }

unfoldable pub set_byte_order : Writer → ByteOrder → Writer
set_byte_order w order = record w { order = order }

unfoldable pub to_packet : Writer → Packet
to_packet w = record {
  opcode = w.opcode;
  source = 0;
  size = length w.payload % 2 ^ 32;
  contents = w.payload;
}

unfoldable pub new_reader_with_data : List ℕ → Reader
new_reader_with_data d = record { data_left = d; order = little_endian; failed = false }

-- `Reader` of a packet.
unfoldable pub reader : Packet → Reader
unfolding new_reader_with_data
reader p = new_reader_with_data p.contents

abbrev pub reverse_onto : List ℕ → List ℕ → List ℕ
reverse_onto [] ys = ys
reverse_onto (x ∷ xs) ys = reverse_onto xs (x ∷ ys)

abbrev pub in_order : ByteOrder → List ℕ → List ℕ
in_order little_endian bs = bs
in_order big_endian bs = reverse_onto bs []

-- The `n` low bytes of a number, the lowest first.
unfoldable pub bytes_of : (n value : ℕ) → List ℕ
bytes_of zero v = []
bytes_of (suc n) v = v % 256 ∷ bytes_of n (v / 256)

unfoldable pub value_of : List ℕ → ℕ
value_of [] = 0
value_of (b ∷ bs) = b + 256 * value_of bs

-- `Uint16` to `Int64`: `binary.Write` of a number of `n` bytes, a signed one as its bit pattern.
unfoldable pub write_number : (n : ℕ) → Writer → ℕ → Writer
unfolding bytes_of
write_number n w v = record w { payload = w.payload ++ in_order w.order (bytes_of n v) }

abbrev pub append_bytes : Writer → List ℕ → Writer
append_bytes w bs = record w { payload = w.payload ++ bs }

unfoldable pub write_uint8 : Writer → ℕ → Writer
write_uint8 w v = append_bytes w (v ∷ [])

unfoldable pub write_bool : Writer → Bool → Writer
write_bool w v = append_bytes w ((if v then 1 else 0) ∷ [])

-- `String`: the bytes and a zero.
unfoldable pub write_string : Writer → List ℕ → Writer
write_string w s = append_bytes w (s ++ 0 ∷ [])

pub record PackedGuid : Type 0 where
  pub mark : ℕ
  pub parts : List ℕ

-- The loop of `GUID` over at most `n` more bytes: a bit of the mark for each byte, set where the byte
-- is not zero and written. The bits and bytes of the later rounds stand above those of this one.
unfoldable pub pack_guid : (n guid : ℕ) → PackedGuid
pack_guid zero guid = record { mark = 0; parts = [] }
pack_guid (suc n) guid =
    let rest = pack_guid n (guid / 256) in
    if guid == 0
    then record { mark = 0; parts = [] }
    else if guid % 256 == 0
    then record { mark = 2 * rest.mark; parts = rest.parts }
    else record { mark = 1 + 2 * rest.mark; parts = guid % 256 ∷ rest.parts }

unfoldable pub write_guid : Writer → ℕ → Writer
unfolding pack_guid
write_guid w guid = append_bytes w ((pack_guid 8 guid).mark ∷ (pack_guid 8 guid).parts)

-- The first `n` bytes of a list, what follows them, and whether there were so many.
pub record Taken : Type 0 where
  pub taken : List ℕ
  pub rest : List ℕ
  pub is_enough : Bool

unfoldable pub take_bytes : ℕ → List ℕ → Taken
take_bytes zero bs = record { taken = []; rest = bs; is_enough = true }
take_bytes (suc n) [] = record { taken = []; rest = []; is_enough = false }
take_bytes (suc n) (b ∷ bs) = let t = take_bytes n bs in record t { taken = b ∷ t.taken }

-- `Int64` to `Uint8`: `binary.Read` of a number of `n` bytes, a signed one as its bit pattern. A short
-- read consumes what is left.
unfoldable pub read_number : (n : ℕ) → Reader → ℕ × Reader
unfolding take_bytes value_of
read_number n r =
    if r.failed
    then (0, r)
    else let t = take_bytes n r.data_left in
      (
        if t.is_enough then value_of (in_order r.order t.taken) else 0,
        record r { data_left = t.rest; failed = if t.is_enough then false else true },
      )

-- The bytes before the first zero, and what follows it; a string may end with the data.
unfoldable pub split_string : List ℕ → List ℕ × List ℕ
split_string [] = ([], [])
split_string (b ∷ bs) =
    let rest = split_string bs in if b == 0 then ([], bs) else (b ∷ rest.0, rest.1)

unfoldable pub read_string : Reader → List ℕ × Reader
unfolding split_string
read_string r =
    if r.failed
    then ([], r)
    else let s = split_string r.data_left in (s.0, record r { data_left = s.1 })

pub record UnpackedGuid : Type 0 where
  pub guid : ℕ
  pub left : List ℕ
  pub is_whole : Bool

-- The loop of `ReadGUID` over `n` more bits of the mark, the lowest first; each set bit reads a byte.
unfoldable pub unpack_guid : (n mark : ℕ) → List ℕ → UnpackedGuid
unpack_guid zero mark bs = record { guid = 0; left = bs; is_whole = true }
unpack_guid (suc n) mark [] =
    let rest = unpack_guid n (mark / 2) [] in
    if mark % 2 == 1
    then record { guid = 0; left = []; is_whole = false }
    else record rest { guid = 256 * rest.guid }
unpack_guid (suc n) mark (b ∷ bs) =
    let with_byte = unpack_guid n (mark / 2) bs in
    let without = unpack_guid n (mark / 2) (b ∷ bs) in
    if mark % 2 == 1
    then record with_byte { guid = b + 256 * with_byte.guid }
    else record without { guid = 256 * without.guid }

unfoldable pub read_packed : Reader → List ℕ → ℕ × Reader
unfolding unpack_guid
read_packed r [] = (0, record r { failed = true })
read_packed r (mark ∷ bs) =
    let u = unpack_guid 8 mark bs in
    (
      if u.is_whole then u.guid else 0,
      record r { data_left = u.left; failed = if u.is_whole then false else true },
    )

unfoldable pub read_guid : Reader → ℕ × Reader
unfolding read_packed
read_guid r = if r.failed then (0, r) else read_packed r r.data_left
