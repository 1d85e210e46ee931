-- ===== src/Gateway/Examples.antt =====
-- Packets of apps/gateway, written and read.
use athena_wow_cluster.Prelude.{◌^◌, ◌-◌, arith, List, [], ◌∷◌, ◌≡◌, refl, true}
use athena_wow_cluster.Gateway.Packet.{
  new_writer, to_packet, reader, new_reader_with_data, write_guid, read_number,
}
use athena_wow_cluster.Gateway.Fields.{
  Field, Fits, AllFit, number, byte, flag, text, packed, write_fields, read_fields,
}
use athena_wow_cluster.Gateway.Bytes.{bound, NoZero}
use athena_wow_cluster.Gateway.RoundTrip.{read_fields-write_fields}

-- A GUID with zero bytes between the others.
sparse : (to_packet (write_guid (new_writer 5) 0x1200_0034)).contents ≡ 9 ∷ 0x34 ∷ 0x12 ∷ []
unfolding to_packet write_guid new_writer
sparse = refl

-- A number that the data is too short for is an error.
short : (read_number 4 (new_reader_with_data (1 ∷ 2 ∷ []))).1.failed ≡ true
unfolding read_number new_reader_with_data
short = refl

abbrev fields : List Field
fields =
    number 4 0xdead_beef
    ∷ text (72 ∷ 105 ∷ [])
    ∷ packed 0x1200_0034
    ∷ byte 7
    ∷ flag true
    ∷ number 8 (2 ^ 64 - 1)
    ∷ []

fields-AllFit : AllFit fields
unfolding AllFit Fits bound NoZero
fields-AllFit = (
  omega arith,
  ((omega arith, (omega arith, tt)), (omega arith, (omega arith, (tt, (omega arith, tt))))),
)

read_fields-write_fields_example :
    read_fields fields (reader (to_packet (write_fields (new_writer 5) fields)))
    ≡ (fields, new_reader_with_data [])
read_fields-write_fields_example = read_fields-write_fields 5 fields fields-AllFit
