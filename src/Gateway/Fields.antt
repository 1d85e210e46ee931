-- ===== src/Gateway/Fields.antt =====
-- The fields that callers of apps/gateway/packet write and read one after another.
use athena_wow_cluster.Prelude.{
  ℕ, Bool, true, false, if◌then◌else◌, ◌^◌, List, [], ◌∷◌, ◌<◌, true, ◌==◌,
}
use athena_wow_cluster.Gateway.Packet.{
  write_number, write_uint8, write_bool, write_string, write_guid, read_number, read_string,
  read_guid, Writer, Reader,
}
use athena_wow_cluster.Gateway.Bytes.{bound, NoZero}

-- What a caller writes into a packet and reads from it; a number says its bytes.
pub data Field : Type 0 where
  number : (size value : ℕ) → Field
  byte : (value : ℕ) → Field
  flag : (value : Bool) → Field
  text : (value : List ℕ) → Field
  packed : (value : ℕ) → Field

unfoldable pub Fits : Field → Type 0
unfolding bound NoZero
Fits (number n v) = v < bound n
Fits (byte v) = v < 256
Fits (flag v) = Unit
Fits (text s) = NoZero s
Fits (packed v) = v < 2 ^ 64

unfoldable pub write_field : Writer → Field → Writer
unfolding write_number write_uint8 write_bool write_string write_guid
write_field w (number n v) = write_number n w v
write_field w (byte v) = write_uint8 w v
write_field w (flag v) = write_bool w v
write_field w (text s) = write_string w s
write_field w (packed v) = write_guid w v

-- Reads a field of the same kind; a flag is a byte that is not zero.
unfoldable pub read_field : Field → Reader → Field × Reader
unfolding read_number read_string read_guid
read_field (number n v) r = (number n (read_number n r).0, (read_number n r).1)
read_field (byte v) r = (byte (read_number 1 r).0, (read_number 1 r).1)
read_field (flag v) r =
    (flag (if (read_number 1 r).0 == 0 then false else true), (read_number 1 r).1)
read_field (text s) r = (text (read_string r).0, (read_string r).1)
read_field (packed v) r = (packed (read_guid r).0, (read_guid r).1)

unfoldable pub write_fields : Writer → List Field → Writer
unfolding write_field
write_fields w [] = w
write_fields w (f ∷ fs) = write_fields (write_field w f) fs

unfoldable pub read_fields : List Field → Reader → List Field × Reader
unfolding read_field
read_fields [] r = ([], r)
read_fields (f ∷ fs) r =
    let first = read_field f r in let rest = read_fields fs first.1 in (first.0 ∷ rest.0, rest.1)

-- Every field has a value that its kind can hold.
unfoldable pub AllFit : List Field → Type 0
unfolding Fits
AllFit [] = Unit
AllFit (f ∷ fs) = Fits f × AllFit fs
