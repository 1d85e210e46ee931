-- ===== src/Gateway/Bytes.antt =====
-- Numbers and strings of apps/gateway/packet/writer.go and reader.go as bytes, and back.
use athena_wow_cluster.Prelude.{
  ap, ℕ, length, true, zero, suc, List, [], ◌∷◌, ◌++◌, ◌+◌, ◌*◌, ◌/◌, ◌<◌, ◌≡◌, refl, arith, true,
  ◌∙◌, ◌≢◌, append-nil,
}
use athena_wow_cluster.Gateway.Packet.{
  ByteOrder, little_endian, big_endian, reverse_onto, in_order, split_string, bytes_of, value_of,
  take_bytes,
}

-- One more than the greatest number of `n` bytes.
unfoldable pub bound : ℕ → ℕ
bound zero = 1
bound (suc n) = 256 * bound n

pub value_of-bytes_of : (n v : ℕ) → v < bound n → value_of (bytes_of n v) ≡ v
unfolding value_of bytes_of bound
value_of-bytes_of zero v h = omega arith
value_of-bytes_of (suc n) v h = let ih = value_of-bytes_of n (v / 256) (omega arith) in omega arith

pub take_bytes-append :
    (xs bs : List ℕ)
    → take_bytes (length xs) (xs ++ bs) ≡ record { taken = xs; rest = bs; is_enough = true }
unfolding take_bytes
take_bytes-append [] bs = refl
take_bytes-append (x ∷ xs) bs = simp (take_bytes-append xs bs)

pub length-bytes_of : (n v : ℕ) → length (bytes_of n v) ≡ n
unfolding bytes_of
length-bytes_of zero v = refl
length-bytes_of (suc n) v = ap suc (length-bytes_of n (v / 256))

pub length-reverse_onto : (xs ys : List ℕ) → length (reverse_onto xs ys) ≡ length xs + length ys
length-reverse_onto [] ys = omega arith
length-reverse_onto (x ∷ xs) ys = let ih = length-reverse_onto xs (x ∷ ys) in omega arith

pub length-in_order : (o : ByteOrder) (bs : List ℕ) → length (in_order o bs) ≡ length bs
length-in_order little_endian bs = refl
length-in_order big_endian bs = omega (arith, length-reverse_onto bs [])

pub reverse_onto-append :
    (xs ys zs : List ℕ) → reverse_onto (reverse_onto xs ys) zs ≡ reverse_onto ys (xs ++ zs)
reverse_onto-append [] ys zs = refl
reverse_onto-append (x ∷ xs) ys zs = reverse_onto-append xs (x ∷ ys) zs

-- Reading in an order undoes writing in it.
pub in_order_twice : (o : ByteOrder) (bs : List ℕ) → in_order o (in_order o bs) ≡ bs
in_order_twice little_endian bs = refl
in_order_twice big_endian bs = reverse_onto-append bs [] [] ∙ append-nil bs

-- No byte of a string ends it.
unfoldable pub NoZero : List ℕ → Type 0
NoZero [] = Unit
NoZero (b ∷ bs) = (b ≢ 0) × NoZero bs

pub split_string-append : (s bs : List ℕ) → NoZero s → split_string ((s ++ 0 ∷ []) ++ bs) ≡ (s, bs)
unfolding split_string NoZero
split_string-append [] bs h = refl
split_string-append (b ∷ s) bs (b≢0, h) = let ih = split_string-append s bs h in grind arith
