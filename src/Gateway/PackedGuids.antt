-- ===== src/Gateway/PackedGuids.antt =====
-- GUID and ReadGUID of apps/gateway/packet: a mark with the bytes that are not zero.
use athena_wow_cluster.Prelude.{
  ap, ℕ, true, zero, suc, List, [], ◌∷◌, ◌++◌, ◌+◌, ◌*◌, ◌/◌, ◌<◌, ◌≡◌, refl, arith, true, ◌==◌,
  ◌%◌, ◌∙◌, inl, inr, Bool-cases,
}
use athena_wow_cluster.Gateway.Packet.{pack_guid, unpack_guid, UnpackedGuid}
use athena_wow_cluster.Gateway.Bytes.{bound}

pub unpack_guid-zero :
    (n : ℕ) (bs : List ℕ) → unpack_guid n 0 bs ≡ record { guid = 0; left = bs; is_whole = true }
unfolding unpack_guid
unpack_guid-zero zero bs = refl
unpack_guid-zero (suc n) [] = simp (unpack_guid-zero n)
unpack_guid-zero (suc n) (b ∷ bs) = simp (unpack_guid-zero n)

-- The lowest byte before the others.
abbrev higher : ℕ → UnpackedGuid → UnpackedGuid
higher b u = record u { guid = b + 256 * u.guid }

pub unpack_guid_skips :
    (n mark : ℕ) (bs : List ℕ)
    → unpack_guid (suc n) (2 * mark) bs ≡ higher 0 (unpack_guid n mark bs)
unfolding unpack_guid
unpack_guid_skips n mark [] = grind arith
unpack_guid_skips n mark (b ∷ bs) = grind arith

pub unpack_guid_takes :
    (n mark b : ℕ) (bs : List ℕ)
    → unpack_guid (suc n) (1 + 2 * mark) (b ∷ bs) ≡ higher b (unpack_guid n mark bs)
unfolding unpack_guid
unpack_guid_takes n mark b bs = grind arith

abbrev pub whole : ℕ → List ℕ → UnpackedGuid
whole guid bs = record { guid = guid; left = bs; is_whole = true }

pub unpack_guid-pack_guid :
    (n guid : ℕ) (bs : List ℕ)
    → guid < bound n
    → unpack_guid n (pack_guid n guid).mark ((pack_guid n guid).parts ++ bs) ≡ whole guid bs
unfolding pack_guid bound
unpack_guid-pack_guid zero guid bs h =
    let is_zero : 0 ≡ guid = omega arith in unpack_guid-zero zero bs ∙ ap (λ g. whole g bs) is_zero
unpack_guid-pack_guid (suc n) guid bs h =
    let ih = unpack_guid-pack_guid n (guid / 256) bs (omega arith) in
    elim (Bool-cases (guid == 0)) [
      | inl e ↦
          let is_zero : 0 ≡ guid = ground arith in
          rw e (unpack_guid-zero (suc n) bs ∙ ap (λ g. whole g bs) is_zero)
      | inr e ↦ elim (Bool-cases (guid % 256 == 0)) [
        | inl f ↦
            let shifted : 0 + 256 * (guid / 256) ≡ guid = ground arith in
            rw (e, f)
              (unpack_guid_skips n (pack_guid n (guid / 256)).mark
                  ((pack_guid n (guid / 256)).parts ++ bs)
                ∙ ap (higher 0) ih
                ∙ ap (λ g. whole g bs) shifted)
        | inr f ↦
            let split : guid % 256 + 256 * (guid / 256) ≡ guid = omega arith in
            rw (e, f)
              (unpack_guid_takes n (pack_guid n (guid / 256)).mark (guid % 256)
                  ((pack_guid n (guid / 256)).parts ++ bs)
                ∙ ap (higher (guid % 256)) ih
                ∙ ap (λ g. whole g bs) split)
      ]
    ]
