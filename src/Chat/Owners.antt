-- ===== src/Chat/Owners.antt =====
-- apps/chatserver/service/channel-manager.go: who owns a channel. The invariant of a channel and the
-- steps in which the owner flag leaves one member and goes to another.
use Prim.Native.String.{String}
use athena_wow_cluster.Prelude.{
  ℕ, ◌≡◌, ◌≢◌, Bool, true, false, ◌&&◌, none, some, List, ltb, ◌==◌, length, Map, Bool-cases,
  Option-cases, inl, inr, arith,
}
use athena_wow_cluster.Chat.Model.{
  ChannelMember, ActiveChannel, member_flag_owner, has_flag, set_flag, clear_flag, find_member,
  delete_member, put_member, write_flags,
}
use athena_wow_cluster.Chat.Members.{
  Distinct, find_member-delete_member, find_member-write_flags, find_member-put_member,
  delete_member-Distinct, write_flags-Distinct, put_member-Distinct, find_member_nonempty,
  find_member-empty,
}

abbrev pub IsOwner : ActiveChannel → ℕ → Type 0
IsOwner ch g =
    (m : ChannelMember) × (find_member ch.members g ≡ some m)
    × (has_flag member_flag_owner m.flags ≡ true)

-- A channel with an owner: nobody but `owner_guid` has the owner flag, and where the channel has
-- owners and a member, that member has it.
pub record WellFormed (ch : ActiveChannel) : Type 0 where
  pub distinct : Distinct ch.members
  pub no_zero : find_member ch.members 0 ≡ none
  pub only_owner :
      (g : ℕ) (m : ChannelMember)
      → find_member ch.members g ≡ some m
      → has_flag member_flag_owner m.flags ≡ true
      → g ≡ ch.owner_guid
  pub is_owned :
      (g : ℕ) (m : ChannelMember)
      → ch.ownership ≡ true
      → find_member ch.members g ≡ some m
      → IsOwner ch ch.owner_guid

-- A channel between two owners.
pub record Ownerless (ch : ActiveChannel) : Type 0 where
  pub distinct : Distinct ch.members
  pub no_zero : find_member ch.members 0 ≡ none
  pub no_flag :
      (g : ℕ) (m : ChannelMember)
      → find_member ch.members g ≡ some m
      → has_flag member_flag_owner m.flags ≡ false

pub has_flag-set_flag : (f : ℕ) → has_flag member_flag_owner (set_flag member_flag_owner f) ≡ true
unfolding has_flag set_flag
has_flag-set_flag f = ground arith

pub has_flag-clear_flag :
    (f : ℕ) → has_flag member_flag_owner (clear_flag member_flag_owner f) ≡ false
unfolding has_flag clear_flag
has_flag-clear_flag f = ground arith

pub write_owner-WellFormed :
    (ch : ActiveChannel) (g f : ℕ) (m : ChannelMember)
    → Ownerless ch
    → find_member ch.members g ≡ some m
    → has_flag member_flag_owner f ≡ true
    → WellFormed (record ch { members = write_flags ch.members g f; owner_guid = g })
write_owner-WellFormed ch g f m o found flag = record {
  distinct = write_flags-Distinct ch.members g f o.distinct;
  no_zero = ground (arith, find_member-write_flags ch.members g f 0, o.no_zero);
  only_owner = λ h n e t. ground (arith, find_member-write_flags ch.members g f h, o.no_flag h n);
  is_owned = λ h n own e.
      (record m { flags = f }, ground (arith, find_member-write_flags ch.members g f g), flag);
}

pub delete_owner-Ownerless :
    (ch : ActiveChannel)
    → WellFormed ch
    → Ownerless (record ch { members = delete_member ch.members ch.owner_guid })
delete_owner-Ownerless ch wf = record {
  distinct = delete_member-Distinct ch.members ch.owner_guid wf.distinct;
  no_zero = ground (arith, find_member-delete_member ch.members ch.owner_guid 0, wf.no_zero);
  no_flag = λ h n e. elim (Bool-cases (has_flag member_flag_owner n.flags)) [
    | inl t ↦
        absurd
          (ground (arith, find_member-delete_member ch.members ch.owner_guid h, wf.only_owner h n))
    | inr f ↦ f
  ];
}

pub clear_owner-Ownerless :
    (ch : ActiveChannel) (f : ℕ)
    → WellFormed ch
    → has_flag member_flag_owner f ≡ false
    → Ownerless (record ch { members = write_flags ch.members ch.owner_guid f })
clear_owner-Ownerless ch f wf flag = record {
  distinct = write_flags-Distinct ch.members ch.owner_guid f wf.distinct;
  no_zero = ground (arith, find_member-write_flags ch.members ch.owner_guid f 0, wf.no_zero);
  no_flag = λ h n e. elim (Bool-cases (has_flag member_flag_owner n.flags)) [
    | inl t ↦ absurd (
        other h n e t
          (ground (arith, find_member-write_flags ch.members ch.owner_guid f h, wf.only_owner h n)))
    | inr f ↦ f
  ];
}
  where
    other :
        (h : ℕ) (n : ChannelMember)
        → find_member (write_flags ch.members ch.owner_guid f) h ≡ some n
        → has_flag member_flag_owner n.flags ≡ true
        → h ≡ ch.owner_guid
        → ⊥
    other h n e t q = elim (Option-cases (find_member ch.members h)) [
      | inl z ↦ absurd (ground (arith, find_member-write_flags ch.members ch.owner_guid f h))
      | inr (m, z) ↦ absurd (ground (arith, find_member-write_flags ch.members ch.owner_guid f h))
    ]

-- A channel without a member at `owner_guid`, or whose member there lacks the flag, has no owner.
pub no_owner-Ownerless :
    (ch : ActiveChannel)
    → WellFormed ch
    → find_member ch.members ch.owner_guid ≡ none
    → Ownerless ch
no_owner-Ownerless ch wf z = record {
  distinct = wf.distinct;
  no_zero = wf.no_zero;
  no_flag = λ h n e. elim (Bool-cases (has_flag member_flag_owner n.flags)) [
    | inl t ↦ absurd (ground (arith, wf.only_owner h n))
    | inr f ↦ f
  ];
}

-- Without owners or without members, a channel may stay ownerless.
pub Ownerless-WellFormed :
    (ch : ActiveChannel)
    → Ownerless ch
    → ((ltb 0 (length ch.members) && ch.ownership) ≡ false)
    → WellFormed ch
Ownerless-WellFormed ch o e = record {
  distinct = o.distinct;
  no_zero = o.no_zero;
  only_owner = λ h n found flag. absurd (ground (arith, o.no_flag h n));
  is_owned = λ h n own found. absurd (ground (arith, find_member-empty ch.members h));
}

-- A change of other flags keeps the owner.
pub change_flags_lem :
    (ch : ActiveChannel) (g f : ℕ) (m : ChannelMember)
    → WellFormed ch
    → find_member ch.members g ≡ some m
    → has_flag member_flag_owner f ≡ has_flag member_flag_owner m.flags
    → WellFormed (record ch { members = write_flags ch.members g f })
change_flags_lem ch g f m wf found same = record {
  distinct = write_flags-Distinct ch.members g f wf.distinct;
  no_zero = ground (arith, find_member-write_flags ch.members g f 0, wf.no_zero);
  only_owner = λ h n e t. elim (Bool-cases (g == h)) [
    | inl q ↦ ground (arith, find_member-write_flags ch.members g f h, wf.only_owner h m)
    | inr q ↦ ground (arith, find_member-write_flags ch.members g f h, wf.only_owner h n)
  ];
  is_owned = λ h n own e. kept (wf.is_owned g m own found);
}
  where
    kept :
        IsOwner ch ch.owner_guid
        → IsOwner (record ch { members = write_flags ch.members g f }) ch.owner_guid
    kept (x, z, flag) = elim (Bool-cases (g == ch.owner_guid)) [
      | inl q ↦ (
        record x { flags = f },
        ground (arith, find_member-write_flags ch.members g f ch.owner_guid),
        ground arith,
      )
      | inr q ↦ (x, ground (arith, find_member-write_flags ch.members g f ch.owner_guid), flag)
    ]

-- A member that does not own the channel leaves.
pub delete_member_lem :
    (ch : ActiveChannel) (g : ℕ)
    → WellFormed ch
    → ¬ IsOwner ch g
    → WellFormed (record ch { members = delete_member ch.members g })
delete_member_lem ch g wf other = record {
  distinct = delete_member-Distinct ch.members g wf.distinct;
  no_zero = ground (arith, find_member-delete_member ch.members g 0, wf.no_zero);
  only_owner =
      λ h n e t. ground (arith, find_member-delete_member ch.members g h, wf.only_owner h n);
  is_owned = λ h n own e.
      kept (wf.is_owned h n own (ground (arith, find_member-delete_member ch.members g h)));
}
  where
    kept :
        IsOwner ch ch.owner_guid
        → IsOwner (record ch { members = delete_member ch.members g }) ch.owner_guid
    kept (x, z, flag) = elim (Bool-cases (g == ch.owner_guid)) [
      | inl q ↦ absurd (other (x, ground arith, flag))
      | inr q ↦ (x, ground (arith, find_member-delete_member ch.members g ch.owner_guid), flag)
    ]

-- A newcomer without the owner flag, in a channel with an owner.
pub put_member_lem :
    (ch : ActiveChannel) (m : ChannelMember)
    → WellFormed ch
    → find_member ch.members m.player_guid ≡ none
    → m.player_guid ≢ 0
    → has_flag member_flag_owner m.flags ≡ false
    → ((length ch.members == 0 && ch.ownership) ≡ false)
    → WellFormed (record ch { members = put_member ch.members m })
put_member_lem ch m wf new nz flag occupied = record {
  distinct = put_member-Distinct ch.members m wf.distinct;
  no_zero = ground (arith, find_member-put_member ch.members m 0, wf.no_zero);
  only_owner = λ h n e t. ground (arith, find_member-put_member ch.members m h, wf.only_owner h n);
  is_owned = λ h n own e. kept own (find_member_nonempty ch.members (ground arith));
}
  where
    keep :
        IsOwner ch ch.owner_guid
        → IsOwner (record ch { members = put_member ch.members m }) ch.owner_guid
    keep (x, z, f) = (x, ground (arith, find_member-put_member ch.members m ch.owner_guid), f)

    kept :
        ch.ownership ≡ true
        → (g : ℕ) × (x : ChannelMember) × (find_member ch.members g ≡ some x)
        → IsOwner (record ch { members = put_member ch.members m }) ch.owner_guid
    kept own (g, x, z) = keep (wf.is_owned g x own z)

-- The first to join a channel without members, with the owner flag.
pub put_owner_lem :
    (ch : ActiveChannel) (m : ChannelMember)
    → WellFormed ch
    → length ch.members ≡ 0
    → m.player_guid ≢ 0
    → has_flag member_flag_owner m.flags ≡ true
    → WellFormed (record ch { members = put_member ch.members m; owner_guid = m.player_guid })
put_owner_lem ch m wf empty nz flag = record {
  distinct = put_member-Distinct ch.members m wf.distinct;
  no_zero = ground (arith, find_member-put_member ch.members m 0, wf.no_zero);
  only_owner = λ h n e t.
      ground (arith, find_member-put_member ch.members m h, find_member-empty ch.members h);
  is_owned =
      λ h n own e. (m, ground (arith, find_member-put_member ch.members m m.player_guid), flag);
}

-- Without members, `owner_guid` may be any.
pub empty-WellFormed :
    (ch : ActiveChannel) (ms : List ChannelMember) (owner : ℕ)
    → Distinct ms
    → ((g : ℕ) → find_member ms g ≡ none)
    → WellFormed (record ch { members = ms; owner_guid = owner })
empty-WellFormed ch ms owner d none_there = record {
  distinct = d;
  no_zero = none_there 0;
  only_owner = λ h n e t. absurd (ground (arith, none_there h));
  is_owned = λ h n own e. absurd (ground (arith, none_there h));
}

-- What else a channel has does not matter to its owner.
pub other_fields-WellFormed :
    {ch : ActiveChannel} (password : String) (announce moderation : Bool) (banned_until : Map ℕ)
    → WellFormed ch
    → WellFormed (record ch {
      password = password;
      announce = announce;
      moderation = moderation;
      banned_until = banned_until;
    })
other_fields-WellFormed password announce moderation banned_until wf = record {
  distinct = wf.distinct;
  no_zero = wf.no_zero;
  only_owner = wf.only_owner;
  is_owned = wf.is_owned;
}
