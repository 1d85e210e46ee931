-- ===== src/Groups/Model.antt =====
-- apps/groupserver/repo/group.go: groups, members and invites as the services keep them.
use Prim.Native.Nat.{bit_and}
use Prim.Native.String.{String}
use athena_wow_cluster.Prelude.{
  ℕ, Bool, false, Option, none, some, List, [], ◌∷◌, ltb, leb, ◌==◌, if◌then◌else◌,
}

abbrev pub max_target_icons : ℕ
max_target_icons = 8

-- `1 << (iota - 1)` at iota 1 and 2.
abbrev pub group_type_flags_normal : ℕ
group_type_flags_normal = 0

abbrev pub group_type_flags_raid : ℕ
group_type_flags_raid = 2

abbrev pub max_group_size : ℕ
max_group_size = 5

abbrev pub max_raid_size : ℕ
max_raid_size = 40

-- A constant without `iota` repeats the value above it: every loot type and every item quality is 0.
abbrev pub loot_type_free_for_all : ℕ
loot_type_free_for_all = 0

abbrev pub item_quality_uncommon : ℕ
item_quality_uncommon = 0

abbrev pub role_flags_assistant : ℕ
role_flags_assistant = 1

pub record GroupMember : Type 0 where
  pub group_id : ℕ
  pub member_guid : ℕ
  pub member_flags : ℕ
  pub member_name : String
  pub is_online : Bool
  pub sub_group : ℕ
  pub roles : ℕ

-- The zero value, in the unused cells of a slice's array.
abbrev pub zero_member : GroupMember
zero_member = record {
  group_id = 0;
  member_guid = 0;
  member_flags = 0;
  member_name = "";
  is_online = false;
  sub_group = 0;
  roles = 0;
}

-- A Go slice of members: its backing array and its length. The capacity is the array's.
pub record Slice : Type 0 where
  pub array : ℕ
  pub len : ℕ

pub record Group : Type 0 where
  pub id : ℕ
  pub leader_guid : ℕ
  pub loot_method : ℕ
  pub looter_guid : ℕ
  pub loot_threshold : ℕ
  pub target_icons : List ℕ
  pub group_type : ℕ
  pub difficulty : ℕ
  pub raid_difficulty : ℕ
  pub master_looter_guid : ℕ
  pub members : Slice

pub record GroupInvite : Type 0 where
  pub inviter : ℕ
  pub inviter_name : String
  pub invitee : ℕ
  pub invitee_name : String
  pub invite_group_id : ℕ

unfoldable pub is_assistant : GroupMember → Bool
is_assistant m = ltb 0 (bit_and m.roles role_flags_assistant)

unfoldable pub is_raid : Group → Bool
is_raid g = ltb 0 (bit_and g.group_type group_type_flags_raid)

unfoldable pub is_full : Group → Bool
is_full g = if is_raid g then leb max_raid_size g.members.len else leb max_group_size g.members.len

-- The loop of `MemberByGUID`, over the members in the slice.
unfoldable pub member_by_guid : List GroupMember → ℕ → Option GroupMember
member_by_guid [] guid = none
member_by_guid (m ∷ ms) guid = if m.member_guid == guid then some m else member_by_guid ms guid

unfoldable pub online_member_guids : List GroupMember → List ℕ
online_member_guids [] = []
online_member_guids (m ∷ ms) =
    let rest = online_member_guids ms in if m.is_online then m.member_guid ∷ rest else rest
