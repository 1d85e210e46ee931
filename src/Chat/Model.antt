-- ===== src/Chat/Model.antt =====
-- apps/chatserver/service/channel-manager.go and repo/channels.go: the data of a chat channel, the
-- flags of a member, and the map of the members.
use Prim.Native.String.{String}
use athena_wow_cluster.Prelude.{
  ℕ, Bool, Option, none, some, List, [], ◌∷◌, ◌+◌, ◌-◌, ◌/◌, ◌%◌, ◌==◌, if◌then◌else◌, Map,
}

abbrev pub member_flag_none : ℕ
member_flag_none = 0

abbrev pub member_flag_owner : ℕ
member_flag_owner = 1

abbrev pub member_flag_moderator : ℕ
member_flag_moderator = 2

abbrev pub member_flag_voiced : ℕ
member_flag_voiced = 4

abbrev pub member_flag_muted : ℕ
member_flag_muted = 8

abbrev pub channel_flag_custom : ℕ
channel_flag_custom = 1

abbrev pub channel_right_cant_speak : ℕ
channel_right_cant_speak = 8

-- For a constant of one bit: `flags & flag != 0`, `flags |= flag` and `flags &= ^flag`.
unfoldable pub has_flag : (flag flags : ℕ) → Bool
has_flag flag flags = flags / flag % 2 == 1

unfoldable pub set_flag : (flag flags : ℕ) → ℕ
unfolding has_flag
set_flag flag flags = if has_flag flag flags then flags else flags + flag

unfoldable pub clear_flag : (flag flags : ℕ) → ℕ
unfolding has_flag
clear_flag flag flags = if has_flag flag flags then flags - flag else flags

pub record ChannelMember : Type 0 where
  pub player_guid : ℕ
  pub player_name : String
  pub flags : ℕ

-- The fields that the manager reads.
pub record ChannelRights : Type 0 where
  pub flags : ℕ
  pub moderators : List ℕ

pub record ChannelBan : Type 0 where
  pub channel_id : ℕ
  pub player_guid : ℕ
  pub ban_time : ℕ

-- A row of `channels`; `last_used` is the time of the call and is left out.
pub record Channel : Type 0 where
  pub channel_id : ℕ
  pub name : String
  pub team : ℕ
  pub announce : Bool
  pub ownership : Bool
  pub password : String

-- `members` holds one entry for each key, which is the member's GUID.
pub record ActiveChannel : Type 0 where
  pub channel_id : ℕ
  pub name : String
  pub team : ℕ
  pub password : String
  pub announce : Bool
  pub ownership : Bool
  pub moderation : Bool
  pub flags : ℕ
  pub owner_guid : ℕ
  pub rights : Option ChannelRights
  pub members : List ChannelMember
  pub banned_until : Map ℕ

-- `ch.members[guid]`.
unfoldable pub find_member : List ChannelMember → ℕ → Option ChannelMember
find_member [] guid = none
find_member (m ∷ ms) guid = if m.player_guid == guid then some m else find_member ms guid

-- `delete(ch.members, guid)`.
unfoldable pub delete_member : List ChannelMember → ℕ → List ChannelMember
delete_member [] guid = []
delete_member (m ∷ ms) guid =
    let rest = delete_member ms guid in if m.player_guid == guid then rest else m ∷ rest

-- `ch.members[m.PlayerGUID] = m`.
unfoldable pub put_member : List ChannelMember → ChannelMember → List ChannelMember
put_member [] m = m ∷ []
put_member (x ∷ xs) m =
    let rest = put_member xs m in if x.player_guid == m.player_guid then m ∷ xs else x ∷ rest

-- A write to `ch.members[guid].Flags`.
unfoldable pub write_flags : List ChannelMember → ℕ → ℕ → List ChannelMember
write_flags [] guid f = []
write_flags (m ∷ ms) guid f =
    let rest = write_flags ms guid f in
    if m.player_guid == guid then record m { flags = f } ∷ ms else m ∷ rest
