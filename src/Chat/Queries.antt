-- ===== src/Chat/Queries.antt =====
-- apps/chatserver/service/channel-manager.go: what the methods of `ActiveChannel` read and build.
use Prim.Native.String.{String}
use text.Mathlib.Text.{◌==◌ as str_eq}
use athena_wow_cluster.Prelude.{
  ℕ, Bool, true, false, not, ◌&&◌, ◌||◌, none, some, List, [], ◌∷◌, ltb, ◌==◌, if◌then◌else◌,
  length,
}
use athena_wow_cluster.Chat.Model.{
  ChannelMember, Channel, ActiveChannel, member_flag_none, member_flag_owner, member_flag_moderator,
  member_flag_voiced, member_flag_muted, channel_right_cant_speak, has_flag, set_flag, find_member,
  write_flags,
}
use athena_wow_cluster.Chat.Calls.{Moment}

unfoldable pub is_member : ActiveChannel → ℕ → Bool
is_member ch guid = elim (find_member ch.members guid) [ none ↦ false | some m ↦ true ]

unfoldable pub get_member_flags : ActiveChannel → ℕ → ℕ
get_member_flags ch guid = elim (find_member ch.members guid) [
  | none ↦ member_flag_none
  | some m ↦ m.flags
]

-- The GUID of the first member that passes the test, 0 if there is none.
unfoldable pub first_guid : (ChannelMember → Bool) → List ChannelMember → ℕ
first_guid p [] = 0
first_guid p (m ∷ ms) = if p m then m.player_guid else first_guid p ms

unfoldable pub find_member_by_name : Moment → ActiveChannel → String → ℕ
unfolding first_guid
find_member_by_name t ch name = first_guid (λ m. str_eq m.player_name name) (t.order ch.members)

unfoldable pub can_speak : ActiveChannel → ℕ → Bool
can_speak ch guid = elim (find_member ch.members guid) [
  | none ↦ false
  | some m ↦
      if has_flag member_flag_muted m.flags
      then false
      else if ch.moderation
          && not (
              has_flag member_flag_voiced m.flags
              || has_flag member_flag_moderator m.flags
              || has_flag member_flag_owner m.flags)
      then false
      else elim ch.rights [ none ↦ true | some r ↦ not (has_flag channel_right_cant_speak r.flags) ]
]

unfoldable pub is_banned : Moment → ActiveChannel → ℕ → Bool
is_banned t ch guid = elim (ch.banned_until guid) [ none ↦ false | some until ↦ ltb t.now until ]

unfoldable pub password_fits : ActiveChannel → String → Bool
password_fits ch password = str_eq ch.password "" || str_eq ch.password password

unfoldable pub is_listed : List ℕ → ℕ → Bool
is_listed [] guid = false
is_listed (m ∷ ms) guid = if m == guid then true else is_listed ms guid

unfoldable pub is_moderator_by_rights : ActiveChannel → ℕ → Bool
unfolding is_listed
is_moderator_by_rights ch guid = elim ch.rights [
  | none ↦ false
  | some r ↦ is_listed r.moderators guid
]

unfoldable pub is_first : ActiveChannel → Bool
is_first ch = length ch.members == 0 && ch.ownership

unfoldable pub initial_flags : ActiveChannel → ℕ → ℕ
unfolding is_first is_moderator_by_rights
initial_flags ch guid =
    let f = if is_first ch then member_flag_owner else member_flag_none in
    if is_moderator_by_rights ch guid then set_flag member_flag_moderator f else f

unfoldable pub new_member : ActiveChannel → ℕ → String → ChannelMember
unfolding initial_flags
new_member ch guid name = record {
  player_guid = guid;
  player_name = name;
  flags = initial_flags ch guid;
}

-- A moderator to own the channel, or any member; 0 if there is none.
unfoldable pub next_owner : List ChannelMember → ℕ
unfolding first_guid
next_owner ms =
    let m = first_guid (λ x. has_flag member_flag_moderator x.flags) ms in
    if m == 0 then first_guid (λ x. true) ms else m

-- `ch.members[guid].Flags |= MemberFlagOwner; ch.ownerGUID = guid`.
unfoldable pub give_ownership : ActiveChannel → ℕ → ActiveChannel
unfolding get_member_flags write_flags
give_ownership ch guid = record ch {
  members = write_flags ch.members guid (set_flag member_flag_owner (get_member_flags ch guid));
  owner_guid = guid;
}

-- The row that `UpdateChannel` gets.
unfoldable pub row_of : ActiveChannel → Channel
row_of ch = record {
  channel_id = ch.channel_id;
  name = ch.name;
  team = ch.team;
  announce = ch.announce;
  ownership = ch.ownership;
  password = ch.password;
}

unfoldable pub offline_guids : (online : ℕ → Bool) → List ChannelMember → List ℕ
offline_guids online [] = []
offline_guids online (m ∷ ms) =
    let rest = offline_guids online ms in
    if online m.player_guid then rest else m.player_guid ∷ rest
