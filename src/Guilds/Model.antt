-- ===== src/Guilds/Model.antt =====
-- apps/guildserver/repo/guilds.go: guilds, ranks and members.
use Prim.Native.String.{String}
use Prim.Native.Nat.{bit_and}
use athena_wow_cluster.Prelude.{
  ℕ, Bool, true, false, not, Option, none, some, List, [], ◌∷◌, ltb, ◌==◌, if◌then◌else◌,
}

abbrev pub guild_rank_guild_master : ℕ
guild_rank_guild_master = 0

abbrev pub guild_rank_max : ℕ
guild_rank_max = 10

-- The rights that the service asks for.
abbrev pub right_empty : ℕ
right_empty = 64

abbrev pub right_invite : ℕ
right_invite = 80

abbrev pub right_remove : ℕ
right_remove = 96

abbrev pub right_promote : ℕ
right_promote = 192

abbrev pub right_demote : ℕ
right_demote = 320

abbrev pub right_set_message_of_the_day : ℕ
right_set_message_of_the_day = 4160

abbrev pub right_edit_public_note : ℕ
right_edit_public_note = 8256

abbrev pub right_edit_officers_note : ℕ
right_edit_officers_note = 32832

abbrev pub right_modify_guild_info : ℕ
right_modify_guild_info = 65600

pub record GuildRank : Type 0 where
  pub guild_id : ℕ
  pub rank : ℕ
  pub name : String
  pub rights : ℕ
  pub money_per_day : ℕ

unfoldable pub has_right : GuildRank → ℕ → Bool
has_right r right = not (bit_and r.rights right == right_empty)

pub data GuildMemberStatus : Type 0 where
  guild_member_status_offline guild_member_status_online : GuildMemberStatus

pub record GuildMember : Type 0 where
  pub guild_id : ℕ
  pub player_guid : ℕ
  pub rank : ℕ
  pub public_note : String
  pub officer_note : String
  pub name : String
  pub race : ℕ
  pub class : ℕ
  pub lvl : ℕ
  pub gender : ℕ
  pub area_id : ℕ
  pub account : ℕ
  pub logout_time : ℕ
  pub status : GuildMemberStatus

-- `guild_members` are pointers to members; the emblem, the bank and the time of creation, which
-- nothing here reads, are left out.
pub record Guild : Type 0 where
  pub realm_id : ℕ
  pub id : ℕ
  pub name : String
  pub leader_guid : ℕ
  pub info : String
  pub message_of_the_day : String
  pub guild_ranks : List GuildRank
  pub guild_members : List ℕ

unfoldable pub is_online : GuildMember → Bool
is_online m = elim m.status [
  | guild_member_status_offline ↦ false
  | guild_member_status_online ↦ true
]

-- The members of a guild, read through its pointers.
unfoldable pub members_of : (ℕ → GuildMember) → List ℕ → List GuildMember
members_of cells [] = []
members_of cells (p ∷ ps) = cells p ∷ members_of cells ps

unfoldable pub guild_member_for_member_guid : List GuildMember → ℕ → Option GuildMember
guild_member_for_member_guid [] guid = none
guild_member_for_member_guid (m ∷ ms) guid =
    if m.player_guid == guid then some m else guild_member_for_member_guid ms guid

unfoldable pub rank_with_id : List GuildRank → ℕ → Option GuildRank
rank_with_id [] id = none
rank_with_id (r ∷ rs) id = if r.rank == id then some r else rank_with_id rs id

unfoldable pub rank_for_member : List GuildRank → List GuildMember → ℕ → Option GuildRank
unfolding guild_member_for_member_guid rank_with_id
rank_for_member ranks ms guid = elim (guild_member_for_member_guid ms guid) [
  | none ↦ none
  | some m ↦ rank_with_id ranks m.rank
]

unfoldable pub highest_id : ℕ → List GuildRank → ℕ
highest_id highest [] = highest
highest_id highest (r ∷ rs) = highest_id (if ltb highest r.rank then r.rank else highest) rs

unfoldable pub lowest_rank_in_guild : List GuildRank → ℕ
unfolding highest_id
lowest_rank_in_guild ranks = highest_id 0 ranks

-- The players of a list who are online.
unfoldable pub online_guids : List GuildMember → List ℕ
unfolding is_online
online_guids [] = []
online_guids (m ∷ ms) =
    let rest = online_guids ms in if is_online m then m.player_guid ∷ rest else rest

unfoldable pub receivers_of : (sender : ℕ) → List GuildMember → List ℕ
unfolding is_online
receivers_of sender [] = []
receivers_of sender (m ∷ ms) =
    let rest = receivers_of sender ms in
    if is_online m then (if m.player_guid == sender then rest else m.player_guid ∷ rest) else rest
