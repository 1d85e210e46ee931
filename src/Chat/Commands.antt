-- ===== src/Chat/Commands.antt =====
-- apps/chatserver/service/channel-manager.go: the commands that name a player, with their checks,
-- and the loops over all channels of a realm.
use Prim.Native.String.{String}
use athena_wow_cluster.Prelude.{
  ℕ, Bool, ◌||◌, ◌+◌, ◌*◌, Option, none, some, ◌==◌, if◌then◌else◌, put, delete,
}
use athena_wow_cluster.Chat.Model.{
  ChannelMember, ActiveChannel, member_flag_owner, member_flag_moderator, channel_flag_custom,
  has_flag, find_member,
}
use athena_wow_cluster.Chat.Calls.{
  Env, Moment, Local, Action, ok, err, ◌>>=◌, ◌>>◌, pure, get, check, or_fail, modify, write,
  not_member, not_moderator, not_owner, player_not_found, muted,
}
use athena_wow_cluster.Chat.Channel.{
  leave_channel, set_moderator, set_mute, set_owner, set_password, toggle_moderation,
  toggle_announcements, persist_toggle_announcements,
}
use athena_wow_cluster.Chat.Queries.{is_member, get_member_flags, find_member_by_name, can_speak}
use athena_wow_cluster.Chat.Manager.{Manager, get_channel, on_channel}

unfoldable pub moderates : ℕ → Bool
moderates flags = has_flag member_flag_moderator flags || has_flag member_flag_owner flags

unfoldable pub owns : ℕ → Bool
owns flags = has_flag member_flag_owner flags

name_of : Option ChannelMember → String
name_of none = ""
name_of (some m) = m.player_name

-- A hundred years, in seconds.
abbrev pub permanent : ℕ
permanent = 100 * 365 * 24 * 3600

module _ {e : Env} where
  -- The checks of a command for members with a flag.
  unfoldable pub check_member : ActiveChannel → ℕ → Action (Local e) (Unit {0})
  unfolding is_member
  check_member ch guid = check (is_member ch guid) not_member

  unfoldable pub target : Moment → ActiveChannel → String → Action (Local e) ℕ
  unfolding find_member_by_name
  target t ch name =
      let guid = find_member_by_name t ch name in
      if guid == 0 then (λ st. (err player_not_found, st)) else pure guid

  -- `ban_player` and `unban_player` on the channel that they look up.
  unfoldable pub ban : (realm guid until : ℕ) → Action (Local e) (Unit {0})
  ban realm guid until = do
    modify (λ ch. record ch { banned_until = put ch.banned_until guid until })
    st ← get
    write (λ d.
        e.add_ban d realm
          (record { channel_id = st.ch.channel_id; player_guid = guid; ban_time = until }))

  unfoldable pub unban : (realm guid : ℕ) → Action (Local e) (Unit {0})
  unban realm guid = do
    modify (λ ch. record ch { banned_until = delete ch.banned_until guid })
    st ← get
    write (λ d. e.remove_ban d realm st.ch.channel_id guid)

  unfoldable pub ban_player :
      (realm : ℕ) → String → (team guid until : ℕ) → Action (Manager e) (Unit {0})
  unfolding on_channel ban
  ban_player realm name team guid until = on_channel realm name team (ban realm guid until)

  unfoldable pub unban_player :
      (realm : ℕ) → String → (team guid : ℕ) → Action (Manager e) (Unit {0})
  unfolding on_channel unban
  unban_player realm name team guid = on_channel realm name team (unban realm guid)

  unfoldable pub kick : Moment → (realm kicker : ℕ) → String → Action (Local e) ℕ
  unfolding check_member get_member_flags moderates target leave_channel
  kick t realm kicker name = do
    st ← get
    check_member st.ch kicker
    check (moderates (get_member_flags st.ch kicker)) not_moderator
    guid ← target t st.ch name
    new_owner ← leave_channel t realm guid
    pure guid

  -- A failed kick is only logged.
  unfoldable pub leave_logged : Moment → (realm guid : ℕ) → Action (Local e) (Unit {0})
  unfolding leave_channel
  leave_logged t realm guid st = (ok tt, (leave_channel t realm guid st).1)

  unfoldable pub ban_by_name : Moment → (realm banner : ℕ) → String → Action (Local e) ℕ
  unfolding check_member get_member_flags moderates target leave_logged ban
  ban_by_name t realm banner name = do
    st ← get
    check_member st.ch banner
    check (moderates (get_member_flags st.ch banner)) not_moderator
    guid ← target t st.ch name
    leave_logged t realm guid
    ban realm guid (t.now + permanent)
    pure guid

  unfoldable pub unban_by_name : Moment → (realm unbanner : ℕ) → String → Action (Local e) ℕ
  unfolding get_member_flags moderates target unban
  unban_by_name t realm unbanner name = do
    st ← get
    check (moderates (get_member_flags st.ch unbanner)) not_moderator
    guid ← target t st.ch name
    unban realm guid
    pure guid

  unfoldable pub set_moderator_by_name :
      Moment → (realm setter : ℕ) → String → (is_moderator : Bool) → Action (Local e) ℕ
  unfolding check_member get_member_flags owns target set_moderator
  set_moderator_by_name t realm setter name is_moderator = do
    st ← get
    check_member st.ch setter
    check (owns (get_member_flags st.ch setter)) not_owner
    guid ← target t st.ch name
    set_moderator realm guid is_moderator
    pure guid

  unfoldable pub set_mute_by_name :
      Moment → (realm muter : ℕ) → String → (is_muted : Bool) → Action (Local e) ℕ
  unfolding check_member get_member_flags moderates target set_mute
  set_mute_by_name t realm muter name is_muted = do
    st ← get
    check_member st.ch muter
    check (moderates (get_member_flags st.ch muter)) not_moderator
    guid ← target t st.ch name
    set_mute realm guid is_muted
    pure guid

  unfoldable pub set_owner_by_name : Moment → (realm setter : ℕ) → String → Action (Local e) ℕ
  unfolding get_member_flags owns target set_owner
  set_owner_by_name t realm setter name = do
    st ← get
    check (owns (get_member_flags st.ch setter)) not_owner
    guid ← target t st.ch name
    set_owner realm guid
    pure guid

  unfoldable pub set_channel_password : (realm setter : ℕ) → String → Action (Local e) (Unit {0})
  unfolding get_member_flags owns set_password
  set_channel_password realm setter password = do
    st ← get
    check (owns (get_member_flags st.ch setter)) not_owner
    set_password realm password

  unfoldable pub toggle_channel_moderation : (toggler : ℕ) → Action (Local e) Bool
  unfolding check_member get_member_flags moderates toggle_moderation
  toggle_channel_moderation toggler = do
    st ← get
    check_member st.ch toggler
    check (moderates (get_member_flags st.ch toggler)) not_moderator
    toggle_moderation

  unfoldable pub toggle_channel_announcements : (realm toggler : ℕ) → Action (Local e) Bool
  unfolding check_member get_member_flags moderates toggle_announcements
      persist_toggle_announcements
  toggle_channel_announcements realm toggler = do
    st ← get
    check_member st.ch toggler
    check (moderates (get_member_flags st.ch toggler)) not_moderator
    enabled ← toggle_announcements
    persist_toggle_announcements realm
    pure enabled

  -- The player's name, whether the channel is custom, and the new owner.
  unfoldable pub leave_by_guid : Moment → (realm player : ℕ) → Action (Local e) (String × Bool × ℕ)
  unfolding find_member name_of leave_channel
  leave_by_guid t realm player = do
    st ← get
    new_owner ← leave_channel t realm player
    pure (
      name_of (find_member st.ch.members player),
      has_flag channel_flag_custom st.ch.flags,
      new_owner,
    )

  unfoldable pub validate_send_message :
      (realm : ℕ) → String → (team sender : ℕ) → Action (Manager e) ActiveChannel
  unfolding get_channel is_member can_speak
  validate_send_message realm name team sender = do
    st ← get
    ch ← or_fail (get_channel st realm name team) not_member
    check (is_member ch sender) not_member
    check (can_speak ch sender) muted
    pure ch

  -- The exported methods of the manager: a command on the channel that it looks up.
  unfoldable pub kick_player :
      Moment → (realm : ℕ) → String → (team kicker : ℕ) → String → Action (Manager e) ℕ
  unfolding on_channel kick
  kick_player t realm name team kicker who = on_channel realm name team (kick t realm kicker who)

  unfoldable pub ban_player_by_name :
      Moment → (realm : ℕ) → String → (team banner : ℕ) → String → Action (Manager e) ℕ
  unfolding on_channel ban_by_name
  ban_player_by_name t realm name team banner who =
      on_channel realm name team (ban_by_name t realm banner who)

  unfoldable pub unban_player_by_name :
      Moment → (realm : ℕ) → String → (team unbanner : ℕ) → String → Action (Manager e) ℕ
  unfolding on_channel unban_by_name
  unban_player_by_name t realm name team unbanner who =
      on_channel realm name team (unban_by_name t realm unbanner who)

  unfoldable pub leave_channel_by_guid :
      Moment → (realm : ℕ) → String → (team player : ℕ) → Action (Manager e) (String × Bool × ℕ)
  unfolding on_channel leave_by_guid
  leave_channel_by_guid t realm name team player =
      on_channel realm name team (leave_by_guid t realm player)
