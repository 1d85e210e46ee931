-- ===== src/Chat/Channel.antt =====
-- apps/chatserver/service/channel-manager.go: the methods of `ActiveChannel`.
use Prim.Native.String.{String}
use athena_wow_cluster.Prelude.{
  ℕ, Bool, true, false, not, ◌&&◌, ◌||◌, Option, none, some, List, [], ◌∷◌, ltb, ◌==◌,
  if◌then◌else◌, length,
}
use athena_wow_cluster.Chat.Model.{
  ChannelMember, ActiveChannel, member_flag_owner, member_flag_moderator, member_flag_muted,
  has_flag, set_flag, clear_flag, find_member, delete_member, put_member, write_flags,
}
use athena_wow_cluster.Chat.Calls.{
  Env, Moment, Local, Action, ◌>>=◌, ◌>>◌, pure, get, check, or_fail, modify, write, write_logged,
  write_or_revert, player_banned, wrong_password, not_member, player_not_found,
}
use athena_wow_cluster.Chat.Queries.{
  get_member_flags, is_banned, password_fits, is_first, new_member, next_owner, give_ownership,
  row_of, offline_guids,
}

-- The old owner's flags, where there is an old owner among the members.
unfoldable pub restore_flags : (owner flags : ℕ) → ActiveChannel → ActiveChannel
restore_flags owner flags ch =
    if owner == 0 then ch else record ch { members = write_flags ch.members owner flags }

module _ {e : Env} where
  unfoldable pub join_channel :
      Moment → (realm guid : ℕ) → (name password : String) → Action (Local e) (Unit {0})
  unfolding is_banned password_fits is_first new_member find_member put_member delete_member
  join_channel t realm guid name password = do
    st ← get
    check (not (is_banned t st.ch guid)) player_banned
    check (password_fits st.ch password) wrong_password
    elim (find_member st.ch.members guid) [
      | some m ↦ pure tt
      | none ↦ do
        let m = new_member st.ch guid name
        modify (λ ch. record ch {
          owner_guid = if is_first ch then guid else ch.owner_guid;
          members = put_member ch.members m;
        })
        write_or_revert (λ ch. record ch { members = delete_member ch.members guid })
            (λ d. e.save_member d realm st.ch.channel_id m)
    ]

  -- The owner flag goes to another member, and the new flags to the database.
  unfoldable pub transfer_to : (realm guid : ℕ) → Action (Local e) (Unit {0})
  unfolding give_ownership get_member_flags
  transfer_to realm guid = do
    modify (λ ch. give_ownership ch guid)
    st ← get
    write_logged (λ d. e.update_flags d realm st.ch.channel_id guid (get_member_flags st.ch guid))

  unfoldable pub pick_owner : Moment → (realm : ℕ) → Bool → Action (Local e) ℕ
  unfolding next_owner transfer_to
  pick_owner t realm false = pure 0
  pick_owner t realm true = do
    st ← get
    let g = next_owner (t.order st.ch.members)
    if g == 0 then pure 0 else do transfer_to realm g; pure g

  unfoldable pub leave_channel : Moment → (realm guid : ℕ) → Action (Local e) ℕ
  unfolding find_member delete_member pick_owner
  leave_channel t realm guid = do
    st ← get
    m ← or_fail (find_member st.ch.members guid) not_member
    modify (λ ch. record ch { members = delete_member ch.members guid })
    write_or_revert (λ ch. record ch { members = put_member ch.members m })
        (λ d. e.remove_member d realm st.ch.channel_id guid)
    left ← get
    pick_owner t realm
        (has_flag member_flag_owner m.flags && ltb 0 (length left.ch.members) && left.ch.ownership)

  -- A change to a member's flags that is undone when the database refuses it.
  unfoldable pub change_flags : (ℕ → ℕ) → (realm guid : ℕ) → Action (Local e) (Unit {0})
  unfolding find_member write_flags
  change_flags f realm guid = do
    st ← get
    m ← or_fail (find_member st.ch.members guid) not_member
    modify (λ ch. record ch { members = write_flags ch.members guid (f m.flags) })
    write_or_revert (λ ch. record ch { members = write_flags ch.members guid m.flags })
        (λ d. e.update_flags d realm st.ch.channel_id guid (f m.flags))

  unfoldable pub set_moderator :
      (realm guid : ℕ) → (is_moderator : Bool) → Action (Local e) (Unit {0})
  unfolding change_flags
  set_moderator realm guid is_moderator =
      change_flags
        (λ f.
          if is_moderator
          then set_flag member_flag_moderator f
          else clear_flag member_flag_moderator f)
        realm guid

  unfoldable pub set_mute : (realm guid : ℕ) → (is_muted : Bool) → Action (Local e) (Unit {0})
  unfolding change_flags
  set_mute realm guid is_muted =
      change_flags
        (λ f. if is_muted then set_flag member_flag_muted f else clear_flag member_flag_muted f)
        realm guid

  -- The owner flag of the old owner goes; the answer is the flags before, 0 if there is none.
  unfoldable pub remove_old_owner : (realm : ℕ) → Action (Local e) ℕ
  unfolding find_member write_flags
  remove_old_owner realm = do
    st ← get
    let owner = st.ch.owner_guid
    if owner == 0 then pure 0 else elim (find_member st.ch.members owner) [
      | none ↦ pure 0
      | some m ↦ do
        let f = clear_flag member_flag_owner m.flags
        modify (λ ch. record ch { members = write_flags ch.members owner f })
        write_or_revert (λ ch. record ch { members = write_flags ch.members owner m.flags })
            (λ d. e.update_flags d realm st.ch.channel_id owner f)
        pure m.flags
    ]

  -- The new owner's flag; where the database refuses it, the new owner and then the old one get the
  -- flags back that they had.
  unfoldable pub take_ownership : (old_owner old_flags realm guid : ℕ) → Action (Local e) (Unit {0})
  unfolding get_member_flags write_flags
  take_ownership old_owner old_flags realm guid = do
    st ← get
    let before = get_member_flags st.ch guid
    let f = set_flag member_flag_owner (get_member_flags st.ch guid)
    modify (λ ch. record ch { members = write_flags ch.members guid f })
    write_or_revert
        (λ ch.
          restore_flags old_owner old_flags
            (record ch { members = write_flags ch.members guid before }))
        (λ d. e.update_flags d realm st.ch.channel_id guid f)
    modify (λ ch. record ch { owner_guid = guid })

  unfoldable pub set_owner : (realm new_owner : ℕ) → Action (Local e) (Unit {0})
  unfolding find_member remove_old_owner take_ownership
  set_owner realm new_owner = do
    st ← get
    m ← or_fail (find_member st.ch.members new_owner) player_not_found
    old_flags ← remove_old_owner realm
    take_ownership st.ch.owner_guid old_flags realm new_owner

  unfoldable pub set_password : (realm : ℕ) → String → Action (Local e) (Unit {0})
  unfolding row_of
  set_password realm password = do
    modify (λ ch. record ch { password = password })
    st ← get
    write (λ d. e.update_channel d realm (row_of st.ch))

  unfoldable pub toggle_moderation : Action (Local e) Bool
  toggle_moderation = do
    modify (λ ch. record ch { moderation = not ch.moderation })
    st ← get
    pure st.ch.moderation

  unfoldable pub toggle_announcements : Action (Local e) Bool
  toggle_announcements = do
    modify (λ ch. record ch { announce = not ch.announce })
    st ← get
    pure st.ch.announce

  unfoldable pub persist_toggle_announcements : (realm : ℕ) → Action (Local e) (Unit {0})
  unfolding row_of
  persist_toggle_announcements realm = do
    st ← get
    write (λ d. e.update_channel d realm (row_of st.ch))

  -- The failures of the database are only logged.
  unfoldable pub remove_offline : (realm : ℕ) → List ℕ → Local e → Local e
  unfolding delete_member
  remove_offline realm [] st = st
  remove_offline realm (guid ∷ guids) st = remove_offline realm guids (record {
    ch = record st.ch { members = delete_member st.ch.members guid };
    db = (e.remove_member st.db realm st.ch.channel_id guid).1;
  })

  unfoldable pub replace_offline_owner :
      Moment → (realm : ℕ) → (online : ℕ → Bool) → Action (Local e) (Unit {0})
  unfolding pick_owner
  replace_offline_owner t realm online = do
    st ← get
    if st.ch.owner_guid == 0 || online st.ch.owner_guid then pure tt else do
      modify (λ ch. record ch { owner_guid = 0 })
      g ← pick_owner t realm (ltb 0 (length st.ch.members) && st.ch.ownership)
      pure tt

  unfoldable pub prune_offline_members :
      Moment → (realm : ℕ) → (online : ℕ → Bool) → Action (Local e) (Unit {0})
  unfolding offline_guids remove_offline replace_offline_owner
  prune_offline_members t realm online st =
      replace_offline_owner t realm online
        (remove_offline realm (offline_guids online (t.order st.ch.members)) st)

  -- The owner logs out: the flag goes to another member, who need not be online.
  unfoldable pub hand_over : Moment → (realm player : ℕ) → Option ChannelMember → Action (Local e) ℕ
  unfolding delete_member write_flags next_owner transfer_to
  hand_over t realm player none = pure 0
  hand_over t realm player (some m) = do
    st ← get
    if not (has_flag member_flag_owner m.flags) || not st.ch.ownership then pure 0 else do
      let g = next_owner (delete_member (t.order st.ch.members) player)
      if g == 0 then pure 0 else do
        let f = clear_flag member_flag_owner m.flags
        modify (λ ch. record ch { members = write_flags ch.members player f })
        write_logged (λ d. e.update_flags d realm st.ch.channel_id player f)
        transfer_to realm g
        pure g

  -- The body of the second loop of `TransferOwnershipOnLogout`; the answer is the new owner, 0 if
  -- the channel keeps its owner.
  unfoldable pub transfer_on_logout : Moment → (realm player : ℕ) → Action (Local e) ℕ
  unfolding find_member hand_over
  transfer_on_logout t realm player = do
    st ← get
    hand_over t realm player (find_member st.ch.members player)
