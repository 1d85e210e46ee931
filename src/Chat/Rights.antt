-- ===== src/Chat/Rights.antt =====
-- apps/chatserver/service/channel-manager.go: who may use a command, and what a failure leaves.
use Prim.Native.String.{String}
use athena_wow_cluster.Prelude.{
  ℕ, ◌≡◌, ◌≢◌, refl, ◌∙◌, Bool, true, false, Option, some, ◌==◌, inl, inr, Bool-cases, Option-cases,
  arith,
}
use athena_wow_cluster.Chat.Model.{
  ChannelMember, find_member, member_flag_owner, set_flag, clear_flag, write_flags,
}
use athena_wow_cluster.Chat.Calls.{Env, Moment, Local, Error, Action, ok, err, ◌>>◌, check}
use athena_wow_cluster.Chat.Channel.{
  restore_flags, leave_channel, pick_owner, transfer_to, change_flags, set_moderator, set_mute,
  set_owner, take_ownership, remove_old_owner,
}
use athena_wow_cluster.Chat.Queries.{is_member, get_member_flags}
use athena_wow_cluster.Chat.Members.{find_member-write_flags}
use athena_wow_cluster.Chat.Undo.{
  IsRestored, equal-IsRestored, put_back-IsRestored, flags_back, restore_taken, restore_nobody,
  restore_absent, take_ownership_undone,
}
use athena_wow_cluster.Chat.Commands.{
  kick, ban_by_name, unban_by_name, set_moderator_by_name, set_mute_by_name, set_owner_by_name,
  set_channel_password, check_member, moderates, owns,
}

module _ {e : Env} where
  -- A call that passes a check was right to.
  check_passed :
      {A : Type 0} (b : Bool) (x : Error) (k : Action (Local e) A) (st : Local e) {a : A}
      → ((check b x >> k) st).0 ≡ ok a
      → (b ≡ true) × ((k st).0 ≡ ok a)
  check_passed true x k st h = (refl, h)
  check_passed false x k st h = absurd (ground arith)

  -- The commands that give an answer gave it to someone with the flag for it: a moderator or the
  -- owner to kick, ban, unban and mute, the owner alone to appoint moderators, to give the channel
  -- away and to set the password.
  pub command_rights :
      (t : Moment) (realm actor g : ℕ) (name password : String) (b : Bool) (st : Local e)
      → let flags = get_member_flags st.ch actor in
        ((kick t realm actor name st).0 ≡ ok g → moderates flags ≡ true)
        × ((ban_by_name t realm actor name st).0 ≡ ok g → moderates flags ≡ true)
        × ((unban_by_name t realm actor name st).0 ≡ ok g → moderates flags ≡ true)
        × ((set_mute_by_name t realm actor name b st).0 ≡ ok g → moderates flags ≡ true)
        × ((set_moderator_by_name t realm actor name b st).0 ≡ ok g → owns flags ≡ true)
        × ((set_owner_by_name t realm actor name st).0 ≡ ok g → owns flags ≡ true)
        × ((set_channel_password realm actor password st).0 ≡ ok tt → owns flags ≡ true)
  unfolding kick ban_by_name unban_by_name set_mute_by_name set_moderator_by_name set_owner_by_name
      set_channel_password check_member
  command_rights t realm actor g name password b st = (
    λ h. (check_passed _ _ _ st (check_passed (is_member st.ch actor) _ _ st h).1).0,
    λ h. (check_passed _ _ _ st (check_passed (is_member st.ch actor) _ _ st h).1).0,
    λ h. (check_passed (moderates (get_member_flags st.ch actor)) _ _ st h).0,
    λ h. (check_passed _ _ _ st (check_passed (is_member st.ch actor) _ _ st h).1).0,
    λ h. (check_passed _ _ _ st (check_passed (is_member st.ch actor) _ _ st h).1).0,
    λ h. (check_passed (owns (get_member_flags st.ch actor)) _ _ st h).0,
    λ h. (check_passed (owns (get_member_flags st.ch actor)) _ _ st h).0,
  )

  change_flags_refused :
      (f : ℕ → ℕ) (realm guid : ℕ) (st : Local e) (x : Error)
      → (change_flags f realm guid st).0 ≡ err x
      → (change_flags f realm guid st).1.ch ≡ st.ch
  unfolding change_flags
  change_flags_refused f realm guid st x = elim (Option-cases (find_member st.ch.members guid)) [
    | inl n ↦ rw n (λ h. refl)
    | inr (m, found) ↦
        rw found
          (elim (Option-cases (e.update_flags st.db realm st.ch.channel_id guid (f m.flags)).0) [
            | inl n ↦ rw n (λ h. flags_back st.ch guid (f m.flags) found)
            | inr (u, r) ↦ rw r (λ h. absurd (ground arith))
          ])
  ]

  -- The step that takes ownership undoes all of it when it fails.
  take_ownership_refused :
      (owner flags realm guid : ℕ) (m : ChannelMember) (st : Local e) (x : Error)
      → find_member st.ch.members guid ≡ some m
      → (take_ownership owner flags realm guid st).0 ≡ err x
      → (take_ownership owner flags realm guid st).1.ch ≡ restore_flags owner flags st.ch
  unfolding take_ownership
  take_ownership_refused owner flags realm guid m st x found =
      elim (Option-cases
        (e.update_flags st.db realm st.ch.channel_id guid
          (set_flag member_flag_owner (get_member_flags st.ch guid))).0) [
            | inl n ↦ λ h. take_ownership_undone owner flags realm guid m st found n
            | inr (u, r) ↦ rw r (λ h. absurd (ground arith))
          ]

  set_owner_refused :
      (realm guid : ℕ) (st : Local e) (x : Error)
      → (set_owner realm guid st).0 ≡ err x
      → (set_owner realm guid st).1.ch ≡ st.ch
  unfolding set_owner remove_old_owner
  set_owner_refused realm guid st x = elim (Option-cases (find_member st.ch.members guid)) [
    | inl n ↦ rw n (λ h. refl)
    | inr (m, found) ↦ rw found (elim (Bool-cases (st.ch.owner_guid == 0)) [
      | inl z ↦ rw z (λ h.
          take_ownership_refused st.ch.owner_guid 0 realm guid m st x found h
          ∙ restore_nobody st.ch z)
      | inr z ↦ rw z (elim (Option-cases (find_member st.ch.members st.ch.owner_guid)) [
        | inl n ↦ rw n (λ h.
            take_ownership_refused st.ch.owner_guid 0 realm guid m st x found h
            ∙ restore_absent st.ch z n)
        | inr (y, f) ↦ rw f (elim (Option-cases (cleared y).0) [
          | inl n ↦
              rw n (λ h. flags_back st.ch st.ch.owner_guid (clear_flag member_flag_owner y.flags) f)
          | inr (u, r) ↦ rw r (λ h. from_former m found y z f h)
        ])
      ])
    ])
  ]
    where
      cleared : ChannelMember → Option (Unit {0}) × e.Db
      cleared y =
          e.update_flags st.db realm st.ch.channel_id st.ch.owner_guid
            (clear_flag member_flag_owner y.flags)

      without : ChannelMember → Local e
      without y = record {
        ch = record st.ch {
          members =
              write_flags st.ch.members st.ch.owner_guid (clear_flag member_flag_owner y.flags);
        };
        db = (cleared y).1;
      }

      from_former :
          (m : ChannelMember)
          → find_member st.ch.members guid ≡ some m
          → (y : ChannelMember) → (st.ch.owner_guid == 0) ≡ false
          → find_member st.ch.members st.ch.owner_guid ≡ some y
          → (take_ownership st.ch.owner_guid y.flags realm guid (without y)).0 ≡ err x
          → (take_ownership st.ch.owner_guid y.flags realm guid (without y)).1.ch ≡ st.ch
      from_former m found y owned was h =
          elim (Option-cases (find_member (without y).ch.members guid)) [
            | inl n ↦ absurd (
                ground (
                  arith,
                  find_member-write_flags st.ch.members st.ch.owner_guid
                      (clear_flag member_flag_owner y.flags) guid,
                ))
            | inr (z, there) ↦
                take_ownership_refused st.ch.owner_guid y.flags realm guid z (without y) x there h
                ∙ restore_taken st.ch (clear_flag member_flag_owner y.flags) owned was
          ]

  pick_owner_ok :
      (t : Moment) (realm : ℕ) (b : Bool) (st : Local e) (x : Error)
      → (pick_owner t realm b st).0 ≢ err x
  unfolding pick_owner transfer_to
  pick_owner_ok t realm b st x h = absurd (ground arith)

  leave_channel_refused :
      (t : Moment) (realm guid : ℕ) (st : Local e) (x : Error)
      → (leave_channel t realm guid st).0 ≡ err x
      → IsRestored st.ch (leave_channel t realm guid st).1.ch
  unfolding leave_channel
  leave_channel_refused t realm guid st x = elim (Option-cases (find_member st.ch.members guid)) [
    | inl n ↦ rw n (λ h. equal-IsRestored refl)
    | inr (m, found) ↦
        rw found (elim (Option-cases (e.remove_member st.db realm st.ch.channel_id guid).0) [
          | inl n ↦ rw n (λ h. put_back-IsRestored st.ch guid m found)
          | inr (u, r) ↦ rw r (λ h. absurd (pick_owner_ok t realm _ _ x h))
        ])
  ]

  -- A departure, a change of the moderator or mute flag, or a transfer to a new owner, the owner
  -- included, that fails leaves the channel in memory as it was: what was written before the database
  -- refused is written back, in the order that gives each member the flags from before.
  pub refused_unchanged :
      (t : Moment) (realm guid : ℕ) (b : Bool) (st : Local e) (x : Error)
      → ((leave_channel t realm guid st).0 ≡ err x
          → IsRestored st.ch (leave_channel t realm guid st).1.ch)
        × ((set_moderator realm guid b st).0 ≡ err x → (set_moderator realm guid b st).1.ch ≡ st.ch)
        × ((set_mute realm guid b st).0 ≡ err x → (set_mute realm guid b st).1.ch ≡ st.ch)
        × ((set_owner realm guid st).0 ≡ err x → (set_owner realm guid st).1.ch ≡ st.ch)
  unfolding set_moderator set_mute
  refused_unchanged t realm guid b st x = (
    leave_channel_refused t realm guid st x,
    change_flags_refused _ realm guid st x,
    change_flags_refused _ realm guid st x,
    set_owner_refused realm guid st x,
  )
