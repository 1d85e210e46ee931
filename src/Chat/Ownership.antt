-- ===== src/Chat/Ownership.antt =====
-- apps/chatserver/service/channel-manager.go: every command on a channel keeps its owner.
use athena_wow_cluster.Prelude.{ℕ, ◌≢◌, not, List, [], ◌∷◌, ◌+◌}
use athena_wow_cluster.Chat.Calls.{Env, Moment, Local}
use athena_wow_cluster.Chat.Channel
use athena_wow_cluster.Chat.Channel.{
  join_channel, leave_channel, set_moderator, set_mute, set_owner, set_password,
  persist_toggle_announcements, prune_offline_members, transfer_on_logout,
}
use athena_wow_cluster.Chat.Queries.{is_member, get_member_flags}
use athena_wow_cluster.Chat.Commands.{
  kick, ban_by_name, unban_by_name, set_moderator_by_name, set_mute_by_name, set_owner_by_name,
  set_channel_password, toggle_channel_moderation, toggle_channel_announcements, permanent,
  check_member, moderates, owns, ban, unban, leave_logged,
}
use athena_wow_cluster.Chat.Guards.{
  through_check, through_flags, through_rights, through_end, ban-ch, unban-ch, set_password-ch,
  persist_toggle_announcements-ch,
}
use athena_wow_cluster.Chat.Members.{IsOrder}
use athena_wow_cluster.Chat.Owners.{WellFormed, other_fields-WellFormed}
use athena_wow_cluster.Chat.Invariant.{
  join_channel-Keeps, leave_channel-Keeps, set_moderator-Keeps, set_mute-Keeps,
}
use athena_wow_cluster.Chat.Transfers.{set_owner-Keeps, transfer_on_logout-Keeps}
use athena_wow_cluster.Chat.Pruning.{prune_offline_members-Keeps}
use athena_wow_cluster.Chat.History.{
  Command, join, leave, kick_player, ban_player, unban_player, give_moderator, give_mute,
  give_channel, change_password, toggle_moderation, toggle_announcements, prune, logout, exec,
  exec_all,
}

-- A player's GUID is not 0.
abbrev pub HasPlayer : Command → Type 0
HasPlayer (join guid name password) = guid ≢ 0
HasPlayer c = Unit

module _ {e : Env} (t : Moment) (realm : ℕ) where
  abbrev announced : Local e → Local e
  announced st = record st { ch = record st.ch { announce = not st.ch.announce } }

  -- A command keeps the owner of the channel, whatever its answer.
  pub exec-WellFormed :
      (c : Command) (st : Local e)
      → IsOrder t
      → HasPlayer c
      → WellFormed st.ch
      → WellFormed (exec realm t c st).ch
  unfolding exec kick ban_by_name unban_by_name set_moderator_by_name set_mute_by_name
      set_owner_by_name set_channel_password toggle_channel_moderation toggle_channel_announcements
      check_member leave_logged Channel.toggle_moderation Channel.toggle_announcements
  exec-WellFormed (join guid name password) st order nz wf =
      join_channel-Keeps t realm guid name password st nz wf
  exec-WellFormed (leave guid) st order p wf = leave_channel-Keeps t realm guid st order wf
  exec-WellFormed (kick_player actor name) st order p wf =
      through_rights WellFormed actor moderates _ t name _ st wf (λ f g e z.
        through_end WellFormed (leave_channel t realm g st) g
          (leave_channel-Keeps t realm g st order wf))
  exec-WellFormed (ban_player actor name) st order p wf =
      through_rights WellFormed actor moderates _ t name _ st wf (λ f g e z.
        through_end WellFormed (ban realm g (t.now + permanent) (leave_channel t realm g st).1) g (
          rw (ban-ch realm g (t.now + permanent) (leave_channel t realm g st).1)
            (other_fields-WellFormed _ _ _ _ (leave_channel-Keeps t realm g st order wf))))
  exec-WellFormed (unban_player actor name) st order p wf =
      through_flags WellFormed actor moderates _ t name _ st wf (λ f g e z.
        through_end WellFormed (unban realm g st) g
          (rw (unban-ch realm g st) (other_fields-WellFormed _ _ _ _ wf)))
  exec-WellFormed (give_moderator actor name b) st order p wf =
      through_rights WellFormed actor owns _ t name _ st wf (λ f g e z.
        through_end WellFormed (set_moderator realm g b st) g (set_moderator-Keeps realm g b st wf))
  exec-WellFormed (give_mute actor name b) st order p wf =
      through_rights WellFormed actor moderates _ t name _ st wf (λ f g e z.
        through_end WellFormed (set_mute realm g b st) g (set_mute-Keeps realm g b st wf))
  exec-WellFormed (give_channel actor name) st order p wf =
      through_flags WellFormed actor owns _ t name _ st wf
        (λ f g e z. through_end WellFormed (set_owner realm g st) g (set_owner-Keeps realm g st wf))
  exec-WellFormed (change_password actor password) st order p wf =
      through_check WellFormed (owns (get_member_flags st.ch actor)) _ _ st wf
        (λ f. rw (set_password-ch realm password st) (other_fields-WellFormed _ _ _ _ wf))
  exec-WellFormed (toggle_moderation actor) st order p wf =
      through_check WellFormed (is_member st.ch actor) _ _ st wf (λ m.
        through_check WellFormed (moderates (get_member_flags st.ch actor)) _ _ st wf
          (λ f. other_fields-WellFormed _ _ _ _ wf))
  exec-WellFormed (toggle_announcements actor) st order p wf =
      through_check WellFormed (is_member st.ch actor) _ _ st wf (λ m.
        through_check WellFormed (moderates (get_member_flags st.ch actor)) _ _ st wf (λ f.
          through_end WellFormed (persist_toggle_announcements realm (announced st))
            (not st.ch.announce)
            (rw (persist_toggle_announcements-ch realm (announced st))
              (other_fields-WellFormed _ _ _ _ wf))))
  exec-WellFormed (prune online) st order p wf =
      prune_offline_members-Keeps t realm online st order wf
  exec-WellFormed (logout player) st order p wf =
      transfer_on_logout-Keeps t realm player st order wf

-- Every order of iteration is one of Go's, and every player that joins has a GUID.
abbrev pub IsHistory : List (Moment × Command) → Type 0
IsHistory [] = Unit
IsHistory ((t, c) ∷ cs) = IsOrder t × HasPlayer c × IsHistory cs

-- Whatever commands a channel gets, and whatever the database answers to them, nobody but
-- `ownerGUID` has the owner flag, and `ownerGUID` has it where the channel has owners and a member.
pub exec_all-WellFormed :
    {e : Env} (realm : ℕ) (cs : List (Moment × Command)) (st : Local e)
    → IsHistory cs
    → WellFormed st.ch
    → WellFormed (exec_all realm cs st).ch
unfolding exec_all
exec_all-WellFormed realm [] st h wf = wf
exec_all-WellFormed realm ((t, c) ∷ cs) st h wf =
    exec_all-WellFormed realm cs (exec realm t c st) h.2 (exec-WellFormed t realm c st h.0 h.1 wf)
