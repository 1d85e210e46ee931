-- ===== src/Chat/Refinement.antt =====
-- apps/chatserver/service/channel-manager.go: every command on a channel does what its players may
-- expect of it.
use Prim.Native.String.{String}
use athena_wow_cluster.Prelude.{
  ℕ, ◌≡◌, ◌≢◌, refl, ap, Bool, true, not, some, List, [], ◌∷◌, ◌+◌, if◌then◌else◌, put, inl, inr,
  arith,
}
use athena_wow_cluster.Chat.Model.{ActiveChannel, ChannelMember, has_flag, find_member}
use athena_wow_cluster.Chat.Calls.{Env, Moment, Local}
use athena_wow_cluster.Chat.Channel
use athena_wow_cluster.Chat.Channel.{
  join_channel, leave_channel, set_moderator, set_mute, set_owner, change_flags, set_password,
  persist_toggle_announcements, prune_offline_members, transfer_on_logout,
}
use athena_wow_cluster.Chat.Queries.{is_member, get_member_flags, find_member_by_name}
use athena_wow_cluster.Chat.Commands.{
  kick, ban_by_name, unban_by_name, set_moderator_by_name, set_mute_by_name, set_owner_by_name,
  set_channel_password, toggle_channel_moderation, toggle_channel_announcements, permanent,
  check_member, moderates, owns, ban, unban, leave_logged,
}
use athena_wow_cluster.Chat.Guards.{
  through_check, through_flags, through_rights, through_end, ban-ch, unban-ch, set_password-ch,
  persist_toggle_announcements-ch,
}
use athena_wow_cluster.Chat.Members.{IsOrder, first_guid_found}
use athena_wow_cluster.Chat.Entry.{same-Step, join_channel-Step}
use athena_wow_cluster.Chat.Ownership.{IsHistory, exec-WellFormed}
use athena_wow_cluster.Chat.Owners.{WellFormed}
use athena_wow_cluster.Chat.Pruning.{prune_offline_members-roster}
use athena_wow_cluster.Chat.Roster.{
  SameRoster, SameRoster-refl, Removed, leave_channel-Removed, change_flags-SameRoster,
  set_owner-SameRoster, transfer_on_logout-SameRoster,
}
use athena_wow_cluster.Chat.History.{
  Spec, view, Step, unchanged, departed, kicked, banned, unbanned, pruned, Run, done, ◌then◌,
  RemovedFrom, Command, join, leave, kick_player, ban_player, unban_player, give_moderator,
  give_mute, give_channel, change_password, toggle_moderation, toggle_announcements, prune, logout,
  exec, exec_all,
}

stays : {t : Moment} {c : Command} {s : Spec} → Step t c s s
stays = unchanged (λ g. refl) (λ g. refl)

removed : {a b : ActiveChannel} {g : ℕ} → Removed a g b → RemovedFrom (view a) g (view b)
unfolding view
removed r = (r.was_member, r.others)

module _ (t : Moment) where
  -- A player that a command finds by name is a member.
  named_is_member :
      (ch : ActiveChannel) (name : String) (g : ℕ)
      → IsOrder t
      → WellFormed ch
      → find_member_by_name t ch name ≡ g
      → g ≢ 0
      → is_member ch g ≡ true
  unfolding find_member_by_name is_member
  named_is_member ch name g order wf found ne =
      there (first_guid_found _ (t.order ch.members) g (order _ wf.distinct).0 found ne)
    where
      there :
          {p : ChannelMember → Bool}
          → (m : ChannelMember) × (find_member (t.order ch.members) g ≡ some m) × (p m ≡ true)
          → is_member ch g ≡ true
      there (m, e, h) = ground (arith, (order _ wf.distinct).1 g)

  -- Who has a flag is a member.
  moderates-is_member :
      (ch : ActiveChannel) (actor : ℕ)
      → moderates (get_member_flags ch actor) ≡ true
      → is_member ch actor ≡ true
  unfolding moderates get_member_flags is_member has_flag
  moderates-is_member ch actor h = ground arith

module _ {e : Env} (t : Moment) (realm : ℕ) where
  ban-Step :
      (actor : ℕ) (name : String) (st : Local e) (g : ℕ)
      → is_member st.ch actor ≡ true
      → is_member st.ch g ≡ true
      → let left = (leave_channel t realm g st).1.ch in
        Step t
          (ban_player actor name)
          (view st.ch)
          (view (record left { banned_until = put left.banned_until g (t.now + permanent) }))
  unfolding view is_member
  ban-Step actor name st g acts there = elim (leave_channel-Removed t realm g st) [
    | inl r ↦
        banned g acts there (inl (r.was_member, r.others))
          (λ h. ap (λ m. put m g (t.now + permanent) h) r.same_bans)
    | inr s ↦
        banned g acts there (inr s.same_members)
          (λ h. ap (λ m. put m g (t.now + permanent) h) s.same_bans)
  ]

  abbrev announced : Local e → Local e
  announced st = record st { ch = record st.ch { announce = not st.ch.announce } }

  -- Each command is a step that its players may expect.
  pub exec-Step :
      (c : Command) (st : Local e)
      → IsOrder t
      → WellFormed st.ch
      → Step t c (view st.ch) (view (exec realm t c st).ch)
  unfolding exec kick ban_by_name unban_by_name set_moderator_by_name set_mute_by_name
      set_owner_by_name set_channel_password toggle_channel_moderation toggle_channel_announcements
      set_moderator set_mute leave_logged view is_member Channel.toggle_moderation
      Channel.toggle_announcements check_member
  exec-Step (join guid name password) st order wf = join_channel-Step t realm guid name password st
  exec-Step (leave guid) st order wf = elim (leave_channel-Removed t realm guid st) [
    | inl r ↦ departed (removed r) (λ g. ap (λ m. m g) r.same_bans)
    | inr s ↦ same-Step t s
  ]
  exec-Step (kick_player actor name) st order wf =
      through_rights (λ ch. Step t (kick_player actor name) (view st.ch) (view ch)) actor moderates
        _ t name _ st stays
        (λ f g e z.
          through_end (λ ch. Step t (kick_player actor name) (view st.ch) (view ch))
            (leave_channel t realm g st) g
            (elim (leave_channel-Removed t realm g st) [
              | inl r ↦
                  kicked g (moderates-is_member t st.ch actor f) (removed r)
                    (λ h. ap (λ m. m h) r.same_bans)
              | inr s ↦ same-Step t s
            ]))
  exec-Step (ban_player actor name) st order wf =
      through_rights (λ ch. Step t (ban_player actor name) (view st.ch) (view ch)) actor moderates _
        t name _ st stays
        (λ f g e z.
          through_end (λ ch. Step t (ban_player actor name) (view st.ch) (view ch))
            (ban realm g (t.now + permanent) (leave_channel t realm g st).1) g
            (rw (ban-ch realm g (t.now + permanent) (leave_channel t realm g st).1) (
              ban-Step actor name st g (moderates-is_member t st.ch actor f)
                (named_is_member t st.ch name g order wf e z))))
  exec-Step (unban_player actor name) st order wf =
      through_flags (λ ch. Step t (unban_player actor name) (view st.ch) (view ch)) actor moderates
        _ t name _ st stays
        (λ f g e z.
          through_end (λ ch. Step t (unban_player actor name) (view st.ch) (view ch))
            (unban realm g st) g
            (rw (unban-ch realm g st) (
              unbanned g (moderates-is_member t st.ch actor f)
                (named_is_member t st.ch name g order wf e z) (λ h. refl) (λ h. refl))))
  exec-Step (give_moderator actor name b) st order wf = same-Step t (
      through_rights (SameRoster st.ch) actor owns _ t name _ st (SameRoster-refl st.ch) (λ f g e z.
        through_end (SameRoster st.ch) (set_moderator realm g b st) g
          (change_flags-SameRoster _ realm g st)))
  exec-Step (give_mute actor name b) st order wf = same-Step t (
      through_rights (SameRoster st.ch) actor moderates _ t name _ st (SameRoster-refl st.ch)
        (λ f g e z.
          through_end (SameRoster st.ch) (set_mute realm g b st) g
            (change_flags-SameRoster _ realm g st)))
  exec-Step (give_channel actor name) st order wf = same-Step t (
      through_flags (SameRoster st.ch) actor owns _ t name _ st (SameRoster-refl st.ch) (λ f g e z.
        through_end (SameRoster st.ch) (set_owner realm g st) g (set_owner-SameRoster realm g st)))
  exec-Step (change_password actor password) st order wf =
      through_check (λ ch. Step t (change_password actor password) (view st.ch) (view ch))
        (owns (get_member_flags st.ch actor)) _ _ st stays
        (λ f. rw (set_password-ch realm password st) (unchanged (λ g. refl) (λ g. refl)))
  exec-Step (toggle_moderation actor) st order wf =
      through_check (λ ch. Step t (toggle_moderation actor) (view st.ch) (view ch))
        (is_member st.ch actor) _ _ st stays
        (λ m.
          through_check (λ ch. Step t (toggle_moderation actor) (view st.ch) (view ch))
            (moderates (get_member_flags st.ch actor)) _ _ st stays
            (λ f. unchanged (λ g. refl) (λ g. refl)))
  exec-Step (toggle_announcements actor) st order wf =
      through_check (λ ch. Step t (toggle_announcements actor) (view st.ch) (view ch))
        (is_member st.ch actor) _ _ st stays
        (λ m.
          through_check (λ ch. Step t (toggle_announcements actor) (view st.ch) (view ch))
            (moderates (get_member_flags st.ch actor)) _ _ st stays
            (λ f.
              through_end (λ ch. Step t (toggle_announcements actor) (view st.ch) (view ch))
                (persist_toggle_announcements realm (announced st)) (not st.ch.announce)
                (rw (persist_toggle_announcements-ch realm (announced st))
                  (unchanged (λ g. refl) (λ g. refl)))))
  exec-Step (prune online) st order wf =
      pruned (prune_offline_members-roster t realm online st order wf).1
        (λ g. ap (λ m. m g) (prune_offline_members-roster t realm online st order wf).0)
  exec-Step (logout player) st order wf =
      same-Step t (transfer_on_logout-SameRoster t realm player st)

-- A channel's commands, one after the other, are a run that its players may expect.
pub exec_all-Run :
    {e : Env} (realm : ℕ) (cs : List (Moment × Command)) (st : Local e)
    → IsHistory cs
    → WellFormed st.ch
    → Run cs (view st.ch) (view (exec_all realm cs st).ch)
unfolding exec_all
exec_all-Run realm [] st h wf = done
exec_all-Run realm ((t, c) ∷ cs) st h wf =
    exec-Step t realm c st h.0 wf
    then exec_all-Run realm cs (exec realm t c st) h.2 (exec-WellFormed t realm c st h.0 h.1 wf)
