-- ===== src/Chat/History.antt =====
-- apps/chatserver/service/channel-manager.go: the commands on one channel as a history, and what the
-- players may expect of it: who is in the channel, and who is banned from it.
use Prim.Native.String.{String}
use athena_wow_cluster.Prelude.{
  ℕ, ◌≡◌, Bool, true, false, ◌&&◌, none, some, List, [], ◌∷◌, ◌+◌, ltb, ◌==◌, if◌then◌else◌, Map,
  put, delete, ◌⊎◌,
}
use athena_wow_cluster.Chat.Model.{ActiveChannel}
use athena_wow_cluster.Chat.Calls.{Env, Moment, Local}
use athena_wow_cluster.Chat.Channel.{
  join_channel, leave_channel, prune_offline_members, transfer_on_logout,
}
use athena_wow_cluster.Chat.Queries.{is_member}
use athena_wow_cluster.Chat.Commands.{
  kick, ban_by_name, unban_by_name, set_moderator_by_name, set_mute_by_name, set_owner_by_name,
  set_channel_password, toggle_channel_moderation, toggle_channel_announcements, permanent,
}

pub data Command : Type 0 where
  join : (guid : ℕ) → (name password : String) → Command
  leave : (guid : ℕ) → Command
  kick_player ban_player unban_player : (actor : ℕ) → String → Command
  give_moderator give_mute : (actor : ℕ) → String → Bool → Command
  give_channel : (actor : ℕ) → String → Command
  change_password : (actor : ℕ) → String → Command
  toggle_moderation toggle_announcements : (actor : ℕ) → Command
  prune : (online : ℕ → Bool) → Command
  logout : (player : ℕ) → Command

module _ {e : Env} (realm : ℕ) where
  -- What a command leaves; its answer goes to the caller.
  unfoldable pub exec : Moment → Command → Local e → Local e
  unfolding join_channel leave_channel kick ban_by_name unban_by_name set_moderator_by_name
      set_mute_by_name set_owner_by_name set_channel_password toggle_channel_moderation
      toggle_channel_announcements prune_offline_members transfer_on_logout
  exec t (join guid name password) st = (join_channel t realm guid name password st).1
  exec t (leave guid) st = (leave_channel t realm guid st).1
  exec t (kick_player actor name) st = (kick t realm actor name st).1
  exec t (ban_player actor name) st = (ban_by_name t realm actor name st).1
  exec t (unban_player actor name) st = (unban_by_name t realm actor name st).1
  exec t (give_moderator actor name b) st = (set_moderator_by_name t realm actor name b st).1
  exec t (give_mute actor name b) st = (set_mute_by_name t realm actor name b st).1
  exec t (give_channel actor name) st = (set_owner_by_name t realm actor name st).1
  exec t (change_password actor password) st = (set_channel_password realm actor password st).1
  exec t (toggle_moderation actor) st = (toggle_channel_moderation actor st).1
  exec t (toggle_announcements actor) st = (toggle_channel_announcements realm actor st).1
  exec t (prune online) st = (prune_offline_members t realm online st).1
  exec t (logout player) st = (transfer_on_logout t realm player st).1

  unfoldable pub exec_all : List (Moment × Command) → Local e → Local e
  unfolding exec
  exec_all [] st = st
  exec_all ((t, c) ∷ cs) st = exec_all cs (exec t c st)

-- What the players see of a channel.
pub record Spec : Type 0 where
  pub roster : ℕ → Bool
  pub banned_until : Map ℕ

unfoldable pub view : ActiveChannel → Spec
unfolding is_member
view ch = record { roster = is_member ch; banned_until = ch.banned_until }

abbrev pub SameRosterAs : Spec → Spec → Type 0
SameRosterAs s s' = (g : ℕ) → s'.roster g ≡ s.roster g

abbrev pub SameBansAs : Spec → Spec → Type 0
SameBansAs s s' = (g : ℕ) → s'.banned_until g ≡ s.banned_until g

abbrev pub RemovedFrom : Spec → ℕ → Spec → Type 0
RemovedFrom s guid s' =
    (s.roster guid ≡ true) × ((g : ℕ) → s'.roster g ≡ (if guid == g then false else s.roster g))

-- The player is not banned, or the ban has run out.
abbrev pub MayEnter : Moment → Spec → ℕ → Type 0
MayEnter t s guid =
    (s.banned_until guid ≡ none)
    ⊎ ((until : ℕ) × (s.banned_until guid ≡ some until) × (ltb t.now until ≡ false))

-- What a command may do. Nobody enters but by joining, and not while banned; nobody goes but by
-- leaving, by a member's kick or ban, or because of being offline; only members get or lose a ban.
pub data Step (t : Moment) : Command → Spec → Spec → Type 0 where
  unchanged : {c : Command} {s s' : Spec} → SameRosterAs s s' → SameBansAs s s' → Step t c s s'
  entered :
      {s s' : Spec} {guid : ℕ} {name password : String}
      → s.roster guid ≡ false
      → MayEnter t s guid
      → ((g : ℕ) → s'.roster g ≡ (if guid == g then true else s.roster g))
      → SameBansAs s s'
      → Step t (join guid name password) s s'
  departed :
      {s s' : Spec} {guid : ℕ} → RemovedFrom s guid s' → SameBansAs s s' → Step t (leave guid) s s'
  kicked :
      {s s' : Spec} {actor : ℕ} {name : String} (guid : ℕ)
      → s.roster actor ≡ true
      → RemovedFrom s guid s'
      → SameBansAs s s'
      → Step t (kick_player actor name) s s'
  banned :
      {s s' : Spec} {actor : ℕ} {name : String} (guid : ℕ)
      → s.roster actor ≡ true
      → s.roster guid ≡ true
      → RemovedFrom s guid s' ⊎ SameRosterAs s s'
      → ((g : ℕ) → s'.banned_until g ≡ put s.banned_until guid (t.now + permanent) g)
      → Step t (ban_player actor name) s s'
  unbanned :
      {s s' : Spec} {actor : ℕ} {name : String} (guid : ℕ)
      → s.roster actor ≡ true
      → s.roster guid ≡ true
      → SameRosterAs s s'
      → ((g : ℕ) → s'.banned_until g ≡ delete s.banned_until guid g)
      → Step t (unban_player actor name) s s'
  pruned :
      {s s' : Spec} {online : ℕ → Bool}
      → ((g : ℕ) → s'.roster g ≡ (s.roster g && online g))
      → SameBansAs s s'
      → Step t (prune online) s s'

infixr 5 ◌then◌
pub data Run : List (Moment × Command) → Spec → Spec → Type 0 where
  done : {s : Spec} → Run [] s s
  ◌then◌ :
      {t : Moment} {c : Command} {cs : List (Moment × Command)} {s s' s'' : Spec}
      → Step t c s s'
      → Run cs s' s''
      → Run ((t, c) ∷ cs) s s''
