-- ===== src/Chat/Cleanup.antt =====
-- apps/chatserver/service/channel-manager.go: the map of the channels, when one is opened and when
-- the stale ones are removed.
use Prim.Native.String.{String}
use text.Mathlib.TextEquality.{eq_iff}
use athena_wow_cluster.Prelude.{
  ℕ, ◌≡◌, refl, ap, subst, true, false, ◌&&◌, Option, none, some, List, [], ◌∷◌, ◌++◌, ◌==◌, length,
  inl, inr, Bool-cases, arith,
}
use athena_wow_cluster.Chat.Model.{ActiveChannel}
use athena_wow_cluster.Chat.Calls.{Env, Moment, Action, ok}
use athena_wow_cluster.Chat.Manager.{
  ChannelKey, Entry, Manager, same_key, find_channel, is_stale, keep_channels, cleanup_local_memory,
  get_channel, get_or_create_channel, channel_key, load_channel, find_row, row_or_create,
  open_channel,
}

-- No two channels have the same key.
abbrev pub UniqueKeys : List Entry → Type 0
UniqueKeys [] = Unit
UniqueKeys (x ∷ xs) = (find_channel xs x.key ≡ none) × UniqueKeys xs

same_key_refl : (k : ChannelKey) → same_key k k ≡ true
unfolding same_key
same_key_refl k = ground (arith, (eq_iff k.lower_name k.lower_name).1)

same_key→eq : (a b : ChannelKey) → same_key a b ≡ true → a ≡ b
unfolding same_key
same_key→eq a b h = ground (arith, (eq_iff a.lower_name b.lower_name).0)

keep_channels-found :
    (realm : ℕ) (xs : List Entry) (k : ChannelKey) (ch : ActiveChannel)
    → find_channel xs k ≡ some ch
    → (k.realm == realm && length ch.members == 0) ≡ false
    → find_channel (keep_channels realm xs) k ≡ some ch
unfolding find_channel keep_channels is_stale same_key
keep_channels-found realm [] k ch e used = absurd (ground arith)
keep_channels-found realm (x ∷ xs) k ch e used = ground (arith, keep_channels-found realm xs k ch)

keep_channels-none :
    (realm : ℕ) (xs : List Entry) (k : ChannelKey)
    → find_channel xs k ≡ none
    → find_channel (keep_channels realm xs) k ≡ none
unfolding find_channel keep_channels
keep_channels-none realm [] k e = refl
keep_channels-none realm (x ∷ xs) k e = ground (arith, keep_channels-none realm xs k)

keep_channels-gone :
    (realm : ℕ) (xs : List Entry) (k : ChannelKey) (ch : ActiveChannel)
    → UniqueKeys xs
    → find_channel xs k ≡ some ch
    → (k.realm == realm && length ch.members == 0) ≡ true
    → find_channel (keep_channels realm xs) k ≡ none
unfolding find_channel keep_channels is_stale
keep_channels-gone realm [] k ch u e stale = refl
keep_channels-gone realm (x ∷ xs) k ch u e stale = elim (Bool-cases (same_key x.key k)) [
  | inl s ↦ ground (
    arith,
    keep_channels-none realm xs k,
    subst (λ j. find_channel xs j ≡ none) (same_key→eq x.key k s) u.0,
  )
  | inr s ↦ ground (arith, keep_channels-gone realm xs k ch)
]

keep_channels-twice :
    (realm : ℕ) (xs : List Entry)
    → keep_channels realm (keep_channels realm xs) ≡ keep_channels realm xs
unfolding keep_channels
keep_channels-twice realm [] = refl
keep_channels-twice realm (x ∷ xs) = elim (Bool-cases (is_stale realm x)) [
  | inl s ↦ rw s (keep_channels-twice realm xs)
  | inr s ↦ rw (s, s) (ap (λ r. x ∷ r) (keep_channels-twice realm xs))
]

-- `cleanupLocalMemory` removes the channels of the realm without members, keeps every other one as
-- it is, and finds nothing to remove when it runs again.
pub cleanup_local_memory_lem :
    {e : Env} (realm : ℕ) (st : Manager e) (k : ChannelKey) (ch : ActiveChannel)
    → UniqueKeys st.channels
    → find_channel st.channels k ≡ some ch
    → let after = (cleanup_local_memory realm st).1 in
      ((k.realm == realm && length ch.members == 0) ≡ true → find_channel after.channels k ≡ none)
      × ((k.realm == realm && length ch.members == 0) ≡ false
          → find_channel after.channels k ≡ some ch)
      × ((cleanup_local_memory realm after).0 ≡ ok 0)
unfolding cleanup_local_memory
cleanup_local_memory_lem realm st k ch u found = (
  keep_channels-gone realm st.channels k ch u found,
  keep_channels-found realm st.channels k ch found,
  ground (arith, keep_channels-twice realm st.channels),
)

find_channel-append :
    (xs : List Entry) (k : ChannelKey) (ch : ActiveChannel)
    → find_channel xs k ≡ none
    → find_channel (xs ++ record { key = k; channel = ch } ∷ []) k ≡ some ch
unfolding find_channel
find_channel-append [] k ch e = ground (arith, same_key_refl k)
find_channel-append (x ∷ xs) k ch e = ground (arith, find_channel-append xs k ch)

load_channel-channels :
    {e : Env} (t : Moment) (realm channel_id team flags : ℕ) (name password : String)
    (st : Manager e)
    → (load_channel t realm name channel_id team password flags st).1.channels ≡ st.channels
unfolding load_channel find_row row_or_create
load_channel-channels t realm channel_id team flags name password st = ground arith

open_channel_lem :
    {e : Env} (o : Option ActiveChannel) (k : ChannelKey) (load : Action (Manager e) ActiveChannel)
    (st : Manager e) (ch : ActiveChannel)
    → find_channel st.channels k ≡ o
    → (load st).1.channels ≡ st.channels
    → (open_channel o k load st).0 ≡ ok ch
    → find_channel (open_channel o k load st).1.channels k ≡ some ch
unfolding open_channel
open_channel_lem (some c) k load st ch found same h = ground arith
open_channel_lem none k load st ch found same h =
    ground (arith, find_channel-append (load st).1.channels k ch)

-- The channel that `GetOrCreateChannel` gives is the one that `GetChannel` finds from then on.
pub get_or_create_channel-get_channel :
    {e : Env} (t : Moment) (realm channel_id team flags : ℕ) (name password : String)
    (st : Manager e) (ch : ActiveChannel)
    → let r = get_or_create_channel t realm name channel_id team password flags st in
      r.0 ≡ ok ch → get_channel r.1 realm name team ≡ some ch
unfolding get_or_create_channel get_channel
get_or_create_channel-get_channel {e} t realm channel_id team flags name password st ch =
    open_channel_lem (find_channel st.channels (channel_key e realm name team))
      (channel_key e realm name team) (load_channel t realm name channel_id team password flags) st
      ch refl (load_channel-channels t realm channel_id team flags name password st)
