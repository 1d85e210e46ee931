-- ===== src/Chat/Manager.antt =====
-- apps/chatserver/service/channel-manager.go: the active channels of `ChannelManager`, by key. A
-- key "realm:name:team" is its three parts: the realm has no colon, the team is what stands behind
-- the last one, and the prefix "realm:" of a key tells its realm.
use Prim.Native.String.{String}
use text.Mathlib.Text.{◌==◌ as str_eq}
use athena_wow_cluster.Prelude.{
  ℕ, Bool, true, false, not, ◌&&◌, ◌-◌, Option, none, some, List, [], ◌∷◌, ◌++◌, ltb, ◌==◌,
  if◌then◌else◌, length, Map, empty_map, put,
}
use athena_wow_cluster.Chat.Model.{
  ChannelMember, ChannelBan, Channel, ActiveChannel, member_flag_owner, channel_flag_custom,
  has_flag, put_member,
}
use athena_wow_cluster.Chat.Calls.{
  Env, Moment, Local, Result, Action, ok, err, ◌>>=◌, ◌>>◌, pure, get, or_fail, database_error,
  channel_not_found,
}

pub record ChannelKey : Type 0 where
  pub realm : ℕ
  pub lower_name : String
  pub team : ℕ

pub record Entry : Type 0 where
  pub key : ChannelKey
  pub channel : ActiveChannel

-- `ChannelManager`: the map of the channels, one entry for a key, and the database behind `repo`.
-- The list's order is the one in which Go happens to run through the map.
pub record Manager (e : Env) : Type 0 where
  pub channels : List Entry
  pub db : e.Db

unfoldable pub same_key : ChannelKey → ChannelKey → Bool
same_key a b = a.realm == b.realm && (str_eq a.lower_name b.lower_name && a.team == b.team)

unfoldable pub find_channel : List Entry → ChannelKey → Option ActiveChannel
unfolding same_key
find_channel [] k = none
find_channel (x ∷ xs) k = if same_key x.key k then some x.channel else find_channel xs k

-- A write to the channel that the map holds at the key.
unfoldable pub store_channel : List Entry → ChannelKey → ActiveChannel → List Entry
unfolding same_key
store_channel [] k ch = []
store_channel (x ∷ xs) k ch =
    let rest = store_channel xs k ch in
    if same_key x.key k then record x { channel = ch } ∷ xs else x ∷ rest

-- The bans that still hold, by player.
unfoldable pub load_bans : (now : ℕ) → List ChannelBan → Map ℕ → Map ℕ
load_bans now [] m = m
load_bans now (b ∷ bs) m =
    load_bans now bs (if ltb now b.ban_time then put m b.player_guid b.ban_time else m)

unfoldable pub load_members : List ChannelMember → List ChannelMember → List ChannelMember
unfolding put_member
load_members [] ms = ms
load_members (x ∷ xs) ms = load_members xs (put_member ms x)

-- The owner is the last member of the rows that has the flag.
unfoldable pub load_owner : List ChannelMember → ℕ → ℕ
load_owner [] owner = owner
load_owner (x ∷ xs) owner =
    load_owner xs (if has_flag member_flag_owner x.flags then x.player_guid else owner)

unfoldable pub channel_key : Env → (realm : ℕ) → String → (team : ℕ) → ChannelKey
channel_key e realm name team = record { realm = realm; lower_name = e.to_lower name; team = team }

module _ {e : Env} where
  abbrev pub read : {A : Type 0} → (e.Db → Option A) → Action (Manager e) A
  read f st = or_fail (f st.db) database_error st

  abbrev pub answer : {A : Type 0} → Option A × e.Db → Manager e → Result A × Manager e
  answer (some a, d) st = (ok a, record st { db = d })
  answer (none, d) st = (err database_error, record st { db = d })

  -- A write to the database whose error the caller returns.
  abbrev pub write : {A : Type 0} → (e.Db → Option A × e.Db) → Action (Manager e) A
  write f st = answer (f st.db) st

  unfoldable pub find_row :
      (realm : ℕ) → String → (channel_id team flags : ℕ) → Action (Manager e) (Option Channel)
  find_row realm name channel_id team flags =
      if not (channel_id == 0) && has_flag channel_flag_custom flags
      then read (λ d. e.channel_by_id d realm channel_id)
      else read (λ d. e.channel_by_name d realm name team)

  -- A channel that is not in the database is created there.
  unfoldable pub row_or_create :
      (realm : ℕ) → String → (team : ℕ) → String → Option Channel → Action (Manager e) Channel
  row_or_create realm name team password (some row) = pure row
  row_or_create realm name team password none = do
    let row = new_row name team password
    id ← write (λ d. e.create_channel d realm row)
    pure (record row { channel_id = id })
    where
      new_row : String → ℕ → String → Channel
      new_row name team password = record {
        channel_id = 0;
        name = name;
        team = team;
        announce = true;
        ownership = true;
        password = password;
      }

  unfoldable pub load_channel :
      Moment
      → (realm : ℕ) → String
      → (channel_id team : ℕ) → String
      → (flags : ℕ) → Action (Manager e) ActiveChannel
  unfolding find_row row_or_create load_bans load_members load_owner
  load_channel t realm name channel_id team password flags = do
    found ← find_row realm name channel_id team flags
    row ← row_or_create realm name team password found
    rights ← read (λ d. e.channel_rights d realm name)
    bans ← read (λ d. e.channel_bans d realm row.channel_id)
    loaded ← read (λ d. e.load_members d realm row.channel_id)
    pure (record {
      channel_id = row.channel_id;
      name = row.name;
      team = row.team;
      password = row.password;
      announce = row.announce;
      ownership = row.ownership;
      moderation = false;
      flags = flags;
      owner_guid = load_owner loaded 0;
      rights = rights;
      members = load_members loaded [];
      banned_until = load_bans t.now bans empty_map;
    })

  abbrev pub add_channel : ChannelKey → ActiveChannel → Action (Manager e) (Unit {0})
  add_channel k ch st =
      (ok tt, record st { channels = st.channels ++ record { key = k; channel = ch } ∷ [] })

  -- The loaded channel enters the map.
  unfoldable pub open_channel :
      Option ActiveChannel
      → ChannelKey
      → Action (Manager e) ActiveChannel
      → Action (Manager e) ActiveChannel
  open_channel (some ch) k load = pure ch
  open_channel none k load = do ch ← load; add_channel k ch; pure ch

  unfoldable pub get_or_create_channel :
      Moment
      → (realm : ℕ) → String
      → (channel_id team : ℕ) → String
      → (flags : ℕ) → Action (Manager e) ActiveChannel
  unfolding channel_key find_channel load_channel open_channel
  get_or_create_channel t realm name channel_id team password flags = do
    st ← get
    let k = channel_key e realm name team
    open_channel (find_channel st.channels k) k
        (load_channel t realm name channel_id team password flags)

  unfoldable pub get_channel : Manager e → (realm : ℕ) → String → (team : ℕ) → Option ActiveChannel
  unfolding channel_key find_channel
  get_channel st realm name team = find_channel st.channels (channel_key e realm name team)

  -- A method of the channel at a key, which leaves the channel there.
  abbrev pub put_back :
      {A : Type 0} → ChannelKey → Manager e → Result A × Local e → Result A × Manager e
  put_back k st (r, l) = (r, record { channels = store_channel st.channels k l.ch; db = l.db })

  abbrev pub at_channel :
      {A : Type 0} → ChannelKey → ActiveChannel → Action (Local e) A → Action (Manager e) A
  at_channel k ch m st = put_back k st (m (record { ch = ch; db = st.db }))

  -- The body of a handler that starts with `GetChannel` and `ErrChannelNotFound`.
  unfoldable pub on_channel :
      {A : Type 0} → (realm : ℕ) → String → (team : ℕ) → Action (Local e) A → Action (Manager e) A
  unfolding get_channel channel_key store_channel
  on_channel realm name team m = do
    st ← get
    ch ← or_fail (get_channel st realm name team) channel_not_found
    at_channel (channel_key e realm name team) ch m

  unfoldable pub preload_rows : Moment → (realm : ℕ) → List Channel → Action (Manager e) (Unit {0})
  unfolding get_or_create_channel
  preload_rows t realm [] st = (ok tt, st)
  preload_rows t realm (row ∷ rows) st =
      preload_rows t realm rows
        (get_or_create_channel t realm row.name row.channel_id row.team "" channel_flag_custom st).1

  unfoldable pub preload_channels : Moment → (realm : ℕ) → Action (Manager e) (Unit {0})
  unfolding preload_rows
  preload_channels t realm = do rows ← read (λ d. e.all_channels d realm); preload_rows t realm rows

  unfoldable pub update_last_used :
      (realm : ℕ) → String → (team : ℕ) → Action (Manager e) (Unit {0})
  unfolding get_channel
  update_last_used realm name team = do
    st ← get
    elim (get_channel st realm name team) [
      | none ↦ pure tt
      | some ch ↦
          if ch.channel_id == 0
          then pure tt
          else write (λ d. e.update_last_used d realm ch.channel_id)
    ]

-- The channels that `cleanupLocalMemory` keeps, and how many it removes.
unfoldable pub is_stale : (realm : ℕ) → Entry → Bool
is_stale realm x = x.key.realm == realm && length x.channel.members == 0

unfoldable pub keep_channels : (realm : ℕ) → List Entry → List Entry
unfolding is_stale
keep_channels realm [] = []
keep_channels realm (x ∷ xs) =
    let rest = keep_channels realm xs in if is_stale realm x then rest else x ∷ rest

module _ {e : Env} where
  unfoldable pub cleanup_local_memory : (realm : ℕ) → Action (Manager e) ℕ
  unfolding keep_channels
  cleanup_local_memory realm st =
      let kept = keep_channels realm st.channels in
      (ok (length st.channels - length kept), record st { channels = kept })

  -- The oldest time that stays; times count from a start before every one in the database.
  unfoldable pub cleanup_stale_channels :
      Moment → (realm inactive : ℕ) → Action (Manager e) (Unit {0})
  unfolding cleanup_local_memory
  cleanup_stale_channels t realm inactive = do
    n ← cleanup_local_memory realm
    write (λ d. e.clean_old_channels d realm (t.now - inactive))
    write (λ d. e.clean_expired_bans d realm)
