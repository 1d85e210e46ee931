-- ===== src/Chat/Calls.antt =====
-- What the channel manager works on: the database of channels, the clock, Go's order of iteration,
-- and calls that fail.
use Prim.Native.String.{String}
use athena_wow_cluster.Prelude.{ℕ, Bool, true, false, Option, none, some, List}
use athena_wow_cluster.Chat.Model.{ChannelMember, ChannelRights, ChannelBan, Channel, ActiveChannel}

pub data Error : Type 0 where
  player_banned wrong_password not_member not_moderator not_owner : Error
  player_not_found channel_not_found muted database_error : Error

pub data Result {ℓ} (A : Type ℓ) : Type ℓ where
  ok : A → Result A
  err : Error → Result A

-- The database behind `ChannelsRepo`: a call gives its result, `none` for an error, and a write the
-- database afterwards. `create_channel` gives the ID of the new row.
pub record Env : Type 1 where
  pub Db : Type 0
  pub create_channel : Db → (realm : ℕ) → Channel → Option ℕ × Db
  pub channel_by_id : Db → (realm channel : ℕ) → Option (Option Channel)
  pub channel_by_name : Db → (realm : ℕ) → String → (team : ℕ) → Option (Option Channel)
  pub all_channels : Db → (realm : ℕ) → Option (List Channel)
  pub update_channel : Db → (realm : ℕ) → Channel → Option (Unit {0}) × Db
  pub update_last_used : Db → (realm channel : ℕ) → Option (Unit {0}) × Db
  pub clean_old_channels : Db → (realm time : ℕ) → Option (Unit {0}) × Db
  pub clean_expired_bans : Db → (realm : ℕ) → Option (Unit {0}) × Db
  pub channel_rights : Db → (realm : ℕ) → String → Option (Option ChannelRights)
  pub add_ban : Db → (realm : ℕ) → ChannelBan → Option (Unit {0}) × Db
  pub remove_ban : Db → (realm channel player : ℕ) → Option (Unit {0}) × Db
  pub channel_bans : Db → (realm channel : ℕ) → Option (List ChannelBan)
  pub save_member : Db → (realm channel : ℕ) → ChannelMember → Option (Unit {0}) × Db
  pub remove_member : Db → (realm channel player : ℕ) → Option (Unit {0}) × Db
  pub load_members : Db → (realm channel : ℕ) → Option (List ChannelMember)
  pub update_flags : Db → (realm channel player flags : ℕ) → Option (Unit {0}) × Db
  pub to_lower : String → String

-- What one call sees of its surroundings: the time, and the order in which Go runs through the
-- members of a channel, which may be another at each call.
pub record Moment : Type 0 where
  pub now : ℕ
  pub order : List ChannelMember → List ChannelMember

-- A call: its result, and the state that it leaves. A channel's mutex makes its methods atomic.
abbrev pub Action : Type 0 → Type 0 → Type 0
Action S A = S → Result A × S

-- What a method of a channel works on: the channel and the database.
pub record Local (e : Env) : Type 0 where
  pub ch : ActiveChannel
  pub db : e.Db

module _ {S : Type 0} where
  abbrev pub and_then : {A B : Type 0} → Result A × S → (A → Action S B) → Result B × S
  and_then (ok a, st) k = k a st
  and_then (err x, st) k = (err x, st)

  infixl 5 ◌>>=◌ ◌>>◌
  abbrev pub ◌>>=◌ : {A B : Type 0} → Action S A → (A → Action S B) → Action S B
  ◌>>=◌ m k st = and_then (m st) k

  abbrev pub ◌>>◌ : {B : Type 0} → Action S (Unit {0}) → Action S B → Action S B
  ◌>>◌ m k st = and_then (m st) (λ _. k)

  abbrev pub pure : {A : Type 0} → A → Action S A
  pure a st = (ok a, st)

  abbrev pub fail : {A : Type 0} → Error → Action S A
  fail x st = (err x, st)

  abbrev pub get : Action S S
  get st = (ok st, st)

  -- An early return with an error.
  abbrev pub check : Bool → Error → Action S (Unit {0})
  check true x = pure tt
  check false x = fail x

  abbrev pub or_fail : {A : Type 0} → Option A → Error → Action S A
  or_fail none x = fail x
  or_fail (some a) x = pure a

module _ {e : Env} where
  -- `ch.F = v`.
  abbrev pub modify : (ActiveChannel → ActiveChannel) → Action (Local e) (Unit {0})
  modify f st = (ok tt, record st { ch = f st.ch })

  abbrev pub answer : Option (Unit {0}) × e.Db → Local e → Result (Unit {0}) × Local e
  answer (some u, d) st = (ok tt, record st { db = d })
  answer (none, d) st = (err database_error, record st { db = d })

  -- A write to the database whose error the caller returns.
  abbrev pub write : (e.Db → Option (Unit {0}) × e.Db) → Action (Local e) (Unit {0})
  write f st = answer (f st.db) st

  -- A write to the database whose error the caller only logs.
  abbrev pub write_logged : (e.Db → Option (Unit {0}) × e.Db) → Action (Local e) (Unit {0})
  write_logged f st = (ok tt, record st { db = (f st.db).1 })

  abbrev pub answer_or :
      (ActiveChannel → ActiveChannel)
      → Option (Unit {0}) × e.Db
      → Local e
      → Result (Unit {0}) × Local e
  answer_or revert (some u, d) st = (ok tt, record st { db = d })
  answer_or revert (none, d) st = (err database_error, record { ch = revert st.ch; db = d })

  -- A write to the database; if it fails, the caller undoes what it wrote to the channel and returns.
  abbrev pub write_or_revert :
      (ActiveChannel → ActiveChannel)
      → (e.Db → Option (Unit {0}) × e.Db)
      → Action (Local e) (Unit {0})
  write_or_revert revert f st = answer_or revert (f st.db) st
