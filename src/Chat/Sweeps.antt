-- ===== src/Chat/Sweeps.antt =====
-- apps/chatserver/service/channel-manager.go: the loops over all channels of a realm.
use Prim.Native.String.{String}
use athena_wow_cluster.Prelude.{ℕ, Bool, List, [], ◌∷◌, ◌++◌, ◌==◌, if◌then◌else◌}
use athena_wow_cluster.Chat.Model.{ActiveChannel}
use athena_wow_cluster.Chat.Calls.{Env, Moment, Local, Result, Action, ok, err, ◌>>◌, pure}
use athena_wow_cluster.Chat.Channel.{prune_offline_members, transfer_on_logout}
use athena_wow_cluster.Chat.Manager.{Entry, Manager}

pub record OwnershipTransfer : Type 0 where
  pub channel_name : String
  pub channel_id : ℕ
  pub team_id : ℕ
  pub new_owner_guid : ℕ

-- A channel after the body of a loop over the channels, with what the loop records for it.
pub record Visited (e : Env) : Type 0 where
  pub transfers : List OwnershipTransfer
  pub channels : List Entry
  pub db : e.Db

record_transfer : ActiveChannel → Result ℕ → List OwnershipTransfer
record_transfer ch (err x) = []
record_transfer ch (ok guid) =
    if guid == 0
    then []
    else record {
      channel_name = ch.name;
      channel_id = ch.channel_id;
      team_id = ch.team;
      new_owner_guid = guid;
    }
      ∷ []

module _ {e : Env} where
  visited : Entry → Result ℕ × Local e → Visited e
  unfolding record_transfer
  visited x (r, l) = record {
    transfers = record_transfer x.channel r;
    channels = record x { channel = l.ch } ∷ [];
    db = l.db;
  }

  -- The method on one channel, if it is of the realm.
  unfoldable pub visit : (realm : ℕ) → Action (Local e) ℕ → Entry → e.Db → Visited e
  unfolding visited
  visit realm m x db =
      if x.key.realm == realm
      then visited x (m (record { ch = x.channel; db = db }))
      else record { transfers = []; channels = x ∷ []; db = db }

  -- The method on each channel of the realm, one after the other.
  unfoldable pub each_channel : (realm : ℕ) → Action (Local e) ℕ → List Entry → e.Db → Visited e
  unfolding visit
  each_channel realm m [] db = record { transfers = []; channels = []; db = db }
  each_channel realm m (x ∷ xs) db =
      let v = visit realm m x db in
      let rest = each_channel realm m xs v.db in
      record {
        transfers = v.transfers ++ rest.transfers;
        channels = v.channels ++ rest.channels;
        db = rest.db;
      }

  unfoldable pub transfer_ownership_on_logout :
      Moment → (realm player : ℕ) → Action (Manager e) (List OwnershipTransfer)
  unfolding each_channel transfer_on_logout
  transfer_ownership_on_logout t realm player st =
      let v = each_channel realm (transfer_on_logout t realm player) st.channels st.db in
      (ok v.transfers, record { channels = v.channels; db = v.db })

  prune_channel : Moment → (realm : ℕ) → (online : ℕ → Bool) → Action (Local e) ℕ
  unfolding prune_offline_members
  prune_channel t realm online = do prune_offline_members t realm online; pure 0

  unfoldable pub prune_all :
      Moment → (realm : ℕ) → (online : ℕ → Bool) → Action (Manager e) (Unit {0})
  unfolding each_channel prune_channel
  prune_all t realm online st =
      let v = each_channel realm (prune_channel t realm online) st.channels st.db in
      (ok tt, record { channels = v.channels; db = v.db })
