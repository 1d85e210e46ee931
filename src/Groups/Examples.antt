-- ===== src/Groups/Examples.antt =====
-- The theorems on apps/groupserver at a concrete world.
use athena_wow_cluster.Prelude.{
  ℕ, zero, suc, ◌≡◌, ◌≢◌, inl, refl, Bool, true, false, none, some, List, [], ◌∷◌, ◌++◌, arith,
  ◌==◌, if◌then◌else◌, Any, Map, empty_map, get_elem?, replicate,
}
use athena_wow_cluster.Groups.Model.{
  GroupMember, Slice, Group, GroupInvite, zero_member, is_full, is_raid, member_by_guid,
  online_member_guids,
}
use athena_wow_cluster.Groups.World.{
  Env, MemberPtr, World, ok, member_added, member_left, group_disband, slice_of,
}
use athena_wow_cluster.Groups.Cells.{index_of}
use athena_wow_cluster.Groups.Arrays.{remove_at}
use athena_wow_cluster.Groups.Cache.{
  remove_found, add_member, group_by_id, members_of, group_id_by_player, set_online, remove_member,
  group_id_of, load_member,
}
use athena_wow_cluster.Groups.Parts.{next_leader, add_invite}
use athena_wow_cluster.Groups.Membership.{invite, accept_invite, uninvite, leave}
use athena_wow_cluster.Groups.Settings.{send_message, is_leader_type, set_target_icon}
use athena_wow_cluster.Groups.Pointers.{members_at, IsCached, members_at-add_member}
use athena_wow_cluster.Groups.Presence.{IsAligned, set_online-member_by_guid}
use athena_wow_cluster.Groups.Removal.{IsMember, remove_member-members_at}
use athena_wow_cluster.Groups.Uninvite.{uninvite_removes}
use athena_wow_cluster.Groups.Rights.{HasGroup}
use athena_wow_cluster.Groups.Joining.{joined, accept_invite_joins, leave_disbands}
use athena_wow_cluster.Groups.Icons.{MayMark, OthersKept, set_target_icon_lem}

abbrev invite_for : ℕ → ℕ → GroupInvite
invite_for group player = record {
  inviter = 21;
  inviter_name = "Ana";
  invitee = player;
  invitee_name = "Bo";
  invite_group_id = group;
}

-- A database that takes every write except, unless `updates`, the groups' updates. Player 32 is
-- invited into group 6, everyone else by a player without a group.
abbrev env_with : Bool → Env
env_with updates = record {
  Db = Unit {0};
  insert_group = λ d realm g ms. (some 9, d);
  delete_group = λ d realm g. (some tt, d);
  update_group = λ d realm g. (if updates then some tt else none, d);
  insert_member = λ d realm m. (some tt, d);
  update_member = λ d realm m. (some tt, d);
  delete_member = λ d realm m. (some tt, d);
  replace_invite = λ d realm i. (some tt, d);
  select_invite = λ d realm player.
      if player == 32 then some (some (invite_for 6 32)) else some (some (invite_for 0 player));
  maps_of_online = λ realm guids. some [];
  produce = λ ev. true;
  spare_cells = λ n. n;
}

abbrev member : ℕ → ℕ → Bool → GroupMember
member group guid online = record {
  group_id = group;
  member_guid = guid;
  member_flags = 0;
  member_name = "Bo";
  is_online = online;
  sub_group = 0;
  roles = 0;
}

abbrev group_in : ℕ → ℕ → Slice → Group
group_in group leader s = record {
  id = group;
  leader_guid = leader;
  loot_method = 0;
  looter_guid = leader;
  loot_threshold = 0;
  target_icons = replicate 8 0;
  group_type = 0;
  difficulty = 0;
  raid_difficulty = 0;
  master_looter_guid = leader;
  members = s;
}

-- Group 5: three members in an array without room. Group 6: two in an array with room.
abbrev five : Group
five = group_in 5 11 (record { array = 0; len = 3 })

abbrev six : Group
six = group_in 6 21 (record { array = 1; len = 2 })

-- Group 7: three members, of whom the last is online besides the leader.
abbrev seven : Group
seven = group_in 7 41 (record { array = 2; len = 3 })

abbrev cells : ℕ → List GroupMember
cells a =
    if a == 0
    then member 5 11 true ∷ member 5 12 false ∷ member 5 13 false ∷ []
    else if a == 1
    then member 6 21 true ∷ member 6 22 true ∷ zero_member ∷ []
    else if a == 2
    then member 7 41 true ∷ member 7 42 false ∷ member 7 43 true ∷ []
    else []

abbrev pointers : Map MemberPtr
pointers player =
    if player == 11
    then some (record { ptr_array = 0; ptr_index = 0 })
    else if player == 12
    then some (record { ptr_array = 0; ptr_index = 1 })
    else if player == 13
    then some (record { ptr_array = 0; ptr_index = 2 })
    else if player == 21
    then some (record { ptr_array = 1; ptr_index = 0 })
    else if player == 22
    then some (record { ptr_array = 1; ptr_index = 1 })
    else if player == 41
    then some (record { ptr_array = 2; ptr_index = 0 })
    else none

abbrev groups : Map Group
groups k =
    if k == 5 then some five else if k == 6 then some six else if k == 7 then some seven else none

abbrev world : (updates : Bool) → World (env_with updates)
world updates = record {
  is_loaded = λ realm. realm == 1;
  groups_cache = λ realm. if realm == 1 then groups else empty_map;
  group_members_cache = λ realm. if realm == 1 then pointers else empty_map;
  arrays = cells;
  next_array = 3;
  db = tt;
  published = [];
}

five-IsCached : (updates : Bool) → IsCached (world updates) 1 5 five
five-IsCached updates = record {
  realm_fits = omega arith;
  found = refl;
  fits = omega arith;
  allocated = omega arith;
}

six-IsCached : (updates : Bool) → IsCached (world updates) 1 6 six
six-IsCached updates = record {
  realm_fits = omega arith;
  found = refl;
  fits = omega arith;
  allocated = omega arith;
}

HasGroup-world :
    HasGroup (world true) 1 11 5
    × HasGroup (world true) 1 12 5
    × HasGroup (world true) 1 21 6
    × HasGroup (world true) 1 31 0
    × HasGroup (world false) 1 11 5
unfolding group_id_by_player group_id_of load_member
HasGroup-world = (refl, refl, refl, refl, refl)

members_at-add_member_example :
    ((add_member 1 (member 6 31 true) (world true)).0 ≡ ok tt)
    × (members_at (add_member 1 (member 6 31 true) (world true)).1 1 6
        ≡ members_at (world true) 1 6 ++ member 6 31 true ∷ [])
members_at-add_member_example =
    members_at-add_member (world true) 1 (member 6 31 true) six tt (six-IsCached true) refl

twelve-IsAligned : IsAligned (world true) 1 12 five 1 (member 5 12 false)
twelve-IsAligned = record { pointer = refl; in_slice = omega arith; cell = refl }

twelve_once :
    (j : ℕ) (x : GroupMember)
    → get_elem? (members_at (world true) 1 5) j ≡ some x
    → x.member_guid ≡ 12
    → j ≡ 1
unfolding slice_of
twelve_once zero x e g = ground arith
twelve_once (suc zero) x e g = refl
twelve_once (suc (suc j)) x e g = ground arith

set_online-member_by_guid_example :
    ((set_online true 1 12 (world true)).0 ≡ ok tt)
    × ((h : ℕ)
        → member_by_guid (members_at (set_online true 1 12 (world true)).1 1 5) h ≡ (
            if h == 12
            then some (member 5 12 true)
            else member_by_guid (members_at (world true) 1 5) h))
set_online-member_by_guid_example =
    set_online-member_by_guid (world true) 1 5 five (five-IsCached true) true 12 1
      (member 5 12 false) twelve-IsAligned refl twelve_once

eleven-IsMember :
    IsMember (world true) 1 5 11 five (record { ptr_array = 0; ptr_index = 0 }) (member 5 11 true) 0
unfolding index_of slice_of
eleven-IsMember = record { pointer = refl; cell = refl; of_group = refl; index = refl }

twelve-IsMember :
    IsMember
      (world true)
      1
      5
      12
      five
      (record { ptr_array = 0; ptr_index = 1 })
      (member 5 12 false)
      1
unfolding index_of slice_of
twelve-IsMember = record { pointer = refl; cell = refl; of_group = refl; index = refl }

twenty_two-IsMember :
    IsMember (world true) 1 6 22 six (record { ptr_array = 1; ptr_index = 1 }) (member 6 22 true) 1
unfolding index_of slice_of
twenty_two-IsMember = record { pointer = refl; cell = refl; of_group = refl; index = refl }

remove_member-members_at_example :
    ((remove_member 1 12 (world true)).0 ≡ ok tt)
    × (members_at (remove_member 1 12 (world true)).1 1 5
        ≡ remove_at 1 (members_at (world true) 1 5))
    × ((group_id_by_player 1 12 (remove_member 1 12 (world true)).1).0 ≡ ok 0)
remove_member-members_at_example =
    remove_member-members_at (world true) 1 5 12 five (record { ptr_array = 0; ptr_index = 1 })
      (member 5 12 false) 1 tt (five-IsCached true) twelve-IsMember refl

listed :
    (member_by_guid (slice_of cells five.members) 11 ≡ some (member 5 11 true))
    × (member_by_guid (slice_of cells five.members) 12 ≡ some (member 5 12 false))
    × (member_by_guid (slice_of cells five.members) 13 ≡ some (member 5 13 false))
    × (member_by_guid (slice_of cells six.members) 21 ≡ some (member 6 21 true))
    × (member_by_guid (slice_of cells six.members) 22 ≡ some (member 6 22 true))
unfolding member_by_guid slice_of
listed = (refl, refl, refl, refl, refl)

invited : (invite 1 21 31 "Ana" "Bo" (world true)).0 ≡ ok tt
unfolding invite group_id_by_player group_id_of load_member group_by_id members_of member_by_guid
    slice_of is_full is_raid add_invite
invited = refl

sent : (send_message 1 12 "hello" 0 2 (world true)).0 ≡ ok tt
unfolding send_message group_id_by_player group_id_of load_member group_by_id members_of
    member_by_guid slice_of is_leader_type
sent = refl

accept_invite_joins_example :
    let r = accept_invite 1 32 (world true) in
    (r.0 ≡ ok tt)
    × (members_at r.1 1 6 ≡ members_at (world true) 1 6 ++ joined (invite_for 6 32) ∷ [])
    × (r.1.published
        ≡ []
          ++ member_added 1 6 32 "Bo"
              (online_member_guids (members_at (world true) 1 6) ++ 32 ∷ 32 ∷ [])
            ∷ [])
accept_invite_joins_example =
    accept_invite_joins (world true) 1 32 (invite_for 6 32) six tt refl (λ e. omega (arith, e))
      (six-IsCached true) refl

leave_disbands_example :
    let r = leave 1 22 (world true) in
    (r.0 ≡ ok tt)
    × (r.1.groups_cache 1 6 ≡ none)
    × ((other : ℕ)
        → Any (λ (m : GroupMember). m.member_guid ≡ other) (members_at (world true) 1 6)
        → r.1.group_members_cache 1 other ≡ none)
    × (r.1.published
        ≡ [] ++ group_disband 1 6 (online_member_guids (members_at (world true) 1 6)) ∷ [])
leave_disbands_example =
    leave_disbands (world true) 1 22 6 six (record { ptr_array = 1; ptr_index = 1 })
      (member 6 22 true) 1 tt (λ e. omega (arith, e)) (six-IsCached true) twenty_two-IsMember
      listed.4 refl (omega arith) refl

unmarked : (n a : ℕ) → get_elem? {A = ℕ} (replicate n 0) a ≢ some 77
unmarked zero a e = cc
unmarked (suc n) zero e = ground arith
unmarked (suc n) (suc a) e = unmarked n a e

five-MayMark : MayMark five (slice_of cells five.members) 12
unfolding is_raid
five-MayMark = inl refl

set_target_icon_lem_example :
    let r = set_target_icon 1 12 3 77 (world true) in
    (r.0 ≡ ok tt)
    × ((icons : List ℕ) × (r.1.groups_cache 1 5 ≡ some (record five { target_icons = icons }))
        × (get_elem? icons 3 ≡ some 77)
        × ((j : ℕ) → get_elem? icons j ≡ some 77 → j ≡ 3)
        × OthersKept five.target_icons icons 3 77)
set_target_icon_lem_example =
    set_target_icon_lem (world true) 1 12 3 77 5 five tt HasGroup-world.1 (λ e. omega (arith, e))
      (five-IsCached true) refl refl (omega arith) refl (λ e. omega (arith, e))
      (λ a b p q. absurd (unmarked 8 a p)) five-MayMark refl

uninvited : (uninvite 1 11 12 (world true)).0 ≡ ok tt
unfolding uninvite remove_member remove_found index_of group_id_by_player group_id_of load_member
    group_by_id members_of member_by_guid slice_of
uninvited = refl

uninvite_removes_example :
    let r = uninvite 1 11 12 (world true) in
    (five.leader_guid ≡ 11)
    × (members_at r.1 1 5 ≡ remove_at 1 (members_at (world true) 1 5))
    × ((group_id_by_player 1 12 r.1).0 ≡ ok 0)
    × (r.1.published
        ≡ [] ++ member_left 1 5 12 "Bo" 11 (online_member_guids (slice_of cells five.members)) ∷ [])
uninvite_removes_example =
    uninvite_removes (world true) 1 11 12 5 five (record { ptr_array = 0; ptr_index = 1 })
      (member 5 12 false) (member 5 12 false) 1 tt HasGroup-world.0 (λ e. omega (arith, e))
      (five-IsCached true) twelve-IsMember listed.1 (omega arith) refl uninvited

seven-IsCached : IsCached (world true) 1 7 seven
seven-IsCached = record {
  realm_fits = omega arith;
  found = refl;
  fits = omega arith;
  allocated = omega arith;
}

forty_one-IsMember :
    IsMember
      (world true)
      1
      7
      41
      seven
      (record { ptr_array = 2; ptr_index = 0 })
      (member 7 41 true)
      0
unfolding index_of slice_of
forty_one-IsMember = record { pointer = refl; cell = refl; of_group = refl; index = refl }

heir_of_seven :
    (member_by_guid (slice_of cells seven.members) 41 ≡ some (member 7 41 true))
    × (next_leader (slice_of cells seven.members) 41 ≡ 43)
unfolding member_by_guid next_leader slice_of
heir_of_seven = (refl, refl)
