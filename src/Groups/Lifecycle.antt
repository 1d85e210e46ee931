-- ===== src/Groups/Lifecycle.antt =====
-- apps/groupserver/service/group.go: how a group begins, changes hands and ends.
use athena_wow_cluster.Prelude.{
  Any, inl, ℕ, ◌-◌, ◌<◌, ◌≡◌, refl, ◌≢◌, ◌⊎◌, true, false, some, List, [], ◌∷◌, arith, lt→ltb, All,
  put,
}
use athena_wow_cluster.Groups.Model.{GroupMember, Group, GroupInvite, member_by_guid}
use athena_wow_cluster.Groups.World.{Env, World, ok, MemberPtr, slice_of}
use athena_wow_cluster.Groups.Cells.{max_realm_id, point_at, with_group_id, store_realm}
use athena_wow_cluster.Groups.Cache.{group_id_by_player, members_of, create, update, remove_found}
use athena_wow_cluster.Groups.Parts.{
  next_leader, new_member, new_group, create_group, change_group_leader,
}
use athena_wow_cluster.Groups.Arrays.{remove_at}
use athena_wow_cluster.Groups.Membership.{accept_invite, leave}
use athena_wow_cluster.Groups.Pointers.{members_at, IsCached, group_by_id_lem}
use athena_wow_cluster.Groups.Removal.{
  IsMember, remove_member-members_at, remove_member_lem, group_id_by_player_lem,
}

-- Accepting an invitation of a player without a group makes a group of the two under the id that the
-- database gives. The inviter leads it, both players are found in it, and its loot threshold is 0,
-- the poorest quality.
pub accept_invite_creates :
    {e : Env} (w : World e) (realm player new_id : ℕ) (i : GroupInvite) (d : e.Db)
    → realm < max_realm_id
    → w.is_loaded realm ≡ true
    → e.select_invite w.db realm player ≡ some (some i)
    → i.invite_group_id ≡ 0
    → i.inviter ≢ i.invitee
    → e.insert_group w.db realm
        (new_group i)
        (new_member i.inviter i.inviter_name ∷ new_member i.invitee i.invitee_name ∷ [])
      ≡ (some new_id, d)
    → let r = accept_invite realm player w in
      (r.0 ≡ ok tt)
      × (members_at r.1 realm new_id
          ≡ with_group_id new_id (new_member i.inviter i.inviter_name)
            ∷ with_group_id new_id (new_member i.invitee i.invitee_name)
            ∷ [])
      × ((group_id_by_player realm i.inviter r.1).0 ≡ ok new_id)
      × ((group_id_by_player realm i.invitee r.1).0 ≡ ok new_id)
      × (r.1.groups_cache realm new_id
          ≡ some (record (new_group i) {
            id = new_id;
            members = record { array = w.next_array; len = 2 };
          }))
      × ((new_group i).leader_guid ≡ i.inviter)
      × ((new_group i).loot_threshold ≡ 0)
unfolding accept_invite create_group create members_of point_at slice_of group_id_by_player
    new_member new_group
accept_invite_creates w realm player new_id i d h loaded found fresh ne inserted = ground arith

abbrev pub AllOfflineBut : ℕ → List GroupMember → Type 0
AllOfflineBut player ms =
    All (λ (m : GroupMember). (m.is_online ≡ false) ⊎ (m.member_guid ≡ player)) ms

next_leader-none :
    (player : ℕ) (ms : List GroupMember) → AllOfflineBut player ms → next_leader ms player ≡ 0
unfolding next_leader
next_leader-none player [] a = refl
next_leader-none player (m ∷ ms) a = ground (arith, next_leader-none player ms a.1)

change_group_leader_lem :
    {e : Env} (w : World e) (realm key : ℕ) (g : Group) (new_leader : ℕ) (d : e.Db)
    → realm < max_realm_id
    → w.is_loaded realm ≡ true
    → g.id ≡ key
    → e.update_group w.db realm (record g { leader_guid = new_leader }) ≡ (some tt, d)
    → let g' = record g { leader_guid = new_leader } in
      change_group_leader realm key g new_leader false w ≡ (
        ok tt,
        record w {
          db = d;
          groups_cache =
              store_realm
                (store_realm w.groups_cache realm (put (w.groups_cache realm) key g'))
                realm
                (put
                  (store_realm w.groups_cache realm (put (w.groups_cache realm) key g') realm)
                  g.id
                  g');
        },
      )
unfolding change_group_leader update members_of
change_group_leader_lem w realm key g new_leader d h loaded same updated =
    rw updated (rw (lt→ltb realm max_realm_id h) (rw loaded))

-- The group is handed over: to an online member other than the player, or to 0 if nobody else is online.
abbrev pub IsHeir : (heir player : ℕ) → List GroupMember → Type 0
IsHeir heir player ms =
    ((heir ≡ 0) × AllOfflineBut player ms)
    ⊎ ((heir ≢ player)
        × Any (λ (m : GroupMember). (m.is_online ≡ true) × (m.member_guid ≡ heir)) ms)

next_leader-IsHeir : (player : ℕ) (ms : List GroupMember) → IsHeir (next_leader ms player) player ms
unfolding next_leader
next_leader-IsHeir player [] = inl (refl, tt)
next_leader-IsHeir player (m ∷ ms) = ground (arith, next_leader-IsHeir player ms)

-- When the leader of a group of more than two leaves, the first other member online leads it from then
-- on, or 0 if there is none, and the other members stay in their order.
pub leave_hands_over :
    {e : Env} (w : World e) (realm player key : ℕ) (g : Group) (p : MemberPtr) (m : GroupMember)
    (i heir : ℕ) (d d' : e.Db)
    → key ≢ 0
    → IsCached w realm key g
    → w.is_loaded realm ≡ true
    → IsMember w realm key player g p m i
    → member_by_guid (slice_of w.arrays g.members) player ≡ some m
    → g.id ≡ key
    → g.leader_guid ≡ player
    → 2 < g.members.len
    → next_leader (slice_of w.arrays g.members) player ≡ heir
    → e.update_group w.db realm (record g { leader_guid = heir }) ≡ (some tt, d)
    → e.delete_member d realm player ≡ (some tt, d')
    → ((leave realm player w).0 ≡ ok tt)
      × ((leave realm player w).1.groups_cache realm key
          ≡ some (record g {
            leader_guid = heir;
            members = record (g.members) { len = g.members.len - 1 };
          }))
      × (members_at (leave realm player w).1 realm key ≡ remove_at i (members_at w realm key))
      × IsHeir heir player (slice_of w.arrays g.members)
unfolding leave members_of remove_found
leave_hands_over {e} w realm player key g p m i heir d d' ne c loaded member listed same leads big
      next updated deleted =
    ground (
      arith,
      group_id_by_player_lem w realm key player g p m i c.realm_fits member,
      group_by_id_lem w realm key c.realm_fits,
      next,
      next_leader-IsHeir player (slice_of w.arrays g.members),
      remove_member-members_at led realm key player (record g { leader_guid = heir }) p m i d'
          led-IsCached led-IsMember deleted,
      change_group_leader_lem w realm key g heir d c.realm_fits loaded same updated,
      group_by_id_lem led realm key c.realm_fits,
      remove_member_lem led realm key player (record g { leader_guid = heir }) p m i d' led-IsCached
          led-IsMember deleted,
    )
  where
    led : World e
    led = record w {
      db = d;
      groups_cache =
          store_realm
            (store_realm w.groups_cache realm
              (put (w.groups_cache realm) key (record g { leader_guid = heir })))
            realm
            (put
              (store_realm w.groups_cache realm
                (put (w.groups_cache realm) key (record g { leader_guid = heir })) realm)
              g.id (record g { leader_guid = heir }));
    }

    led-IsCached : IsCached led realm key (record g { leader_guid = heir })
    led-IsCached = record {
      realm_fits = c.realm_fits;
      found = ground arith;
      fits = c.fits;
      allocated = c.allocated;
    }

    led-IsMember : IsMember led realm key player (record g { leader_guid = heir }) p m i
    led-IsMember = record {
      pointer = member.pointer;
      cell = member.cell;
      of_group = member.of_group;
      index = member.index;
    }

-- When a leader leaves a group of more than two in which nobody else is online, the group gets 0 for
-- its leader, whoever the members are.
pub leave_without_heir :
    {e : Env} (w : World e) (realm player key : ℕ) (g : Group) (p : MemberPtr) (m : GroupMember)
    (i : ℕ) (d d' : e.Db)
    → key ≢ 0
    → IsCached w realm key g
    → w.is_loaded realm ≡ true
    → IsMember w realm key player g p m i
    → member_by_guid (slice_of w.arrays g.members) player ≡ some m
    → g.id ≡ key
    → g.leader_guid ≡ player
    → 2 < g.members.len
    → AllOfflineBut player (slice_of w.arrays g.members)
    → e.update_group w.db realm (record g { leader_guid = 0 }) ≡ (some tt, d)
    → e.delete_member d realm player ≡ (some tt, d')
    → ((leave realm player w).0 ≡ ok tt)
      × ((leave realm player w).1.groups_cache realm key
          ≡ some (record g {
            leader_guid = 0;
            members = record (g.members) { len = g.members.len - 1 };
          }))
leave_without_heir w realm player key g p m i d d' ne c loaded member listed same leads big alone
      updated deleted =
    let over =
      leave_hands_over w realm player key g p m i 0 d d' ne c loaded member listed same leads big
        (next_leader-none player (slice_of w.arrays g.members) alone) updated deleted in
    (over.0, over.1)
