-- ===== src/Groups/Joining.antt =====
-- apps/groupserver/service/group.go: a player joins a group that exists, and a group of two ends.
use athena_wow_cluster.Prelude.{
  ℕ, ◌≤◌, ◌<◌, ◌≡◌, refl, ◌≢◌, ◌⊎◌, inl, inr, true, none, some, List, [], ◌∷◌, ◌++◌, append_assoc,
  arith, lt→ltb, Option-cases, Any, Map, delete,
}
use athena_wow_cluster.Groups.Model.{
  GroupMember, Group, GroupInvite, member_by_guid, online_member_guids,
}
use athena_wow_cluster.Groups.World.{
  Env, World, ok, MemberPtr, member_added, group_disband, slice_of,
}
use athena_wow_cluster.Groups.Cells.{max_realm_id, forget, store_realm}
use athena_wow_cluster.Groups.Cache.{members_of, delete_group_by_id, append_member}
use athena_wow_cluster.Groups.Parts.{new_member, disband, add_member_by_invite, online_at}
use athena_wow_cluster.Groups.Membership.{accept_invite, leave}
use athena_wow_cluster.Groups.Pointers.{
  members_at, IsCached, group_by_id_lem, add_member_lem, members_at-add_member,
}
use athena_wow_cluster.Groups.Removal.{IsMember, group_id_by_player_lem}

online_member_guids-append :
    (xs ys : List GroupMember)
    → online_member_guids (xs ++ ys) ≡ online_member_guids xs ++ online_member_guids ys
unfolding online_member_guids
online_member_guids-append [] ys = refl
online_member_guids-append (x ∷ xs) ys = ground (arith, online_member_guids-append xs ys)

online_at_lem :
    {e : Env} (w : World e) (realm key : ℕ)
    → realm < max_realm_id
    → w.groups_cache realm key ≢ none
    → online_at realm key w ≡ (ok (online_member_guids (members_at w realm key)), w)
unfolding online_at
online_at_lem w realm key h found = elim (Option-cases (w.groups_cache realm key)) [
  | inl e ↦ absurd (found e)
  | inr (g, e) ↦ ground (arith, lt→ltb realm max_realm_id h)
]

abbrev pub joined : GroupInvite → GroupMember
joined i = record {
  group_id = i.invite_group_id;
  member_guid = i.invitee;
  member_flags = 0;
  member_name = i.invitee_name;
  is_online = true;
  sub_group = 0;
  roles = 0;
}

append_member_lem :
    {e : Env} (w : World e) (realm : ℕ) (m : GroupMember) (g : Group)
    → ((append_member realm g m w).0 ≡ ok tt)
      × ((append_member realm g m w).1.groups_cache realm m.group_id ≢ none)
      × ((append_member realm g m w).1.published ≡ w.published)
unfolding append_member
append_member_lem w realm m g = ground arith

online-joined : (i : GroupInvite) → online_member_guids (joined i ∷ []) ≡ i.invitee ∷ []
unfolding online_member_guids
online-joined i = refl

-- Accepting an invitation into a group makes the player its last member. The event goes to the members
-- who were online and then to the new one, twice.
pub accept_invite_joins :
    {e : Env} (w : World e) (realm player : ℕ) (i : GroupInvite) (g : Group) (d : e.Db)
    → e.select_invite w.db realm player ≡ some (some i)
    → i.invite_group_id ≢ 0
    → IsCached w realm i.invite_group_id g
    → e.insert_member w.db realm (joined i) ≡ (some tt, d)
    → let r = accept_invite realm player w in
      (r.0 ≡ ok tt)
      × (members_at r.1 realm i.invite_group_id
          ≡ members_at w realm i.invite_group_id ++ joined i ∷ [])
      × (r.1.published
          ≡ w.published
            ++ member_added realm i.invite_group_id i.invitee i.invitee_name (
                online_member_guids (members_at w realm i.invite_group_id)
                ++ i.invitee ∷ i.invitee ∷ [])
              ∷ [])
unfolding accept_invite add_member_by_invite new_member
accept_invite_joins {e} w realm player i g d invited ne c inserted = ground (
  arith,
  group_by_id_lem w realm i.invite_group_id c.realm_fits,
  add_member_lem w realm (joined i) g d c inserted,
  members_at-add_member w realm (joined i) g d c inserted,
  appended,
  online_at_lem (append_member realm g (joined i) (record w { db = d })).1 realm i.invite_group_id
      c.realm_fits appended.1,
  online_member_guids-append (members_at w realm i.invite_group_id) (joined i ∷ []),
  online-joined i,
  append_assoc (online_member_guids (members_at w realm i.invite_group_id)) (i.invitee ∷ [])
      (i.invitee ∷ []),
)
  where
    appended :
        ((append_member realm g (joined i) (record w { db = d })).0 ≡ ok tt)
        × ((append_member realm g (joined i) (record w { db = d })).1.groups_cache realm
              i.invite_group_id
            ≢ none)
        × ((append_member realm g (joined i) (record w { db = d })).1.published ≡ w.published)
    appended = append_member_lem (record w { db = d }) realm (joined i) g

forget-listed :
    (c : Map MemberPtr) (player : ℕ) (ms : List GroupMember)
    → (c player ≡ none) ⊎ Any (λ (m : GroupMember). m.member_guid ≡ player) ms
    → forget c ms player ≡ none
unfolding forget
forget-listed c player [] (inl h) = h
forget-listed c player [] (inr h) = elim h [ ]
forget-listed c player (m ∷ ms) h = forget-listed (delete c m.member_guid) player ms (ground arith)

disband_lem :
    {e : Env} (w : World e) (realm key : ℕ) (g : Group) (d : e.Db)
    → IsCached w realm key g
    → g.id ≡ key
    → e.delete_group w.db realm key ≡ (some tt, d)
    → disband realm g w ≡ (
      ok tt,
      record w {
        db = d;
        group_members_cache =
            store_realm w.group_members_cache realm
              (forget (w.group_members_cache realm) (slice_of w.arrays g.members));
        groups_cache = store_realm w.groups_cache realm (delete (w.groups_cache realm) key);
        published =
            w.published
            ++ group_disband realm key (online_member_guids (slice_of w.arrays g.members)) ∷ [];
      },
    )
unfolding disband delete_group_by_id members_of
disband_lem w realm key g d c same deleted =
    rw same (rw deleted (rw (lt→ltb realm max_realm_id c.realm_fits) (rw (c.found))))

leave_small :
    {e : Env} (w : World e) (realm player key : ℕ) (g : Group) (p : MemberPtr) (m : GroupMember)
    (i : ℕ)
    → key ≢ 0
    → IsCached w realm key g
    → IsMember w realm key player g p m i
    → member_by_guid (slice_of w.arrays g.members) player ≡ some m
    → g.members.len ≤ 2
    → leave realm player w ≡ disband realm g w
unfolding leave members_of
leave_small w realm player key g p m i ne c member listed small = ground (
  arith,
  group_id_by_player_lem w realm key player g p m i c.realm_fits member,
  group_by_id_lem w realm key c.realm_fits,
)

-- A member who leaves a group of at most two ends it: the group is gone, none of its members has a
-- pointer any more, and those online are told.
pub leave_disbands :
    {e : Env} (w : World e) (realm player key : ℕ) (g : Group) (p : MemberPtr) (m : GroupMember)
    (i : ℕ) (d : e.Db)
    → key ≢ 0
    → IsCached w realm key g
    → IsMember w realm key player g p m i
    → member_by_guid (slice_of w.arrays g.members) player ≡ some m
    → g.id ≡ key
    → g.members.len ≤ 2
    → e.delete_group w.db realm key ≡ (some tt, d)
    → let r = leave realm player w in
      (r.0 ≡ ok tt)
      × (r.1.groups_cache realm key ≡ none)
      × ((other : ℕ)
          → Any (λ (m : GroupMember). m.member_guid ≡ other) (members_at w realm key)
          → r.1.group_members_cache realm other ≡ none)
      × (r.1.published
          ≡ w.published
            ++ group_disband realm key (online_member_guids (members_at w realm key)) ∷ [])
leave_disbands w realm player key g p m i d ne c member listed same small deleted =
    rw (leave_small w realm player key g p m i ne c member listed small) (
      rw (disband_lem w realm key g d c same deleted) (
        refl,
        ground arith,
        λ other h. ground (
          arith,
          forget-listed (w.group_members_cache realm) other (members_at w realm key) (inr h),
          c.found,
        ),
        ground (arith, c.found),
      ))
