-- ===== src/Groups/Cache.antt =====
-- apps/groupserver/service/group-cache_inmem.go, over the writes of apps/groupserver/repo/group_mysql.go.
use athena_wow_cluster.Prelude.{
  ℕ, zero, suc, ◌+◌, ◌-◌, Bool, true, Option, none, some, List, [], ◌∷◌, ◌++◌, map, ltb,
  if◌then◌else◌, length, get_elem?, set, take, replicate, empty_map, put, delete,
}
use athena_wow_cluster.Groups.Model.{GroupMember, Slice, Group, zero_member}
use athena_wow_cluster.Groups.World.{
  Env, M, ok, err, panic, MemberPtr, ◌>>=◌, ◌>>◌, pure, deref, query, slice_of, database_error,
}
use athena_wow_cluster.Groups.Cells.{
  max_realm_id, store_array, store_realm, append_cells, remove_cells, index_of, point_at, forget,
  with_group_id,
}

-- The capacity of a slice after so many `append` to nil, as `LoadAllForRealm` builds the members; `spare`
-- is Go's choice of how many cells a new array has to spare.
unfoldable pub appended_capacity : (spare : ℕ → ℕ) → ℕ → ℕ
appended_capacity spare zero = 0
appended_capacity spare (suc n) =
    let before = appended_capacity spare n in if ltb n before then before else n + 1 + spare n

unfoldable pub loaded_array : (spare : ℕ → ℕ) → List GroupMember → List GroupMember
unfolding appended_capacity
loaded_array spare ms =
    ms ++ replicate (appended_capacity spare (length ms) - length ms) zero_member

module _ {e : Env} where
  -- Indexing `[MaxRealmID]map…` with a realm that it does not have.
  abbrev pub at_realm : ℕ → M e (Unit {0})
  at_realm realm w = (if ltb realm max_realm_id then ok tt else panic, w)

  -- A write into the maps of a realm that was not warmed up.
  abbrev pub not_nil : ℕ → M e (Unit {0})
  not_nil realm w = (if w.is_loaded realm then ok tt else panic, w)

  unfoldable pub group_by_id : ℕ → ℕ → M e (Option Group)
  group_by_id realm group_id = do at_realm realm; (λ w. (ok (w.groups_cache realm group_id), w))

  -- `*ptr`.
  unfoldable pub load_member : MemberPtr → M e GroupMember
  load_member p w = deref (get_elem? (w.arrays p.ptr_array) p.ptr_index) w

  unfoldable pub group_id_of : Option MemberPtr → M e ℕ
  unfolding load_member
  group_id_of none = pure 0
  group_id_of (some p) = do m ← load_member p; pure m.group_id

  unfoldable pub group_id_by_player : ℕ → ℕ → M e ℕ
  unfolding group_id_of
  group_id_by_player realm player = do
    at_realm realm
    (λ w. group_id_of (w.group_members_cache realm player) w)

  -- The members of a group now.
  unfoldable pub members_of : Group → M e (List GroupMember)
  members_of g w = (ok (slice_of w.arrays g.members), w)

  -- A write to the fields of a group object.
  unfoldable pub store_group : ℕ → ℕ → Group → M e (Unit {0})
  store_group realm key g w = (
    ok tt,
    record w { groups_cache = store_realm w.groups_cache realm (put (w.groups_cache realm) key g) },
  )

  -- `Create`: the database gives the id, which `groupsRepoMysql.Create` writes into the group and its
  -- members; the slice literal's array has no spare cell.
  unfoldable pub create : ℕ → Group → List GroupMember → M e Group
  unfolding store_group
  create realm g ms = do
    new_id ← query (λ d. e.insert_group d realm g ms)
    at_realm realm
    not_nil realm
    (λ w.
        let cells = map (with_group_id new_id) ms in
        let g' = record g {
          id = new_id;
          members = record { array = w.next_array; len = length ms };
        } in
        (
          ok g',
          record w {
            groups_cache = store_realm w.groups_cache realm (put (w.groups_cache realm) new_id g');
            arrays = store_array w.arrays w.next_array cells;
            next_array = w.next_array + 1;
            group_members_cache =
                store_realm w.group_members_cache realm
                  (point_at (w.group_members_cache realm) w.next_array 0 cells);
          },
        ))

  unfoldable pub delete_group_by_id : ℕ → ℕ → M e (Unit {0})
  unfolding group_by_id members_of
  delete_group_by_id realm group_id = do
    query (λ d. e.delete_group d realm group_id)
    found ← group_by_id realm group_id
    g ← deref found
    ms ← members_of g
    (λ w. (
      ok tt,
      record w {
        group_members_cache =
            store_realm w.group_members_cache realm (forget (w.group_members_cache realm) ms);
        groups_cache = store_realm w.groups_cache realm (delete (w.groups_cache realm) group_id);
      },
    ))

  -- `Update` stores the pointer again under the group's own id.
  unfoldable pub update : ℕ → Group → M e (Unit {0})
  unfolding store_group
  update realm g = do
    query (λ d. e.update_group d realm g)
    at_realm realm
    not_nil realm
    store_group realm g.id g

  unfoldable pub append_member : ℕ → Group → GroupMember → M e (Unit {0})
  append_member realm g m w =
      let cells = w.arrays g.members.array in
      let n = g.members.len in
      let grown : List GroupMember = take n cells ++ m ∷ replicate (e.spare_cells n) zero_member in
      let moved : Slice = record { array = w.next_array; len = n + 1 } in
      let kept : Slice = record (g.members) { len = n + 1 } in
      let enter = λ (a : ℕ). store_realm w.group_members_cache realm (
        put (w.group_members_cache realm) m.member_guid
          (record { ptr_array = a; ptr_index = n })) in
      let enter_group = λ (s : Slice).
        store_realm w.groups_cache realm
          (put (w.groups_cache realm) m.group_id (record g { members = s })) in
      (
        ok tt,
        if ltb n (length cells)
            then record w {
              groups_cache = enter_group kept;
              arrays = store_array w.arrays g.members.array (append_cells cells n m);
              group_members_cache = enter g.members.array;
            }
            else record w {
              groups_cache = enter_group moved;
              arrays = store_array w.arrays w.next_array grown;
              next_array = w.next_array + 1;
              group_members_cache = enter w.next_array;
            },
      )

  unfoldable pub add_member : ℕ → GroupMember → M e (Unit {0})
  unfolding group_by_id append_member
  add_member realm m = do
    query (λ d. e.insert_member d realm m)
    found ← group_by_id realm m.group_id
    g ← deref found
    append_member realm g m

  write_cell : ℕ → ℕ → GroupMember → M e (Unit {0})
  write_cell a i m w = (ok tt, record w { arrays = store_array w.arrays a (set (w.arrays a) i m) })

  enter_pointer : ℕ → ℕ → MemberPtr → M e (Unit {0})
  enter_pointer realm guid p w = (
    ok tt,
    record w {
      group_members_cache =
          store_realm w.group_members_cache realm (put (w.group_members_cache realm) guid p);
    },
  )

  unfoldable pub update_found : ℕ → Group → GroupMember → Option ℕ → M e (Unit {0})
  unfolding write_cell enter_pointer
  update_found realm g m none = pure tt
  update_found realm g m (some i) = do
    write_cell g.members.array i m
    enter_pointer realm m.member_guid (record { ptr_array = g.members.array; ptr_index = i })

  unfoldable pub update_member : ℕ → GroupMember → M e (Unit {0})
  unfolding group_by_id members_of update_found
  update_member realm m = do
    query (λ d. e.update_member d realm m)
    found ← group_by_id realm m.group_id
    g ← deref found
    ms ← members_of g
    update_found realm g m (index_of ms m.member_guid 0)

  unfoldable pub remove_found : ℕ → ℕ → Group → ℕ → Option ℕ → M e (Unit {0})
  remove_found realm group_id g guid none w = (ok tt, w)
  remove_found realm group_id g guid (some i) w = (
    ok tt,
    record w {
      arrays =
          store_array w.arrays g.members.array
            (remove_cells (w.arrays g.members.array) g.members.len i);
      groups_cache = store_realm w.groups_cache realm (
          put (w.groups_cache realm) group_id
            (record g { members = record (g.members) { len = g.members.len - 1 } }));
      group_members_cache =
          store_realm w.group_members_cache realm (delete (w.group_members_cache realm) guid);
    },
  )

  unfoldable pub remove_member : ℕ → ℕ → M e (Unit {0})
  unfolding group_by_id group_id_by_player members_of remove_found
  remove_member realm guid = do
    query (λ d. e.delete_member d realm guid)
    group_id ← group_id_by_player realm guid
    found ← group_by_id realm group_id
    g ← deref found
    ms ← members_of g
    remove_found realm group_id g guid (index_of ms guid 0)

  unfoldable pub set_online_at : Bool → Option MemberPtr → M e (Unit {0})
  unfolding load_member write_cell
  set_online_at online none = pure tt
  set_online_at online (some p) = do
    m ← load_member p
    write_cell p.ptr_array p.ptr_index (record m { is_online = online })

  -- `HandleCharacterLoggedIn` and `HandleCharacterLoggedOut` of the cache.
  unfoldable pub set_online : Bool → ℕ → ℕ → M e (Unit {0})
  unfolding set_online_at
  set_online online realm guid = do
    at_realm realm
    (λ w. set_online_at online (w.group_members_cache realm guid) w)

  -- The loop of `Warmup` over the groups loaded, each with an array of its own.
  unfoldable pub warmup_groups : ℕ → List (Group × List GroupMember) → M e (Unit {0})
  unfolding loaded_array
  warmup_groups realm [] w = (ok tt, w)
  warmup_groups realm ((g, ms) ∷ gs) w = warmup_groups realm gs (record w {
    groups_cache = store_realm w.groups_cache realm (
        put (w.groups_cache realm) g.id
          (record g { members = record { array = w.next_array; len = length ms } }));
    arrays = store_array w.arrays w.next_array (loaded_array e.spare_cells ms);
    next_array = w.next_array + 1;
    group_members_cache =
        store_realm w.group_members_cache realm
          (point_at (w.group_members_cache realm) w.next_array 0 ms);
  })

  -- `Warmup`, with what `LoadAllForRealm` returned.
  unfoldable pub warmup : ℕ → Option (List (Group × List GroupMember)) → M e (Unit {0})
  warmup realm loaded = do
    (λ w. (if ltb max_realm_id realm then panic else ok tt, w))
    groups ← (λ w. (elim loaded [ none ↦ err database_error | some gs ↦ ok gs ], w))
    at_realm realm
    (λ w. (
      ok tt,
      record w {
        groups_cache = store_realm w.groups_cache realm empty_map;
        group_members_cache = store_realm w.group_members_cache realm empty_map;
        is_loaded = store_realm w.is_loaded realm true;
      },
    ))
    warmup_groups realm groups
