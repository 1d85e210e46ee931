-- ===== src/Guilds/Consistency.antt =====
-- apps/guildserver/service/guilds-cache_inmem.go: the two maps of the cache tell the same, whatever
-- methods are called.
use athena_wow_cluster.Prelude.{
  ℕ, ◌≡◌, ◌≢◌, ◌∙◌, sym, ap, subst, ◌<◌, ◌+◌, some, List, [], ◌∷◌, ◌++◌, Any, Any-append_left,
  Any-append_right, ◌==◌, inl, inr, Bool-cases, Option-cases, arith,
}
use athena_wow_cluster.Guilds.Model.{GuildMember, Guild}
use athena_wow_cluster.Guilds.World.{Env, World}
use athena_wow_cluster.Guilds.Cache.{
  put_in, put_cell, remove_first, change_guild, change_guild_if, change_member_if, forget_member,
}

abbrev Listed : ℕ → List ℕ → Type 0
Listed p = Any (λ q. q ≡ p)

-- The pointer leads to a member whose guild is in the cache and lists it.
abbrev pub IsListed : {e : Env} → World e → ℕ → ℕ → Type 0
IsListed w realm p =
    (g : Guild) × (w.cache realm (w.cells p).guild_id ≡ some g) × Any (λ q. q ≡ p) g.guild_members

-- Every member in the map of members has its own GUID there, and its guild lists it.
pub record IsConsistent {e : Env} (w : World e) (realm : ℕ) : Type 0 where
  pub is_fresh : (guid p : ℕ) → w.guild_members_cache realm guid ≡ some p → p < w.next_cell
  pub own_guid :
      (guid p : ℕ) → w.guild_members_cache realm guid ≡ some p → (w.cells p).player_guid ≡ guid
  pub in_guild : (guid p : ℕ) → w.guild_members_cache realm guid ≡ some p → IsListed w realm p

moved : (q : ℕ) (h g : Guild) → h ≡ g → Listed q h.guild_members → Listed q g.guild_members
moved q h g e l = subst (λ (x : Guild). Listed q x.guild_members) e l

remove_first-keeps :
    (cells : ℕ → GuildMember) (guid p : ℕ) (ps : List ℕ)
    → (cells p).player_guid ≢ guid
    → Any (λ q. q ≡ p) ps
    → Any (λ q. q ≡ p) (remove_first cells guid ps)
unfolding remove_first
remove_first-keeps cells guid p [] other l = elim l [ ]
remove_first-keeps cells guid p (q ∷ ps) other l =
    ground (arith, remove_first-keeps cells guid p ps other)

module _ {e : Env} (w : World e) (realm : ℕ) (c : IsConsistent w realm) where
  pub change_guild_if-IsConsistent :
      (id : ℕ) (f : Guild → Guild)
      → ((g : Guild) → (f g).guild_members ≡ g.guild_members)
      → IsConsistent (change_guild_if realm id f w).1 realm
  unfolding change_guild_if
  change_guild_if-IsConsistent id f same = elim (Option-cases (w.cache realm id)) [
    | inl n ↦ rw (n, change_guild_if) c
    | inr (g, found) ↦
        rw (found, change_guild_if)
          (record {
            is_fresh = c.is_fresh;
            own_guid = c.own_guid;
            in_guild = λ guid p h. listed g found guid p (c.in_guild guid p h);
          })
  ]
    where
      members : (g h : Guild) → h ≡ g → h.guild_members ≡ (f g).guild_members
      members g h q = ap (λ x. x.guild_members) q ∙ sym (same g)

      listed :
          (g : Guild)
          → w.cache realm id ≡ some g
          → (guid p : ℕ) → IsListed w realm p
          → IsListed (record w { cache = put_in w.cache realm id (f g) }) realm p
      listed g found guid p (h, there, l) = elim (Bool-cases (id == (w.cells p).guild_id)) [
        | inl q ↦ (f g, ground arith, subst (Any (λ r. r ≡ p)) (members g h (ground arith)) l)
        | inr q ↦ (h, ground arith, l)
      ]

  pub change_member_if-IsConsistent :
      (guid : ℕ) (f : GuildMember → GuildMember)
      → ((m : GuildMember) → ((f m).player_guid ≡ m.player_guid) × ((f m).guild_id ≡ m.guild_id))
      → IsConsistent (change_member_if realm guid f w).1 realm
  unfolding change_member_if
  change_member_if-IsConsistent guid f same =
      elim (Option-cases (w.guild_members_cache realm guid)) [
        | inl n ↦ rw (n, change_member_if) c
        | inr (p, found) ↦
            rw (found, change_member_if)
              (record {
                is_fresh = c.is_fresh;
                own_guid = λ h q l. ground (arith, c.own_guid h q, same (w.cells p));
                in_guild = λ h q l. listed p q (c.in_guild h q l);
              })
      ]
    where
      listed :
          (p q : ℕ)
          → IsListed w realm q
          → IsListed (record w { cells = put_cell w.cells p (f (w.cells p)) }) realm q
      listed p q (g, there, l) = (g, ground (arith, same (w.cells p)), l)

  pub forget_member-IsConsistent : (guid : ℕ) → IsConsistent (forget_member realm guid w).1 realm
  unfolding forget_member
  forget_member-IsConsistent guid = elim (Option-cases (w.guild_members_cache realm guid)) [
    | inl n ↦ rw (n, forget_member) c
    | inr (p, found) ↦
        rw (found, forget_member)
          (elim (Option-cases (w.cache realm (w.cells p).guild_id)) [
            | inl n ↦
                rw (n, change_guild)
                  (record {
                    is_fresh = λ h q l. ground (arith, c.is_fresh h q);
                    own_guid = λ h q l. ground (arith, c.own_guid h q);
                    in_guild = λ h q l. c.in_guild h q (ground arith);
                  })
            | inr (g, there) ↦
                rw (there, change_guild)
                  (record {
                    is_fresh = λ h q l. ground (arith, c.is_fresh h q);
                    own_guid = λ h q l. ground (arith, c.own_guid h q);
                    in_guild = λ h q l.
                        listed p g there q (ground (arith, c.own_guid h q))
                          (c.in_guild h q (ground arith));
                  })
          ])
  ]
    where
      listed :
          (p : ℕ) (g : Guild)
          → w.cache realm (w.cells p).guild_id ≡ some g
          → (q : ℕ) → (w.cells q).player_guid ≢ guid
          → IsListed w realm q
          → IsListed
              (record w {
                cache =
                    put_in w.cache realm
                      (w.cells p).guild_id
                      (record g { guild_members = remove_first w.cells guid g.guild_members });
              })
              realm
              q
      listed p g there q other (h, at, l) =
          elim (Bool-cases ((w.cells p).guild_id == (w.cells q).guild_id)) [
            | inl same ↦ (
              record g { guild_members = remove_first w.cells guid g.guild_members },
              ground arith,
              remove_first-keeps w.cells guid q g.guild_members other
                  (moved q h g (ground arith) l),
            )
            | inr differ ↦ (h, ground arith, l)
          ]

  pub add_guild_member-IsConsistent :
      (m : GuildMember) (d : e.Db) (g : Guild)
      → w.cache realm m.guild_id ≡ some g
      → IsConsistent
          (record w {
            guild_members_cache = put_in w.guild_members_cache realm m.player_guid w.next_cell;
            cells = put_cell w.cells w.next_cell m;
            next_cell = w.next_cell + 1;
            cache =
                put_in w.cache realm m.guild_id
                  (record g { guild_members = g.guild_members ++ w.next_cell ∷ [] });
            db = d;
          })
          realm
  add_guild_member-IsConsistent m d g there = record {
    is_fresh = λ h q l. ground (arith, c.is_fresh h q);
    own_guid = λ h q l. ground (arith, c.own_guid h q, c.is_fresh h q);
    in_guild = λ h q l. elim (Bool-cases (m.player_guid == h)) [
      | inl new ↦ (
        extended,
        ground arith,
        Any-append_right (λ r. r ≡ q) g.guild_members (w.next_cell ∷ []) (inl (ground arith)),
      )
      | inr old ↦ kept q (c.is_fresh h q (ground arith)) (c.in_guild h q (ground arith))
    ];
  }
    where
      extended : Guild
      extended = record g { guild_members = g.guild_members ++ w.next_cell ∷ [] }

      kept :
          (q : ℕ)
          → q < w.next_cell
          → IsListed w realm q
          → IsListed
              (record w {
                cells = put_cell w.cells w.next_cell m;
                cache = put_in w.cache realm m.guild_id extended;
              })
              realm
              q
      kept q fresh (h, at, l) = elim (Bool-cases (m.guild_id == (w.cells q).guild_id)) [
        | inl same ↦ (
          extended,
          ground arith,
          Any-append_left (λ r. r ≡ q) g.guild_members (w.next_cell ∷ [])
              (moved q h g (ground arith) l),
        )
        | inr differ ↦ (h, ground arith, l)
      ]
