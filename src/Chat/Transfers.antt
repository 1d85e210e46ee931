-- ===== src/Chat/Transfers.antt =====
-- apps/chatserver/service/channel-manager.go: the owner flag through `SetOwner`, a logout and the
-- removal of members that are offline.
use athena_wow_cluster.Prelude.{
  ℕ, ◌≡◌, refl, sym, subst, true, false, not, ◌||◌, Option, some, List, ◌==◌, Bool-cases,
  Option-cases, inl, inr, arith,
}
use athena_wow_cluster.Chat.Model.{
  ChannelMember, member_flag_owner, has_flag, set_flag, clear_flag, find_member, delete_member,
  write_flags,
}
use athena_wow_cluster.Chat.Calls.{Env, Moment, Local}
use athena_wow_cluster.Chat.Invariant.{Keeps, transfer_to-Keeps}
use athena_wow_cluster.Chat.Channel.{
  restore_flags, transfer_to, remove_old_owner, set_owner, take_ownership, transfer_on_logout,
  hand_over,
}
use athena_wow_cluster.Chat.Queries.{get_member_flags, next_owner}
use athena_wow_cluster.Chat.Members.{
  IsOrder, Distinct, next_owner_found, find_member-delete_member, find_member-write_flags,
  delete_member-Distinct,
}
use athena_wow_cluster.Chat.Undo.{
  flags_back, restore_taken, restore_nobody, restore_absent, take_ownership_undone,
}
use athena_wow_cluster.Chat.Owners.{
  WellFormed, Ownerless, write_owner-WellFormed, clear_owner-Ownerless, no_owner-Ownerless,
  has_flag-set_flag, has_flag-clear_flag,
}

module _ {e : Env} where
  take_ownership-Keeps :
      (owner flags realm guid : ℕ) (m : ChannelMember) (st : Local e)
      → WellFormed (restore_flags owner flags st.ch)
      → Ownerless st.ch
      → find_member st.ch.members guid ≡ some m
      → Keeps (take_ownership owner flags realm guid st)
  unfolding take_ownership
  take_ownership-Keeps owner flags realm guid m st wf o found =
      elim (Option-cases (e.update_flags st.db realm st.ch.channel_id guid f).0) [
        | inl n ↦
            subst WellFormed (sym (take_ownership_undone owner flags realm guid m st found n)) wf
        | inr (u, r) ↦ rw r (
            write_owner-WellFormed st.ch guid f m o found
              (has_flag-set_flag (get_member_flags st.ch guid)))
      ]
    where
      f : ℕ
      f = set_flag member_flag_owner (get_member_flags st.ch guid)

  pub set_owner-Keeps :
      (realm guid : ℕ) (st : Local e) → WellFormed st.ch → Keeps (set_owner realm guid st)
  unfolding set_owner remove_old_owner
  set_owner-Keeps realm guid st wf = elim (Option-cases (find_member st.ch.members guid)) [
    | inl n ↦ rw n wf
    | inr (m, found) ↦ rw found (elim (Bool-cases (st.ch.owner_guid == 0)) [
      | inl z ↦ rw z (
          take_ownership-Keeps st.ch.owner_guid 0 realm guid m st
            (subst WellFormed (sym (restore_nobody st.ch z)) wf)
            (no_owner-Ownerless st.ch wf (ground (arith, wf.no_zero))) found)
      | inr z ↦ rw z (elim (Option-cases (find_member st.ch.members st.ch.owner_guid)) [
        | inl n ↦ rw n (
            take_ownership-Keeps st.ch.owner_guid 0 realm guid m st
              (subst WellFormed (sym (restore_absent st.ch z n)) wf) (no_owner-Ownerless st.ch wf n)
              found)
        | inr (x, r) ↦ rw r (elim (Option-cases (cleared x).0) [
          | inl n ↦ rw n (
              subst WellFormed
                (sym (flags_back st.ch st.ch.owner_guid (clear_flag member_flag_owner x.flags) r))
                wf)
          | inr (u, written) ↦ rw written (from_former m found x z r)
        ])
      ])
    ])
  ]
    where
      cleared : ChannelMember → Option (Unit {0}) × e.Db
      cleared x =
          e.update_flags st.db realm st.ch.channel_id st.ch.owner_guid
            (clear_flag member_flag_owner x.flags)

      without : ChannelMember → Local e
      without x = record {
        ch = record st.ch {
          members =
              write_flags st.ch.members st.ch.owner_guid (clear_flag member_flag_owner x.flags);
        };
        db = (cleared x).1;
      }

      from_former :
          (m : ChannelMember)
          → find_member st.ch.members guid ≡ some m
          → (x : ChannelMember) → (st.ch.owner_guid == 0) ≡ false
          → find_member st.ch.members st.ch.owner_guid ≡ some x
          → Keeps (take_ownership st.ch.owner_guid x.flags realm guid (without x))
      from_former m found x owned was =
          elim (Option-cases (find_member (without x).ch.members guid)) [
            | inl n ↦ absurd (
                ground (
                  arith,
                  find_member-write_flags st.ch.members st.ch.owner_guid
                      (clear_flag member_flag_owner x.flags) guid,
                ))
            | inr (y, there) ↦
                take_ownership-Keeps st.ch.owner_guid x.flags realm guid y (without x)
                  (subst WellFormed
                    (sym (restore_taken st.ch (clear_flag member_flag_owner x.flags) owned was)) wf)
                  (clear_owner-Ownerless st.ch (clear_flag member_flag_owner x.flags) wf
                    (has_flag-clear_flag x.flags))
                  there
          ]

  pub transfer_on_logout-Keeps :
      (t : Moment) (realm player : ℕ) (st : Local e)
      → IsOrder t
      → WellFormed st.ch
      → Keeps (transfer_on_logout t realm player st)
  unfolding transfer_on_logout hand_over
  transfer_on_logout-Keeps t realm player st order wf =
      elim (Option-cases (find_member st.ch.members player)) [
        | inl n ↦ rw n wf
        | inr (m, found) ↦
            rw found
              (elim (Bool-cases (not (has_flag member_flag_owner m.flags) || not st.ch.ownership)) [
                | inl f ↦ rw f wf
                | inr f ↦ rw f (elim (Bool-cases (next_owner others == 0)) [
                  | inl z ↦ rw z wf
                  | inr z ↦ rw z (
                      give m found (ground arith) (
                        next_owner_found others (next_owner others) others_distinct refl
                          (ground arith)))
                ])
              ])
      ]
    where
      others : List ChannelMember
      others = delete_member (t.order st.ch.members) player

      others_distinct : Distinct others
      others_distinct = delete_member-Distinct _ player (order _ wf.distinct).0

      without : ChannelMember → Local e
      without m = record {
        ch = record st.ch {
          members = write_flags st.ch.members player (clear_flag member_flag_owner m.flags);
        };
        db =
            (e.update_flags st.db realm st.ch.channel_id player
              (clear_flag member_flag_owner m.flags)).1;
      }

      give :
          (m : ChannelMember)
          → find_member st.ch.members player ≡ some m
          → has_flag member_flag_owner m.flags ≡ true
          → (x : ChannelMember) × (find_member others (next_owner others) ≡ some x)
          → Keeps (transfer_to realm (next_owner others) (without m))
      give m found flag (x, there) =
          transfer_to-Keeps realm (next_owner others) x (without m)
            (subst
              (λ g. Ownerless (record st.ch {
                members = write_flags st.ch.members g (clear_flag member_flag_owner m.flags);
              }))
              (sym (wf.only_owner player m found flag))
              (clear_owner-Ownerless st.ch (clear_flag member_flag_owner m.flags) wf
                (has_flag-clear_flag m.flags)))
            (ground (
              arith,
              find_member-write_flags st.ch.members player (clear_flag member_flag_owner m.flags)
                  (next_owner others),
              find_member-delete_member (t.order st.ch.members) player (next_owner others),
              (order _ wf.distinct).1 (next_owner others),
            ))
