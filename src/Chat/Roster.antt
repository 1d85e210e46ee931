-- ===== src/Chat/Roster.antt =====
-- apps/chatserver/service/channel-manager.go: which calls change who is a member of a channel, and
-- who is banned from it.
use athena_wow_cluster.Prelude.{
  ℕ, ◌≡◌, ◌∙◌, refl, sym, subst, Option, Bool, true, false, not, ◌||◌, some, ◌==◌, if◌then◌else◌,
  Bool-cases, Option-cases, ◌⊎◌, inl, inr, arith,
}
use athena_wow_cluster.Chat.Model.{
  ChannelMember, ActiveChannel, member_flag_owner, has_flag, set_flag, clear_flag, find_member,
  delete_member, put_member, write_flags,
}
use athena_wow_cluster.Chat.Calls.{Env, Moment, Local}
use athena_wow_cluster.Chat.Channel.{
  restore_flags, pick_owner, transfer_to, change_flags, leave_channel, remove_old_owner, set_owner,
  take_ownership, transfer_on_logout, hand_over,
}
use athena_wow_cluster.Chat.Queries.{get_member_flags, give_ownership, next_owner, is_member}
use athena_wow_cluster.Chat.Undo.{
  flags_back, restore_taken, restore_nobody, restore_absent, take_ownership_undone,
  put_back-IsRestored,
}
use athena_wow_cluster.Chat.Members.{find_member-delete_member, find_member-write_flags}

-- The same members, whatever their flags, and the same bans.
pub record SameRoster (a b : ActiveChannel) : Type 0 where
  pub same_bans : b.banned_until ≡ a.banned_until
  pub same_members : (g : ℕ) → is_member b g ≡ is_member a g

-- One member less.
pub record Removed (a : ActiveChannel) (guid : ℕ) (b : ActiveChannel) : Type 0 where
  pub was_member : is_member a guid ≡ true
  pub same_bans : b.banned_until ≡ a.banned_until
  pub others : (g : ℕ) → is_member b g ≡ (if guid == g then false else is_member a g)

pub SameRoster-refl : (a : ActiveChannel) → SameRoster a a
SameRoster-refl a = record { same_bans = refl; same_members = λ g. refl }

equal-SameRoster : {a b : ActiveChannel} → b ≡ a → SameRoster a b
equal-SameRoster {a} e = subst (SameRoster a) (sym e) (SameRoster-refl a)

put_back-SameRoster :
    (ch : ActiveChannel) (guid : ℕ) (m : ChannelMember)
    → find_member ch.members guid ≡ some m
    → SameRoster ch (record ch { members = put_member (delete_member ch.members guid) m })
unfolding is_member
put_back-SameRoster ch guid m found = record {
  same_bans = refl;
  same_members = λ g. ground (arith, (put_back-IsRestored ch guid m found).same_members g);
}

pub SameRoster-trans : {a b c : ActiveChannel} → SameRoster a b → SameRoster b c → SameRoster a c
SameRoster-trans f g = record {
  same_bans = g.same_bans ∙ f.same_bans;
  same_members = λ h. g.same_members h ∙ f.same_members h;
}

pub Removed-trans :
    {a b c : ActiveChannel} {guid : ℕ} → Removed a guid b → SameRoster b c → Removed a guid c
Removed-trans r f = record {
  was_member = r.was_member;
  same_bans = f.same_bans ∙ r.same_bans;
  others = λ h. f.same_members h ∙ r.others h;
}

-- Flags that are written, and another owner.
pub write_flags-SameRoster :
    (ch : ActiveChannel) (g f owner : ℕ)
    → SameRoster ch (record ch { members = write_flags ch.members g f; owner_guid = owner })
unfolding is_member
write_flags-SameRoster ch g f owner = record {
  same_bans = refl;
  same_members = λ h. ground (arith, find_member-write_flags ch.members g f h);
}

module _ {e : Env} where
  transfer_to-SameRoster :
      (realm g : ℕ) (st : Local e) → SameRoster st.ch (transfer_to realm g st).1.ch
  unfolding transfer_to give_ownership
  transfer_to-SameRoster realm g st = write_flags-SameRoster st.ch g _ g

  pub pick_owner-SameRoster :
      (t : Moment) (realm : ℕ) (b : Bool) (st : Local e)
      → SameRoster st.ch (pick_owner t realm b st).1.ch
  unfolding pick_owner
  pick_owner-SameRoster t realm false st = SameRoster-refl st.ch
  pick_owner-SameRoster t realm true st =
      elim (Bool-cases (next_owner (t.order st.ch.members) == 0)) [
        | inl z ↦ rw z (SameRoster-refl st.ch)
        | inr z ↦ rw z (transfer_to-SameRoster realm _ st)
      ]

  pub change_flags-SameRoster :
      (f : ℕ → ℕ) (realm guid : ℕ) (st : Local e)
      → SameRoster st.ch (change_flags f realm guid st).1.ch
  unfolding change_flags
  change_flags-SameRoster f realm guid st = elim (Option-cases (find_member st.ch.members guid)) [
    | inl n ↦ rw n (SameRoster-refl st.ch)
    | inr (m, found) ↦
        rw found
          (elim (Option-cases (e.update_flags st.db realm st.ch.channel_id guid (f m.flags)).0) [
            | inl n ↦ rw n (equal-SameRoster (flags_back st.ch guid (f m.flags) found))
            | inr (u, r) ↦ rw r (write_flags-SameRoster st.ch guid (f m.flags) st.ch.owner_guid)
          ])
  ]

  take_ownership-SameRoster :
      (owner flags realm guid : ℕ) (st : Local e) (old : ActiveChannel) (m : ChannelMember)
      → find_member st.ch.members guid ≡ some m
      → restore_flags owner flags st.ch ≡ old
      → SameRoster old st.ch
      → SameRoster old (take_ownership owner flags realm guid st).1.ch
  unfolding take_ownership
  take_ownership-SameRoster owner flags realm guid st old m found back same =
      elim (Option-cases
        (e.update_flags st.db realm st.ch.channel_id guid
          (set_flag member_flag_owner (get_member_flags st.ch guid))).0) [
            | inl n ↦
                equal-SameRoster (take_ownership_undone owner flags realm guid m st found n ∙ back)
            | inr (u, r) ↦ rw r (SameRoster-trans same (write_flags-SameRoster st.ch guid _ guid))
          ]

  pub set_owner-SameRoster :
      (realm guid : ℕ) (st : Local e) → SameRoster st.ch (set_owner realm guid st).1.ch
  unfolding set_owner remove_old_owner
  set_owner-SameRoster realm guid st = elim (Option-cases (find_member st.ch.members guid)) [
    | inl n ↦ rw n (SameRoster-refl st.ch)
    | inr (m, found) ↦ rw found (elim (Bool-cases (st.ch.owner_guid == 0)) [
      | inl z ↦ rw z (
          take_ownership-SameRoster st.ch.owner_guid 0 realm guid st st.ch m found
            (restore_nobody st.ch z) (SameRoster-refl st.ch))
      | inr z ↦ rw z (elim (Option-cases (find_member st.ch.members st.ch.owner_guid)) [
        | inl n ↦ rw n (
            take_ownership-SameRoster st.ch.owner_guid 0 realm guid st st.ch m found
              (restore_absent st.ch z n) (SameRoster-refl st.ch))
        | inr (x, f) ↦
            rw f
              (elim (Option-cases
                (e.update_flags st.db realm st.ch.channel_id st.ch.owner_guid
                  (clear_flag member_flag_owner x.flags)).0) [
                    | inl n ↦ rw n (
                        equal-SameRoster (
                          flags_back st.ch st.ch.owner_guid (clear_flag member_flag_owner x.flags)
                            f))
                    | inr (u, r) ↦ rw r (from_former m found x z f)
                  ])
      ])
    ])
  ]
    where
      cleared : ChannelMember → Option (Unit {0}) × e.Db
      cleared x =
          e.update_flags st.db realm st.ch.channel_id st.ch.owner_guid
            (clear_flag member_flag_owner x.flags)

      without : ChannelMember → Local e
      without x = record {
        ch = record st.ch {
          members =
              write_flags st.ch.members st.ch.owner_guid (clear_flag member_flag_owner x.flags);
        };
        db = (cleared x).1;
      }

      from_former :
          (m : ChannelMember)
          → find_member st.ch.members guid ≡ some m
          → (x : ChannelMember) → (st.ch.owner_guid == 0) ≡ false
          → find_member st.ch.members st.ch.owner_guid ≡ some x
          → SameRoster st.ch (take_ownership st.ch.owner_guid x.flags realm guid (without x)).1.ch
      from_former m found x owned was =
          elim (Option-cases (find_member (without x).ch.members guid)) [
            | inl n ↦ absurd (
                ground (
                  arith,
                  find_member-write_flags st.ch.members st.ch.owner_guid
                      (clear_flag member_flag_owner x.flags) guid,
                ))
            | inr (y, there) ↦
                take_ownership-SameRoster st.ch.owner_guid x.flags realm guid (without x) st.ch y
                  there (restore_taken st.ch (clear_flag member_flag_owner x.flags) owned was)
                  (write_flags-SameRoster st.ch st.ch.owner_guid
                    (clear_flag member_flag_owner x.flags) st.ch.owner_guid)
          ]

  pub transfer_on_logout-SameRoster :
      (t : Moment) (realm player : ℕ) (st : Local e)
      → SameRoster st.ch (transfer_on_logout t realm player st).1.ch
  unfolding transfer_on_logout hand_over
  transfer_on_logout-SameRoster t realm player st =
      elim (Option-cases (find_member st.ch.members player)) [
        | inl n ↦ rw n (SameRoster-refl st.ch)
        | inr (m, found) ↦
            rw found
              (elim (Bool-cases (not (has_flag member_flag_owner m.flags) || not st.ch.ownership)) [
                | inl f ↦ rw f (SameRoster-refl st.ch)
                | inr f ↦
                    rw f
                      (elim (Bool-cases
                        (next_owner (delete_member (t.order st.ch.members) player) == 0)) [
                          | inl z ↦ rw z (SameRoster-refl st.ch)
                          | inr z ↦ rw z (
                              SameRoster-trans
                                (write_flags-SameRoster st.ch player
                                  (clear_flag member_flag_owner m.flags) st.ch.owner_guid)
                                (transfer_to-SameRoster realm _ (record {
                                  ch = record st.ch {
                                    members =
                                        write_flags st.ch.members player
                                          (clear_flag member_flag_owner m.flags);
                                  };
                                  db = st.db;
                                })))
                        ])
              ])
      ]

  -- A departure removes the member, or the database refuses it and nothing changes.
  pub leave_channel-Removed :
      (t : Moment) (realm guid : ℕ) (st : Local e)
      → Removed st.ch guid (leave_channel t realm guid st).1.ch
        ⊎ SameRoster st.ch (leave_channel t realm guid st).1.ch
  unfolding leave_channel is_member
  leave_channel-Removed t realm guid st = elim (Option-cases (find_member st.ch.members guid)) [
    | inl n ↦ rw n (inr (SameRoster-refl st.ch))
    | inr (m, found) ↦
        rw found (elim (Option-cases (e.remove_member st.db realm st.ch.channel_id guid).0) [
          | inl n ↦ rw n (inr (put_back-SameRoster st.ch guid m found))
          | inr (u, r) ↦ rw r (
              inl (
                Removed-trans (removed m found) (
                  pick_owner-SameRoster t realm _ (record {
                    ch = record st.ch { members = delete_member st.ch.members guid };
                    db = (e.remove_member st.db realm st.ch.channel_id guid).1;
                  }))))
        ])
  ]
    where
      removed :
          (m : ChannelMember)
          → find_member st.ch.members guid ≡ some m
          → Removed st.ch guid (record st.ch { members = delete_member st.ch.members guid })
      removed m found = record {
        was_member = ground arith;
        same_bans = refl;
        others = λ h. ground (arith, find_member-delete_member st.ch.members guid h);
      }
