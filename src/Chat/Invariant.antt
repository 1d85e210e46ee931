-- ===== src/Chat/Invariant.antt =====
-- apps/chatserver/service/channel-manager.go: every method keeps the owner of a channel.
use Prim.Native.String.{String}
use athena_wow_cluster.Prelude.{
  ℕ, ◌≡◌, ◌≢◌, ◌∙◌, refl, sym, subst, Bool, true, false, ◌&&◌, Option, none, some, List, ltb, ◌==◌,
  if◌then◌else◌, length, Bool-cases, Option-cases, ◌⊎◌, inl, inr, arith,
}
use athena_wow_cluster.Chat.Model.{
  ChannelMember, ActiveChannel, member_flag_owner, has_flag, set_flag, clear_flag, find_member,
  delete_member, put_member,
}
use athena_wow_cluster.Chat.Calls.{Env, Moment, Local, Result, answer_or}
use athena_wow_cluster.Chat.Channel.{
  pick_owner, transfer_to, change_flags, set_moderator, set_mute, join_channel, leave_channel,
}
use athena_wow_cluster.Chat.Queries.{
  get_member_flags, give_ownership, next_owner, initial_flags, new_member, is_first,
  is_moderator_by_rights, is_banned, password_fits,
}
use athena_wow_cluster.Chat.Members.{
  IsOrder, next_owner_found, next_owner-none, find_member_nonempty, find_member-empty,
  find_member-delete_member, find_member-put_member, delete_member-Distinct, put_member-Distinct,
}
use athena_wow_cluster.Chat.Undo.{flags_back, put_back-Distinct, put_back-IsRestored}
use athena_wow_cluster.Chat.Owners.{
  IsOwner, WellFormed, Ownerless, write_owner-WellFormed, delete_owner-Ownerless,
  Ownerless-WellFormed, change_flags_lem, delete_member_lem, put_member_lem, put_owner_lem,
  empty-WellFormed, has_flag-set_flag,
}

-- The channel that a call leaves is well formed.
abbrev pub Keeps : {e : Env} {A : Type 0} → Result A × Local e → Type 0
Keeps r = WellFormed r.1.ch

initial_flags_first :
    (ch : ActiveChannel) (guid : ℕ)
    → has_flag member_flag_owner (initial_flags ch guid) ≡ is_first ch
unfolding initial_flags is_first is_moderator_by_rights has_flag set_flag
initial_flags_first ch guid = ground arith

-- The channel that `join_channel` writes, and the one that it falls back on.
joined : ActiveChannel → ChannelMember → ActiveChannel
unfolding is_first put_member
joined ch m = record ch {
  owner_guid = if is_first ch then m.player_guid else ch.owner_guid;
  members = put_member ch.members m;
}

joined-WellFormed :
    (ch : ActiveChannel) (m : ChannelMember)
    → m.player_guid ≢ 0
    → WellFormed ch
    → find_member ch.members m.player_guid ≡ none
    → has_flag member_flag_owner m.flags ≡ is_first ch
    → WellFormed (joined ch m)
unfolding joined is_first
joined-WellFormed ch m nz wf new flag = elim (Bool-cases (is_first ch)) [
  | inl b ↦ rw b (put_owner_lem ch m wf (ground arith) nz (flag ∙ b))
  | inr b ↦ rw b (put_member_lem ch m wf new nz (flag ∙ b) b)
]

left-WellFormed :
    (ch : ActiveChannel) (m : ChannelMember)
    → m.player_guid ≢ 0
    → WellFormed ch
    → find_member ch.members m.player_guid ≡ none
    → has_flag member_flag_owner m.flags ≡ is_first ch
    → WellFormed
        (record (joined ch m) { members = delete_member (joined ch m).members m.player_guid })
unfolding joined is_first
left-WellFormed ch m nz wf new flag = elim (Bool-cases (is_first ch)) [
  | inl b ↦ rw b (
      empty-WellFormed ch (delete_member (put_member ch.members m) m.player_guid) m.player_guid
        (delete_member-Distinct (put_member ch.members m) m.player_guid
          (put_member-Distinct ch.members m wf.distinct))
        (λ g. ground (
          arith,
          find_member-delete_member (put_member ch.members m) m.player_guid g,
          find_member-put_member ch.members m g,
          find_member-empty ch.members g,
        )))
  | inr b ↦ rw b (
      delete_member_lem (record ch { members = put_member ch.members m }) m.player_guid
        (put_member_lem ch m wf new nz (flag ∙ b) b)
        (λ (x, found, f).
          absurd (ground (arith, find_member-put_member ch.members m m.player_guid))))
]

put_back-WellFormed :
    (ch : ActiveChannel) (guid : ℕ) (m : ChannelMember)
    → WellFormed ch
    → find_member ch.members guid ≡ some m
    → WellFormed (record ch { members = put_member (delete_member ch.members guid) m })
put_back-WellFormed ch guid m wf found = record {
  distinct = put_back-Distinct ch guid m wf.distinct;
  no_zero = same 0 ∙ wf.no_zero;
  only_owner = λ h n e t. wf.only_owner h n (sym (same h) ∙ e) t;
  is_owned = λ h n own e. kept (wf.is_owned h n own (sym (same h) ∙ e));
}
  where
    same :
        (g : ℕ)
        → find_member (put_member (delete_member ch.members guid) m) g ≡ find_member ch.members g
    same = (put_back-IsRestored ch guid m found).same_members

    kept :
        IsOwner ch ch.owner_guid
        → IsOwner
            (record ch { members = put_member (delete_member ch.members guid) m })
            ch.owner_guid
    kept (x, z, flag) = (x, same ch.owner_guid ∙ z, flag)

module _ {e : Env} where
  -- A write that is undone when it fails.
  pub answer_or-Keeps_last :
      (old : ActiveChannel → ActiveChannel) (p : Option (Unit {0}) × e.Db) (st : Local e)
      → WellFormed (old st.ch)
      → WellFormed st.ch
      → Keeps (answer_or old p st)
  answer_or-Keeps_last old (some tt, d) st wf new = new
  answer_or-Keeps_last old (none, d) st wf new = wf

  pub transfer_to-Keeps :
      (realm g : ℕ) (m : ChannelMember) (st : Local e)
      → Ownerless st.ch
      → find_member st.ch.members g ≡ some m
      → Keeps (transfer_to realm g st)
  unfolding transfer_to give_ownership get_member_flags
  transfer_to-Keeps realm g m st o found =
      write_owner-WellFormed st.ch g (set_flag member_flag_owner (get_member_flags st.ch g)) m o
        found (has_flag-set_flag (get_member_flags st.ch g))

  -- Once the owner is gone, the choice of the next one gives the channel an owner again.
  pub pick_owner-Keeps :
      (t : Moment) (realm : ℕ) (st : Local e)
      → IsOrder t
      → Ownerless st.ch
      → Keeps (pick_owner t realm (ltb 0 (length st.ch.members) && st.ch.ownership) st)
  unfolding pick_owner
  pick_owner-Keeps t realm st order o =
      elim (Bool-cases (ltb 0 (length st.ch.members) && st.ch.ownership)) [
        | inr f ↦ rw f (Ownerless-WellFormed st.ch o f)
        | inl b ↦ rw b (elim (Bool-cases (next_owner members == 0)) [
          | inr f ↦ rw f (
              give (
                next_owner_found members (next_owner members) (order _ o.distinct).0 refl
                  (ground arith)))
          | inl z ↦ absurd (nobody z (find_member_nonempty st.ch.members (ground arith)))
        ])
      ]
    where
      members : List ChannelMember
      members = t.order st.ch.members

      give :
          (m : ChannelMember) × (find_member members (next_owner members) ≡ some m)
          → Keeps (transfer_to realm (next_owner members) st)
      give (m, found) =
          transfer_to-Keeps realm (next_owner members) m st o
            (sym ((order _ o.distinct).1 (next_owner members)) ∙ found)

      nobody :
          (next_owner members == 0) ≡ true
          → (g : ℕ) × (m : ChannelMember) × (find_member st.ch.members g ≡ some m)
          → ⊥
      nobody z (g, m, found) = absurd (
          ground (
            arith,
            (order _ o.distinct).1 g,
            (order _ o.distinct).1 0,
            o.no_zero,
            next_owner-none members g,
          ))

  pub leave_channel-Keeps :
      (t : Moment) (realm guid : ℕ) (st : Local e)
      → IsOrder t
      → WellFormed st.ch
      → Keeps (leave_channel t realm guid st)
  unfolding leave_channel pick_owner
  leave_channel-Keeps t realm guid st order wf =
      elim (Option-cases (find_member st.ch.members guid)) [
        | inl n ↦ rw n wf
        | inr (m, found) ↦ rw found (elim (Option-cases removed.0) [
          | inl n ↦ rw n (put_back-WellFormed st.ch guid m wf found)
          | inr (u, r) ↦
              rw r (rest m found removed.1 (Bool-cases (has_flag member_flag_owner m.flags)))
        ])
      ]
    where
      removed : Option (Unit {0}) × e.Db
      removed = e.remove_member st.db realm st.ch.channel_id guid

      without : e.Db → Local e
      without d = record {
        ch = record st.ch { members = delete_member st.ch.members guid };
        db = d;
      }

      rest :
          (m : ChannelMember)
          → find_member st.ch.members guid ≡ some m
          → (d : e.Db)
          → (has_flag member_flag_owner m.flags ≡ true)
            ⊎ (has_flag member_flag_owner m.flags ≡ false)
          → Keeps (
              pick_owner t realm
                (has_flag member_flag_owner m.flags
                  && ltb 0 (length (without d).ch.members)
                  && (without d).ch.ownership)
                (without d))
      rest m found d (inl flag) = rw flag (
          pick_owner-Keeps t realm (without d) order (
            subst (λ g. Ownerless (record st.ch { members = delete_member st.ch.members g }))
              (sym (wf.only_owner guid m found flag)) (delete_owner-Ownerless st.ch wf)))
      rest m found d (inr flag) =
          rw flag (delete_member_lem st.ch guid wf (λ o. absurd (ground arith)))

  change_flags-Keeps :
      (f : ℕ → ℕ) (realm guid : ℕ) (st : Local e)
      → ((x : ℕ) → has_flag member_flag_owner (f x) ≡ has_flag member_flag_owner x)
      → WellFormed st.ch
      → Keeps (change_flags f realm guid st)
  unfolding change_flags
  change_flags-Keeps f realm guid st same wf =
      elim (Option-cases (find_member st.ch.members guid)) [
        | inl n ↦ rw n wf
        | inr (m, found) ↦
            rw found
              (elim (Option-cases
                (e.update_flags st.db realm st.ch.channel_id guid (f m.flags)).0) [
                  | inl n ↦
                      rw n (subst WellFormed (sym (flags_back st.ch guid (f m.flags) found)) wf)
                  | inr (u, r) ↦
                      rw r (change_flags_lem st.ch guid (f m.flags) m wf found (same m.flags))
                ])
      ]

  pub set_moderator-Keeps :
      (realm guid : ℕ) (b : Bool) (st : Local e)
      → WellFormed st.ch
      → Keeps (set_moderator realm guid b st)
  unfolding set_moderator has_flag set_flag clear_flag
  set_moderator-Keeps realm guid b st wf = change_flags-Keeps _ realm guid st (λ x. ground arith) wf

  pub set_mute-Keeps :
      (realm guid : ℕ) (b : Bool) (st : Local e)
      → WellFormed st.ch
      → Keeps (set_mute realm guid b st)
  unfolding set_mute has_flag set_flag clear_flag
  set_mute-Keeps realm guid b st wf = change_flags-Keeps _ realm guid st (λ x. ground arith) wf

  pub join_channel-Keeps :
      (t : Moment) (realm guid : ℕ) (name password : String) (st : Local e)
      → guid ≢ 0
      → WellFormed st.ch
      → Keeps (join_channel t realm guid name password st)
  unfolding join_channel joined
  join_channel-Keeps t realm guid name password st nz wf =
      elim (Bool-cases (is_banned t st.ch guid)) [
        | inl b ↦ rw b wf
        | inr b ↦ rw b (elim (Bool-cases (password_fits st.ch password)) [
          | inr p ↦ rw p wf
          | inl p ↦ rw p (elim (Option-cases (find_member st.ch.members guid)) [
            | inr (m, found) ↦ rw found wf
            | inl n ↦ rw n (
                answer_or-Keeps_last (λ ch. record ch { members = delete_member ch.members guid })
                  (e.save_member st.db realm st.ch.channel_id m) (record st { ch = joined st.ch m })
                  (left-WellFormed st.ch m nz wf n (initial_flags_first st.ch guid))
                  (joined-WellFormed st.ch m nz wf n (initial_flags_first st.ch guid)))
          ])
        ])
      ]
    where
      m : ChannelMember
      m = new_member st.ch guid name
