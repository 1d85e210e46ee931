-- ===== src/Chat/Handover.antt =====
-- apps/chatserver/service/channel-manager.go: `LeaveChannel` when the owner leaves.
use athena_wow_cluster.Prelude.{
  ℕ, ◌≡◌, ◌≢◌, ◌∙◌, refl, sym, ap, subst, true, false, ◌&&◌, none, some, List, ltb, ◌==◌, length,
  inl, inr, Bool-cases, arith,
}
use athena_wow_cluster.Chat.Model.{
  ActiveChannel, ChannelMember, find_member, delete_member, set_flag, member_flag_owner,
  member_flag_moderator, has_flag,
}
use athena_wow_cluster.Chat.Calls.{Env, Moment, Local, ok}
use athena_wow_cluster.Chat.Channel.{leave_channel, pick_owner, transfer_to}
use athena_wow_cluster.Chat.Queries.{get_member_flags, give_ownership, next_owner}
use athena_wow_cluster.Chat.Members.{
  IsOrder, Distinct, delete_member-Distinct, find_member-delete_member, find_member-write_flags,
  find_member-empty, next_owner_found, next_owner-none, next_owner_moderates,
}
use athena_wow_cluster.Chat.Owners.{WellFormed, IsOwner, has_flag-set_flag}

-- What is left when `guid` goes, and who gets the channel.
module _ (t : Moment) (order : IsOrder t) (ch : ActiveChannel) (wf : WellFormed ch) (guid h : ℕ)
    (n : ChannelMember) (there : find_member ch.members h ≡ some n) (other : h ≢ guid) where
  abbrev rest : List ChannelMember
  rest = delete_member ch.members guid

  abbrev heir : ℕ
  heir = next_owner (t.order rest)

  rest-Distinct : Distinct rest
  rest-Distinct = delete_member-Distinct ch.members guid wf.distinct

  rest_found : find_member (t.order rest) h ≡ some n
  rest_found =
      ground (arith, (order rest rest-Distinct).1 h, find_member-delete_member ch.members guid h)

  rest_no_zero : find_member (t.order rest) 0 ≡ none
  rest_no_zero = ground (
    arith,
    (order rest rest-Distinct).1 0,
    find_member-delete_member ch.members guid 0,
    wf.no_zero,
  )

  rest_nonempty : ltb 0 (length rest) ≡ true
  rest_nonempty = elim (Bool-cases (ltb 0 (length rest))) [
    | inl b ↦ b
    | inr b ↦
        absurd
          (ground (arith, find_member-empty rest h b, find_member-delete_member ch.members guid h))
  ]

  heir_not_zero : heir ≢ 0
  heir_not_zero z =
      absurd (ground (arith, rest_found, next_owner-none (t.order rest) h rest_no_zero z))

  heir_is_member : (m : ChannelMember) × (find_member rest heir ≡ some m)
  heir_is_member =
      in_rest (next_owner_found (t.order rest) heir (order rest rest-Distinct).0 refl heir_not_zero)
    where
      in_rest :
          (m : ChannelMember) × (find_member (t.order rest) heir ≡ some m)
          → (m : ChannelMember) × (find_member rest heir ≡ some m)
      in_rest (m, e) = (m, sym ((order rest rest-Distinct).1 heir) ∙ e)

  heir_moderates :
      has_flag member_flag_moderator n.flags ≡ true
      → has_flag member_flag_moderator (get_member_flags ch heir) ≡ true
  unfolding get_member_flags
  heir_moderates flag = flags heir_is_member
    where
      flags :
          (m : ChannelMember) × (find_member rest heir ≡ some m)
          → has_flag member_flag_moderator (get_member_flags ch heir) ≡ true
      flags (m, e) = ground (
        arith,
        find_member-delete_member ch.members guid heir,
        next_owner_moderates (t.order rest) heir h {m = n} {n = m} (order rest rest-Distinct).0
            rest_no_zero refl rest_found flag (((order rest rest-Distinct).1 heir) ∙ e),
      )

  heir_stays : heir ≢ guid
  heir_stays q = gone heir_is_member
    where
      gone : (m : ChannelMember) × (find_member rest heir ≡ some m) → ⊥
      gone (m, e) = absurd (ground (arith, find_member-delete_member ch.members guid heir))

  heir_owns : IsOwner (give_ownership (record ch { members = rest }) heir) heir
  unfolding give_ownership
  heir_owns = flagged heir_is_member
    where
      f : ℕ
      f = set_flag member_flag_owner (get_member_flags (record ch { members = rest }) heir)

      flagged :
          (m : ChannelMember) × (find_member rest heir ≡ some m)
          → IsOwner (give_ownership (record ch { members = rest }) heir) heir
      flagged (m, e) = (
        record m { flags = f },
        ground (arith, find_member-write_flags rest heir f heir),
        has_flag-set_flag (get_member_flags (record ch { members = rest }) heir),
      )

  leave_channel_owner :
      (e : Env) (realm : ℕ) (db : e.Db) (m : ChannelMember)
      → ch.ownership ≡ true
      → find_member ch.members guid ≡ some m
      → has_flag member_flag_owner m.flags ≡ true
      → (e.remove_member db realm ch.channel_id guid).0 ≡ some tt
      → let r = leave_channel {e = e} t realm guid (record { ch = ch; db = db }) in
        (r.0 ≡ ok heir) × (r.1.ch ≡ give_ownership (record ch { members = rest }) heir)
  unfolding leave_channel pick_owner transfer_to
  leave_channel_owner e realm db m own found owner removed =
      rw (found, removed, transfers, not_zero) (refl, refl)
    where
      transfers : (has_flag member_flag_owner m.flags && ltb 0 (length rest) && ch.ownership) ≡ true
      transfers = ground (arith, rest_nonempty)

      not_zero : (heir == 0) ≡ false
      not_zero = ground (arith, heir_not_zero)

-- When the owner leaves a channel that has owners and another member, the answer is another member,
-- who owns the channel then; and a moderator, if a moderator was among them.
pub leave_channel_hands_over :
    {e : Env} (t : Moment) (realm guid h : ℕ) (st : Local e) (m n : ChannelMember)
    → IsOrder t
    → WellFormed st.ch
    → st.ch.ownership ≡ true
    → find_member st.ch.members guid ≡ some m
    → has_flag member_flag_owner m.flags ≡ true
    → find_member st.ch.members h ≡ some n
    → h ≢ guid
    → (e.remove_member st.db realm st.ch.channel_id guid).0 ≡ some tt
    → let r = leave_channel t realm guid st in
      (g : ℕ) × (r.0 ≡ ok g)
      × (g ≢ guid)
      × (r.1.ch.owner_guid ≡ g)
      × IsOwner r.1.ch g
      × (has_flag member_flag_moderator n.flags ≡ true
          → has_flag member_flag_moderator (get_member_flags st.ch g) ≡ true)
unfolding give_ownership
leave_channel_hands_over {e} t realm guid h st m n order wf own found owner there other removed =
    let r =
      leave_channel_owner t order st.ch wf guid h n there other e realm st.db m own found owner
        removed in
    (
      heir t order st.ch wf guid h n there other,
      r.0,
      heir_stays t order st.ch wf guid h n there other,
      ap (λ ch. ch.owner_guid) r.1,
      subst (λ ch. IsOwner ch (heir t order st.ch wf guid h n there other)) (sym r.1)
          (heir_owns t order st.ch wf guid h n there other),
      heir_moderates t order st.ch wf guid h n there other,
    )
