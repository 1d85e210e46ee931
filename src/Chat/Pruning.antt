-- ===== src/Chat/Pruning.antt =====
-- apps/chatserver/service/channel-manager.go: `PruneOfflineMembers`, which removes the members that
-- are offline and gives the channel another owner if its owner is among them.
use athena_wow_cluster.Prelude.{
  ℕ, ◌≡◌, ◌∙◌, refl, sym, ap, Bool, true, false, not, ◌&&◌, ◌||◌, none, some, List, [], ◌∷◌, ltb,
  ◌==◌, if◌then◌else◌, length, Bool-cases, Option-cases, ◌⊎◌, inl, inr, arith,
}
use athena_wow_cluster.Chat.Model.{
  ChannelMember, ActiveChannel, member_flag_owner, has_flag, find_member, delete_member,
}
use athena_wow_cluster.Chat.Calls.{Env, Moment, Local}
use athena_wow_cluster.Chat.Guards.{through_end}
use athena_wow_cluster.Chat.Invariant.{Keeps, pick_owner-Keeps}
use athena_wow_cluster.Chat.Roster.{
  SameRoster, SameRoster-refl, SameRoster-trans, pick_owner-SameRoster,
}
use athena_wow_cluster.Chat.Channel.{
  pick_owner, remove_offline, replace_offline_owner, prune_offline_members,
}
use athena_wow_cluster.Chat.Queries.{is_member, offline_guids, is_listed}
use athena_wow_cluster.Chat.Members.{
  IsOrder, Distinct, find_member-delete_member, delete_member-Distinct,
}
use athena_wow_cluster.Chat.Owners.{WellFormed, Ownerless, delete_member_lem}

-- What the loop of `PruneOfflineMembers` leaves of the members.
unfoldable pub delete_all : List ChannelMember → List ℕ → List ChannelMember
delete_all ms [] = ms
delete_all ms (g ∷ gs) = delete_all (delete_member ms g) gs

find_member-delete_all :
    (ms : List ChannelMember) (gs : List ℕ) (g : ℕ)
    → find_member (delete_all ms gs) g ≡ (if is_listed gs g then none else find_member ms g)
unfolding delete_all is_listed
find_member-delete_all ms [] g = refl
find_member-delete_all ms (x ∷ gs) g =
    ground
      (arith, find_member-delete_all (delete_member ms x) gs g, find_member-delete_member ms x g)

-- Only members that are offline are listed.
is_listed_offline :
    (online : ℕ → Bool) (ms : List ChannelMember) (g : ℕ)
    → online g ≡ true
    → is_listed (offline_guids online ms) g ≡ false
unfolding is_listed offline_guids
is_listed_offline online [] g e = refl
is_listed_offline online (x ∷ ms) g e = ground (arith, is_listed_offline online ms g)

is_listed-offline_guids :
    (online : ℕ → Bool) (ms : List ChannelMember) (g : ℕ) (m : ChannelMember)
    → find_member ms g ≡ some m
    → is_listed (offline_guids online ms) g ≡ not (online g)
unfolding is_listed offline_guids find_member
is_listed-offline_guids online [] g m e = absurd (ground arith)
is_listed-offline_guids online (x ∷ ms) g m e =
    ground (arith, is_listed-offline_guids online ms g m, is_listed_offline online ms g)

delete_all-Distinct :
    (ms : List ChannelMember) (gs : List ℕ) → Distinct ms → Distinct (delete_all ms gs)
unfolding delete_all
delete_all-Distinct ms [] d = d
delete_all-Distinct ms (g ∷ gs) d =
    delete_all-Distinct (delete_member ms g) gs (delete_member-Distinct ms g d)

delete_all-WellFormed :
    (ch : ActiveChannel) (gs : List ℕ)
    → WellFormed ch
    → (is_listed gs ch.owner_guid ≡ false) ⊎ (ch.owner_guid ≡ 0)
    → WellFormed (record ch { members = delete_all ch.members gs })
unfolding delete_all is_listed
delete_all-WellFormed ch [] wf h = wf
delete_all-WellFormed ch (g ∷ gs) wf h =
    delete_all-WellFormed (record ch { members = delete_member ch.members g }) gs
      (delete_member_lem ch g wf
        (λ (x, found, flag). absurd (ground (arith, wf.only_owner g x, wf.no_zero))))
      (ground arith)

-- An owner that is offline is removed, if it was there.
delete_all-Ownerless :
    (t : Moment) (online : ℕ → Bool) (ch : ActiveChannel)
    → IsOrder t
    → WellFormed ch
    → online ch.owner_guid ≡ false
    → Ownerless
        (record ch { members = delete_all ch.members (offline_guids online (t.order ch.members)) })
delete_all-Ownerless t online ch order wf off = record {
  distinct = delete_all-Distinct ch.members gs wf.distinct;
  no_zero = ground (arith, find_member-delete_all ch.members gs 0, wf.no_zero);
  no_flag = λ h n e. elim (Bool-cases (has_flag member_flag_owner n.flags)) [
    | inl flag ↦ absurd (
        ground (
          arith,
          find_member-delete_all ch.members gs h,
          wf.only_owner h n,
          (order _ wf.distinct).1 h,
          is_listed-offline_guids online (t.order ch.members) h n,
        ))
    | inr f ↦ f
  ];
}
  where
    gs : List ℕ
    gs = offline_guids online (t.order ch.members)

online_members :
    (t : Moment) (online : ℕ → Bool) (ch : ActiveChannel)
    → IsOrder t
    → WellFormed ch
    → (g : ℕ)
    → is_member
        (record ch { members = delete_all ch.members (offline_guids online (t.order ch.members)) })
        g
      ≡ (is_member ch g && online g)
unfolding is_member
online_members t online ch order wf g = elim (Option-cases (find_member ch.members g)) [
  | inl n ↦ ground (arith, find_member-delete_all ch.members gs g)
  | inr (m, found) ↦ ground (
    arith,
    find_member-delete_all ch.members gs g,
    (order _ wf.distinct).1 g,
    is_listed-offline_guids online (t.order ch.members) g m,
  )
]
  where
    gs : List ℕ
    gs = offline_guids online (t.order ch.members)

module _ {e : Env} where
  remove_offline_lem :
      (realm : ℕ) (gs : List ℕ) (st : Local e)
      → (remove_offline realm gs st).ch ≡ record st.ch { members = delete_all st.ch.members gs }
  unfolding remove_offline delete_all
  remove_offline_lem realm [] st = refl
  remove_offline_lem realm (g ∷ gs) st = remove_offline_lem realm gs _

  replace_offline_owner-Keeps :
      (t : Moment) (realm : ℕ) (online : ℕ → Bool) (st : Local e)
      → IsOrder t
      → (((online st.ch.owner_guid ≡ true) ⊎ (st.ch.owner_guid ≡ 0)) → WellFormed st.ch)
      → ((online st.ch.owner_guid ≡ false) → Ownerless st.ch)
      → Keeps (replace_offline_owner t realm online st)
  unfolding replace_offline_owner
  replace_offline_owner-Keeps t realm online st order on off =
      elim (Bool-cases (st.ch.owner_guid == 0 || online st.ch.owner_guid)) [
        | inl b ↦ rw b (on (ground arith))
        | inr b ↦ rw b (
            through_end WellFormed
              (pick_owner t realm (ltb 0 (length st.ch.members) && st.ch.ownership) (unowned st)) tt
              (pick_owner-Keeps t realm (unowned st) order (drop_owner (off (ground arith)))))
      ]
    where
      unowned : Local e → Local e
      unowned st = record st { ch = record st.ch { owner_guid = 0 } }

      drop_owner : Ownerless st.ch → Ownerless (unowned st).ch
      drop_owner o = record { distinct = o.distinct; no_zero = o.no_zero; no_flag = o.no_flag }

  pub prune_offline_members-Keeps :
      (t : Moment) (realm : ℕ) (online : ℕ → Bool) (st : Local e)
      → IsOrder t
      → WellFormed st.ch
      → Keeps (prune_offline_members t realm online st)
  unfolding prune_offline_members
  prune_offline_members-Keeps t realm online st order wf =
      replace_offline_owner-Keeps t realm online pruned order
        (λ h. rw (remove_offline_lem realm gs st) (
          delete_all-WellFormed st.ch gs wf (
            ground
              (arith, same, is_listed_offline online (t.order st.ch.members) st.ch.owner_guid))))
        (λ off.
          rw (remove_offline_lem realm gs st)
            (delete_all-Ownerless t online st.ch order wf (sym (ap online same) ∙ off)))
    where
      gs : List ℕ
      gs = offline_guids online (t.order st.ch.members)

      pruned : Local e
      pruned = remove_offline realm gs st

      same : pruned.ch.owner_guid ≡ st.ch.owner_guid
      same = ap (λ ch. ch.owner_guid) (remove_offline_lem realm gs st)

  replace_offline_owner-SameRoster :
      (t : Moment) (realm : ℕ) (online : ℕ → Bool) (st : Local e)
      → SameRoster st.ch (replace_offline_owner t realm online st).1.ch
  unfolding replace_offline_owner is_member
  replace_offline_owner-SameRoster t realm online st =
      elim (Bool-cases (st.ch.owner_guid == 0 || online st.ch.owner_guid)) [
        | inl b ↦ rw b (SameRoster-refl st.ch)
        | inr b ↦ rw b (
            through_end (SameRoster st.ch) (pick_owner t realm _ unowned) tt (
              SameRoster-trans (record { same_bans = refl; same_members = λ g. refl })
                (pick_owner-SameRoster t realm _ unowned)))
      ]
    where
      unowned : Local e
      unowned = record st { ch = record st.ch { owner_guid = 0 } }

  -- Who stays is who was there and is online.
  pub prune_offline_members-roster :
      (t : Moment) (realm : ℕ) (online : ℕ → Bool) (st : Local e)
      → IsOrder t
      → WellFormed st.ch
      → let after = (prune_offline_members t realm online st).1.ch in
        (after.banned_until ≡ st.ch.banned_until)
        × ((g : ℕ) → is_member after g ≡ (is_member st.ch g && online g))
  unfolding prune_offline_members
  prune_offline_members-roster t realm online st order wf = (
    kept.same_bans ∙ ap (λ ch. ch.banned_until) (remove_offline_lem realm gs st),
    λ g.
        kept.same_members g
        ∙ ap (λ ch. is_member ch g) (remove_offline_lem realm gs st)
        ∙ online_members t online st.ch order wf g,
  )
    where
      gs : List ℕ
      gs = offline_guids online (t.order st.ch.members)

      kept :
          SameRoster (remove_offline realm gs st).ch (prune_offline_members t realm online st).1.ch
      kept = replace_offline_owner-SameRoster t realm online (remove_offline realm gs st)
