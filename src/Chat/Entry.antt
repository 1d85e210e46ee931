-- ===== src/Chat/Entry.antt =====
-- apps/chatserver/service/channel-manager.go: `JoinChannel`, and who may enter a channel.
use Prim.Native.String.{String}
use athena_wow_cluster.Prelude.{
  ℕ, ◌≡◌, refl, ap, false, none, if◌then◌else◌, inl, inr, Bool-cases, Option-cases, arith,
}
use athena_wow_cluster.Chat.Model.{ActiveChannel, find_member, put_member, delete_member}
use athena_wow_cluster.Chat.Calls.{Env, Moment, Local}
use athena_wow_cluster.Chat.Channel.{join_channel}
use athena_wow_cluster.Chat.Queries.{is_member, is_first, is_banned, password_fits, new_member}
use athena_wow_cluster.Chat.Members.{find_member-put_member, find_member-delete_member}
use athena_wow_cluster.Chat.Roster.{SameRoster}
use athena_wow_cluster.Chat.History.{
  view, Step, unchanged, entered, ◌then◌, MayEnter, Command, join,
}

module _ (t : Moment) where
  pub same-Step : {c : Command} {a b : ActiveChannel} → SameRoster a b → Step t c (view a) (view b)
  unfolding view
  same-Step same = unchanged (λ g. same.same_members g) (λ g. ap (λ m. m g) same.same_bans)

module _ {e : Env} (t : Moment) (realm guid : ℕ) (name password : String) (st : Local e) where
  abbrev entering : ActiveChannel
  entering = record st.ch {
    owner_guid = if is_first st.ch then guid else st.ch.owner_guid;
    members = put_member st.ch.members (new_member st.ch guid name);
  }

  may_enter : is_banned t st.ch guid ≡ false → MayEnter t (view st.ch) guid
  unfolding view is_banned
  may_enter b = elim (Option-cases (st.ch.banned_until guid)) [
    | inl n ↦ inl n
    | inr (until, f) ↦ inr (until, f, ground arith)
  ]

  undone-SameRoster :
      find_member st.ch.members guid ≡ none
      → SameRoster st.ch (record entering { members = delete_member entering.members guid })
  unfolding is_member new_member
  undone-SameRoster n = record {
    same_bans = refl;
    same_members = λ g. ground (
      arith,
      find_member-put_member st.ch.members (new_member st.ch guid name) g,
      find_member-delete_member entering.members guid g,
    );
  }

  entering-entered :
      find_member st.ch.members guid ≡ none
      → is_banned t st.ch guid ≡ false
      → Step t (join guid name password) (view st.ch) (view entering)
  unfolding view is_member is_banned new_member
  entering-entered n b =
      entered (ground arith) (may_enter b)
        (λ g. ground (arith, find_member-put_member st.ch.members (new_member st.ch guid name) g))
        (λ g. refl)

  pub join_channel-Step :
      Step t
        (join guid name password)
        (view st.ch)
        (view (join_channel t realm guid name password st).1.ch)
  unfolding join_channel
  join_channel-Step = elim (Bool-cases (is_banned t st.ch guid)) [
    | inl b ↦ rw b stays
    | inr b ↦ rw b (elim (Bool-cases (password_fits st.ch password)) [
      | inr p ↦ rw p stays
      | inl p ↦ rw p (elim (Option-cases (find_member st.ch.members guid)) [
        | inr (m, found) ↦ rw found stays
        | inl n ↦
            rw n
              (elim (Option-cases
                (e.save_member st.db realm st.ch.channel_id (new_member st.ch guid name)).0) [
                  | inl f ↦ rw f (same-Step t (undone-SameRoster n))
                  | inr (u, s) ↦ rw s (entering-entered n b)
                ])
      ])
    ])
  ]
    where
      stays : Step t (join guid name password) (view st.ch) (view st.ch)
      stays = unchanged (λ g. refl) (λ g. refl)
