-- ===== src/Chat/Undo.antt =====
-- apps/chatserver/service/channel-manager.go: what a method undoes when the database refuses its write.
use athena_wow_cluster.Prelude.{ℕ, ◌≡◌, ◌∙◌, refl, ap, false, true, none, some, ◌==◌, arith}
use athena_wow_cluster.Chat.Model.{
  ChannelMember, ActiveChannel, member_flag_owner, set_flag, find_member, write_flags,
  delete_member, put_member,
}
use athena_wow_cluster.Chat.Calls.{Env, Local}
use athena_wow_cluster.Chat.Channel.{restore_flags, take_ownership}
use athena_wow_cluster.Chat.Queries.{get_member_flags}
use athena_wow_cluster.Chat.Members.{
  write_flags_back, write_flags_absent, find_member-put_back, Distinct, delete_member-Distinct,
  put_member-Distinct,
}

-- The same channel, whose map of members gives the same member for every GUID.
pub record IsRestored (a b : ActiveChannel) : Type 0 where
  pub same_fields : b ≡ record a { members = b.members }
  pub same_members : (g : ℕ) → find_member b.members g ≡ find_member a.members g

pub equal-IsRestored : {a b : ActiveChannel} → b ≡ a → IsRestored a b
equal-IsRestored e = record { same_fields = cc; same_members = λ g. cc }

-- A member that leaves and is put back.
pub put_back-IsRestored :
    (ch : ActiveChannel) (guid : ℕ) (m : ChannelMember)
    → find_member ch.members guid ≡ some m
    → IsRestored ch (record ch { members = put_member (delete_member ch.members guid) m })
put_back-IsRestored ch guid m found = record {
  same_fields = refl;
  same_members = λ g. find_member-put_back ch.members guid g found;
}

pub put_back-Distinct :
    (ch : ActiveChannel) (guid : ℕ) (m : ChannelMember)
    → Distinct ch.members
    → Distinct (put_member (delete_member ch.members guid) m)
put_back-Distinct ch guid m d =
    put_member-Distinct (delete_member ch.members guid) m (delete_member-Distinct ch.members guid d)

-- Flags that are written back.
pub flags_back :
    (ch : ActiveChannel) (guid f : ℕ) {m : ChannelMember}
    → find_member ch.members guid ≡ some m
    → record ch { members = write_flags (write_flags ch.members guid f) guid m.flags } ≡ ch
flags_back ch guid f found =
    ap (λ ms. record ch { members = ms }) (write_flags_back ch.members guid f found)

-- The old owner's flags are restored, where the owner flag was taken off or there is no old owner.
pub restore_taken :
    (ch : ActiveChannel) (f : ℕ) {m : ChannelMember}
    → (ch.owner_guid == 0) ≡ false
    → find_member ch.members ch.owner_guid ≡ some m
    → restore_flags ch.owner_guid m.flags
        (record ch { members = write_flags ch.members ch.owner_guid f })
      ≡ ch
unfolding restore_flags
restore_taken ch f owned found = rw owned (flags_back ch ch.owner_guid f found)

pub restore_nobody :
    (ch : ActiveChannel) → (ch.owner_guid == 0) ≡ true → restore_flags ch.owner_guid 0 ch ≡ ch
unfolding restore_flags
restore_nobody ch z = rw z refl

pub restore_absent :
    (ch : ActiveChannel)
    → (ch.owner_guid == 0) ≡ false
    → find_member ch.members ch.owner_guid ≡ none
    → restore_flags ch.owner_guid 0 ch ≡ ch
unfolding restore_flags
restore_absent ch owned n =
    rw owned
      (ap (λ ms. record ch { members = ms }) (write_flags_absent ch.members ch.owner_guid 0 n))

flags_found :
    (ch : ActiveChannel) (guid : ℕ) (m : ChannelMember)
    → find_member ch.members guid ≡ some m
    → get_member_flags ch guid ≡ m.flags
unfolding get_member_flags
flags_found ch guid m found = ground (arith, found)

-- A new owner that the database refuses gets the flags back, and then the old owner does; both may be
-- the same member.
pub take_ownership_undone :
    {e : Env} (owner flags realm guid : ℕ) (m : ChannelMember) (st : Local e)
    → find_member st.ch.members guid ≡ some m
    → (e.update_flags st.db realm st.ch.channel_id guid
        (set_flag member_flag_owner (get_member_flags st.ch guid))).0
      ≡ none
    → (take_ownership owner flags realm guid st).1.ch ≡ restore_flags owner flags st.ch
unfolding take_ownership
take_ownership_undone owner flags realm guid m st found refused = rw refused (
    ap (restore_flags owner flags) (
      ap
        (λ x. record st.ch {
          members =
              write_flags
                (write_flags st.ch.members guid
                  (set_flag member_flag_owner (get_member_flags st.ch guid)))
                guid x;
        })
        (flags_found st.ch guid m found)
      ∙ flags_back st.ch guid (set_flag member_flag_owner (get_member_flags st.ch guid)) found))
