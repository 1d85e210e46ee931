-- ===== src/Chat/Members.antt =====
-- apps/chatserver/service/channel-manager.go: the map of a channel's members, read by GUID, under
-- each of its writes, and the choice of an owner among them.
use athena_wow_cluster.Prelude.{
  ℕ, ◌≡◌, ◌≢◌, refl, Bool, true, false, Option, none, some, List, [], ◌∷◌, ltb, ◌==◌, if◌then◌else◌,
  length, Bool-cases, Option-cases, inl, inr, arith,
}
use athena_wow_cluster.Chat.Model.{
  ChannelMember, member_flag_moderator, has_flag, find_member, delete_member, put_member,
  write_flags,
}
use athena_wow_cluster.Chat.Calls.{Moment}
use athena_wow_cluster.Chat.Queries.{first_guid, next_owner}

pub find_member-delete_member :
    (ms : List ChannelMember) (g h : ℕ)
    → find_member (delete_member ms g) h ≡ (if g == h then none else find_member ms h)
unfolding find_member delete_member
find_member-delete_member [] g h = ground arith
find_member-delete_member (m ∷ ms) g h = ground (arith, find_member-delete_member ms g h)

pub find_member-put_member :
    (ms : List ChannelMember) (m : ChannelMember) (h : ℕ)
    → find_member (put_member ms m) h ≡ (if m.player_guid == h then some m else find_member ms h)
unfolding find_member put_member
find_member-put_member [] m h = refl
find_member-put_member (x ∷ xs) m h = ground (arith, find_member-put_member xs m h)

-- A member with other flags.
abbrev pub with_flags : ℕ → Option ChannelMember → Option ChannelMember
with_flags f none = none
with_flags f (some m) = some (record m { flags = f })

pub find_member-write_flags :
    (ms : List ChannelMember) (g f h : ℕ)
    → find_member (write_flags ms g f) h
      ≡ (if g == h then with_flags f (find_member ms h) else find_member ms h)
unfolding find_member write_flags
find_member-write_flags [] g f h = ground arith
find_member-write_flags (x ∷ xs) g f h = ground (arith, find_member-write_flags xs g f h)

-- Flags that are written back leave the map as it was.
pub write_flags_back :
    (ms : List ChannelMember) (g f : ℕ) {m : ChannelMember}
    → find_member ms g ≡ some m
    → write_flags (write_flags ms g f) g m.flags ≡ ms
unfolding find_member write_flags
write_flags_back [] g f e = refl
write_flags_back (x ∷ xs) g f {m} e = ground (arith, write_flags_back xs g f {m = m})

pub write_flags_absent :
    (ms : List ChannelMember) (g f : ℕ) → find_member ms g ≡ none → write_flags ms g f ≡ ms
unfolding find_member write_flags
write_flags_absent [] g f e = refl
write_flags_absent (x ∷ xs) g f e = ground (arith, write_flags_absent xs g f)

-- A key finds the member with that GUID.
pub find_member_guid :
    (ms : List ChannelMember) (g : ℕ) {m : ChannelMember}
    → find_member ms g ≡ some m
    → m.player_guid ≡ g
unfolding find_member
find_member_guid [] g e = absurd (ground arith)
find_member_guid (x ∷ ms) g {m} e = ground (arith, find_member_guid ms g {m = m})

-- A member that is put back is found again, as all others are.
pub find_member-put_back :
    (ms : List ChannelMember) (g h : ℕ) {m : ChannelMember}
    → find_member ms g ≡ some m
    → find_member (put_member (delete_member ms g) m) h ≡ find_member ms h
find_member-put_back ms g h {m} e = ground (
  arith,
  find_member_guid ms g {m = m},
  find_member-put_member (delete_member ms g) m h,
  find_member-delete_member ms g h,
)

pub ruleset lookups = (find_member-delete_member, find_member-put_member, find_member-write_flags)

-- No two entries of the map have the same key.
abbrev pub Distinct : List ChannelMember → Type 0
Distinct [] = Unit
Distinct (m ∷ ms) = (find_member ms m.player_guid ≡ none) × Distinct ms

pub delete_member-Distinct :
    (ms : List ChannelMember) (g : ℕ) → Distinct ms → Distinct (delete_member ms g)
unfolding delete_member
delete_member-Distinct [] g d = tt
delete_member-Distinct (m ∷ ms) g d =
    ground (arith, delete_member-Distinct ms g, find_member-delete_member ms g m.player_guid)

pub put_member-Distinct :
    (ms : List ChannelMember) (m : ChannelMember) → Distinct ms → Distinct (put_member ms m)
unfolding put_member find_member
put_member-Distinct [] m d = (refl, tt)
put_member-Distinct (x ∷ xs) m d =
    ground (arith, put_member-Distinct xs m, find_member-put_member xs m x.player_guid)

pub write_flags-Distinct :
    (ms : List ChannelMember) (g f : ℕ) → Distinct ms → Distinct (write_flags ms g f)
unfolding write_flags
write_flags-Distinct [] g f d = tt
write_flags-Distinct (m ∷ ms) g f d =
    ground (arith, write_flags-Distinct ms g f, find_member-write_flags ms g f m.player_guid)

-- Go runs through a map in an order of its own: each entry comes once, and nothing else does.
abbrev pub IsOrder : Moment → Type 0
IsOrder t =
    (ms : List ChannelMember)
    → Distinct ms
    → Distinct (t.order ms) × ((g : ℕ) → find_member (t.order ms) g ≡ find_member ms g)

-- The GUID that a search gives is a member that passes the test.
pub first_guid_found :
    (p : ChannelMember → Bool) (ms : List ChannelMember) (g : ℕ)
    → Distinct ms
    → first_guid p ms ≡ g
    → g ≢ 0
    → (m : ChannelMember) × (find_member ms g ≡ some m) × (p m ≡ true)
unfolding first_guid find_member
first_guid_found p [] g d e ne = absurd (ground arith)
first_guid_found p (m ∷ ms) g d e ne = elim (Bool-cases (p m)) [
  | inl t ↦ (m, ground arith, t)
  | inr f ↦ later (first_guid_found p ms g d.1 (ground arith) ne)
]
  where
    later :
        (x : ChannelMember) × (find_member ms g ≡ some x) × (p x ≡ true)
        → (x : ChannelMember) × (find_member (m ∷ ms) g ≡ some x) × (p x ≡ true)
    later (x, found, t) = (x, ground arith, t)

-- Where no member has the GUID 0, a search without a result means that no member passes the test.
pub first_guid-none :
    (p : ChannelMember → Bool) (ms : List ChannelMember) (g : ℕ) {m : ChannelMember}
    → find_member ms 0 ≡ none
    → first_guid p ms ≡ 0
    → find_member ms g ≡ some m
    → p m ≡ false
unfolding first_guid find_member
first_guid-none p [] g z e found = absurd (ground arith)
first_guid-none p (x ∷ ms) g {m} z e found = ground (arith, first_guid-none p ms g {m = m})

pub find_member-empty :
    (ms : List ChannelMember) (g : ℕ) → ltb 0 (length ms) ≡ false → find_member ms g ≡ none
unfolding find_member
find_member-empty [] g e = refl
find_member-empty (m ∷ ms) g e = absurd (ground arith)

pub find_member_nonempty :
    (ms : List ChannelMember)
    → ltb 0 (length ms) ≡ true
    → (g : ℕ) × (m : ChannelMember) × (find_member ms g ≡ some m)
unfolding find_member
find_member_nonempty [] e = absurd (ground arith)
find_member_nonempty (m ∷ ms) e = (m.player_guid, m, ground arith)

abbrev is_moderator : ChannelMember → Bool
is_moderator m = has_flag member_flag_moderator m.flags

-- What the choice of an owner gives is a member, and a moderator where there is one.
pub next_owner_found :
    (ms : List ChannelMember) (g : ℕ)
    → Distinct ms
    → next_owner ms ≡ g
    → g ≢ 0
    → (m : ChannelMember) × (find_member ms g ≡ some m)
unfolding next_owner
next_owner_found ms g d e ne = elim (Bool-cases (first_guid is_moderator ms == 0)) [
  | inl t ↦ drop_test (first_guid_found (λ x. true) ms g d (ground arith) ne)
  | inr f ↦ drop_test (first_guid_found is_moderator ms g d (ground arith) ne)
]
  where
    drop_test :
        {p : ChannelMember → Bool}
        → (m : ChannelMember) × (find_member ms g ≡ some m) × (p m ≡ true)
        → (m : ChannelMember) × (find_member ms g ≡ some m)
    drop_test (m, found, t) = (m, found)

-- Where no member has the GUID 0, there is no owner to choose only if there is no member.
pub next_owner-none :
    (ms : List ChannelMember) (g : ℕ)
    → find_member ms 0 ≡ none
    → next_owner ms ≡ 0
    → find_member ms g ≡ none
unfolding next_owner
next_owner-none ms g z e = elim (Option-cases (find_member ms g)) [
  | inl n ↦ n
  | inr (m, found) ↦ absurd (ground (arith, first_guid-none (λ x. true) ms g {m = m}))
]

pub next_owner_moderates :
    (ms : List ChannelMember) (g h : ℕ) {m n : ChannelMember}
    → Distinct ms
    → find_member ms 0 ≡ none
    → next_owner ms ≡ g
    → find_member ms h ≡ some m
    → is_moderator m ≡ true
    → find_member ms g ≡ some n
    → is_moderator n ≡ true
unfolding next_owner
next_owner_moderates ms g h {m} {n} d z e found moderates new =
    pick
      (first_guid_found is_moderator ms g d (ground (arith, none_yet)) (ground (arith, none_yet)))
  where
    none_yet : first_guid is_moderator ms ≢ 0
    none_yet n = absurd (ground (arith, first_guid-none is_moderator ms h {m = m}))

    pick :
        (x : ChannelMember) × (find_member ms g ≡ some x) × (is_moderator x ≡ true)
        → is_moderator n ≡ true
    pick (x, found, t) = ground arith
