-- ===== src/Groups/Cells.antt =====
-- apps/groupserver/service/group-cache_inmem.go: the moves of array cells and the pointers into them.
use athena_wow_cluster.Prelude.{
  ℕ, suc, ◌+◌, ◌-◌, Option, none, some, List, [], ◌∷◌, ◌++◌, ◌==◌, if◌then◌else◌, take, drop, Map,
  put, delete,
}
use athena_wow_cluster.Groups.Model.{GroupMember}
use athena_wow_cluster.Groups.World.{MemberPtr}

abbrev pub max_realm_id : ℕ
max_realm_id = 256

-- One array's new contents.
abbrev pub store_array : (ℕ → List GroupMember) → ℕ → List GroupMember → ℕ → List GroupMember
store_array arrays a cells j = if a == j then cells else arrays j

abbrev pub store_realm {ℓ} : {A : Type ℓ} → (ℕ → A) → ℕ → A → ℕ → A
store_realm m realm v j = if realm == j then v else m j

-- `append(s, m)`: in place while the array has room, else into a new array with `spare` more cells.
unfoldable pub append_cells : List GroupMember → ℕ → GroupMember → List GroupMember
append_cells cells n m = take n cells ++ m ∷ drop (suc n) cells

-- `append(s[:i], s[i+1:]...)` in place: the later members move down, and the last cell keeps its
-- old contents.
unfoldable pub remove_cells : List GroupMember → ℕ → ℕ → List GroupMember
remove_cells cells n i = take i cells ++ (drop (suc i) (take n cells) ++ drop (n - 1) cells)

-- The index of the first member with the GUID, counted from `i`.
unfoldable pub index_of : List GroupMember → ℕ → ℕ → Option ℕ
index_of [] guid i = none
index_of (m ∷ ms) guid i = if m.member_guid == guid then some i else index_of ms guid (i + 1)

-- `&members[i]` for each member, entered under its GUID.
unfoldable pub point_at : Map MemberPtr → ℕ → ℕ → List GroupMember → Map MemberPtr
point_at c a i [] = c
point_at c a i (m ∷ ms) =
    point_at (put c m.member_guid (record { ptr_array = a; ptr_index = i })) a (i + 1) ms

unfoldable pub forget : Map MemberPtr → List GroupMember → Map MemberPtr
forget c [] = c
forget c (m ∷ ms) = forget (delete c m.member_guid) ms

abbrev pub with_group_id : ℕ → GroupMember → GroupMember
with_group_id new_id m = record m { group_id = new_id }
