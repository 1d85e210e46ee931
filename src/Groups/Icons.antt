-- ===== src/Groups/Icons.antt =====
-- `SetTargetIcon` of apps/groupserver/service/group.go.
use athena_wow_cluster.Prelude.{
  ℕ, zero, suc, ◌+◌, ◌<◌, ◌≡◌, refl, sym, ◌∙◌, ◌≢◌, ◌⊎◌, inl, inr, true, false, Option, none, some,
  List, [], ◌∷◌, arith, ◌==◌, Bool-cases, length, get_elem?, set, length-set, get_elem?-set_self,
  get_elem?-set_ne, get_elem?-lt,
}
use athena_wow_cluster.Groups.Model.{
  GroupMember, Group, max_target_icons, is_raid, is_assistant, member_by_guid,
}
use athena_wow_cluster.Groups.World.{target_icon_updated, Event, Env, World, ok, slice_of}
use athena_wow_cluster.Groups.Cells.{max_realm_id}
use athena_wow_cluster.Groups.Cache.{members_of, update, store_group}
use athena_wow_cluster.Groups.Parts.{icon_of}
use athena_wow_cluster.Groups.Settings.{clear_icon, save, may_mark, set_target_icon}
use athena_wow_cluster.Groups.Pointers.{IsCached, group_by_id_lem}
use athena_wow_cluster.Groups.Rights.{HasGroup}

-- The icons after `SetTargetIcon`: the target's first icon is cleared, then the new one is set.
abbrev pub marked : List ℕ → ℕ → ℕ → List ℕ
marked icons icon target = elim (icon_of icons target 0) [
  | none ↦ set icons icon target
  | some i ↦ set (set icons i 0) icon target
]

icon_of-some :
    (ts : List ℕ) (target j i : ℕ)
    → icon_of ts target j ≡ some i
    → (k : ℕ) × (i ≡ j + k) × (get_elem? ts k ≡ some target)
unfolding icon_of
icon_of-some [] target j i e = cc
icon_of-some (t ∷ ts) target j i e = elim (Bool-cases (t == target)) [
  | inl hit ↦ (0, ground arith, ground arith)
  | inr miss ↦
      let later = icon_of-some ts target (j + 1) i (ground arith) in
      (suc later.0, omega (arith, later.1), later.2)
]

icon_of-none :
    (ts : List ℕ) (target j k : ℕ) → icon_of ts target j ≡ none → get_elem? ts k ≢ some target
unfolding icon_of
icon_of-none [] target j k e = ground arith
icon_of-none (t ∷ ts) target j zero e = ground arith
icon_of-none (t ∷ ts) target j (suc k) e = ground (arith, icon_of-none ts target (j + 1) k)

module _ (icons : List ℕ) (icon target : ℕ)
    (distinct : (a b : ℕ)
      → get_elem? icons a ≡ some target
      → get_elem? icons b ≡ some target
      → a ≡ b)
    (real : target ≢ 0) (fits : icon < length icons) where
  only_here :
      (o : Option ℕ) (j : ℕ)
      → icon_of icons target 0 ≡ o
      → j ≢ icon
      → get_elem?
          (elim o [ none ↦ set icons icon target | some i ↦ set (set icons i 0) icon target ])
          j
        ≢ some target
  only_here none j e ne h =
      icon_of-none icons target 0 j e
        (sym (get_elem?-set_ne icons icon j target (λ p. ne (sym p))) ∙ h)
  only_here (some i) j e ne h = elim (Bool-cases (i == j)) [
    | inl same ↦
        ground (arith, old, get_elem?-set_self icons i 0 (get_elem?-lt icons i held), other)
    | inr differ ↦
        ground (arith, old, distinct i j held, other, get_elem?-set_ne icons i j 0 (ground arith))
  ]
    where
      old : (k : ℕ) × (i ≡ 0 + k) × (get_elem? icons k ≡ some target)
      old = icon_of-some icons target 0 i e

      held : get_elem? icons i ≡ some target
      held = ground (arith, old)

      other : get_elem? (set (set icons i 0) icon target) j ≡ get_elem? (set icons i 0) j
      other = get_elem?-set_ne (set icons i 0) icon j target (λ p. ne (sym p))

  -- If no two icons mark the target, then after `SetTargetIcon` exactly the new icon marks it.
  pub marked_once :
      (get_elem? (marked icons icon target) icon ≡ some target)
      × ((j : ℕ) → get_elem? (marked icons icon target) j ≡ some target → j ≡ icon)
  marked_once = (
    here (icon_of icons target 0),
    λ j h. elim (Bool-cases (j == icon)) [
      | inl same ↦ ground arith
      | inr differ ↦ absurd (only_here (icon_of icons target 0) j refl (ground arith) h)
    ],
  )
    where
      here :
          (o : Option ℕ)
          → get_elem?
              (elim o [ none ↦ set icons icon target | some i ↦ set (set icons i 0) icon target ])
              icon
            ≡ some target
      here none = get_elem?-set_self icons icon target fits
      here (some i) =
          get_elem?-set_self (set icons i 0) icon target (omega (arith, length-set icons i 0))

-- The other icons: one that marked the target is cleared, and the rest stay.
abbrev pub OthersKept : List ℕ → List ℕ → (icon target : ℕ) → Type 0
OthersKept before after icon target =
    (j : ℕ)
    → j ≢ icon
    → (get_elem? before j ≡ some target → get_elem? after j ≡ some 0)
      × (get_elem? before j ≢ some target → get_elem? after j ≡ get_elem? before j)

module _ (icons : List ℕ) (icon target : ℕ)
    (distinct : (a b : ℕ)
      → get_elem? icons a ≡ some target
      → get_elem? icons b ≡ some target
      → a ≡ b) where
  others_kept :
      (o : Option ℕ)
      → icon_of icons target 0 ≡ o
      → OthersKept icons
          (elim o [ none ↦ set icons icon target | some i ↦ set (set icons i 0) icon target ])
          icon
          target
  others_kept none e j ne = (
    λ h. absurd (icon_of-none icons target 0 j e h),
    λ h. get_elem?-set_ne icons icon j target (λ p. ne (sym p)),
  )
  others_kept (some i) e j ne = elim (Bool-cases (i == j)) [
    | inl same ↦ (
      λ h. other ∙ ground (arith, get_elem?-set_self icons i 0 (get_elem?-lt icons i held)),
      λ h. absurd (h (ground (arith, held))),
    )
    | inr differ ↦ (
      λ h. absurd (ground (arith, distinct i j held h)),
      λ h. other ∙ get_elem?-set_ne icons i j 0 (ground arith),
    )
  ]
    where
      old : (k : ℕ) × (i ≡ 0 + k) × (get_elem? icons k ≡ some target)
      old = icon_of-some icons target 0 i e

      held : get_elem? icons i ≡ some target
      held = ground (arith, old)

      other : get_elem? (set (set icons i 0) icon target) j ≡ get_elem? (set icons i 0) j
      other = get_elem?-set_ne (set icons i 0) icon j target (λ p. ne (sym p))

  pub marked_others : OthersKept icons (marked icons icon target) icon target
  marked_others = others_kept (icon_of icons target 0) refl

-- The world after a `save` that the database accepts.
pub save_lem :
    {e : Env} (w : World e) (realm key : ℕ) (g : Group) (d : e.Db) (ev : List ℕ → Event)
    → realm < max_realm_id
    → w.is_loaded realm ≡ true
    → g.id ≡ key
    → e.update_group w.db realm g ≡ (some tt, d)
    → ((save realm key g ev w).0 ≡ ok tt)
      × ((save realm key g ev w).1.groups_cache realm key ≡ some g)
unfolding save update members_of store_group
save_lem w realm key g d ev h loaded same updated = ground arith

-- The checks of `SetTargetIcon` pass for the updater.
abbrev pub MayMark : Group → List GroupMember → ℕ → Type 0
MayMark g ms updater =
    (is_raid g ≡ false)
    ⊎ (g.leader_guid ≡ updater)
    ⊎ ((m : GroupMember) × (member_by_guid ms updater ≡ some m) × (is_assistant m ≡ true))

may_mark_lem :
    {e : Env} (w : World e) (g : Group) (ms : List GroupMember) (updater : ℕ)
    → MayMark g ms updater
    → may_mark g updater (member_by_guid ms updater) w ≡ (ok true, w)
unfolding may_mark
may_mark_lem w g ms updater h = ground arith

clear_icon_lem :
    {e : Env} (w : World e) (realm key : ℕ) (g : Group) (icon target : ℕ) (o : Option ℕ)
    → icon_of g.target_icons target 0 ≡ o
    → let r = clear_icon realm key g o w in
      (c : Group) × (r.0 ≡ ok c)
      × (record c { target_icons = set c.target_icons icon target }
          ≡ record g { target_icons = marked g.target_icons icon target })
      × (r.1.db ≡ w.db)
      × (r.1.is_loaded ≡ w.is_loaded)
unfolding clear_icon members_of store_group
clear_icon_lem w realm key g icon target none e = (g, refl, ground arith, refl, refl)
clear_icon_lem w realm key g icon target (some i) e =
    (record g { target_icons = set g.target_icons i 0 }, refl, ground arith, refl, refl)

set_target_icon_run :
    {e : Env} (w : World e) (realm updater icon target key : ℕ) (g : Group)
    → HasGroup w realm updater key
    → key ≢ 0
    → IsCached w realm key g
    → icon < max_target_icons
    → MayMark g (slice_of w.arrays g.members) updater
    → (c : Group) → (clear_icon realm key g (icon_of g.target_icons target 0) w).0 ≡ ok c
    → record c { target_icons = set c.target_icons icon target }
      ≡ record g { target_icons = marked g.target_icons icon target }
    → set_target_icon realm updater icon target w
      ≡ save realm key
          (record g { target_icons = marked g.target_icons icon target })
          (target_icon_updated realm c.id updater target icon)
          (clear_icon realm key g (icon_of g.target_icons target 0) w).1
unfolding set_target_icon members_of
set_target_icon_run w realm updater icon target key g has ne cached fits may c cleared shape =
    ground (
      arith,
      group_by_id_lem w realm key cached.realm_fits,
      may_mark_lem w g (slice_of w.arrays g.members) updater may,
    )

-- `SetTargetIcon` of one of the eight icons on a target that is not 0, in a cached group where at most one
-- icon marks the target, by someone who may mark, with a database that accepts the group: it succeeds, and
-- the icon and no other marks the target. Another icon that marked it is cleared, all other icons stay, and
-- the cached group is otherwise as before.
pub set_target_icon_lem :
    {e : Env} (w : World e) (realm updater icon target key : ℕ) (g : Group) (d : e.Db)
    → HasGroup w realm updater key
    → key ≢ 0
    → IsCached w realm key g
    → w.is_loaded realm ≡ true
    → g.id ≡ key
    → icon < max_target_icons
    → length g.target_icons ≡ max_target_icons
    → target ≢ 0
    → ((a b : ℕ)
        → get_elem? g.target_icons a ≡ some target
        → get_elem? g.target_icons b ≡ some target
        → a ≡ b)
    → MayMark g (slice_of w.arrays g.members) updater
    → e.update_group w.db realm (record g { target_icons = marked g.target_icons icon target })
      ≡ (some tt, d)
    → let r = set_target_icon realm updater icon target w in
      (r.0 ≡ ok tt)
      × ((icons : List ℕ) × (r.1.groups_cache realm key ≡ some (record g { target_icons = icons }))
          × (get_elem? icons icon ≡ some target)
          × ((j : ℕ) → get_elem? icons j ≡ some target → j ≡ icon)
          × OthersKept g.target_icons icons icon target)
set_target_icon_lem {e} w realm updater icon target key g d has ne c loaded same fits eight real
      distinct may updated =
    let cleared = clear_icon_lem w realm key g icon target (icon_of g.target_icons target 0) refl in
    let saved =
      save_lem (clear_icon realm key g (icon_of g.target_icons target 0) w).1 realm key
        (record g { target_icons = marked g.target_icons icon target }) d
        (target_icon_updated realm cleared.0.id updater target icon) c.realm_fits
        (rw (cleared.4) loaded) same (rw (cleared.3) updated) in
    let once = marked_once g.target_icons icon target distinct real (rw eight fits) in
    rw
      (set_target_icon_run w realm updater icon target key g has ne c fits may cleared.0 cleared.1
        cleared.2)
      (
        saved.0,
        (
          marked g.target_icons icon target,
          saved.1,
          once.0,
          once.1,
          marked_others g.target_icons icon target distinct,
        ),
      )
