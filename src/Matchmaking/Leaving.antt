-- ===== src/Matchmaking/Leaving.antt =====
-- The links of players in apps/matchmakingserver/service/battleground_service.go: entering a queue and
-- leaving it again.
use athena_wow_cluster.Prelude.{
  ℕ, zero, suc, ◌≡◌, refl, sym, ap, ◌∙◌, inl, inr, Bool, true, false, Bool-cases, List, [], ◌∷◌,
  ◌++◌, append_assoc, append-nil, arith, if◌then◌else◌, replicate, All, length, u8,
}
use athena_wow_cluster.Matchmaking.Battleground.{Player, player_eq, QueuedGroup}
use athena_wow_cluster.Matchmaking.Links.{
  QueueOrBattlegroundLink, queue_link, Links, set_at, add_links, add_link_for_group_members,
  is_queue_of, remove_first_link, remove_links, remove_queue_for_group_members,
}

abbrev times : Player → List Player → ℕ
times p [] = 0
times p (q ∷ qs) = let rest = times p qs in if player_eq q p then suc rest else rest

abbrev removals :
    ℕ
    → (QueueOrBattlegroundLink → Bool)
    → List QueueOrBattlegroundLink
    → List QueueOrBattlegroundLink
removals zero f ls = ls
removals (suc k) f ls = removals k f (remove_first_link f ls)

same_player : (p q : Player) → player_eq q p ≡ true → q ≡ p
same_player p q h = ground arith

add_links_lem :
    (m : Links) (slots : Player → ℕ) (ps : List Player) (l : QueueOrBattlegroundLink) (p : Player)
    → (add_links m slots ps l).0 p ≡ m p ++ replicate (times p ps) l
unfolding add_links
add_links_lem m slots [] l p = sym (append-nil (m p))
add_links_lem m slots (q ∷ qs) l p =
    add_links_lem (set_at m q (m q ++ l ∷ [])) (set_at slots q (u8 (length (m q)))) qs l p
    ∙ elim (Bool-cases (player_eq q p)) [
      | inl same ↦
          rw (same, same_player p q same) (append_assoc (m p) (l ∷ []) (replicate (times p qs) l))
      | inr other ↦ rw other refl
    ]

remove_links_lem :
    (m : Links) (ps : List Player) (f : QueueOrBattlegroundLink → Bool) (p : Player)
    → remove_links m ps f p ≡ removals (times p ps) f (m p)
unfolding remove_links
remove_links_lem m [] f p = refl
remove_links_lem m (q ∷ qs) f p =
    remove_links_lem (set_at m q (remove_first_link f (m q))) qs f p
    ∙ elim (Bool-cases (player_eq q p)) [
      | inl same ↦ rw (same, same_player p q same) refl
      | inr other ↦ rw other refl
    ]

module _ (f : QueueOrBattlegroundLink → Bool) (l : QueueOrBattlegroundLink) (hit : f l ≡ true) where
  remove_first_link-append :
      (old rest : List QueueOrBattlegroundLink)
      → All (λ o. f o ≡ false) old
      → remove_first_link f (old ++ l ∷ rest) ≡ old ++ rest
  unfolding remove_first_link
  remove_first_link-append [] rest a = rw hit refl
  remove_first_link-append (o ∷ old) rest a = ground (arith, remove_first_link-append old rest a.1)

  removals-replicate :
      (k : ℕ) (old : List QueueOrBattlegroundLink)
      → All (λ o. f o ≡ false) old
      → removals k f (old ++ replicate k l) ≡ old
  removals-replicate zero old a = append-nil old
  removals-replicate (suc k) old a =
      ap (removals k f) (remove_first_link-append old (replicate k l) a)
      ∙ removals-replicate k old a

-- A group that enters a queue and leaves it again leaves every player's links as they were, also a
-- leader who stands among the members, if the player was in no queue of that type before.
pub remove_queue-add_link :
    (m : Links) (queue type : ℕ) (g : QueuedGroup) (p : Player)
    → All (λ l. is_queue_of type l ≡ false) (m p)
    → remove_queue_for_group_members
        (add_link_for_group_members m (queue_link queue type) g).0
        type
        g
        p
      ≡ m p
unfolding remove_queue_for_group_members add_link_for_group_members
remove_queue-add_link m queue type g p none_before =
    remove_links_lem _ (g.members ++ g.leader_guid ∷ []) (is_queue_of type) p
    ∙ ap (removals (times p (g.members ++ g.leader_guid ∷ [])) (is_queue_of type))
        (add_links_lem m (λ p. 0) (g.members ++ g.leader_guid ∷ []) (queue_link queue type) p)
    ∙ removals-replicate (is_queue_of type) (queue_link queue type) (ground arith)
        (times p (g.members ++ g.leader_guid ∷ [])) (m p) none_before
