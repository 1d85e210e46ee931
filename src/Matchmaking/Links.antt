-- ===== src/Matchmaking/Links.antt =====
-- apps/matchmakingserver/service/battleground_service.go: for each player the queues and battlegrounds
-- that the player is in. The mutex makes each operation one step.
use athena_wow_cluster.Prelude.{
  ℕ, Bool, false, ◌&&◌, List, [], ◌∷◌, ◌++◌, ◌==◌, if◌then◌else◌, length, u8,
}
use athena_wow_cluster.Matchmaking.Battleground.{Player, player_eq, unwrapped, QueuedGroup}

-- A link to a queue, named by a number and with its type, or to a battleground by its key.
pub data QueueOrBattlegroundLink : Type 0 where
  queue_link : (queue type : ℕ) → QueueOrBattlegroundLink
  battleground_link : (realm battlegroup instance_id : ℕ) → QueueOrBattlegroundLink

abbrev pub Links : Type 0
Links = Player → List QueueOrBattlegroundLink

abbrev pub set_at {ℓ} : {A : Type ℓ} → (Player → A) → Player → A → Player → A
set_at m p a q = if player_eq p q then a else m q

-- One link at the end of each player's list, in turn; a slot is the index of the link.
unfoldable pub add_links :
    Links → (Player → ℕ) → List Player → QueueOrBattlegroundLink → Links × (Player → ℕ)
add_links m slots [] l = (m, slots)
add_links m slots (p ∷ ps) l =
    add_links (set_at m p (m p ++ l ∷ [])) (set_at slots p (u8 (length (m p)))) ps l

-- `addQueueOrBattlegroundLinkForGroupMembers`: the members, then the leader.
unfoldable pub add_link_for_group_members :
    Links → QueueOrBattlegroundLink → QueuedGroup → Links × (Player → ℕ)
unfolding add_links
add_link_for_group_members m l g = add_links m (λ p. 0) (g.members ++ g.leader_guid ∷ []) l

abbrev pub is_queue_of : ℕ → QueueOrBattlegroundLink → Bool
is_queue_of t (queue_link q type) = type == t
is_queue_of t (battleground_link realm battlegroup instance_id) = false

-- The first link that a test finds is taken out.
unfoldable pub remove_first_link :
    (QueueOrBattlegroundLink → Bool) → List QueueOrBattlegroundLink → List QueueOrBattlegroundLink
remove_first_link f [] = []
remove_first_link f (l ∷ ls) = let rest = remove_first_link f ls in if f l then ls else l ∷ rest

unfoldable pub remove_links : Links → List Player → (QueueOrBattlegroundLink → Bool) → Links
unfolding remove_first_link
remove_links m [] f = m
remove_links m (p ∷ ps) f = remove_links (set_at m p (remove_first_link f (m p))) ps f

unfoldable pub remove_queue_for_group_members : Links → (type : ℕ) → QueuedGroup → Links
unfolding remove_links
remove_queue_for_group_members m type g =
    remove_links m (g.members ++ g.leader_guid ∷ []) (is_queue_of type)

abbrev pub is_battleground_of : (realm instance : ℕ) → QueueOrBattlegroundLink → Bool
is_battleground_of r i (queue_link q type) = false
is_battleground_of r i (battleground_link realm battlegroup instance_id) =
    instance_id == i && realm == r

unfoldable pub remove_battleground_link_for_player :
    Links → (bg_realm bg_instance guid realm : ℕ) → Links
unfolding remove_links
remove_battleground_link_for_player m bg_realm bg_instance guid realm =
    remove_links m (unwrapped guid realm ∷ []) (is_battleground_of bg_realm bg_instance)
