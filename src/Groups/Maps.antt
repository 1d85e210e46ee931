-- ===== src/Groups/Maps.antt =====
-- apps/groupserver/service/map.go: which maps are dungeons and which are raids.
use athena_wow_cluster.Prelude.{ℕ, Bool, false, ◌||◌, List, [], ◌∷◌, ◌==◌}

-- Map IDs of dungeons that are no raids.
abbrev pub dungeon_maps : List ℕ
dungeon_maps =
    33 ∷ 34 ∷ 36 ∷ 43 ∷ 44 ∷ 47 ∷ 48 ∷ 70 ∷ 90 ∷ 109 ∷ 129 ∷ 189 ∷ 209 ∷ 229 ∷ 230 ∷ 269 ∷ 289 ∷ 329
    ∷ 349 ∷ 389 ∷ 429 ∷ 540 ∷ 542 ∷ 543 ∷ 545 ∷ 546 ∷ 547 ∷ 552 ∷ 553 ∷ 554 ∷ 555 ∷ 556 ∷ 557 ∷ 558
    ∷ 560 ∷ 574 ∷ 575 ∷ 576 ∷ 578 ∷ 585 ∷ 595 ∷ 598 ∷ 599 ∷ 600 ∷ 601 ∷ 602 ∷ 604 ∷ 608 ∷ 619 ∷ 632
    ∷ 650 ∷ 658 ∷ 668 ∷ []

-- Map IDs of raid dungeons.
abbrev pub raid_maps : List ℕ
raid_maps =
    169 ∷ 249 ∷ 309 ∷ 409 ∷ 469 ∷ 509 ∷ 531 ∷ 532 ∷ 533 ∷ 534 ∷ 544 ∷ 548 ∷ 550 ∷ 564 ∷ 565 ∷ 568
    ∷ 580 ∷ 603 ∷ 615 ∷ 616 ∷ 624 ∷ 631 ∷ 649 ∷ 724 ∷ []

-- `_, found := m[id]`.
unfoldable pub contains : List ℕ → ℕ → Bool
contains [] id = false
contains (x ∷ xs) id = x == id || contains xs id

unfoldable pub is_dungeon : ℕ → Bool
is_dungeon id = contains dungeon_maps id

unfoldable pub is_raid_map : ℕ → Bool
is_raid_map id = contains raid_maps id
