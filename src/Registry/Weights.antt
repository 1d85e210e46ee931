-- ===== src/Registry/Weights.antt =====
-- apps/servers-registry/mapbalancing/binpack/weights.go: a Go map from map IDs to weights, as the list
-- of its entries in the order in which a loop meets them. Go leaves that order open.
use athena_wow_cluster.Prelude.{ℕ, List, [], ◌∷◌, ◌==◌, if◌then◌else◌}

abbrev pub MapsWeight : Type 0
MapsWeight = List (ℕ × ℕ)

abbrev pub default_maps_weight : MapsWeight
default_maps_weight =
    (0, 100)
    ∷ (1, 100)
    ∷ (30, 1)
    ∷ (33, 1)
    ∷ (34, 1)
    ∷ (36, 1)
    ∷ (43, 1)
    ∷ (47, 1)
    ∷ (48, 1)
    ∷ (70, 1)
    ∷ (90, 1)
    ∷ (109, 1)
    ∷ (129, 1)
    ∷ (189, 1)
    ∷ (209, 1)
    ∷ (229, 1)
    ∷ (230, 1)
    ∷ (249, 1)
    ∷ (269, 1)
    ∷ (289, 1)
    ∷ (309, 1)
    ∷ (329, 1)
    ∷ (349, 1)
    ∷ (369, 1)
    ∷ (389, 1)
    ∷ (409, 1)
    ∷ (429, 1)
    ∷ (449, 1)
    ∷ (450, 1)
    ∷ (451, 1)
    ∷ (469, 1)
    ∷ (489, 1)
    ∷ (509, 1)
    ∷ (529, 1)
    ∷ (530, 50)
    ∷ (531, 1)
    ∷ (532, 1)
    ∷ (533, 1)
    ∷ (534, 1)
    ∷ (540, 1)
    ∷ (542, 1)
    ∷ (543, 1)
    ∷ (544, 1)
    ∷ (545, 1)
    ∷ (546, 1)
    ∷ (547, 1)
    ∷ (548, 1)
    ∷ (550, 1)
    ∷ (552, 1)
    ∷ (553, 1)
    ∷ (554, 1)
    ∷ (555, 1)
    ∷ (556, 1)
    ∷ (557, 1)
    ∷ (558, 1)
    ∷ (559, 1)
    ∷ (560, 1)
    ∷ (562, 1)
    ∷ (564, 1)
    ∷ (565, 1)
    ∷ (566, 1)
    ∷ (568, 1)
    ∷ (571, 120)
    ∷ (572, 1)
    ∷ (574, 1)
    ∷ (575, 1)
    ∷ (576, 1)
    ∷ (578, 1)
    ∷ (580, 1)
    ∷ (582, 1)
    ∷ (584, 1)
    ∷ (585, 1)
    ∷ (586, 1)
    ∷ (587, 1)
    ∷ (588, 1)
    ∷ (589, 1)
    ∷ (590, 1)
    ∷ (591, 1)
    ∷ (593, 1)
    ∷ (594, 1)
    ∷ (595, 1)
    ∷ (599, 1)
    ∷ (600, 1)
    ∷ (601, 1)
    ∷ (602, 1)
    ∷ (603, 2)
    ∷ (604, 1)
    ∷ (607, 1)
    ∷ (608, 1)
    ∷ (609, 2)
    ∷ (610, 1)
    ∷ (612, 1)
    ∷ (613, 1)
    ∷ (614, 1)
    ∷ (615, 1)
    ∷ (616, 1)
    ∷ (617, 1)
    ∷ (618, 1)
    ∷ (619, 1)
    ∷ (620, 1)
    ∷ (621, 1)
    ∷ (622, 1)
    ∷ (623, 1)
    ∷ (624, 1)
    ∷ (628, 1)
    ∷ (631, 1)
    ∷ (632, 1)
    ∷ (641, 1)
    ∷ (642, 1)
    ∷ (647, 1)
    ∷ (649, 1)
    ∷ (650, 1)
    ∷ (658, 1)
    ∷ (668, 1)
    ∷ (672, 1)
    ∷ (673, 1)
    ∷ (712, 1)
    ∷ (713, 1)
    ∷ (724, 1)
    ∷ []

-- `delete(m, id)`.
unfoldable pub delete_map : ℕ → MapsWeight → MapsWeight
delete_map id [] = []
delete_map id ((k, v) ∷ ws) = let rest = delete_map id ws in if k == id then rest else (k, v) ∷ rest

abbrev pub keys : MapsWeight → List ℕ
keys [] = []
keys ((k, v) ∷ ws) = k ∷ keys ws
