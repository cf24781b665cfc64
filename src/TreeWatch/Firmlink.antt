-- ===== src/TreeWatch/Firmlink.antt =====
-- The firmlink prefix that macOS puts before paths, by names.
use agentflash.Common.{
  true, List, [], ◌∷◌, ◌++◌, ◌≡◌, ◌≢◌, refl, ap, inl, inr, Bytes, codes, eq_bytes, has_prefix,
  Bool-cases, drop, length,
}
use agentflash.GoPath.{join_elems, slash}
use agentflash.GoPath.Clean.{All, IsName, path_of}
use agentflash.GoPath.Inside.{Under, has_prefix-Under, path_of-append, Under-has_prefix}
use agentflash.GoPath.Plain.{are_names-IsName}
use agentflash.TreeWatch.{mac_data_volume, normalize_path_darwin}

abbrev pub data_volume : List Bytes
data_volume = codes "System" ∷ codes "Volumes" ∷ codes "Data" ∷ []

data_volume-IsName : All IsName data_volume
unfolding eq_bytes
data_volume-IsName = are_names-IsName data_volume refl

below :
    (ss : List Bytes)
    → ss ≢ []
    → has_prefix (path_of (data_volume ++ ss)) (path_of data_volume ++ slash ∷ []) ≡ true
    → normalize_path_darwin (path_of (data_volume ++ ss)) ≡ path_of ss
unfolding normalize_path_darwin join_elems
below ss n h = rw h (ap (drop (length mac_data_volume)) (path_of-append data_volume ss (λ x. cc) n))

-- On macOS a path strictly below the data volume loses the volume's three names and keeps all
-- others; a path that is not under the volume is unchanged.
pub normalize_path_darwin-path_of :
    (ss ps : List Bytes)
    → ss ≢ []
    → All IsName ps
    → ¬ Under data_volume ps
    → (normalize_path_darwin (path_of (data_volume ++ ss)) ≡ path_of ss)
      × (normalize_path_darwin (path_of ps) ≡ path_of ps)
unfolding normalize_path_darwin join_elems
normalize_path_darwin-path_of ss ps n h outside = (
  below ss n (Under-has_prefix data_volume ss (λ x. cc) n),
  elim (Bool-cases (has_prefix (path_of ps) (mac_data_volume ++ codes "/"))) [
    | inl under ↦ absurd (outside (has_prefix-Under data_volume ps data_volume-IsName h under))
    | inr other ↦ rw other
  ],
)
