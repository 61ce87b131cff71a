-- ===== src/Registry/Normalize.antt =====
-- internal/registry/registry.go: the normal form of a registration and of a status.
use mlx_swarm.Base.{String, List, [], ◌∷◌, map, if◌then◌else◌, is_yes, sort_by}
use mlx_swarm.Base.Text.{string_discrete, is_empty_string, trim_space, str_lt}
use mlx_swarm.Registry.Types.{Transport, Capabilities, Status, Registration}
use mlx_swarm.Registry.Validate.{Urls}

-- `slices.Compact`.
unfoldable pub compact : List String → List String
compact [] = []
compact (s ∷ []) = s ∷ []
compact (s ∷ (t ∷ ss)) =
    let rest = compact (t ∷ ss) in if is_yes (string_discrete s t) then rest else s ∷ rest

-- `slices.DeleteFunc` of the empty strings.
unfoldable pub delete_empty : List String → List String
delete_empty [] = []
delete_empty (s ∷ ss) = let rest = delete_empty ss in if is_empty_string s then rest else s ∷ rest

unfoldable pub normalize_strings : List String → List String
unfolding compact delete_empty str_lt
normalize_strings ss = delete_empty (compact (sort_by str_lt (map trim_space ss)))

abbrev pub normalize_transport : Transport → Transport
normalize_transport t = record t { tensor_encodings = normalize_strings t.tensor_encodings }

-- The order of two entries with one key is not fixed by `slices.SortFunc`; validation refuses them.
unfoldable pub normalize_status : Status → Status
unfolding str_lt
normalize_status s = record s {
  retained_shards = sort_by (λ a b. str_lt a.id b.id) s.retained_shards;
}

abbrev normalize_capabilities : Capabilities → Capabilities
normalize_capabilities c = record c {
  adapters = normalize_strings c.adapters;
  operations = normalize_strings c.operations;
  checkpoint_fingerprints = normalize_strings c.checkpoint_fingerprints;
  transports = sort_by (λ a b. str_lt a.protocol b.protocol) (map normalize_transport c.transports);
}

unfoldable pub normalize_registration : Urls → Registration → Registration
unfolding normalize_strings normalize_status
normalize_registration urls r = record r {
  endpoint = urls.canonical_endpoint r.endpoint;
  capabilities = normalize_capabilities r.capabilities;
  status = normalize_status r.status;
}
