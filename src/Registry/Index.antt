-- ===== src/Registry/Index.antt =====
-- The workers of a membership snapshot by ID, as the callers of the registry index them.
use mlx_swarm.Base.{String, List, [], ◌∷◌}
use mlx_swarm.Base.GoMap.{GoMap, put}
use mlx_swarm.Base.Text.{string_key}
use mlx_swarm.Registry.Types.{Worker}

-- `workers[worker.ID] = worker` for each worker of a snapshot.
unfoldable pub index_from : GoMap String Worker → List Worker → GoMap String Worker
index_from m [] = m
index_from m (w ∷ ws) = index_from (put m w.id w) ws

unfoldable pub index_workers : List Worker → GoMap String Worker
unfolding index_from
index_workers ws = index_from [] ws
