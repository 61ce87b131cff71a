-- ===== src/Worker/Complete.antt =====
-- What a successful `OpenSequences` has opened.
use mlx_swarm.Base.{List}
