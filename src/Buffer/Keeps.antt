-- ===== src/Buffer/Keeps.antt =====
-- The functions of Buffer change the memory and wagonToSend only.
use protocol_pfe.Base.{ℕ, Option, none, some}
use protocol_pfe.World.{Ptr, Wiw, Env}
use protocol_pfe.World.Ends.{kept}
use protocol_pfe.World.Keeps.{Keeps, keeps}
use protocol_pfe.Buffer.{new_wiw, malloc_wiw, free_womim, release_wiw, retain}

pub free_womim-Keeps : (p : Ptr) → Keeps kept (free_womim p)
unfolding free_womim
free_womim-Keeps p = search keeps

pub release_wiw-Keeps : (ww : Option Wiw) → Keeps kept (release_wiw ww)
unfolding release_wiw
release_wiw-Keeps none = search keeps
release_wiw-Keeps (some ww) = free_womim-Keeps ww.womim

pub retain-Keeps : (p : Ptr) → Keeps kept (retain p)
unfolding retain
retain-Keeps p = search keeps

pub new_wiw-Keeps : (env : Env) → Keeps kept (new_wiw env)
unfolding new_wiw
new_wiw-Keeps env = search (keeps) depth 9

pub malloc_wiw-Keeps : (n : ℕ) → Keeps kept (malloc_wiw n)
unfolding malloc_wiw
malloc_wiw-Keeps n = search (keeps) depth 9

pub ruleset buffer_keeps =
    (free_womim-Keeps, release_wiw-Keeps, retain-Keeps, new_wiw-Keeps, malloc_wiw-Keeps)
