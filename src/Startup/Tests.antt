-- ===== src/Startup/Tests.antt =====
-- trInit of a concrete process, which takes 24 bytes for the length of a wagon.
use protocol_pfe.Base.{[]}
use protocol_pfe.World.{World, State}
use protocol_pfe.World.Samples.{womim_of, world_of}
use protocol_pfe.Startup.{Params}

abbrev params : Params
params = record { trains_number = 2; wagon_length = 24; wait_nb = 0; wait_time = 0 }

abbrev before : World
before = world_of State.offline_connection_attempt (womim_of [])
