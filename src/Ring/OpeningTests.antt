-- ===== src/Ring/OpeningTests.antt =====
-- The ring opened by process 1, whose successor answers the second time.
use protocol_pfe.Base.{◌≡◌, refl, true, false, some, [], ◌∷◌, ok}
use protocol_pfe.Sockets.{Net}
use protocol_pfe.Ring.Opening.{
  Calls, Accepts, now, later, ring_sockets, create_ring, create_ring_lem,
}

abbrev net : Net
net = record { sockets = []; doing_connect = false; timers = [] }

abbrev calls : Calls
calls = record {
  client = 5;
  nodelay_client = true;
  attempts = record { connects = false; next = 6 } ∷ record { connects = true; next = 0 } ∷ [];
  server = 3;
  binds = true;
  listens = true;
  nodelay_server = true;
  accepts = some 4 ∷ [];
}

create_ring_example :
    create_ring 1 calls net
    ≡ ok (
      6,
      record { self_sid = 4; nodelay = false },
      record net { sockets = ring_sockets 1 3 4 6 [] },
    )
create_ring_example =
    create_ring_lem 1 4 6 false calls net (later refl (now refl)) Accepts.at_once refl refl refl
      refl
