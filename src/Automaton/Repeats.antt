-- ===== src/Automaton/Repeats.antt =====
-- What becomes of a train that comes twice.
use protocol_pfe.Base.{◌+◌, ◌%◌, ◌<◌, ◌≡◌, refl, true}
use protocol_pfe.Address.{addr_is_member}
use protocol_pfe.Memory.{Bytes}
use protocol_pfe.Wagon.{train_id, train_lc, train_circuit}
use protocol_pfe.World.{Ptr, World, Env}
use protocol_pfe.World.Run.{◌>>=◌, get, pure, when◌then◌else◌}
use protocol_pfe.Buffer.{free_womim}
use protocol_pfe.Stamp.Recent.{is_recent_train_twice}
use protocol_pfe.Automaton.Several.{on_train}

-- In state SEVERAL, a train that comes once more right after it has been handled (lis is its
-- identifier, which is below ntr, and the clock of its last lap is one more than its own modulo
-- 256), with this process in its circuit, is freed and changes nothing else.
pub on_train_twice :
    (env : Env) (p : Ptr) (b : Bytes) (w : World)
    → addr_is_member w.my_address (train_circuit b) ≡ true
    → w.lis ≡ train_id b
    → train_id b < w.ntr
    → train_lc b < 256
    → (w.lts (train_id b)).stamp_lc ≡ (train_lc b + 1) % 256
    → on_train env p b w ≡ free_womim p w
unfolding on_train ◌>>=◌ get pure when◌then◌else◌
on_train_twice env p b w mem last id lc stamp =
    rw (mem, last, is_recent_train_twice w.ntr (train_id b) (train_lc b) w.lts id lc stamp) refl
