-- ===== src/Train/Keeps.antt =====
-- trainHandling leaves alone the variables that the automaton itself sets.
use protocol_pfe.Base.{ℕ, zero, suc, Option, none, some, List}
use protocol_pfe.Address.{AddressSet}
use protocol_pfe.Memory.{Bytes}
use protocol_pfe.Wagon.{next_wagon}
use protocol_pfe.World.{Ptr, Wiw, Lts, Env}
use protocol_pfe.World.Ends.{spins}
use protocol_pfe.World.Keeps.{
  Keeps, keeps, control, control-Keeps, >>=-Keeps, pure-Keeps, lift-Keeps,
}
use protocol_pfe.Buffer.Keeps.{buffer_keeps}
use protocol_pfe.Broadcast.{enqueue, extend}
use protocol_pfe.Broadcast.Keeps.{broadcast_keeps}
use protocol_pfe.Train.{
  in_lts, in_unstable, on_lts, on_unstable, deliver, renew_circuit, release_last_lap, first_passed,
  pass_on, handle_wagon, wagons_loop, join_with, join_train, count_recent, train_handling,
}

pub enqueue-Keeps : (wi : Wiw) → Keeps control (enqueue wi)
unfolding enqueue
enqueue-Keeps wi = search keeps

pub extend-Keeps : (wis : List Wiw) → Keeps control (extend wis)
unfolding extend
extend-Keeps wis = search keeps

in_lts-Keeps : (id : ℕ) → Keeps control (in_lts id)
unfolding in_lts
in_lts-Keeps id = search keeps

in_unstable-Keeps : (id r : ℕ) → Keeps control (in_unstable id r)
unfolding in_unstable
in_unstable-Keeps id r = search keeps

pub on_lts-Keeps : (id : ℕ) (f : Lts → Lts) → Keeps control (on_lts id f)
unfolding on_lts
on_lts-Keeps id f = search keeps

pub on_unstable-Keeps : (id r : ℕ) (f : List Wiw → List Wiw) → Keeps control (on_unstable id r f)
unfolding on_unstable
on_unstable-Keeps id r f = search (keeps, in_unstable-Keeps)

pub ruleset train_keeps = (
  keeps, enqueue-Keeps, extend-Keeps, on_lts-Keeps, on_unstable-Keeps, control-Keeps, buffer_keeps,
  broadcast_keeps,
)

pub deliver-Keeps : (id r : ℕ) → Keeps control (deliver id r)
unfolding deliver
deliver-Keeps id r = search train_keeps depth 9

renew_circuit-Keeps : (id : ℕ) (c : AddressSet) → Keeps control (renew_circuit id c)
unfolding renew_circuit
renew_circuit-Keeps id c = search train_keeps depth 12

release_last_lap-Keeps : (id : ℕ) → Keeps control (release_last_lap id)
unfolding release_last_lap
release_last_lap-Keeps id = search train_keeps depth 12

first_passed-Keeps :
    (p : Ptr) (id wag : ℕ) (o : Option Wiw) → Keeps control (first_passed p id wag o)
unfolding first_passed
first_passed-Keeps p id wag none = search train_keeps depth 9
first_passed-Keeps p id wag (some _) = search train_keeps

pass_on-Keeps : (p : Ptr) (b : Bytes) (id wag : ℕ) → Keeps control (pass_on p b id wag)
unfolding pass_on
pass_on-Keeps p b id wag = search (train_keeps, first_passed-Keeps) depth 9

handle_wagon-Keeps :
    (p : Ptr) (b : Bytes) (id r wag : ℕ) → Keeps control (handle_wagon p b id r wag)
unfolding handle_wagon
handle_wagon-Keeps p b id r wag = search (train_keeps, in_lts-Keeps, pass_on-Keeps) depth 9

wagons_loop-Keeps :
    (fuel : ℕ) (p : Ptr) (b : Bytes) (id r : ℕ) (o : Option ℕ)
    → Keeps control (wagons_loop fuel p b id r o)
unfolding wagons_loop
wagons_loop-Keeps zero p b id r o = record { run = λ u w s. spins }
wagons_loop-Keeps (suc fuel) p b id r none = pure-Keeps _
wagons_loop-Keeps (suc fuel) p b id r (some wag) =
    >>=-Keeps _ _ (handle_wagon-Keeps p b id r wag) (λ _.
      >>=-Keeps _ _ (lift-Keeps (next_wagon b wag)) (λ next. wagons_loop-Keeps fuel p b id r next))

join_with-Keeps : (env : Env) (id r : ℕ) (o : Option ℕ) → Keeps control (join_with env id r o)
unfolding join_with
join_with-Keeps env id r none = search train_keeps
join_with-Keeps env id r (some _) = search train_keeps depth 12

join_train-Keeps : (env : Env) (id r : ℕ) → Keeps control (join_train env id r)
unfolding join_train
join_train-Keeps env id r = search (train_keeps, join_with-Keeps) depth 9

count_recent-Keeps : (b : Bytes) → Keeps control (count_recent b)
unfolding count_recent
count_recent-Keeps b = search keeps

pub train_handling-Keeps :
    (env : Env) (p : Ptr) (b : Bytes) → Keeps control (train_handling env p b)
unfolding train_handling
train_handling-Keeps env p b =
    search
      (
        train_keeps, deliver-Keeps, renew_circuit-Keeps, release_last_lap-Keeps, wagons_loop-Keeps,
        join_train-Keeps, count_recent-Keeps,
      )
      depth 20
