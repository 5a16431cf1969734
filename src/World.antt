-- ===== src/World.antt =====
-- The global variables of src/stateMachine.c, src/advanced_struct.c, src/wagon.c, src/counter.c
-- and src/management_addr.c as one record, with the structs of include/advanced_struct.h,
-- include/stateMachine.h, include/counter.h and include/management_addr.h.
pub mod Run
pub mod Ends
pub mod Keeps
pub mod Halts
pub mod Samples
use protocol_pfe.Base.{◌%◌, ◌^◌, ℕ, Bool, Option, List, ◌==◌, if◌then◌else◌}
use protocol_pfe.Address.{Address, AddressSet}
use protocol_pfe.Memory.{Bytes}

abbrev pub Ptr : Type 0
Ptr = ℕ

abbrev pub null : Ptr
null = 0

-- MAX_NTR
abbrev pub max_ntr : ℕ
max_ntr = 16

-- `womim`: the counter of its prefix (the bit pattern of an `int`), the number of bytes that
-- are allocated behind the prefix, and these bytes.
pub record Womim : Type 0 where
  pub counter : ℕ
  pub size : ℕ
  pub bytes : Bytes

-- `wiw`: the womim, and the place of the wagon in it. Both pointers are NULL together, which
-- is `none` where a `wiw` may be so.
pub record Wiw : Type 0 where
  pub womim : Ptr
  pub wagon : ℕ

-- `ltsStruct`. `type` is always TRAIN and `lng` is computed by sendTrain, so both are left out.
pub record Lts : Type 0 where
  pub stamp_id : ℕ
  pub stamp_lc : ℕ
  pub stamp_round : ℕ
  pub circuit : AddressSet
  pub w_w : Option Wiw
  pub w_len : ℕ
  pub p_wtosend : Option Wiw

-- `State`
pub data State : Type 0 where
  offline_connection_attempt : State
  offline_confirmation_wait : State
  alone_insert_wait : State
  alone_connection_wait : State
  several : State
  wait : State

-- t_counter is an unsigned number of 64 bits.
abbrev pub u64 : ℕ → ℕ
u64 n = n % 2 ^ 64

-- `t_counters`, without those of src/comm.c.
pub record Counters : Type 0 where
  pub messages_delivered : ℕ
  pub messages_bytes_delivered : ℕ
  pub trains_bytes_received : ℕ
  pub trains_received : ℕ
  pub recent_trains_bytes_received : ℕ
  pub recent_trains_received : ℕ
  pub wagons_delivered : ℕ
  pub newmsg : ℕ
  pub flow_control : ℕ

-- A `trComm *` that is not NULL, by a number.
abbrev pub Comm : Type 0
Comm = ℕ

-- `ADDR` of globalAddrArray. `named` says that `chan` is not the empty string.
pub record Entry : Type 0 where
  pub named : Bool
  pub tcomm0 : Option Comm
  pub tcomm1 : Option Comm
  pub is_pred0 : Bool
  pub is_pred1 : Bool

-- `circuitView`
pub record CircuitView : Type 0 where
  pub cv_nmemb : ℕ
  pub cv_members : ℕ → Address
  pub cv_joined : Address
  pub cv_departed : Address

-- What the process does to the outside, the latest first.
pub data Action : Type 0 where
  opened : Comm → Address → Bool → Action
  closed : Comm → Action
  sent : Comm → List ℕ → Action
  accepting : Bool → Action
  slept : ℕ → Action
  init_done : Action
  flow_signal : Action
  uto_delivered : Address → Ptr → ℕ → Action
  circuit_changed : CircuitView → Action
  unknown_typ : ℕ → Action

pub record World : Type 0 where
  pub automaton_state : State
  pub my_address : Address
  pub prec : Address
  pub succ : Address
  pub came_proc : AddressSet
  pub gone_proc : AddressSet
  pub wait_nb : ℕ
  pub lis : ℕ
  pub lts : ℕ → Lts
  pub unstable_wagons : ℕ → ℕ → List Wiw
  pub wagons_to_deliver : List Wiw
  pub wagon_to_send : Wiw
  pub ntr : ℕ
  pub wagon_max_len : ℕ
  pub wait_nb_max : ℕ
  pub wait_default_time : ℕ
  pub heap : Ptr → Option Womim
  pub allocations : ℕ
  pub dials : ℕ
  pub table : ℕ → Entry
  pub counters : Counters
  pub actions : List Action

-- Code that is not the program's, and the connections of src/comm.c: what the n-th `malloc` of a
-- womim returns (NULL is 0) and the bytes that it finds there, what the n-th commNewAndConnect
-- returns (NULL is `none`), and the n-th `rand`.
pub record Env : Type 0 where
  pub malloc : ℕ → Ptr
  pub garbage : ℕ → Bytes
  pub dial : ℕ → Option Comm
  pub rand : ℕ → ℕ

-- An array with one element replaced.
abbrev pub update {ℓ} : {A : Type ℓ} → (ℕ → A) → ℕ → A → ℕ → A
update f i v j = if j == i then v else f j
