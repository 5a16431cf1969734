-- ===== src/Train/Loop.antt =====
-- The loop over the wagons of a train: with the wagons laid out one behind the other it ends, it
-- keeps the wagons of the other members in their order, and it adds up the wagons to send on.
use protocol_pfe.Base.{
  ℕ, ◌+◌, ◌≤◌, ◌<◌, ◌≡◌, refl, Option, none, some, Bool, false, not, List, [], ◌∷◌, ◌++◌, ◌&&◌, leb,
  if◌then◌else◌, arith,
}
use protocol_pfe.Address.{addr_is_equal}
use protocol_pfe.Memory.{Bytes}
use protocol_pfe.Wagon.{wagon_len, wagon_sender, msg_len}
use protocol_pfe.World.{Ptr, Womim, Wiw, World}
use protocol_pfe.World.Run.{when◌then◌else◌}
use protocol_pfe.Train.{is_kept}

-- A pointer to the wagon at an offset, or NULL at the end of the train.
abbrev pub entry : Bytes → ℕ → Option ℕ
entry b o = if leb (msg_len b) o then none else some o

-- The wagons at the offsets `ws`, each of at least its header, stand one behind the other from `o`
-- to the end of the train.
abbrev pub Laid : Bytes → ℕ → List ℕ → Type 0
Laid b o [] = msg_len b ≤ o
Laid b o (x ∷ xs) =
    (x ≡ o)
    × (o < msg_len b)
    × (7 ≤ wagon_len b o)
    × (o + wagon_len b o ≤ msg_len b)
    × Laid b (o + wagon_len b o) xs

abbrev pub wiw : Ptr → ℕ → Wiw
wiw p wag = record { womim = p; wagon = wag }

module _ (kept : ℕ → Bool) (p : Ptr) (b : Bytes) where
  -- The wagons whose sender is kept, in the order of the train.
  abbrev pub kept_wagons : List ℕ → List Wiw
  kept_wagons [] = []
  kept_wagons (x ∷ xs) =
      if kept (wagon_sender b x) then wiw p x ∷ kept_wagons xs else kept_wagons xs

  -- Of these, the bytes of the wagons that are not the successor's.
  abbrev pub passed_len : ℕ → List ℕ → ℕ
  passed_len succ [] = 0
  passed_len succ (x ∷ xs) =
      if kept (wagon_sender b x) && not (addr_is_equal succ (wagon_sender b x))
      then wagon_len b x + passed_len succ xs
      else passed_len succ xs

  -- And the first of them, unless there is one already.
  abbrev pub passed_first : ℕ → List ℕ → Option Wiw → Option Wiw
  passed_first succ ws (some ww) = some ww
  passed_first succ [] none = none
  passed_first succ (x ∷ xs) none =
      if kept (wagon_sender b x) && not (addr_is_equal succ (wagon_sender b x))
      then some (wiw p x)
      else passed_first succ xs none

-- What the loop does to the world.
pub record Handled (p : Ptr) (b : Bytes) (id r : ℕ) (ws : List ℕ) (w v : World) : Type 0 where
  pub added : v.unstable_wagons id r ≡ w.unstable_wagons id r ++ kept_wagons (is_kept w id) p b ws
  pub len : (v.lts id).w_len ≡ (w.lts id).w_len + passed_len (is_kept w id) p b w.succ ws
  pub first : (v.lts id).w_w ≡ passed_first (is_kept w id) p b w.succ ws (w.lts id).w_w
  pub circuit : (v.lts id).circuit ≡ (w.lts id).circuit
  pub gone : v.gone_proc ≡ w.gone_proc
  pub mine : v.my_address ≡ w.my_address
  pub succ : v.succ ≡ w.succ
  pub delivered : v.wagons_to_deliver ≡ w.wagons_to_deliver

-- A womim that is allocated.
abbrev pub Live : Ptr → World → Type 0
Live p w = (m : Womim) × (w.heap p ≡ some m)

module _ (kept : ℕ → Bool) (p : Ptr) (b : Bytes) (succ x : ℕ) where
  pub passed_first-nil : (o : Option Wiw) → passed_first kept p b succ [] o ≡ o
  passed_first-nil none = refl
  passed_first-nil (some ww) = refl

  pub passed_first_skip :
      (xs : List ℕ) (o : Option Wiw)
      → (kept (wagon_sender b x) && not (addr_is_equal succ (wagon_sender b x))) ≡ false
      → passed_first kept p b succ (x ∷ xs) o ≡ passed_first kept p b succ xs o
  passed_first_skip xs none e = rw e refl
  passed_first_skip xs (some ww) e = refl

  -- The first wagon, then the others.
  pub passed_first-cons :
      (xs : List ℕ) (o : Option Wiw)
      → passed_first kept p b succ (x ∷ xs) o
        ≡ passed_first kept p b succ xs (passed_first kept p b succ (x ∷ []) o)
  passed_first-cons xs none = ground arith
  passed_first-cons xs (some ww) = refl

  pub passed_len-cons :
      (xs : List ℕ)
      → passed_len kept p b succ (x ∷ xs)
        ≡ passed_len kept p b succ (x ∷ []) + passed_len kept p b succ xs
  passed_len-cons xs = ground arith

  pub kept_wagons-cons :
      (xs : List ℕ)
      → kept_wagons kept p b (x ∷ xs) ≡ kept_wagons kept p b (x ∷ []) ++ kept_wagons kept p b xs
  kept_wagons-cons xs = ground arith
