-- ===== src/Deliver/Queue.antt =====
-- The thread utoDeliveries over the wagons that wait in its queue.
use protocol_pfe.Base.{
  ℕ, suc, ◌+◌, ◌^◌, ◌≤◌, ◌<◌, ◌≡◌, Bool, false, some, List, [], ◌∷◌, ◌==◌, ◌||◌, if◌then◌else◌,
  length, map,
}
use protocol_pfe.Memory.{Bytes}
use protocol_pfe.Wagon.{wagon_len}
use protocol_pfe.World.{u64, Ptr, Womim, Wiw, World, Action}
use protocol_pfe.World.Run.{when◌then◌else◌}
use protocol_pfe.Deliver.Messages.{Laid, told_all, ends}
use protocol_pfe.Deliver.Wagons.{given_back}

-- A wagon with the offsets of its messages.
pub record Parcel : Type 0 where
  pub wiw : Wiw
  pub messages : List ℕ

-- How many of the wagons stand in the womim at `p`: the references on it.
abbrev pub uses : Ptr → List Parcel → ℕ
uses p [] = 0
uses p (x ∷ xs) = if p == x.wiw.womim then suc (uses p xs) else uses p xs

-- The womims with the bytes `b` of each.
module _ (b : Ptr → Bytes) where
  abbrev last : Parcel → Bool
  last x = ends x.wiw.womim (b x.wiw.womim) x.wiw.wagon x.messages

  -- The wagons up to the first that ends the thread, with it, and those behind it.
  abbrev pub done : List Parcel → List Parcel
  done [] = []
  done (x ∷ xs) = if last x then x ∷ [] else x ∷ done xs

  abbrev pub left : List Parcel → List Parcel
  left [] = []
  left (x ∷ xs) = if last x then xs else left xs

  abbrev pub stops : List Parcel → Bool
  stops [] = false
  stops (x ∷ xs) = last x || stops xs

  -- What the application is told: message by message, wagon by wagon.
  abbrev pub tells : List Parcel → List Action → List Action
  tells [] before = before
  tells (x ∷ xs) before =
      tells xs (told_all x.wiw.womim (b x.wiw.womim) x.wiw.wagon x.messages before)

  -- Each wagon is filled with its messages.
  abbrev pub Filled : Parcel → Type 0
  Filled x =
      Laid (b x.wiw.womim) (x.wiw.wagon + wagon_len (b x.wiw.womim) x.wiw.wagon) (x.wiw.wagon + 7)
        x.messages

  abbrev pub All-Filled : List Parcel → Type 0
  All-Filled [] = Unit {0}
  All-Filled (x ∷ xs) = Filled x × All-Filled xs

  -- A womim with wagons in the queue is allocated, with a reference for each of them.
  abbrev pub Held : (ps : List Parcel) (w : World) → Type 0
  Held ps w =
      (p : Ptr)
      → 0 < uses p ps
      → (m : Womim) × (w.heap p ≡ some m)
        × (m.bytes ≡ b p)
        × (uses p ps ≤ m.counter)
        × (m.counter < 2 ^ 32)

  pub record Ran (ps : List Parcel) (w v : World) : Type 0 where
    pub actions : v.actions ≡ tells (done ps) w.actions
    pub heap : (p : Ptr) → v.heap p ≡ given_back (uses p (done ps)) (w.heap p)
    pub queue : v.wagons_to_deliver ≡ map (λ x. x.wiw) (left ps)
    pub wagons :
        u64 v.counters.wagons_delivered ≡ u64 (w.counters.wagons_delivered + length (done ps))

  -- The world when a wagon is taken from the queue.
  abbrev taken : List Parcel → World → World
  taken xs w = record w { wagons_to_deliver = map (λ x. x.wiw) xs }
