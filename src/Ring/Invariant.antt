-- ===== src/Ring/Invariant.antt =====
-- What the slots of crates/mmbus/src/ring.rs hold while the publisher runs, between any two of its
-- stores.
use mmbus.Prelude.{
  ℕ, ◌+◌, ◌%◌, ◌^◌, ◌≤◌, ◌<◌, ◌≡◌, ◌≢◌, ◌⊎◌, List, [], ◌∷◌, ◌++◌, length, get_or, Bool, true, false,
}
use mmbus.Ring.{Slot, Ring, Store, store_seq, store_len, store_tail, byte_stores, clear_writing}
use mmbus.Ring.Reader.{Publishing}

-- The slot's length and its first bytes are those of the message.
pub record Holds (s : Slot) (m : List ℕ) : Type 0 where
  pub len : s.len ≡ length m
  pub bytes : (j : ℕ) → j < length m → s.bytes j ≡ get_or m j 0

-- No position from `start` to `count` lies in slot `i`.
abbrev pub IsUnused : ℕ → ℕ → ℕ → ℕ → Type 0
IsUnused capacity start count i = (s : ℕ) → start ≤ s → s < count → s % capacity ≢ i

-- Slot `i` has the message of its number, the last of the first `count` that lies there; or it is
-- being written (`busy`), with the flag; or nothing was written to it since the tail was `start`,
-- and it holds what it held then.
abbrev pub Stored : ℕ → Slot → (ℕ → List ℕ) → ℕ → ℕ → Bool → ℕ → Type 0
Stored capacity slot history start count busy i =
    ((slot.seq < count)
      × (count ≤ slot.seq + capacity)
      × (slot.seq % capacity ≡ i)
      × Holds slot (history slot.seq))
    ⊎ (((slot.seq ≡ count + 2 ^ 63) × (count % capacity ≡ i) × (busy ≡ true))
        ⊎ IsUnused capacity start count i)

abbrev pub AllStored : Ring → (ℕ → List ℕ) → ℕ → ℕ → Bool → Type 0
AllStored r history start count busy =
    (i : ℕ) → i < r.capacity → Stored r.capacity (r.slots i) history start count busy i

abbrev pub AllFit : ℕ → List (List ℕ) → Type 0
AllFit size [] = Unit
AllFit size (m ∷ ms) = (length m ≤ size) × AllFit size ms

-- The sizes are legal, and the tail stays below the flag for all that is still to be published.
pub record Sizes (p : Publishing) (busy : ℕ) : Type 0 where
  pub room : 0 < p.ring.capacity
  pub small : p.ring.slot_payload_size < 2 ^ 32
  pub bound : p.ring.tail + busy + length p.input < 2 ^ 63
  pub fits : AllFit p.ring.slot_payload_size p.input

abbrev pub target : Publishing → ℕ
target p = p.ring.tail % p.ring.capacity

abbrev pub message : Publishing → List ℕ
message p = p.history p.ring.tail

-- What is left of a publish once the length is stored and the bytes from `j` on are not.
abbrev pub ending : Publishing → ℕ → List ℕ → List Store
ending p j left =
    byte_stores (target p) j left
    ++ (store_seq (target p) p.ring.tail ∷ (store_tail (p.ring.tail + 1) ∷ []))

pub record IsOpen (p : Publishing) : Type 0 where
  pub flag : (p.ring.slots (target p)).seq ≡ p.ring.tail + 2 ^ 63
  pub fit : length (message p) ≤ p.ring.slot_payload_size

-- The publisher between two stores; `count` messages are complete.
pub data Inv (p : Publishing) (start count : ℕ) : Type 0 where
  idle :
      p.pending ≡ []
      → count ≡ p.ring.tail
      → Sizes p 0
      → AllStored p.ring p.history start count false
      → Inv p start count
  ready :
      p.pending
        ≡ store_seq (target p) (p.ring.tail + 2 ^ 63)
          ∷ (store_len (target p) (length (message p)) ∷ ending p 0 (message p))
      → count ≡ p.ring.tail
      → Sizes p 1
      → length (message p) ≤ p.ring.slot_payload_size
      → AllStored p.ring p.history start count false
      → Inv p start count
  opened :
      p.pending ≡ store_len (target p) (length (message p)) ∷ ending p 0 (message p)
      → count ≡ p.ring.tail
      → Sizes p 1
      → IsOpen p
      → AllStored p.ring p.history start count true
      → Inv p start count
  copying :
      (done left : List ℕ)
      → message p ≡ done ++ left
      → p.pending ≡ ending p (length done) left
      → count ≡ p.ring.tail
      → Sizes p 1
      → IsOpen p
      → (p.ring.slots (target p)).len ≡ length (message p)
      → ((j : ℕ) → j < length done → (p.ring.slots (target p)).bytes j ≡ get_or (message p) j 0)
      → AllStored p.ring p.history start count true
      → Inv p start count
  committed :
      p.pending ≡ store_tail (p.ring.tail + 1) ∷ []
      → count ≡ p.ring.tail + 1
      → Sizes p 1
      → AllStored p.ring p.history start count false
      → Inv p start count

-- From `p` to `q`: no complete message is lost from the history, and a slot is either left alone or
-- has a number beyond the complete ones.
pub record Went (p : Publishing) (c : ℕ) (q : Publishing) (d : ℕ) : Type 0 where
  pub le : c ≤ d
  pub capacity : q.ring.capacity ≡ p.ring.capacity
  pub size : q.ring.slot_payload_size ≡ p.ring.slot_payload_size
  pub kept : (s : ℕ) → s < c → q.history s ≡ p.history s
  pub slot :
      (i e : ℕ)
      → e < c
      → (q.ring.slots i ≡ p.ring.slots i) ⊎ (e < clear_writing (q.ring.slots i).seq)
  pub newer :
      (i e : ℕ)
      → e < c
      → e < clear_writing (p.ring.slots i).seq
      → e < clear_writing (q.ring.slots i).seq

abbrev pub Next : ℕ → Publishing → ℕ → Publishing → Type 0
Next start p c q = (d : ℕ) × Inv q start d × Went p c q d
