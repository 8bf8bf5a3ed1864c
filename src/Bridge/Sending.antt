-- ===== src/Bridge/Sending.antt =====
-- What `subscriber_main` of crates/mmbus-bridge/src/bridge.rs leaves in the queues of the peers.
use mmbus.Prelude.{
  ℕ, suc, ◌+◌, ◌-◌, ◌%◌, ◌^◌, ◌<◌, ◌≡◌, refl, sym, ap, ap₂, ◌∙◌, false, List, [], ◌∷◌, ◌++◌, map,
  All, length, drop, append-nil, append_assoc, length-append, leb, if_cases, arith,
}
use mmbus.Frame.{encode, new_msg}
use mmbus.Queue.{Channel, pop_front, send}
use mmbus.Queue.Bounded.{IsValid, send-IsValid}
use mmbus.Bridge.{fan_out, forward, forward_all}
use mmbus.Bridge.Republish.{forwarded}

abbrev pub Peer : Type 0
Peer = Channel (List ℕ)

-- A queue with room, to which senders may send.
abbrev pub IsOpen : Peer → Type 0
IsOpen c = IsValid c × (c.closed ≡ false)

-- The queue with `items` behind what it holds, and the oldest ones dropped over its capacity.
abbrev pub extended : Peer → List (List ℕ) → Peer
extended c items = record c {
  queue = drop (length c.queue + length items - c.capacity) (c.queue ++ items);
}

full-shift :
    (c : Peer) (q : List (List ℕ)) (x : List ℕ) (xs : List (List ℕ))
    → 0 < c.capacity
    → length q ≡ c.capacity
    → extended (record c { queue = pop_front q ++ (x ∷ []) }) xs
      ≡ extended (record c { queue = q }) (x ∷ xs)
full-shift c [] x xs pos full = absurd (omega arith)
full-shift c (y ∷ q) x xs pos full =
    let left : length (q ++ (x ∷ [])) + length xs - c.capacity ≡ length xs =
      omega (arith, length-append q (x ∷ []), full) in
    let right : length (y ∷ q) + length (x ∷ xs) - c.capacity ≡ suc (length xs) =
      omega (arith, full) in
    ap (λ b. record c { queue = b })
      (ap₂ drop left (append_assoc q (x ∷ []) xs)
        ∙ sym (ap (λ k. drop k ((y ∷ q) ++ (x ∷ xs))) right))

room-shift :
    (c : Peer) (x : List ℕ) (xs : List (List ℕ))
    → extended (record c { queue = c.queue ++ (x ∷ []) }) xs ≡ extended c (x ∷ xs)
room-shift c x xs =
    let count : length (c.queue ++ (x ∷ [])) + length xs - c.capacity
        ≡ length c.queue + length (x ∷ xs) - c.capacity =
      omega (arith, length-append c.queue (x ∷ [])) in
    ap (λ b. record c { queue = b }) (ap₂ drop count (append_assoc c.queue (x ∷ []) xs))

send-closed : (c : Peer) (x : List ℕ) → (send c x).0.closed ≡ c.closed
unfolding send
send-closed c x = ground arith

send-IsOpen : (c : Peer) (x : List ℕ) → IsOpen c → IsOpen (send c x).0
send-IsOpen c x (v, lives) = (send-IsValid c x v, send-closed c x ∙ lives)

send-extended :
    (c : Peer) (x : List ℕ) (xs : List (List ℕ))
    → IsOpen c
    → extended (send c x).0 xs ≡ extended c (x ∷ xs)
unfolding send
send-extended c x xs (v, lives) =
    if_cases (λ (r : Peer × ℕ). extended r.0 xs ≡ extended c (x ∷ xs)) c.closed
      (λ closed. absurd cc)
      (λ o.
        if_cases (λ (r : Peer × ℕ). extended r.0 xs ≡ extended c (x ∷ xs))
          (leb c.capacity (length c.queue))
          (λ full. full-shift c c.queue x xs v.positive (ground (arith, full, v.bounded)))
          (λ room. room-shift c x xs))

extended-nil : (c : Peer) → IsOpen c → extended c [] ≡ c
extended-nil c (v, lives) =
    let none_over : length c.queue + 0 - c.capacity ≡ 0 = omega (arith, v.bounded) in
    ap (λ b. record c { queue = b })
      (ap (λ k. drop k (c.queue ++ [])) none_over ∙ append-nil c.queue)

fan_out-IsOpen : (peers : List Peer) (x : List ℕ) → All IsOpen peers → All IsOpen (fan_out peers x)
unfolding fan_out
fan_out-IsOpen [] x o = tt
fan_out-IsOpen (c ∷ cs) x (o, os) = (send-IsOpen c x o, fan_out-IsOpen cs x os)

fan_out-extended :
    (peers : List Peer) (x : List ℕ) (xs : List (List ℕ))
    → All IsOpen peers
    → map (λ c. extended c xs) (fan_out peers x) ≡ map (λ c. extended c (x ∷ xs)) peers
unfolding fan_out
fan_out-extended [] x xs o = refl
fan_out-extended (c ∷ cs) x xs (o, os) =
    ap₂ ◌∷◌ (send-extended c x xs o) (fan_out-extended cs x xs os)

map-extended-nil : (peers : List Peer) → All IsOpen peers → peers ≡ map (λ c. extended c []) peers
map-extended-nil [] o = refl
map-extended-nil (c ∷ cs) (o, os) = ap₂ ◌∷◌ (sym (extended-nil c o)) (map-extended-nil cs os)

-- The subscriber's thread of a topic, with open queues: afterwards every peer's queue holds the
-- newest of what it held and of the encoded frames of these payloads, in order and as many as its
-- capacity allows, so that a peer that is slow does not hold up another.
pub forward_all-extended :
    (origin_id seq : ℕ) (topic : List ℕ) (payloads : List (List ℕ)) (peers : List Peer)
    → All IsOpen peers
    → (forward_all origin_id seq topic payloads peers).1
      ≡ map (λ c. extended c (map encode (forwarded origin_id seq topic payloads))) peers
unfolding forward_all forward forwarded
forward_all-extended origin_id seq topic [] peers o = map-extended-nil peers o
forward_all-extended origin_id seq topic (payload ∷ payloads) peers o =
    forward_all-extended origin_id ((seq + 1) % 2 ^ 64) topic payloads
      (fan_out peers (encode (new_msg origin_id seq topic payload)))
      (fan_out-IsOpen peers (encode (new_msg origin_id seq topic payload)) o)
    ∙ fan_out-extended peers (encode (new_msg origin_id seq topic payload))
        (map encode (forwarded origin_id ((seq + 1) % 2 ^ 64) topic payloads)) o
