-- ===== src/Queue.antt =====
-- The bounded drop-oldest queue of the bridge, crates/mmbus-bridge/src/queue.rs.
-- `Channel` is `Shared` with the `Inner` under its mutex; each function is what one caller does
-- while it holds the lock, and a wait on the condition variable hands the lock to other threads.
pub mod Bounded
pub mod Fifo
pub mod Closing
mod Runs
use mmbus.Prelude.{
  ℕ, zero, suc, ◌+◌, ◌-◌, Bool, true, false, ◌&&◌, List, [], ◌∷◌, ◌++◌, Option, none, some, length,
  ltb, leb, ◌==◌, if◌then◌else◌,
}

-- `strong` is `Arc::strong_count`: the senders and the receiver.
pub record Channel {ℓ} (A : Type ℓ) : Type ℓ where
  pub queue : List A
  pub closed : Bool
  pub capacity : ℕ
  pub strong : ℕ

-- `VecDeque::pop_front`, as what is left.
abbrev pub pop_front {ℓ} : {A : Type ℓ} → List A → List A
pop_front [] = []
pop_front (x ∷ q) = q

abbrev pub is_empty {ℓ} : {A : Type ℓ} → List A → Bool
is_empty [] = true
is_empty (x ∷ q) = false

-- What another thread may do while the receiver waits.
pub data Op {ℓ} (A : Type ℓ) : Type ℓ where
  sends : A → Op A
  clones : Op A
  drop_checks : Op A
  drop_releases : Op A

-- One round of `recv_timeout` that finds the queue empty: whether the deadline has passed, what
-- the other threads do during `wait_timeout`, and whether that call reports a timeout.
pub record Round {ℓ} (A : Type ℓ) : Type ℓ where
  pub expired : Bool
  pub others : List (Op A)
  pub timed_out : Bool

pub data Received {ℓ} (A : Type ℓ) : Type ℓ where
  received : A → Received A
  nothing : Received A
  waiting : Received A

module _ {ℓ} {A : Type ℓ} where
  -- `none` is the panic at capacity 0.
  unfoldable pub channel : ℕ → Option (Channel A)
  channel capacity =
      if capacity == 0
      then none
      else some (record { queue = []; closed = false; capacity = capacity; strong = 2 })

  -- `Sender::send`, with the number of items dropped.
  unfoldable pub send : Channel A → A → Channel A × ℕ
  send c item =
      if c.closed
      then (c, 0)
      else if leb c.capacity (length c.queue)
      then (record c { queue = pop_front c.queue ++ (item ∷ []) }, 1)
      else (record c { queue = c.queue ++ (item ∷ []) }, 0)

  -- `Sender::clone`
  unfoldable pub clone_sender : Channel A → Channel A
  clone_sender c = record c { strong = c.strong + 1 }

  -- The body of `Sender::drop`: it reads the count before its own reference is gone.
  unfoldable pub drop_check : Channel A → Channel A
  drop_check c = if leb c.strong 2 then record c { closed = true } else c

  -- What the compiler runs after that body: the reference goes.
  unfoldable pub drop_release : Channel A → Channel A
  drop_release c = record c { strong = c.strong - 1 }

  unfoldable pub perform : Channel A → Op A → Channel A
  perform c (sends x) = (send c x).0
  perform c clones = clone_sender c
  perform c drop_checks = drop_check c
  perform c drop_releases = drop_release c

  unfoldable pub perform_all : Channel A → List (Op A) → Channel A
  perform_all c [] = c
  perform_all c (o ∷ os) = perform_all (perform c o) os

  -- `Receiver::recv_timeout` over the rounds that it is given; `waiting` is a call that has not
  -- returned after them.
  unfoldable pub recv_timeout : Channel A → List (Round A) → Received A × Channel A
  recv_timeout c [] = elim c.queue [
    | x ∷ q ↦ (received x, record c { queue = q })
    | [] ↦ if c.closed then (nothing, c) else (waiting, c)
  ]
  recv_timeout c (r ∷ rs) =
      let c' = perform_all c r.others in
      let rest = recv_timeout c' rs in
      elim c.queue [
        | x ∷ q ↦ (received x, record c { queue = q })
        | [] ↦
            if c.closed
            then (nothing, c)
            else if r.expired
            then (nothing, c)
            else if r.timed_out && is_empty c'.queue
            then (nothing, c')
            else rest
      ]
