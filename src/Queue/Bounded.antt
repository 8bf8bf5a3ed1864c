-- ===== src/Queue/Bounded.antt =====
-- The capacity of the queue: never exceeded, and by whom items are dropped.
use mmbus.Prelude.{ℕ, ◌-◌, ◌≤◌, ◌<◌, ◌≡◌, List, [], ◌∷◌, length, some, arith, length-append}
use mmbus.Queue.{
  Channel, channel, send, perform, perform_all, recv_timeout, Op, sends, clones, drop_checks,
  drop_releases, Round, clone_sender, drop_check, drop_release, pop_front,
}

module _ {ℓ} {A : Type ℓ} where
  pub record IsValid (c : Channel A) : Type 0 where
    pub positive : 0 < c.capacity
    pub bounded : length c.queue ≤ c.capacity

  -- A new queue is valid, open and empty, and no queue has capacity 0.
  pub channel-IsValid :
      (n : ℕ) (c : Channel A) → channel n ≡ some c → IsValid c × (c.queue ≡ []) × (c.capacity ≡ n)
  unfolding channel
  channel-IsValid n c e = ground arith

  length-pop_front : (q : List A) → length (pop_front q) ≡ length q - 1
  length-pop_front [] = omega arith
  length-pop_front (x ∷ q) = omega arith

  pub send-IsValid : (c : Channel A) (x : A) → IsValid c → IsValid (send c x).0
  unfolding send
  send-IsValid c x v = ground (
    arith,
    length-append c.queue (x ∷ []),
    length-append (pop_front c.queue) (x ∷ []),
    length-pop_front c.queue,
  )

  pub perform-IsValid : (c : Channel A) (o : Op A) → IsValid c → IsValid (perform c o)
  unfolding perform clone_sender drop_check drop_release
  perform-IsValid c (sends x) v = send-IsValid c x v
  perform-IsValid c clones v = ground arith
  perform-IsValid c drop_checks v = ground arith
  perform-IsValid c drop_releases v = ground arith

  pub perform_all-IsValid :
      (c : Channel A) (os : List (Op A)) → IsValid c → IsValid (perform_all c os)
  unfolding perform_all
  perform_all-IsValid c [] v = v
  perform_all-IsValid c (o ∷ os) v = perform_all-IsValid (perform c o) os (perform-IsValid c o v)

  -- Whatever other threads do while the receiver waits, the queue never holds more than `capacity` items.
  pub recv_timeout-IsValid :
      (c : Channel A) (rs : List (Round A)) → IsValid c → IsValid (recv_timeout c rs).1
  unfolding recv_timeout
  recv_timeout-IsValid c [] v = ground arith
  recv_timeout-IsValid c (r ∷ rs) v =
      ground
        (arith, perform_all-IsValid c r.others v, recv_timeout-IsValid (perform_all c r.others) rs)
