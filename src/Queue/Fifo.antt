-- ===== src/Queue/Fifo.antt =====
-- What the queue holds, in terms of what was sent: the newest items, in order.
use mmbus.Prelude.{
  ℕ, ◌+◌, ◌-◌, ◌≤◌, ◌≡◌, ◌≢◌, refl, ap, sym, ◌∙◌, List, [], ◌∷◌, ◌++◌, length, drop, Bool, true,
  false, append-nil, append_assoc, arith, length-append, inl, inr, Bool-cases, List-cases,
  length-drop, if◌then◌else◌, drop-drop, drop-append_left, ◌⊎◌, ◌||◌,
}
use mmbus.Queue.{
  Channel, send, perform, perform_all, recv_timeout, Op, sends, Round, received, nothing, waiting,
  clone_sender, drop_check, drop_release, pop_front,
}
use mmbus.Queue.Bounded.{IsValid, perform-IsValid}

module _ {ℓ} {A : Type ℓ} where
  -- The items that the queue accepts, in the order in which they are sent: all, until it is closed.
  pub accepted : Channel A → List (Op A) → List A
  accepted c [] = []
  accepted c (sends x ∷ os) =
      let rest = accepted (perform c (sends x)) os in if c.closed then rest else x ∷ rest
  accepted c (o ∷ os) = accepted (perform c o) os

  -- The sum of the numbers that `send` returns.
  pub dropped : Channel A → List (Op A) → ℕ
  dropped c [] = 0
  dropped c (sends x ∷ os) = (send c x).1 + dropped (perform c (sends x)) os
  dropped c (o ∷ os) = dropped (perform c o) os

  drop_one : (x : A) (q : List A) → drop 1 (q ++ (x ∷ [])) ≡ pop_front q ++ (x ∷ []) ⊎ (q ≡ [])
  drop_one x [] = inr refl
  drop_one x (y ∷ q) = inl refl

  -- One `send` to an open queue: the item goes behind, and the oldest goes where there is no room.
  pub send-queue :
      (c : Channel A) (x : A)
      → IsValid c
      → c.closed ≡ false
      → ((send c x).0.queue ≡ drop (send c x).1 (c.queue ++ (x ∷ [])))
        × ((send c x).1 ≡ length c.queue + 1 - c.capacity)
        × ((send c x).0.capacity ≡ c.capacity)
  unfolding send
  send-queue c x v o = elim (drop_one x c.queue) [
    | inl e ↦ ground (arith, e)
    | inr e ↦ ground (arith, e)
  ]

  -- Where a suffix of `q ++ (x ∷ [])` stands before later items, it is a suffix of the whole.
  suffix_of_suffix :
      (j k : ℕ) (q later : List A) (x : A)
      → j ≤ length q + 1
      → drop k (drop j (q ++ (x ∷ [])) ++ later) ≡ drop (j + k) (q ++ (x ∷ later))
  suffix_of_suffix j k q later x h =
      ap (drop k) (
        sym (drop-append_left j (q ++ (x ∷ [])) later (omega (arith, length-append q (x ∷ []))))
        ∙ ap (drop j) (append_assoc q (x ∷ []) later))
      ∙ drop-drop k j (q ++ (x ∷ later))

  send-closed : (c : Channel A) (x : A) → c.closed ≡ true → send c x ≡ (c, 0)
  unfolding send
  send-closed c x e = rw e

  record History (c : Channel A) (os : List (Op A)) : Type ℓ where
    count : dropped c os ≡ length c.queue + length (accepted c os) - c.capacity
    holds : (perform_all c os).queue ≡ drop (dropped c os) (c.queue ++ accepted c os)
    same : (perform_all c os).capacity ≡ c.capacity

  History-sends :
      (c : Channel A) (x : A) (os : List (Op A))
      → IsValid c
      → History (send c x).0 os
      → History c (sends x ∷ os)
  unfolding perform perform_all accepted dropped
  History-sends c x os v h = elim (Bool-cases c.closed) [
    | inl shut ↦ record {
      count = ground (arith, send-closed c x shut);
      holds = ground (arith, send-closed c x shut);
      same = ground (arith, send-closed c x shut);
    }
    | inr live ↦
        let (q, d, k) = send-queue c x v live in
        let l : length (send c x).0.queue ≡ length c.queue + 1 - (send c x).1 = omega (
          arith,
          ap length q,
          length-drop (send c x).1 (c.queue ++ (x ∷ [])),
          length-append c.queue (x ∷ []),
        ) in
        record {
          count = ground (arith, l);
          holds = ground (
            arith,
            q,
            suffix_of_suffix (send c x).1 (dropped (send c x).0 os) c.queue
                (accepted (send c x).0 os) x,
          );
          same = ground arith;
        }
  ]

  History-of : (c : Channel A) (os : List (Op A)) → IsValid c → History c os
  unfolding perform perform_all accepted dropped clone_sender drop_check drop_release
  History-of c [] v = record {
    count = omega (arith, v);
    holds = sym (append-nil c.queue);
    same = refl;
  }
  History-of c (sends x ∷ os) v =
      History-sends c x os v (History-of (perform c (sends x)) os (perform-IsValid c (sends x) v))
  History-of c (o ∷ os) v =
      let h = History-of (perform c o) os (perform-IsValid c o v) in
      record { count = ground (arith, h); holds = ground (arith, h); same = ground (arith, h) }

  -- However the operations of the other threads interleave, the queue then holds the newest items
  -- of those that it held and those that it accepted, in order, as many as the capacity allows; the
  -- rest, the oldest, are exactly as many as `send` reported dropped.
  pub perform_all-queue :
      (c : Channel A) (os : List (Op A))
      → IsValid c
      → ((perform_all c os).queue ≡ drop (dropped c os) (c.queue ++ accepted c os))
        × (dropped c os ≡ length c.queue + length (accepted c os) - c.capacity)
  perform_all-queue c os v = let h : History c os = History-of c os v in (h.holds, h.count)

  -- All that the other threads do in the rounds.
  pub ops_of : List (Round A) → List (Op A)
  ops_of [] = []
  ops_of (r ∷ rs) = r.others ++ ops_of rs

  perform_all-append :
      (c : Channel A) (os ps : List (Op A))
      → perform_all c (os ++ ps) ≡ perform_all (perform_all c os) ps
  unfolding perform_all
  perform_all-append c [] ps = refl
  perform_all-append c (o ∷ os) ps = perform_all-append (perform c o) os ps

  -- An item that `recv_timeout` returns is the oldest that the queue holds after the rounds that it
  -- waited, and no other item is lost.
  pub recv_timeout-received :
      (c : Channel A) (rs : List (Round A)) (x : A) (d : Channel A)
      → recv_timeout c rs ≡ (received x, d)
      → (before : List (Round A)) × (after : List (Round A)) × (rs ≡ before ++ after)
        × (perform_all c (ops_of before) ≡ record d { queue = x ∷ d.queue })
  unfolding recv_timeout perform_all ops_of
  recv_timeout-received c [] x d e = ([], [], refl, ground arith)
  recv_timeout-received c (r ∷ rs) x d e = elim (List-cases c.queue) [
    | inl none_yet ↦
        let c' = perform_all c r.others in
        let later : recv_timeout c' rs ≡ (received x, d) = ground arith in
        let (before, after, split, end) = recv_timeout-received c' rs x d later in
        (r ∷ before, after, ap (λ t. r ∷ t) split, perform_all-append c r.others _ ∙ end)
    | inr (y, q, some_now) ↦ ([], r ∷ rs, refl, ground arith)
  ]

  -- `None` is returned only on an empty queue.
  pub recv_timeout-nothing :
      (c : Channel A) (rs : List (Round A)) (d : Channel A)
      → recv_timeout c rs ≡ (nothing, d)
      → d.queue ≡ []
  unfolding recv_timeout
  recv_timeout-nothing c [] d e = ground arith
  recv_timeout-nothing c (r ∷ rs) d e =
      ground (arith, recv_timeout-nothing (perform_all c r.others) rs d)

  unfoldable pub some_expired : List (Round A) → Bool
  some_expired [] = false
  some_expired (r ∷ rs) = r.expired || some_expired rs

  -- The call has returned by the first round that finds the deadline passed.
  pub recv_timeout-returns :
      (c : Channel A) (rs : List (Round A))
      → some_expired rs ≡ true
      → (recv_timeout c rs).0 ≢ waiting
  unfolding recv_timeout some_expired
  recv_timeout-returns c [] h e = cc
  recv_timeout-returns c (r ∷ rs) h e =
      ground (arith, recv_timeout-returns (perform_all c r.others) rs)
