-- ===== src/Queue/Runs.antt =====
-- Runs of the bounded queue: each theorem on a queue of three places.
use mmbus.Prelude.{
  ℕ, ◌+◌, ◌-◌, ◌≡◌, ◌≢◌, refl, List, [], ◌∷◌, ◌++◌, length, drop, replicate, true, false, arith,
}
use mmbus.Queue.{
  Channel, Op, sends, clones, drop_checks, drop_releases, Round, Received, received, nothing,
  waiting, perform_all, recv_timeout,
}
use mmbus.Queue.Bounded.{IsValid}
use mmbus.Queue.Fifo.{
  accepted, dropped, perform_all-queue, ops_of, recv_timeout-received, recv_timeout-returns,
  some_expired,
}
use mmbus.Queue.Closing.{drops_at_once}

abbrev empty : Channel ℕ
empty = record { queue = []; closed = false; capacity = 3; strong = 3 }

abbrev four_sends : List (Op ℕ)
four_sends = sends 1 ∷ (sends 2 ∷ (clones ∷ (sends 3 ∷ (sends 4 ∷ []))))

abbrev one_wait : List (Round ℕ)
one_wait = record { expired = false; others = sends 8 ∷ (sends 9 ∷ []); timed_out = false } ∷ []

abbrev late : List (Round ℕ)
late = record { expired = true; others = []; timed_out = false } ∷ []

abbrev with_nine : Channel ℕ
with_nine = record { queue = 9 ∷ []; closed = false; capacity = 3; strong = 3 }

empty-IsValid : IsValid empty
empty-IsValid = record { positive = omega arith; bounded = omega arith }

queue_after_four : (perform_all empty four_sends).queue ≡ 2 ∷ (3 ∷ (4 ∷ []))
unfolding perform_all mmbus.Queue.perform mmbus.Queue.send mmbus.Queue.clone_sender
queue_after_four = refl

waited : recv_timeout empty one_wait ≡ (received 8, with_nine)
unfolding recv_timeout perform_all mmbus.Queue.perform mmbus.Queue.send
waited = refl

perform_all-queue_example :
    ((perform_all empty four_sends).queue
      ≡ drop (dropped empty four_sends) ([] ++ accepted empty four_sends))
    × (dropped empty four_sends ≡ 0 + length (accepted empty four_sends) - 3)
perform_all-queue_example = perform_all-queue empty four_sends empty-IsValid

recv_timeout-received_example :
    (before : List (Round ℕ)) × (after : List (Round ℕ)) × (one_wait ≡ before ++ after)
    × (perform_all empty (ops_of before) ≡ record with_nine { queue = 8 ∷ (9 ∷ []) })
recv_timeout-received_example = recv_timeout-received empty one_wait 8 with_nine waited

recv_timeout-returns_example : (recv_timeout empty late).0 ≢ waiting
unfolding some_expired
recv_timeout-returns_example = recv_timeout-returns empty late refl

drops_at_once_example :
    perform_all empty (replicate 2 drop_checks ++ replicate 2 drop_releases)
    ≡ record empty { strong = 1 }
drops_at_once_example = drops_at_once 2 empty (omega arith) (omega arith)
