-- ===== src/Ring/Restart.antt =====
-- The ring that a publisher starts on: `create_or_reuse` of crates/mmbus/src/ring.rs.
use mmbus.Prelude.{
  ℕ, ◌^◌, ◌<◌, ◌≡◌, inl, inr, refl, sym, subst, List, [], length, Option, none, some, arith,
  Bool-cases, ==_iff, ◌==◌,
}
use mmbus.Ring.{Ring, File, create, open_ring, reuse_or_create, create_or_reuse}
use mmbus.Ring.Reader.{Publishing, Backpressure}
use mmbus.Ring.Invariant.{AllFit, Inv}
use mmbus.Ring.Session.{start-Inv}

-- A ring of the sizes asked for, with the tail at 0.
pub record IsShaped (r : Ring) (capacity size subscribers : ℕ) : Type 0 where
  pub capacity_is : r.capacity ≡ capacity
  pub size_is : r.slot_payload_size ≡ size
  pub subscribers_is : r.max_subscribers ≡ subscribers
  pub tail_is : r.tail ≡ 0

create-IsShaped : (c s m : ℕ) → IsShaped (create c s m) c s m
unfolding create
create-IsShaped c s m = record {
  capacity_is = refl;
  size_is = refl;
  subscribers_is = refl;
  tail_is = refl;
}

pub reuse_or_create-IsShaped :
    (o : Option Ring) (c s m : ℕ) → IsShaped (reuse_or_create o c s m) c s m
unfolding reuse_or_create
reuse_or_create-IsShaped none c s m = create-IsShaped c s m
reuse_or_create-IsShaped (some r) c s m = elim (Bool-cases (r.capacity == c)) [
  | inr other ↦ rw other (create-IsShaped c s m)
  | inl cap ↦ elim (Bool-cases (r.slot_payload_size == s)) [
    | inr other ↦ rw (cap, other) (create-IsShaped c s m)
    | inl size ↦ elim (Bool-cases (r.max_subscribers == m)) [
      | inr other ↦ rw (cap, size, other) (create-IsShaped c s m)
      | inl subs ↦
          rw (cap, size, subs)
            (record {
              capacity_is = (==_iff _ _).0 cap;
              size_is = (==_iff _ _).0 size;
              subscribers_is = (==_iff _ _).0 subs;
              tail_is = refl;
            })
    ]
  ]
]

-- Whatever file is found, a publisher that begins on it with `create_or_reuse` has a ring of the
-- sizes that it asked for, empty, in the state that the theorems on its readers ask for, old slots
-- or not. The sizes are legal, the messages fit in the slots, and there are fewer than 2 ^ 63.
pub create_or_reuse-Inv :
    (file : File) (c s m : ℕ) (policy : Backpressure) (input : List (List ℕ)) (history : ℕ → List ℕ)
    → 0 < c
    → s < 2 ^ 32
    → length input < 2 ^ 63
    → AllFit s input
    → ((create_or_reuse file c s m).capacity ≡ c)
      × ((create_or_reuse file c s m).slot_payload_size ≡ s)
      × ((create_or_reuse file c s m).max_subscribers ≡ m)
      × Inv
          (record {
            ring = create_or_reuse file c s m;
            policy = policy;
            pending = [];
            input = input;
            history = history;
          })
          0
          0
unfolding create_or_reuse
create_or_reuse-Inv file c s m policy input history room small few fit =
    let shape = reuse_or_create-IsShaped (open_ring file) c s m in
    let p : Publishing = record {
      ring = create_or_reuse file c s m;
      policy = policy;
      pending = [];
      input = input;
      history = history;
    } in
    let inv : Inv p p.ring.tail p.ring.tail = start-Inv p refl (record {
      room = omega (arith, shape.capacity_is, room);
      small = omega (arith, shape.size_is, small);
      bound = omega (arith, shape.tail_is, few);
      fits = subst (λ k. AllFit k input) (sym shape.size_is) fit;
    }) in
    (
      shape.capacity_is,
      shape.size_is,
      shape.subscribers_is,
      subst (λ k. Inv p k k) shape.tail_is inv,
    )
