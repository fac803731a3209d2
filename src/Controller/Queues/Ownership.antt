-- ===== src/Controller/Queues/Ownership.antt =====
-- RequestQueues::erase and promote: the counts of active requests against the active queue.
use mem_sim.Base.{
  ℕ, zero, suc, ◌+◌, ◌-◌, ◌<◌, ◌≡◌, refl, ◌⊎◌, inl, inr, Bool, false, not, ◌||◌, some, List, [],
  ◌∷◌, ◌++◌, arith, ◌==◌, if◌then◌else◌, Bool-cases, Option-cases, length, get_elem?, get_or,
  modify, erase_at, get_or-modify, out_of_range, ok, err,
}
use mem_sim.Dram.Spec.{Organization}
use mem_sim.Dram.Address.{DecodedAddress, flat_bank}
use mem_sim.Controller.Queues.{
  erase, is_active, erase_active, promote_request, RequestQueueKind, active, RequestQueues, promote,
  queue, set_queue, count_at, has_space,
}

-- The requests of a queue for one bank.
unfoldable pub tally : Organization → ℕ → List DecodedAddress → ℕ
tally o b [] = 0
tally o b (d ∷ ds) = let rest = tally o b ds in if flat_bank o d == b then suc rest else rest

abbrev pub IsOwned : Organization → RequestQueues → Type 0
IsOwned o q = (b : ℕ) → get_or q.active_counts b 0 ≡ tally o b q.active_queue

tally-erase_at :
    (o : Organization) (b : ℕ) (ds : List DecodedAddress) (i : ℕ) (d : DecodedAddress)
    → get_elem? ds i ≡ some d
    → tally o b ds
      ≡ (if flat_bank o d == b then suc (tally o b (erase_at ds i)) else tally o b (erase_at ds i))
unfolding tally
tally-erase_at o b [] i d h = cc
tally-erase_at o b (x ∷ xs) zero d h = ground (arith, h)
tally-erase_at o b (x ∷ xs) (suc i) d h = ground (arith, tally-erase_at o b xs i d h)

tally-append :
    (o : Organization) (b : ℕ) (ds : List DecodedAddress) (d : DecodedAddress)
    → tally o b (ds ++ d ∷ []) ≡ (if flat_bank o d == b then suc (tally o b ds) else tally o b ds)
unfolding tally
tally-append o b [] d = ground arith
tally-append o b (x ∷ xs) d = ground (arith, tally-append o b xs d)

get_elem?-get_or :
    (xs : List ℕ) (i c : ℕ) → get_elem? xs i ≡ some c → (i < length xs) × (get_or xs i 0 ≡ c)
get_elem?-get_or [] i c h = cc
get_elem?-get_or (x ∷ xs) zero c h = (omega arith, ground (arith, h))
get_elem?-get_or (x ∷ xs) (suc i) c h =
    let (lt, e) = get_elem?-get_or xs i c h in (omega (arith, lt), e)

promote_request-IsOwned :
    (o : Organization) (q r : RequestQueues) (kind : RequestQueueKind) (index : ℕ) (moved : Bool)
    (req : DecodedAddress)
    → IsOwned o q
    → promote_request o q kind index req ≡ ok (r, moved)
    → IsOwned o r
unfolding promote_request count_at
promote_request-IsOwned o q r kind index moved req s h b =
    elim (Option-cases (get_elem? q.active_counts (flat_bank o req))) [
      | inl n ↦ ground (arith, h, n)
      | inr (c, y) ↦
          let (lt, e) = get_elem?-get_or q.active_counts (flat_bank o req) c y in
          ground (
            arith,
            h,
            y,
            s b,
            get_or-modify q.active_counts (flat_bank o req) b (λ n. n + 1) 0 lt,
            tally-append o b q.active_queue req,
          )
    ]

-- Where the counts of active requests are those of the active queue, promoting any index of any
-- queue keeps them so if it does not throw.
pub promote-IsOwned :
    (o : Organization) (q r : RequestQueues) (kind : RequestQueueKind) (index : ℕ) (moved : Bool)
    → IsOwned o q
    → promote o q kind index ≡ ok (r, moved)
    → IsOwned o r
unfolding promote
promote-IsOwned o q r kind index moved s h b =
    elim (Option-cases (get_elem? (queue q kind) index)) [
      | inl n ↦ ground (arith, h, n, s b)
      | inr (req, y) ↦ elim (Bool-cases (is_active kind || not (has_space q active))) [
        | inl stays ↦ ground (arith, h, y, stays, s b)
        | inr goes ↦
            promote_request-IsOwned o q r kind index moved req s (ground (arith, h, y, goes)) b
      ]
    ]

erase_active-IsOwned :
    (o : Organization) (q : RequestQueues) (index : ℕ) (req : DecodedAddress)
    → IsOwned o q
    → get_elem? q.active_queue index ≡ some req
    → ((r : RequestQueues) × (erase_active o q index req ≡ ok r) × IsOwned o r)
      ⊎ (erase_active o q index req ≡ err out_of_range)
unfolding erase_active count_at
erase_active-IsOwned o q index req s at =
    elim (Option-cases (get_elem? q.active_counts (flat_bank o req))) [
      | inl n ↦ inr (rw n refl)
      | inr (c, y) ↦
          let (lt, e) = get_elem?-get_or q.active_counts (flat_bank o req) c y in
          let some_left : (c == 0) ≡ false = ground (
            arith,
            e,
            s (flat_bank o req),
            tally-erase_at o (flat_bank o req) q.active_queue index req at,
          ) in
          inl (
            record q {
              active_queue = erase_at q.active_queue index;
              active_counts = modify q.active_counts (flat_bank o req) (λ n. n - 1);
            },
            rw (y, some_left) refl,
            λ b. ground (
              arith,
              s b,
              get_or-modify q.active_counts (flat_bank o req) b (λ n. n - 1) 0 lt,
              tally-erase_at o b q.active_queue index req at,
            ),
          )
    ]

-- Where the counts of active requests are those of the active queue, erasing any index of any
-- queue keeps them so or throws that the bank is out of range; it never throws the underflow
-- error.
pub erase-IsOwned :
    (o : Organization) (q : RequestQueues) (kind : RequestQueueKind) (index : ℕ)
    → IsOwned o q
    → ((r : RequestQueues) × (erase o q kind index ≡ ok r) × IsOwned o r)
      ⊎ (erase o q kind index ≡ err out_of_range)
unfolding erase queue set_queue
erase-IsOwned o q active index s = elim (Option-cases (get_elem? q.active_queue index)) [
  | inl n ↦ inl (q, ground (arith, n), s)
  | inr (req, y) ↦ elim (erase_active-IsOwned o q index req s y) [
    | inl (r, e, t) ↦ inl (r, ground (arith, y, e), t)
    | inr e ↦ inr (ground (arith, y, e))
  ]
]
erase-IsOwned o q kind index s = elim (Option-cases (get_elem? (queue q kind) index)) [
  | inl n ↦ inl (q, ground (arith, n), s)
  | inr (req, y) ↦ inl (set_queue q kind (erase_at (queue q kind) index), ground (arith, y), s)
]
