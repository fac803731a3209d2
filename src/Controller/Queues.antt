-- ===== src/Controller/Queues.antt =====
-- RequestQueues of include/hbm_sim/controller/request_queues.hpp: four bounded queues, and how many
-- active requests each bank has. A queue holds the request's bank coordinates only here, all that
-- the class reads of it.
pub mod Ownership
use mem_sim.Base.{
  ℕ, ◌+◌, ◌-◌, Bool, true, false, not, ◌||◌, Option, none, some, List, [], ◌∷◌, ◌++◌, ltb, ◌==◌,
  if◌then◌else◌, length, get_elem?, modify, replicate, erase_at, invalid_argument, out_of_range,
  logic_error, Result, ok, err, ◌>>=◌, ◌>>◌, throw_if,
}
use mem_sim.Dram.Spec.{Organization}
use mem_sim.Dram.Address.{DecodedAddress, flat_bank}

pub data RequestQueueKind : Type 0 where
  active priority read write : RequestQueueKind

pub record Limits : Type 0 where
  pub banks : ℕ
  pub priority : ℕ
  pub reads : ℕ
  pub writes : ℕ

pub record RequestQueues : Type 0 where
  pub active_queue : List DecodedAddress
  pub priority_queue : List DecodedAddress
  pub read_queue : List DecodedAddress
  pub write_queue : List DecodedAddress
  pub limits : Limits
  pub active_counts : List ℕ

unfoldable pub make : ℕ → ℕ → ℕ → ℕ → Result RequestQueues
make banks priorities reads writes = do
  throw_if (banks == 0 || priorities == 0 || reads == 0 || writes == 0) invalid_argument
  ok (record {
    active_queue = [];
    priority_queue = [];
    read_queue = [];
    write_queue = [];
    limits = record { banks = banks; priority = priorities; reads = reads; writes = writes };
    active_counts = replicate banks 0;
  })

-- operator[]
unfoldable pub queue : RequestQueues → RequestQueueKind → List DecodedAddress
queue q active = q.active_queue
queue q priority = q.priority_queue
queue q read = q.read_queue
queue q write = q.write_queue

unfoldable pub set_queue : RequestQueues → RequestQueueKind → List DecodedAddress → RequestQueues
set_queue q active v = record q { active_queue = v }
set_queue q priority v = record q { priority_queue = v }
set_queue q read v = record q { read_queue = v }
set_queue q write v = record q { write_queue = v }

unfoldable pub limit : RequestQueues → RequestQueueKind → ℕ
limit q active = q.limits.banks
limit q priority = q.limits.priority
limit q read = q.limits.reads
limit q write = q.limits.writes

unfoldable pub has_space : RequestQueues → RequestQueueKind → Bool
has_space q kind = ltb (length (queue q kind)) (limit q kind)

unfoldable pub size : RequestQueues → ℕ
size q =
    length q.active_queue + length q.priority_queue + length q.read_queue + length q.write_queue

-- What `at` returns or throws.
abbrev pub found : Option ℕ → Result ℕ
found (some count) = ok count
found none = err out_of_range

-- `active_counts_.at(bank)`
unfoldable pub count_at : RequestQueues → ℕ → Result ℕ
count_at q bank = found (get_elem? q.active_counts bank)

abbrev pub is_active : RequestQueueKind → Bool
is_active active = true
is_active _ = false

-- The rest of erase, for a request of the active queue.
unfoldable pub erase_active :
    Organization → RequestQueues → ℕ → DecodedAddress → Result RequestQueues
erase_active o q index req = do
  count ← count_at q (flat_bank o req)
  throw_if (count == 0) logic_error
  ok (record q {
    active_queue = erase_at q.active_queue index;
    active_counts = modify q.active_counts (flat_bank o req) (λ n. n - 1);
  })

unfoldable pub erase : Organization → RequestQueues → RequestQueueKind → ℕ → Result RequestQueues
erase o q kind index = elim (get_elem? (queue q kind) index) [
  | none ↦ ok q
  | some req ↦
      if is_active kind
      then erase_active o q index req
      else ok (set_queue q kind (erase_at (queue q kind) index))
]

-- The rest of promote, for a request that is there.
unfoldable pub promote_request :
    Organization
    → RequestQueues
    → RequestQueueKind
    → ℕ
    → DecodedAddress
    → Result (RequestQueues × Bool)
promote_request o q kind index req = do
  count ← count_at q (flat_bank o req)
  let moved = set_queue q kind (erase_at (queue q kind) index)
  ok (
    record moved {
      active_queue = q.active_queue ++ req ∷ [];
      active_counts = modify q.active_counts (flat_bank o req) (λ n. n + 1);
    },
    true,
  )

unfoldable pub promote :
    Organization → RequestQueues → RequestQueueKind → ℕ → Result (RequestQueues × Bool)
promote o q kind index = elim (get_elem? (queue q kind) index) [
  | none ↦ ok (q, false)
  | some req ↦
      if is_active kind || not (has_space q active)
      then ok (q, false)
      else promote_request o q kind index req
]
