-- ===== src/Examples/Ownership.antt =====
-- The theorems on the request queues at concrete inputs.
use mem_sim.Base.{
  ◌+◌, ◌≡◌, refl, ◌⊎◌, true, [], ◌∷◌, modify, replicate, out_of_range, ok, err,
  get_or-replicate_self,
}
use mem_sim.Dram.Address.{flat_bank}
use mem_sim.Controller.Queues.{
  RequestQueues, read, erase, promote, promote_request, queue, set_queue, has_space, limit,
  count_at,
}
use mem_sim.Controller.Queues.Ownership.{IsOwned, tally, promote-IsOwned, erase-IsOwned}
use mem_sim.Examples.{small_org, somewhere, neighbour}

-- Nothing active, two reads waiting.
abbrev queues : RequestQueues
queues = record {
  active_queue = [];
  priority_queue = [];
  read_queue = somewhere ∷ neighbour ∷ [];
  write_queue = [];
  limits = record { banks = 64; priority = 4; reads = 4; writes = 4 };
  active_counts = replicate 64 0;
}

queues-IsOwned : IsOwned small_org queues
unfolding tally
queues-IsOwned = λ b. get_or-replicate_self 64 b 0

abbrev promoted : RequestQueues
promoted = record queues {
  active_queue = somewhere ∷ [];
  read_queue = neighbour ∷ [];
  active_counts = modify (replicate 64 0) 61 (λ n. n + 1);
}

promoted-promote : promote small_org queues read 0 ≡ ok (promoted, true)
unfolding promote promote_request queue set_queue has_space limit count_at flat_bank
promoted-promote = refl

promote-IsOwned_example : IsOwned small_org promoted
promote-IsOwned_example =
    promote-IsOwned small_org queues promoted read 0 true queues-IsOwned promoted-promote

erase-IsOwned_example :
    ((r : RequestQueues) × (erase small_org queues read 1 ≡ ok r) × IsOwned small_org r)
    ⊎ (erase small_org queues read 1 ≡ err out_of_range)
erase-IsOwned_example = erase-IsOwned small_org queues read 1 queues-IsOwned
