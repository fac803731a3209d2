-- ===== src/Lib.antt =====
-- hbm_sim: a cycle-level simulator of HBM and LPDDR memory controllers.
--
-- The parts of the program, and the files that model them:
--   * Base: lists (std::vector, std::deque), exceptions as results, Boolean tests, the digits of
--     mixed-radix numbers.
--   * Dram/Kinds: the enumerations of include/hbm_sim/core/common.hpp.
--   * Dram/Spec: the structures of include/hbm_sim/dram/spec.hpp, the checked products, and
--     validate_spec of src/dram/spec.cpp (Spec/Validate).
--   * Dram/Address: DecodedAddress and its flat_bank of include/hbm_sim/core/addr_map.hpp.
--   * Dram/Semantics: the command table of src/dram/semantics.cpp.
--   * Dram/State: check_command_state of src/dram/state.cpp.
--   * Core/AddrMap: AddressMapper::decode, Core/StackMap: StackAddressMapper, both of
--     src/core/addr_map.cpp.
--   * Core/Data: the SECDED code of src/core/data.cpp (Data/Secded) and its use on a block
--     (Data/Shadow); MemoryImage of include/hbm_sim/core/data.hpp and src/core/data.cpp: the row
--     buffers, writeback_row_buffer, activate_row and precharge_bank (Data/Image), row_buffer_block
--     and the bodies of the loops of read and write (Data/Access), the body of write's loop with
--     what it may throw (Data/Round: validate_decoded_address, and validate_line of
--     src/core/memory_backend.cpp), write with its checks and its loop (Data/Span),
--     precharge_all and flush_all_row_buffers (Data/Flush). The other files of Core/Data hold proofs;
--     Data/Coherence says what holds of every image and what it shows of a line, Data/Memory sets it
--     against a memory without rows.
--   * Controller/Scheduler, Controller/RowPolicy, Controller/Rfm: the files of those names under
--     src/controller. Controller/Timing: TimingEngine of src/controller/timing.cpp, with its scopes
--     (Timing/Scope), buckets (Timing/Engine), table of constraints (Timing/Constraints), and the
--     tFAW and WCK windows (Timing/Window). Controller/Executor: CommandExecutor of
--     src/controller/executor.cpp, with BankState of include/hbm_sim/dram/bank_state.hpp; the
--     references to buckets and banks that issue takes are writes at their indices.
--   * Controller/Refresh: RefreshManager of src/controller/refresh.cpp, its batches (Refresh/Batch)
--     and its tick (Refresh/Tick).
--   * Controller/Guards: the tests that Controller of src/controller/controller.cpp puts a command
--     to: the banks (Guards), state_ok (Guards/Snapshot), timing_ok (Guards/Ready), next_command
--     (Guards/Next), the buses and the active requests (Guards/Bus), decoded_from_flat_bank
--     (Guards/Coordinates).
--   * Controller/Arbiter: choose and the pick functions of src/controller/controller.cpp. What they ask
--     of the PHY, of the byte ranges of requests and of the watermarks is a parameter.
--   * Controller/Queues: RequestQueues of include/hbm_sim/controller/request_queues.hpp.
--   * Stats: the counters of include/hbm_sim/stats/stats.hpp that these parts update.
--   * Examples: concrete values, and each result applied to them.
--
-- A frontend sends requests with a byte address; StackAddressMapper picks the stack and
-- AddressMapper the coordinates. The controller asks for the command that a request needs next,
-- tests it against the command state machine and the timing gates, lets the scheduler choose among
-- the candidates, and has the chosen command executed, which updates banks, gates, the row policy
-- and the RFM counts. RFM commands that an activation asks for come back as maintenance requests.
--
-- Numbers: an int of the source is a natural number (the credit of a refresh, which goes below zero,
-- is a signed one, Base/Int), where 0 stands for the negative values that
-- the source tests as `x <= 0`; an open row of -1 is `none`. Addresses and capacities are 64
-- bits wide, and the overflow checks of the source are part of the model. Cycle counts, timing
-- gates and statistics do not wrap in the model; at one tick a picosecond they would take months
-- to wrap in the program. Most loops are structural recursion on a list or a count. The
-- loop over the deadlines of a rank has one round of fuel for each cycle up to the clock and one
-- more, which is enough since each round moves the deadline by at least one cycle. The loops of the
-- SECDED code that run until a test stops them are on fuel: parity_bits_for_data_bits has two rounds
-- more than there are data bits, as a power of two is larger than its exponent, and the searches for
-- a code position have twice the number of data bits and six, as of two positions in a row one is no
-- power of two. The loop of MemoryImage::write has one round for each byte, as each round handles one
-- or more. A read out of the bounds of a vector, undefined in the source, reads a default here.
--
-- Not modelled: the configuration and traffic parsers, the presets, the reports and the command
-- line (I/O and tables of constants), the PHY model (floating point; the outcomes of the
-- floating-point tests in validate_spec are a parameter), the rest of the controller (enqueue, issue,
-- tick), of MemoryImage the loop of read, flush_dirty_row_buffers, the files, power and temperature,
-- the validators and the system level. An image asks a decoder for the coordinates of a line, which
-- is a parameter and gives distinct coordinates to distinct lines, as AddressMapper does on the lines
-- within the capacity; the backend is a map of lines. What write may throw is modelled; after a throw
-- the program keeps the lines written before it, the model only the error. The store of a writeback or
-- of a read throws in the program for a line that ends beyond the capacity, and has no check in the
-- model, which is for capacities of whole lines there. The checks of coordinates that precede
-- activate_row and the precharges are left to the callers.
--
-- RowPolicyEngine::on_issue resets the counts of all banks on a PREab to any of them, where
-- CommandExecutor::issue closes the banks of one rank. The history of the row policy therefore
-- speaks of resets, and not of banks that are closed.
mod Base
pub mod Dram
pub mod Core
pub mod Stats
pub mod Controller
pub mod Examples
