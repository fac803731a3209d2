-- ===== src/Dram/Semantics/Classes.antt =====
-- The classes of the command table of src/dram/semantics.cpp.
use mem_sim.Base.{◌≡◌, ◌⊎◌, false, not, ◌&&◌, arith}
use mem_sim.Dram.Kinds.{Command, act, nop}
use mem_sim.Dram.Semantics.{command_meta}

-- Every command but NOP rides on exactly one of the row and column buses; the data commands are
-- those that access an open row; auto-precharge is on the data commands that close it; and a
-- command on all banks rides on the row bus.
command_meta_classes :
    (c : Command)
    → let m = command_meta c in
      ((c ≡ nop) ⊎ (m.row_command ≡ not m.column_command))
      × (m.data_command ≡ m.accessing)
      × (m.auto_precharge ≡ m.data_command && m.closing)
      × ((m.all_bank && not m.row_command) ≡ false)
unfolding command_meta
command_meta_classes act = ground arith
command_meta_classes _ = ground arith
