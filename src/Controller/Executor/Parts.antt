-- ===== src/Controller/Executor/Parts.antt =====
-- What the cases of CommandExecutor::issue do to banks and buckets, by the group of commands.
use mem_sim.Base.{ℕ, ◌+◌, max, Bool, true, false, none, some, ltb, if◌then◌else◌}
use mem_sim.Dram.Spec.{DramSpec}
use mem_sim.Dram.Address.{DecodedAddress}
use mem_sim.Controller.Timing.Scope.{timing_delay}
use mem_sim.Controller.Timing.Engine.{TimingScopeState}
use mem_sim.Controller.Timing.Window
use mem_sim.Controller.Rfm.{on_activate}
use mem_sim.Stats.{Stats}
use mem_sim.Controller.Executor.{
  BankState, Request, CommandExecutor, on_bank, on_row, on_col, on_bg, on_wck, on_stats, on_rank,
}

unfoldable pub close_rank_banks : DramSpec → DecodedAddress → ℕ → CommandExecutor → CommandExecutor
close_rank_banks spec d clk x =
    let t = spec.timing in
    let next_act = clk + timing_delay spec (if ltb 0 t.n_rpab then t.n_rpab else t.n_rp) in
    on_rank spec d
      (λ (b : BankState). record b {
        open_row = none;
        activating = false;
        next_act = max b.next_act next_act;
      })
      x

unfoldable pub gate_rank_banks_after :
    DramSpec → DecodedAddress → ℕ → CommandExecutor → CommandExecutor
gate_rank_banks_after spec d ready_at x =
    on_rank spec d (λ (b : BankState). record b { next_act = max b.next_act ready_at }) x

-- `row.next_row = at`
unfoldable pub hold_row : DramSpec → DecodedAddress → ℕ → CommandExecutor → CommandExecutor
hold_row spec d at x = on_row spec d (λ (s : TimingScopeState). record s { next_row = at }) x

unfoldable pub record_act : DramSpec → DecodedAddress → ℕ → CommandExecutor → CommandExecutor
record_act spec d clk x = record x {
  timing_engine = Window.record_activate spec d clk x.timing_engine;
}

-- The writes that ACT and ACT1 share behind the bank's.
unfoldable pub activate_scopes : DramSpec → DecodedAddress → ℕ → CommandExecutor → CommandExecutor
activate_scopes spec d clk x =
    let t = spec.timing in
    let x =
      on_row spec d
        (λ (s : TimingScopeState). record s {
          next_row = clk + 1;
          next_act = clk + timing_delay spec t.n_rrds;
        })
        x in
    let x =
      on_bg spec d
        (λ (s : TimingScopeState). record s { next_act = clk + timing_delay spec t.n_rrdl }) x in
    record_act spec d clk x

-- The column gates that the data commands share.
unfoldable pub data_scopes : DramSpec → DecodedAddress → ℕ → CommandExecutor → CommandExecutor
data_scopes spec d clk x =
    let t = spec.timing in
    let x =
      on_col spec d
        (λ (s : TimingScopeState). record s { next_col = clk + timing_delay spec t.n_ccds }) x in
    on_bg spec d
      (λ (s : TimingScopeState). record s { next_col = clk + timing_delay spec t.n_ccdl }) x

-- What a data command does to the WCK window of LPDDR.
unfoldable pub extend_wck : DramSpec → DecodedAddress → Bool → ℕ → CommandExecutor → CommandExecutor
extend_wck spec d cas_sync_issued until x =
    if spec.lpddr_family
    then on_wck spec d
        (λ (s : TimingScopeState). record s { wck_active_until = max s.wck_active_until until })
        (if cas_sync_issued
          then x
          else on_stats (λ (c : Stats). record c { wck_sync_skips = c.wck_sync_skips + 1 }) x)
    else x

unfoldable pub issue_data :
    DramSpec → Request → (BankState → BankState) → ℕ → ℕ → CommandExecutor → CommandExecutor
issue_data spec req f clk until x =
    let x = on_bank spec req.decoded f x in
    let x = data_scopes spec req.decoded clk x in
    extend_wck spec req.decoded req.cas_sync_issued until x

-- The bank's part of RD and WR, and the rest that RDA and WRA add to it.
unfoldable pub read_bank : DramSpec → ℕ → BankState → BankState
read_bank spec clk b =
    let t = spec.timing in
    record b {
      next_any_col = clk + timing_delay spec t.n_ccdl;
      next_rd = clk + timing_delay spec t.n_ccdl;
      next_pre = max b.next_pre (clk + timing_delay spec t.n_rtp);
    }

unfoldable pub write_recovery : DramSpec → ℕ
write_recovery spec = timing_delay spec (spec.timing.n_cwl + spec.timing.n_bl + spec.timing.n_wr)

unfoldable pub write_bank : DramSpec → ℕ → BankState → BankState
write_bank spec clk b =
    let t = spec.timing in
    record b {
      next_any_col = clk + timing_delay spec t.n_ccdl;
      next_wr = clk + timing_delay spec t.n_ccdl;
      next_pre = max b.next_pre (clk + write_recovery spec);
    }

unfoldable pub auto_precharge_bank : DramSpec → ℕ → BankState → BankState
auto_precharge_bank spec pre_at b = record b {
  open_row = none;
  next_act = max b.next_act (pre_at + timing_delay spec spec.timing.n_rp);
}

unfoldable pub until_read : DramSpec → ℕ → ℕ
until_read spec clk = let t = spec.timing in clk + timing_delay spec (t.n_cl + t.n_bl + t.n_wckpst)

unfoldable pub until_write : DramSpec → ℕ → ℕ
until_write spec clk =
    let t = spec.timing in clk + timing_delay spec (t.n_cwl + t.n_bl + t.n_wckpst)

unfoldable pub start_wck : DramSpec → DecodedAddress → ℕ → CommandExecutor → CommandExecutor
start_wck spec d clk x =
    let t = spec.timing in
    let x = on_col spec d (λ (s : TimingScopeState). record s { next_col = clk + 1 }) x in
    on_wck spec d
      (λ (s : TimingScopeState). record s {
        next_cas = clk + 1;
        wck_ready_at = clk + timing_delay spec (max 1 t.n_wck2ck);
        wck_active_until = clk + timing_delay spec (max t.n_wckpst (t.n_wck2ck + 1));
      })
      x

unfoldable pub act_bank : DramSpec → DecodedAddress → ℕ → BankState → BankState
act_bank spec d clk b =
    let t = spec.timing in
    record b {
      open_row = some d.row;
      next_rd = clk + timing_delay spec t.n_rcdrd;
      next_wr = clk + timing_delay spec t.n_rcdwr;
      next_pre = clk + timing_delay spec t.n_ras;
      next_act = clk + timing_delay spec t.n_rc;
    }

unfoldable pub act1_bank : DramSpec → ℕ → BankState → BankState
act1_bank spec clk b =
    let t = spec.timing in
    record b {
      activating = true;
      next_act2 = clk + timing_delay spec (max 1 t.n_aad_min);
      act2_deadline = clk + timing_delay spec (max t.n_aad_min t.n_aad_max);
      next_rd = clk + timing_delay spec t.n_rcdrd;
      next_wr = clk + timing_delay spec t.n_rcdwr;
      next_act = clk + timing_delay spec t.n_rc;
      next_pre = clk + timing_delay spec t.n_ras;
    }

unfoldable pub act2_bank : DecodedAddress → BankState → BankState
act2_bank d b = record b {
  activating = false;
  open_row = some d.row;
  next_act2 = 0;
  act2_deadline = 0;
}

unfoldable pub precharge_bank : DramSpec → ℕ → BankState → BankState
precharge_bank spec clk b = record b {
  open_row = none;
  activating = false;
  next_act = clk + timing_delay spec spec.timing.n_rp;
}

unfoldable pub gate_bank : ℕ → BankState → BankState
gate_bank at b = record b { next_act = at }

-- on_activate of the RFM manager, with its statistics.
unfoldable pub notify_rfm : DramSpec → DecodedAddress → CommandExecutor → CommandExecutor
notify_rfm spec d x =
    let a = on_activate spec d x.rfm_manager x.stats in
    record x { rfm_manager = a.manager; stats = a.stats }
