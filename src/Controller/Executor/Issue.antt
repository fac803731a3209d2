-- ===== src/Controller/Executor/Issue.antt =====
-- CommandExecutor::issue, one case for each command.
use mem_sim.Base.{ℕ, ◌+◌, max, true, false, Option, none, ltb, if◌then◌else◌}
use mem_sim.Dram.Kinds.{Command}
use mem_sim.Dram.Spec.{DramSpec}
use mem_sim.Dram.Semantics.{lpddr_refdb_partner}
use mem_sim.Controller.Timing.Scope.{timing_delay}
use mem_sim.Controller.Timing.Engine.{TimingScopeState}
use mem_sim.Controller.Timing.Constraints.{apply_constraints}
use mem_sim.Controller.Rfm.{RfmMaintenanceCommand, on_activate, on_rfmpb, on_rfmab}
use mem_sim.Stats.{Stats}
use mem_sim.Controller.Executor.{
  BankState, Request, CommandExecutor, on_bank, on_col, on_wck, on_stats,
}
use mem_sim.Controller.Executor.Parts.{
  close_rank_banks, gate_rank_banks_after, hold_row, record_act, activate_scopes, issue_data,
  read_bank, write_recovery, write_bank, auto_precharge_bank, until_read, until_write, start_wck,
  act_bank, act1_bank, act2_bank, precharge_bank, gate_bank, notify_rfm,
}

-- The switch of issue: what the command does to all but the request.
unfoldable pub transition : DramSpec → Request → Command → ℕ → CommandExecutor → CommandExecutor
transition spec req Command.act clk x =
    let d = req.decoded in
    on_stats (λ (c : Stats). record c { act = c.act + 1 })
      (notify_rfm spec d (activate_scopes spec d clk (on_bank spec d (act_bank spec d clk) x)))
transition spec req Command.act1 clk x =
    let d = req.decoded in
    on_stats (λ (c : Stats). record c { act1 = c.act1 + 1 })
      (notify_rfm spec d (activate_scopes spec d clk (on_bank spec d (act1_bank spec clk) x)))
transition spec req Command.act2 clk x =
    let d = req.decoded in
    on_stats (λ (c : Stats). record c { act2 = c.act2 + 1 })
      (hold_row spec d (clk + 1) (on_bank spec d (act2_bank d) x))
transition spec req Command.pre clk x =
    let d = req.decoded in
    on_stats (λ (c : Stats). record c { pre = c.pre + 1 })
      (hold_row spec d (clk + 1) (on_bank spec d (precharge_bank spec clk) x))
transition spec req Command.prepb clk x =
    let d = req.decoded in
    on_stats (λ (c : Stats). record c { prepb = c.prepb + 1 })
      (hold_row spec d (clk + 1) (on_bank spec d (precharge_bank spec clk) x))
transition spec req Command.casrd clk x =
    on_stats (λ (c : Stats). record c { cas_rd = c.cas_rd + 1; wck_syncs = c.wck_syncs + 1 })
      (start_wck spec req.decoded clk x)
transition spec req Command.caswr clk x =
    on_stats (λ (c : Stats). record c { cas_wr = c.cas_wr + 1; wck_syncs = c.wck_syncs + 1 })
      (start_wck spec req.decoded clk x)
transition spec req Command.rd clk x =
    on_stats (λ (c : Stats). record c { rd = c.rd + 1 })
      (issue_data spec req (read_bank spec clk) clk (until_read spec clk) x)
transition spec req Command.rda clk x =
    let pre_at = clk + timing_delay spec spec.timing.n_rtp in
    on_stats (λ (c : Stats). record c { rda = c.rda + 1 })
      (issue_data spec req (λ b. auto_precharge_bank spec pre_at (read_bank spec clk b)) clk
        (until_read spec clk) x)
transition spec req Command.wr clk x =
    on_stats (λ (c : Stats). record c { wr = c.wr + 1 })
      (issue_data spec req (write_bank spec clk) clk (until_write spec clk) x)
transition spec req Command.wra clk x =
    let pre_at = clk + write_recovery spec in
    on_stats (λ (c : Stats). record c { wra = c.wra + 1 })
      (issue_data spec req (λ b. auto_precharge_bank spec pre_at (write_bank spec clk b)) clk
        (until_write spec clk) x)
transition spec req Command.refpb clk x =
    let d = req.decoded in
    let x = on_bank spec d (gate_bank (clk + timing_delay spec spec.timing.n_rfcpb)) x in
    on_stats (λ (c : Stats). record c { refpb = c.refpb + 1 })
      (record_act spec d clk (hold_row spec d (clk + 1) x))
transition spec req Command.refdb clk x =
    let d = req.decoded in
    let at = clk + timing_delay spec spec.timing.n_rfcpb in
    let x = on_bank spec d (gate_bank at) x in
    let x =
      on_bank spec (lpddr_refdb_partner spec.org d)
        (λ (b : BankState). record b { next_act = max b.next_act at }) x in
    on_stats (λ (c : Stats). record c { refdb = c.refdb + 1 })
      (record_act spec d clk (hold_row spec d (clk + 1) x))
transition spec req Command.rfmpb clk x =
    let d = req.decoded in
    let t = spec.timing in
    let delay = timing_delay spec (if ltb 0 t.n_rfmpb then t.n_rfmpb else t.n_rfcpb) in
    let x = hold_row spec d (clk + 1) (on_bank spec d (gate_bank (clk + delay)) x) in
    let (manager, stats) = on_rfmpb spec d x.rfm_manager x.stats in
    on_stats (λ (c : Stats). record c { rfmpb = c.rfmpb + 1 })
      (record x { rfm_manager = manager; stats = stats })
transition spec req Command.preab clk x =
    let d = req.decoded in
    on_stats (λ (c : Stats). record c { preab = c.preab + 1 })
      (hold_row spec d (clk + 1) (close_rank_banks spec d clk x))
transition spec req Command.refab clk x =
    let d = req.decoded in
    on_stats (λ (c : Stats). record c { refab = c.refab + 1 })
      (hold_row spec d (clk + 1)
        (gate_rank_banks_after spec d (clk + timing_delay spec spec.timing.n_rfc) x))
transition spec req Command.rfmab clk x =
    let d = req.decoded in
    let t = spec.timing in
    let delay = timing_delay spec (if ltb 0 t.n_rfmab then t.n_rfmab else t.n_rfc) in
    let x = gate_rank_banks_after spec d (clk + delay) x in
    let (manager, stats) = on_rfmab spec d x.rfm_manager x.stats in
    on_stats (λ (c : Stats). record c { rfmab = c.rfmab + 1 })
      (hold_row spec d (clk + 1) (record x { rfm_manager = manager; stats = stats }))
transition spec req Command.mrw clk x =
    on_stats
      (λ (c : Stats). record c { mrw = c.mrw + 1; mode_register_ops = c.mode_register_ops + 1 })
      (hold_row spec req.decoded (clk + timing_delay spec (max 1 spec.timing.n_mrw)) x)
transition spec req Command.mrr clk x =
    on_stats
      (λ (c : Stats). record c { mrr = c.mrr + 1; mode_register_ops = c.mode_register_ops + 1 })
      (hold_row spec req.decoded (clk + timing_delay spec (max 1 spec.timing.n_mrr)) x)
transition spec req Command.wcksync clk x =
    let d = req.decoded in
    let t = spec.timing in
    let at = clk + timing_delay spec (max 1 t.n_wcksync) in
    let x = on_col spec d (λ (s : TimingScopeState). record s { next_col = clk + 1 }) x in
    on_stats (λ (c : Stats). record c { wck_sync = c.wck_sync + 1; wck_syncs = c.wck_syncs + 1 })
      (on_wck spec d
        (λ (s : TimingScopeState). record s {
          next_cas = at;
          wck_ready_at = at;
          wck_active_until =
              max s.wck_active_until (clk + timing_delay spec (max t.n_wckpst (t.n_wcksync + 1)));
        })
        x)
transition spec req Command.wcktrain clk x =
    let d = req.decoded in
    let t = spec.timing in
    let at = clk + timing_delay spec (max 1 t.n_wcktrain) in
    on_stats
      (λ (c : Stats). record c {
        wck_train = c.wck_train + 1;
        wck_training_events = c.wck_training_events + 1;
      })
      (on_wck spec d
        (λ (s : TimingScopeState). record s {
          next_cas = at;
          wck_ready_at = at;
          wck_active_until = at + timing_delay spec (max 1 t.n_wckpst);
        })
        (hold_row spec d at x))
transition spec req Command.dvfs clk x =
    let d = req.decoded in
    let at = clk + timing_delay spec (max 1 spec.timing.n_dvfs) in
    let x =
      on_col spec d (λ (s : TimingScopeState). record s { next_col = at }) (hold_row spec d at x) in
    on_stats
      (λ (c : Stats). record c { dvfs = c.dvfs + 1; dvfs_transitions = c.dvfs_transitions + 1 })
      (on_wck spec d (λ (s : TimingScopeState). record s { next_cas = at }) x)
transition spec req Command.pde clk x =
    on_stats (λ (c : Stats). record c { pde = c.pde + 1 }) (hold_row spec req.decoded (clk + 1) x)
transition spec req Command.pdx clk x =
    on_stats (λ (c : Stats). record c { pdx = c.pdx + 1 })
      (hold_row spec req.decoded (clk + timing_delay spec (max 1 spec.timing.n_pdex)) x)
transition spec req Command.srefen clk x =
    on_stats (λ (c : Stats). record c { srefen = c.srefen + 1 })
      (hold_row spec req.decoded (clk + 1) x)
transition spec req Command.srefex clk x =
    on_stats (λ (c : Stats). record c { srefex = c.srefex + 1 })
      (hold_row spec req.decoded (clk + timing_delay spec (max 1 spec.timing.n_srefex)) x)
transition spec req Command.eccscrub clk x =
    on_stats
      (λ (c : Stats). record c {
        ecc_scrub = c.ecc_scrub + 1;
        ras_ecc_events = c.ras_ecc_events + 1;
      })
      (hold_row spec req.decoded (clk + timing_delay spec (max 1 spec.timing.n_eccscrub)) x)
transition spec req Command.raserr clk x =
    let d = req.decoded in
    let retry = clk + timing_delay spec (max 1 spec.timing.n_linkretry) in
    on_stats
      (λ (c : Stats). record c { ras_err = c.ras_err + 1; ras_ecc_events = c.ras_ecc_events + 1 })
      (on_col spec d (λ (s : TimingScopeState). record s { next_col = max s.next_col retry })
        (hold_row spec d (clk + timing_delay spec (max 1 spec.timing.n_raserr)) x))
transition spec req Command.nop clk x = x

-- What issue writes to the request.
unfoldable pub mark_request : DramSpec → Command → Request → Request
mark_request spec Command.act1 req = record req { issued_first_activate = true }
mark_request spec Command.casrd req = record req { cas_sync_issued = true }
mark_request spec Command.caswr req = record req { cas_sync_issued = true }
mark_request spec Command.rd req =
    if spec.lpddr_family then record req { cas_sync_issued = false } else req
mark_request spec Command.rda req =
    if spec.lpddr_family then record req { cas_sync_issued = false } else req
mark_request spec Command.wr req =
    if spec.lpddr_family then record req { cas_sync_issued = false } else req
mark_request spec Command.wra req =
    if spec.lpddr_family then record req { cas_sync_issued = false } else req
mark_request spec _ req = req

-- The RFM command that the result carries.
unfoldable pub rfm_command :
    DramSpec → Request → Command → CommandExecutor → Option RfmMaintenanceCommand
rfm_command spec req Command.act x = (on_activate spec req.decoded x.rfm_manager x.stats).command
rfm_command spec req Command.act1 x = (on_activate spec req.decoded x.rfm_manager x.stats).command
rfm_command spec req _ x = none

pub record Execution : Type 0 where
  pub request : Request
  pub executor : CommandExecutor
  pub result : Option RfmMaintenanceCommand

unfoldable pub issue : DramSpec → Request → Command → ℕ → CommandExecutor → Execution
issue spec req issued clk x =
    let y = transition spec req issued clk x in
    record {
      request = mark_request spec issued req;
      executor = record y {
        timing_engine = apply_constraints spec req.decoded issued clk y.timing_engine;
      };
      result = rfm_command spec req issued x;
    }
