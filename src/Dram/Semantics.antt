-- ===== src/Dram/Semantics.antt =====
-- CommandMeta of include/hbm_sim/dram/semantics.hpp and the table of src/dram/semantics.cpp.
pub mod Classes
use mem_sim.Base.{max, Bool, true, false, ltb, leb, if◌then◌else◌}
use Prim.Native.String.{String}
use Prim.Native.Nat.{bit_xor}
use mem_sim.Dram.Kinds.{
  Command, act, act1, act2, pre, prepb, preab, casrd, caswr, rd, wr, rda, wra, refab, refpb, refdb,
  rfmab, rfmpb, mrw, mrr, wcksync, wcktrain, dvfs, pde, pdx, srefen, srefex, eccscrub, raserr, nop,
  RowPolicyKind, open_page, closed_page, closed_cap,
}
use mem_sim.Dram.Spec.{Organization}
use mem_sim.Dram.Address.{DecodedAddress}

-- The field `data` of the source is `data_command` here, for `data` is a word of the language.
pub record CommandMeta : Type 0 where
  pub name : String
  pub row_command : Bool
  pub column_command : Bool
  pub activate : Bool
  pub precharge : Bool
  pub cas : Bool
  pub data_command : Bool
  pub refresh : Bool
  pub rfm : Bool
  pub opening : Bool
  pub closing : Bool
  pub accessing : Bool
  pub all_bank : Bool
  pub auto_precharge : Bool
  pub mode_register : Bool
  pub training : Bool
  pub power : Bool
  pub ras : Bool

-- A row of the table: the flags in the order of the record.
abbrev flags :
    String
    → Bool
    → Bool
    → Bool
    → Bool
    → Bool
    → Bool
    → Bool
    → Bool
    → Bool
    → Bool
    → Bool
    → Bool
    → Bool
    → Bool
    → Bool
    → Bool
    → Bool
    → CommandMeta
flags name_ b0 b1 b2 b3 b4 b5 b6 b7 b8 b9 b10 b11 b12 b13 b14 b15 b16 = record {
  name = name_;
  row_command = b0;
  column_command = b1;
  activate = b2;
  precharge = b3;
  cas = b4;
  data_command = b5;
  refresh = b6;
  rfm = b7;
  opening = b8;
  closing = b9;
  accessing = b10;
  all_bank = b11;
  auto_precharge = b12;
  mode_register = b13;
  training = b14;
  power = b15;
  ras = b16;
}

unfoldable pub command_meta : Command → CommandMeta
command_meta act =
    flags "ACT" true false true false false false false false true false false false false false
      false false false
command_meta act1 =
    flags "ACT1" true false true false false false false false true false false false false false
      false false false
command_meta act2 =
    flags "ACT2" true false false false false false false false false false false false false false
      false false false
command_meta pre =
    flags "PRE" true false false true false false false false false true false false false false
      false false false
command_meta prepb =
    flags "PREpb" true false false true false false false false false true false false false false
      false false false
command_meta preab =
    flags "PREab" true false false true false false false false false true false true false false
      false false false
command_meta casrd =
    flags "CAS_RD" false true false false true false false false false false false false false false
      false false false
command_meta caswr =
    flags "CAS_WR" false true false false true false false false false false false false false false
      false false false
command_meta rd =
    flags "RD" false true false false false true false false false false true false false false
      false false false
command_meta wr =
    flags "WR" false true false false false true false false false false true false false false
      false false false
command_meta rda =
    flags "RDA" false true false false false true false false false true true false true false false
      false false
command_meta wra =
    flags "WRA" false true false false false true false false false true true false true false false
      false false
command_meta refab =
    flags "REFab" true false false false false false true false false false false true false false
      false false false
command_meta refpb =
    flags "REFpb" true false false false false false true false false false false false false false
      false false false
command_meta refdb =
    flags "REFdb" true false false false false false true false false false false false false false
      false false false
command_meta rfmab =
    flags "RFMab" true false false false false false false true false false false true false false
      false false false
command_meta rfmpb =
    flags "RFMpb" true false false false false false false true false false false false false false
      false false false
command_meta mrw =
    flags "MRW" true false false false false false false false false false false true false true
      false false false
command_meta mrr =
    flags "MRR" true false false false false false false false false false false true false true
      false false false
command_meta wcksync =
    flags "WCK_SYNC" false true false false true false false false false false false false false
      false true false false
command_meta wcktrain =
    flags "WCK_TRAIN" true false false false false false false false false false false true false
      false true false false
command_meta dvfs =
    flags "DVFS" true false false false false false false false false false false true false false
      false true false
command_meta pde =
    flags "PDE" true false false false false false false false false false false true false false
      false true false
command_meta pdx =
    flags "PDX" true false false false false false false false false false false true false false
      false true false
command_meta srefen =
    flags "SREFEN" true false false false false false false false false false false true false false
      false true false
command_meta srefex =
    flags "SREFEX" true false false false false false false false false false false true false false
      false true false
command_meta eccscrub =
    flags "ECC_SCRUB" true false false false false false false false false false false true false
      false false false true
command_meta raserr =
    flags "RAS_ERR" true false false false false false false false false false false true false
      false false false true
command_meta nop =
    flags "NOP" false false false false false false false false false false false false false false
      false false false

unfoldable pub read_command_for : RowPolicyKind → Command
read_command_for closed_page = rda
read_command_for open_page = rd
read_command_for closed_cap = rd

unfoldable pub write_command_for : RowPolicyKind → Command
write_command_for closed_page = wra
write_command_for open_page = wr
write_command_for closed_cap = wr

-- The second target of a dual-bank refresh.
unfoldable pub lpddr_refdb_partner : Organization → DecodedAddress → DecodedAddress
lpddr_refdb_partner o decoded =
    let groups = max 1 o.bank_groups in
    let flipped = bit_xor decoded.bank_group 1 in
    if ltb groups 2
    then decoded
    else record decoded { bank_group = if leb groups flipped then decoded.bank_group else flipped }
