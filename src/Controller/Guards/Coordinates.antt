-- ===== src/Controller/Guards/Coordinates.antt =====
-- Controller::decoded_from_flat_bank, against DecodedAddress::flat_bank.
use mem_sim.Base.{ℕ, ◌+◌, ◌*◌, ◌/◌, ◌%◌, ◌<◌, max, ◌≡◌, refl, arith}
use mem_sim.Base.Digits.{digit-mod, digit-div}
use mem_sim.Dram.Spec.{Organization, IsPositive}
use mem_sim.Dram.Address.{DecodedAddress, flat_bank, InRange, SameBank}
use mem_sim.Dram.Address.Ranks.{max_one}

unfoldable pub decoded_from_flat_bank : Organization → ℕ → DecodedAddress
decoded_from_flat_bank o flat_bank =
    let x0 = flat_bank in
    let x1 = x0 / max 1 o.banks_per_group in
    let x2 = x1 / max 1 o.bank_groups in
    let x3 = x2 / max 1 o.ranks in
    let x4 = x3 / max 1 o.sids in
    record {
      channel = x4 / max 1 o.pseudo_channels;
      pseudo_channel = x4 % max 1 o.pseudo_channels;
      sid = x3 % max 1 o.sids;
      rank = x2 % max 1 o.ranks;
      bank_group = x1 % max 1 o.bank_groups;
      bank = x0 % max 1 o.banks_per_group;
      row = 0;
      column = 0;
    }

digit_back : (x b : ℕ) → 0 < b → (x / b) * b + x % b ≡ x
digit_back x b h = omega arith

flat_bank-decoded_from_flat_bank :
    (o : Organization) (n : ℕ) → IsPositive o → flat_bank o (decoded_from_flat_bank o n) ≡ n
unfolding flat_bank decoded_from_flat_bank
flat_bank-decoded_from_flat_bank o n p =
    rw
      (
        max_one o.banks_per_group p.banks_per_group,
        max_one o.bank_groups p.bank_groups,
        max_one o.ranks p.ranks,
        max_one o.sids p.sids,
        max_one o.pseudo_channels p.pseudo_channels,
        digit_back (n / o.banks_per_group / o.bank_groups / o.ranks / o.sids) o.pseudo_channels
            p.pseudo_channels,
        digit_back (n / o.banks_per_group / o.bank_groups / o.ranks) o.sids p.sids,
        digit_back (n / o.banks_per_group / o.bank_groups) o.ranks p.ranks,
        digit_back (n / o.banks_per_group) o.bank_groups p.bank_groups,
      )
      (digit_back n o.banks_per_group p.banks_per_group)

decoded_from_flat_bank-flat_bank :
    (o : Organization) (d : DecodedAddress)
    → IsPositive o
    → InRange o d
    → SameBank (decoded_from_flat_bank o (flat_bank o d)) d
unfolding flat_bank decoded_from_flat_bank
decoded_from_flat_bank-flat_bank o d p r =
    let x1 = d.channel * o.pseudo_channels + d.pseudo_channel in
    let x2 = x1 * o.sids + d.sid in
    let x3 = x2 * o.ranks + d.rank in
    let x4 = x3 * o.bank_groups + d.bank_group in
    rw
      (
        max_one o.banks_per_group p.banks_per_group,
        max_one o.bank_groups p.bank_groups,
        max_one o.ranks p.ranks,
        max_one o.sids p.sids,
        max_one o.pseudo_channels p.pseudo_channels,
        digit-div x4 r.bank,
        digit-mod x4 r.bank,
        digit-div x3 r.bank_group,
        digit-mod x3 r.bank_group,
        digit-div x2 r.rank,
        digit-mod x2 r.rank,
        digit-div x1 r.sid,
        digit-mod x1 r.sid,
        digit-div d.channel r.pseudo_channel,
        digit-mod d.channel r.pseudo_channel,
      )
      (record {
        channel = refl;
        pseudo_channel = refl;
        sid = refl;
        rank = refl;
        bank_group = refl;
        bank = refl;
      })

-- With positive dimensions, every flat index is that of the coordinates that
-- decoded_from_flat_bank makes from it, and the flat index of coordinates in range gives their
-- bank back.
pub decoded_from_flat_bank-inverse :
    (o : Organization)
    → IsPositive o
    → ((n : ℕ) → flat_bank o (decoded_from_flat_bank o n) ≡ n)
      × ((d : DecodedAddress) → InRange o d → SameBank (decoded_from_flat_bank o (flat_bank o d)) d)
decoded_from_flat_bank-inverse o p =
    (λ n. flat_bank-decoded_from_flat_bank o n p, λ d r. decoded_from_flat_bank-flat_bank o d p r)
