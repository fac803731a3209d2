-- ===== src/Core/Data/Keys.antt =====
-- StorageKey::operator== of include/hbm_sim/core/storage_key.hpp, and the keys of a decoded address.
use mem_sim.Base.{
  ℕ, ◌≡◌, refl, ap, Bool, true, false, ◌&&◌, Option, none, some, arith, ◌==◌, ==→eq, ==_refl,
}
use mem_sim.Dram.Address.{DecodedAddress}
use mem_sim.Core.Data.Image.{
  StorageKey, same_coordinate, same_key, bank_key_from_decoded, row_key_from_decoded,
}

pub both : (a b : Bool) → (a && b) ≡ true → (a ≡ true) × (b ≡ true)
both true true h = (refl, refl)
both true false h = absurd (ground (arith, h))
both false b h = absurd (ground (arith, h))

same_coordinate_sound : (a b : Option ℕ) → same_coordinate a b ≡ true → a ≡ b
unfolding same_coordinate
same_coordinate_sound none none h = refl
same_coordinate_sound none (some b) h = absurd (ground (arith, h))
same_coordinate_sound (some a) none h = absurd (ground (arith, h))
same_coordinate_sound (some a) (some b) h = ap some (==→eq a b h)

pub same_key_sound : (a b : StorageKey) → same_key a b ≡ true → a ≡ b
unfolding same_key
same_key_sound a b h =
    let (h1, column) = both _ (same_coordinate a.column b.column) h in
    let (h2, row) = both _ (same_coordinate a.row b.row) h1 in
    let (h3, bank) = both _ (a.bank == b.bank) h2 in
    let (h4, bank_group) = both _ (a.bank_group == b.bank_group) h3 in
    let (h5, rank) = both _ (a.rank == b.rank) h4 in
    let (h6, sid) = both _ (a.sid == b.sid) h5 in
    let (channel, pseudo_channel) = both (a.channel == b.channel) _ h6 in
    λ i. record {
      channel = ==→eq a.channel b.channel channel i;
      pseudo_channel = ==→eq a.pseudo_channel b.pseudo_channel pseudo_channel i;
      sid = ==→eq a.sid b.sid sid i;
      rank = ==→eq a.rank b.rank rank i;
      bank_group = ==→eq a.bank_group b.bank_group bank_group i;
      bank = ==→eq a.bank b.bank bank i;
      row = same_coordinate_sound a.row b.row row i;
      column = same_coordinate_sound a.column b.column column i;
    }

same_coordinate_refl : (a : Option ℕ) → same_coordinate a a ≡ true
unfolding same_coordinate
same_coordinate_refl none = refl
same_coordinate_refl (some a) = ==_refl a

pub same_key_refl : (a : StorageKey) → same_key a a ≡ true
unfolding same_key
same_key_refl a =
    rw
      (
        ==_refl a.channel,
        ==_refl a.pseudo_channel,
        ==_refl a.sid,
        ==_refl a.rank,
        ==_refl a.bank_group,
        ==_refl a.bank,
        same_coordinate_refl a.row,
        same_coordinate_refl a.column,
      )
      refl

abbrev or_zero : Option ℕ → ℕ
or_zero none = 0
or_zero (some n) = n

pub keys_decide :
    (d e : DecodedAddress)
    → bank_key_from_decoded d ≡ bank_key_from_decoded e
    → row_key_from_decoded d ≡ row_key_from_decoded e
    → d.column ≡ e.column
    → d ≡ e
unfolding bank_key_from_decoded row_key_from_decoded
keys_decide d e bank row column i = record {
  channel = (bank i).channel;
  pseudo_channel = (bank i).pseudo_channel;
  sid = (bank i).sid;
  rank = (bank i).rank;
  bank_group = (bank i).bank_group;
  bank = (bank i).bank;
  row = or_zero (row i).row;
  column = column i;
}
