-- ===== src/Protocol/Channel.antt =====
-- crates/protocol/src/channels.rs: the three chains and their constants. `TryFrom<&str>` is left
-- out: it rests on the Unicode tables of `to_lowercase`.
use Prim.Native.String.{String}
use stroemnet.Common.{
  ℕ, zero, suc, ◌*◌, ◌≤◌, ◌≡◌, ◌↔◌, Bool, true, false, arith, Bytes, codes, Eq, Result, ok, err,
}

pub data ChannelId : Type 0 where
  kaspa_tn10 ethereum_sepolia igra_galleon : ChannelId

unfoldable pub decimals : ChannelId → ℕ
decimals kaspa_tn10 = 8
decimals ethereum_sepolia = 18
decimals igra_galleon = 18

unfoldable pub lock_time_secs : ChannelId → ℕ
lock_time_secs kaspa_tn10 = 180
lock_time_secs ethereum_sepolia = 15 * 60
lock_time_secs igra_galleon = 3600

unfoldable pub uses_synthetic_clock : ChannelId → Bool
uses_synthetic_clock igra_galleon = true
uses_synthetic_clock _ = false

unfoldable pub ticker_symbol : ChannelId → String
ticker_symbol kaspa_tn10 = "KAS"
ticker_symbol ethereum_sepolia = "ETH"
ticker_symbol igra_galleon = "iKAS"

unfoldable pub is_evm : ChannelId → Bool
is_evm ethereum_sepolia = true
is_evm igra_galleon = true
is_evm kaspa_tn10 = false

unfoldable pub is_utxo : ChannelId → Bool
is_utxo kaspa_tn10 = true
is_utxo ethereum_sepolia = false
is_utxo igra_galleon = false

-- Display.
unfoldable pub display : ChannelId → String
display kaspa_tn10 = "Kaspa TN10"
display ethereum_sepolia = "Sepolia"
display igra_galleon = "Igra Galleon"

-- `channel as u8`.
unfoldable pub to_u8 : ChannelId → ℕ
to_u8 kaspa_tn10 = 0
to_u8 ethereum_sepolia = 1
to_u8 igra_galleon = 2

-- TryFrom<u8>.
unfoldable pub try_from : ℕ → Result Bytes ChannelId
try_from zero = ok kaspa_tn10
try_from (suc zero) = ok ethereum_sepolia
try_from (suc (suc zero)) = ok igra_galleon
try_from (suc (suc (suc n))) = err (codes "Invalid ChannelId")

-- The derived PartialEq.
unfoldable pub channel_beq : ChannelId → ChannelId → Bool
channel_beq kaspa_tn10 kaspa_tn10 = true
channel_beq ethereum_sepolia ethereum_sepolia = true
channel_beq igra_galleon igra_galleon = true
channel_beq _ _ = false

pub channel_beq_iff : (a b : ChannelId) → (channel_beq a b ≡ true) ↔ (a ≡ b)
unfolding channel_beq
channel_beq_iff a b = ground arith

instance abbrev pub channel_eq : Eq ChannelId
channel_eq = record { beq = channel_beq; beq_iff = channel_beq_iff }

-- The wire byte of a channel reads back as that channel, and no other byte reads as it.
pub try_from_iff : (n : ℕ) (c : ChannelId) → (try_from n ≡ ok c) ↔ (n ≡ to_u8 c)
unfolding try_from to_u8
try_from_iff zero c = ground arith
try_from_iff (suc zero) c = ground arith
try_from_iff (suc (suc zero)) c = ground arith
try_from_iff (suc (suc (suc n))) c = ground arith

pub lock_time_pos : (c : ChannelId) → 180 ≤ lock_time_secs c
unfolding lock_time_secs
lock_time_pos c = ground arith
