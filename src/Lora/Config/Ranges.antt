-- ===== src/Lora/Config/Ranges.antt =====
-- src/lora/lora_proto.h: the settings that the radio takes.
use project_voyager.Prelude.{ℕ, ◌≤◌, ◌≡◌, true}
use project_voyager.Prelude.Int.{ℤ, pos}
use project_voyager.Lora.Config.{LoraConfig, valid_bandwidth}

abbrev pub Between : ℕ → ℕ → ℤ → Type 0
Between lo hi x = (n : ℕ) × (x ≡ pos n) × (lo ≤ n) × (n ≤ hi)

-- Settings that the radio takes.
pub record InRange (c : LoraConfig) : Type 0 where
  pub freq_in : Between 410000000 525000000 c.freq
  pub tx_power_in : Between 2 20 c.tx_power
  pub spreading_factor_in : Between 6 12 c.spreading_factor
  pub signal_bandwidth_in : valid_bandwidth c.signal_bandwidth ≡ true
  pub coding_rate_in : Between 5 8 c.coding_rate
  pub sync_word_in : Between 0 255 c.sync_word
