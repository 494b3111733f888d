-- ===== src/Wifi/Backoff.antt =====
-- src/wifi/wifi_config.h, the reconnect backoff.
use project_voyager.Prelude.{
  ℕ, zero, suc, ◌*◌, ◌/◌, ◌^◌, ◌≤◌, ◌<◌, ◌≡◌, refl, ◌⊎◌, inl, inr, arith, ltb, leb, if◌then◌else◌,
  Bool-cases,
}

abbrev pub backoff_min_ms : ℕ
backoff_min_ms = 5000

abbrev pub backoff_max_ms : ℕ
backoff_max_ms = 60000

-- `current_ms * 2` does not wrap, as `current_ms` is below the half of `backoff_max_ms` there.
unfoldable pub wifi_next_backoff : ℕ → ℕ
wifi_next_backoff current_ms =
    if ltb current_ms backoff_min_ms
    then backoff_min_ms
    else if leb (backoff_max_ms / 2) current_ms
    then backoff_max_ms
    else current_ms * 2

-- The delay before the retry after `n` failed ones.
unfoldable pub backoff_after : ℕ → ℕ
unfolding wifi_next_backoff
backoff_after zero = wifi_next_backoff 0
backoff_after (suc n) = wifi_next_backoff (backoff_after n)

five_seconds : (n : ℕ) → n ≤ 3 → backoff_after n ≡ backoff_min_ms * 2 ^ n
unfolding backoff_after
five_seconds zero h = refl
five_seconds (suc zero) h = refl
five_seconds (suc (suc zero)) h = refl
five_seconds (suc (suc (suc zero))) h = refl
five_seconds (suc (suc (suc (suc n)))) h = absurd (omega arith)

capped : (n : ℕ) → backoff_after (suc (suc (suc (suc n)))) ≡ backoff_max_ms
unfolding backoff_after
capped zero = refl
capped (suc n) = let e = capped n in ground arith

-- The delays double from five seconds to forty, and are then a minute for ever.
pub backoff_sequence :
    (n : ℕ) → backoff_after n ≡ (if ltb n 4 then backoff_min_ms * 2 ^ n else backoff_max_ms)
backoff_sequence n = elim (Bool-cases (ltb n 4)) [
  | inl few ↦ rw few (five_seconds n (ground arith))
  | inr many ↦ rw many (many_failed n (ground arith))
]
  where
    many_failed : (m : ℕ) → 4 ≤ m → backoff_after m ≡ backoff_max_ms
    many_failed zero h = absurd (omega arith)
    many_failed (suc zero) h = absurd (omega arith)
    many_failed (suc (suc zero)) h = absurd (omega arith)
    many_failed (suc (suc (suc zero))) h = absurd (omega arith)
    many_failed (suc (suc (suc (suc m)))) h = capped m

-- Whatever the delay was, the next one is between five seconds and a minute, and no shorter unless
-- the old one was beyond a minute.
pub wifi_next_backoff_bounds :
    (ms : ℕ)
    → (backoff_min_ms ≤ wifi_next_backoff ms)
      × (wifi_next_backoff ms ≤ backoff_max_ms)
      × ((ms ≤ wifi_next_backoff ms) ⊎ (backoff_max_ms < ms))
unfolding wifi_next_backoff
wifi_next_backoff_bounds ms = ground arith
