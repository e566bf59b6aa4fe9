-- ===== src/Mem/Round.antt =====
-- Rounding addresses to pages.
use geekos.Base.{==_iff, ℕ, ◌+◌, ◌-◌, ◌%◌, ◌^◌, ◌≤◌, ◌<◌, bit_and, ◌≡◌, ◌↔◌, true, arith}
use geekos.Base.Bits.{bit_and_page_mask, bit_and_page_offset}
use geekos.Mem.{
  is_page_multiple, round_up_to_page, round_down_to_page, page_index, get_page_address,
}

pub is_page_multiple_iff :
    (addr : ℕ) → addr < 2 ^ 32 → (is_page_multiple addr ≡ true) ↔ (addr % 4096 ≡ 0)
unfolding is_page_multiple
is_page_multiple_iff addr h = (
  λ e. omega (arith, (==_iff addr (bit_and addr (2 ^ 32 - 4096))).0 e, bit_and_page_mask addr h),
  λ e. (==_iff addr (bit_and addr (2 ^ 32 - 4096))).1 (omega (arith, bit_and_page_mask addr h)),
)

-- For an address that is at most the last page boundary, Round_Up_To_Page is the least page multiple
-- that is not below it, and Round_Down_To_Page the greatest that is not above it.
pub round_bounds :
    (addr : ℕ)
    → addr ≤ 2 ^ 32 - 4096
    → (round_up_to_page addr % 4096 ≡ 0)
      × (addr ≤ round_up_to_page addr)
      × (round_up_to_page addr < addr + 4096)
      × (round_down_to_page addr % 4096 ≡ 0)
      × (round_down_to_page addr ≤ addr)
      × (addr < round_down_to_page addr + 4096)
unfolding round_up_to_page round_down_to_page
round_bounds addr h =
    let mask = bit_and_page_mask addr (omega arith) in
    let offset = bit_and_page_offset addr in
    (
      ground (arith, mask, offset),
      ground (arith, mask, offset),
      ground (arith, mask, offset),
      omega (arith, mask),
      omega (arith, mask),
      omega (arith, mask),
    )

-- Above the last page boundary Round_Up_To_Page wraps to 0.
pub round_up_wraps : (addr : ℕ) → 2 ^ 32 - 4096 < addr → addr < 2 ^ 32 → round_up_to_page addr ≡ 0
unfolding round_up_to_page
round_up_wraps addr lo hi = ground (arith, bit_and_page_mask addr hi, bit_and_page_offset addr)

-- A page index below 2^20 is recovered from the page's address.
pub page_index-get_page_address : (i : ℕ) → i < 2 ^ 20 → page_index (get_page_address i) ≡ i
page_index-get_page_address i h = omega arith
