-- ===== src/Rbcp/Masks.antt =====
-- The bit masks of the RBCP command byte, as arithmetic.
use Prim.Native.Nat.{bit_and}
use si_daq_api.Base.{
  ℕ, zero, suc, ◌+◌, ◌<◌, ◌≤◌, ◌*◌, ◌/◌, ◌%◌, ◌≡◌, refl, Bool, true, ◌&&◌, ◌==◌, arith,
}

-- What the three masks of the source take out of a byte.
masks_agree : ℕ → Bool
masks_agree b =
    (bit_and b 0x01 == b % 2)
    && (bit_and b 0xf0 == b / 16 * 16)
    && (bit_and b 0x08 == b / 8 % 2 * 8)

-- The bytes from `b` on, `left` of them.
bytes_agree : ℕ → ℕ → Bool
bytes_agree b zero = true
bytes_agree b (suc left) = masks_agree b && bytes_agree (b + 1) left

every_byte : bytes_agree 0 256 ≡ true
unfolding bytes_agree masks_agree
every_byte = refl

masks_agree_at :
    (left b c : ℕ) → bytes_agree b left ≡ true → b ≤ c → c < b + left → masks_agree c ≡ true
unfolding bytes_agree
masks_agree_at zero b c agree le lt = absurd (omega arith)
masks_agree_at (suc left) b c agree le lt = ground (arith, masks_agree_at left (b + 1) c)

byte_masks : (b : ℕ) → b < 256 → masks_agree b ≡ true
byte_masks b lt = masks_agree_at 256 0 b every_byte (omega arith) (omega arith)

-- The upper four bits.
pub bit_and_mask : (b : ℕ) → b < 256 → bit_and b 0xf0 ≡ b / 16 * 16
unfolding masks_agree
bit_and_mask b lt = ground (arith, byte_masks b lt)

pub bit_and_ack : (b : ℕ) → b < 256 → bit_and b 0x08 ≡ b / 8 % 2 * 8
unfolding masks_agree
bit_and_ack b lt = ground (arith, byte_masks b lt)

pub bit_and_buserr : (b : ℕ) → b < 256 → bit_and b 0x01 ≡ b % 2
unfolding masks_agree
bit_and_buserr b lt = ground (arith, byte_masks b lt)
