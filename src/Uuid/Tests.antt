-- ===== src/Uuid/Tests.antt =====
-- An identifier at a concrete clock.
use Prim.Native.Nat.{◌<◌, ◌/◌}
use noddde.Base.{◌≡◌, refl, [], ◌∷◌, All, arith}
use noddde.Uuid.{Bytes, uuidv7, timestamp_bytes, big_endian, uuidv7-IsVersion7}

abbrev random : Bytes
random = record { timestamp = []; byte_6 = 0xff; byte_7 = 0x01; byte_8 = 0xff; rest = 1 ∷ 2 ∷ [] }

bytes_test :
    ((uuidv7 0x0190a1b2c3d4 random).timestamp ≡ 0x01 ∷ 0x90 ∷ 0xa1 ∷ 0xb2 ∷ 0xc3 ∷ 0xd4 ∷ [])
    × ((uuidv7 0x0190a1b2c3d4 random).byte_6 ≡ 0x7f)
    × ((uuidv7 0x0190a1b2c3d4 random).byte_8 ≡ 0xbf)
unfolding uuidv7 timestamp_bytes
bytes_test = (refl, refl, refl)

uuidv7-IsVersion7_test :
    (let u = uuidv7 0x0190a1b2c3d4 random in
      (big_endian 0 u.timestamp ≡ 0x0190a1b2c3d4)
      × All (λ b. b < 256) u.timestamp
      × (u.byte_6 / 16 ≡ 7)
      × (u.byte_8 / 64 ≡ 2))
uuidv7-IsVersion7_test =
    uuidv7-IsVersion7 0x0190a1b2c3d4 random (omega arith) (omega arith) (omega arith)
