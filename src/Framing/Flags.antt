-- ===== src/Framing/Flags.antt =====
-- How setting one flag bit acts on the tests of the others.
use vynkor_sdk_python.Prelude.{ℕ, ◌<◌, ◌≤◌, ◌≡◌, true, false, arith, bit_or}
use vynkor_sdk_python.Prelude.Bits.{
  bit_and_one, bit_and_two, bit_and_four, bit_and_sixteen, bit_or_one, bit_or_two,
}
use vynkor_sdk_python.Framing.Header.{
  has, without, flag_mac_present, flag_compressed, flag_fragmented, flag_raw_binary,
}

module _ (flags : ℕ) where
  pub has_mac_set : has (bit_or flags flag_mac_present) flag_mac_present ≡ true
  has_mac_set = ground (arith, bit_and_one (bit_or flags 1), bit_or_one flags)

  pub has_compressed_set : has (bit_or flags flag_compressed) flag_compressed ≡ true
  has_compressed_set = ground (arith, bit_and_two (bit_or flags 2), bit_or_two flags)

  pub has_compressed-mac :
      has (bit_or flags flag_mac_present) flag_compressed ≡ has flags flag_compressed
  has_compressed-mac =
      ground (arith, bit_and_two (bit_or flags 1), bit_or_one flags, bit_and_two flags)

  pub has_mac-compressed :
      has (bit_or flags flag_compressed) flag_mac_present ≡ has flags flag_mac_present
  has_mac-compressed =
      ground (arith, bit_and_one (bit_or flags 2), bit_or_two flags, bit_and_one flags)

  pub has_raw-mac : has (bit_or flags flag_mac_present) flag_raw_binary ≡ has flags flag_raw_binary
  has_raw-mac =
      ground (arith, bit_and_sixteen (bit_or flags 1), bit_or_one flags, bit_and_sixteen flags)

  pub has_fragmented-mac :
      has (bit_or flags flag_mac_present) flag_fragmented ≡ has flags flag_fragmented
  has_fragmented-mac =
      ground (arith, bit_and_four (bit_or flags 1), bit_or_one flags, bit_and_four flags)

  -- Clearing a bit that was set on flags without it.
  pub without_compressed-set :
      has flags flag_compressed ≡ false
      → without (bit_or flags flag_compressed) flag_compressed ≡ flags
  without_compressed-set h =
      ground (arith, bit_and_two (bit_or flags 2), bit_or_two flags, bit_and_two flags)

  pub has_compressed-without : has (without flags flag_compressed) flag_compressed ≡ false
  has_compressed-without = ground (arith, bit_and_two (without flags 2), bit_and_two flags)

  pub has_mac-without :
      has (without flags flag_compressed) flag_mac_present ≡ has flags flag_mac_present
  has_mac-without =
      ground (arith, bit_and_one (without flags 2), bit_and_two flags, bit_and_one flags)

  pub le-set_compressed : flags ≤ bit_or flags flag_compressed
  le-set_compressed = omega (arith, bit_or_two flags)

  pub set_mac_range : flags < 65536 → bit_or flags flag_mac_present < 65536
  set_mac_range h = omega (arith, bit_or_one flags)

  pub set_compressed_range : flags < 65536 → bit_or flags flag_compressed < 65536
  set_compressed_range h = omega (arith, bit_or_two flags)
