-- ===== src/Session/Tests.antt =====
-- Concrete calls of src/session.rs, and the theorems at them.
use pipistrelle.Prelude.{◌+◌, ◌%◌, ◌≡◌, ◌≢◌, refl, arith}
use pipistrelle.Session.PacketId.{
  get_next_packet_id, nth_packet_id, nth_packet_id_lem, nth_packet_id-ne,
}

-- The counter has wrapped around: 0 is skipped.
skips_zero : get_next_packet_id 0 ≡ (1, 2)
unfolding get_next_packet_id
skips_zero = refl

nth_packet_id_lem_example : (nth_packet_id 65535).0 ≡ 65535 % 65535 + 1
nth_packet_id_lem_example = nth_packet_id_lem 65535

nth_packet_id-ne_example : (nth_packet_id 3).0 ≢ (nth_packet_id 65537).0
nth_packet_id-ne_example = nth_packet_id-ne 3 65537 (omega arith) (omega arith)
