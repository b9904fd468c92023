-- ===== src/Session/PacketId.antt =====
-- The packet identifiers that a `ClientSession` of src/session.rs hands out.
use pipistrelle.Prelude.{
  ℕ, zero, suc, ◌+◌, ◌%◌, ◌^◌, ◌<◌, ◌≤◌, ◌≡◌, ◌≢◌, ◌==◌, if◌then◌else◌, arith,
}

-- `fetch_add(1)` of an `AtomicU16`: the old value and the new.
abbrev pub fetch_add : ℕ → ℕ × ℕ
fetch_add n = (n, (n + 1) % 2 ^ 16)

-- The identifier, and `next_packet_id` behind the call; 0 is skipped.
unfoldable pub get_next_packet_id : ℕ → ℕ × ℕ
get_next_packet_id next_packet_id =
    let (id, next) = fetch_add next_packet_id in if id == 0 then fetch_add next else (id, next)

-- What the call number `k` gives in a new session, whose `next_packet_id` is 1; calls count from 0.
unfoldable pub nth_packet_id : ℕ → ℕ × ℕ
nth_packet_id zero = get_next_packet_id 1
nth_packet_id (suc k) = get_next_packet_id (nth_packet_id k).1

-- The identifier is not 0, and it and the counter fit 16 bits.
pub get_next_packet_id_bounds :
    (n : ℕ) → n < 65536 → let r = get_next_packet_id n in (1 ≤ r.0) × (r.0 < 65536) × (r.1 < 65536)
unfolding get_next_packet_id
get_next_packet_id_bounds n h = ground arith

next_lem :
    (id : ℕ)
    → 1 ≤ id
    → id < 65536
    → let r = get_next_packet_id ((id + 1) % 65536) in
      (r.0 ≡ id % 65535 + 1) × (r.1 ≡ (r.0 + 1) % 65536)
unfolding get_next_packet_id
next_lem id l h = ground arith

nth_lem : (k : ℕ) → let r = nth_packet_id k in (r.0 ≡ k % 65535 + 1) × (r.1 ≡ (r.0 + 1) % 65536)
unfolding nth_packet_id
nth_lem zero = (unfold get_next_packet_id in omega arith, unfold get_next_packet_id in omega arith)
nth_lem (suc k) =
    let ih = nth_lem k in
    let next = next_lem (nth_packet_id k).0 (omega (arith, ih.0)) (omega (arith, ih.0)) in
    rw ih.1 (omega (arith, next.0, ih.0), next.1)

-- The calls of a new session, one after the other, give 1 to 65535 in turn, again and again.
pub nth_packet_id_lem : (k : ℕ) → (nth_packet_id k).0 ≡ k % 65535 + 1
nth_packet_id_lem k = (nth_lem k).0

-- Two calls of a session less than 65535 calls apart give different identifiers.
pub nth_packet_id-ne : (j k : ℕ) → j < k → k < j + 65535 → (nth_packet_id j).0 ≢ (nth_packet_id k).0
nth_packet_id-ne j k l h e = omega (arith, nth_packet_id_lem j, nth_packet_id_lem k, e)
