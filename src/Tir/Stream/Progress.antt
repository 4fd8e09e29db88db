-- ===== src/Tir/Stream/Progress.antt =====
-- Where the reading of packets makes progress and where it does not.
use native.Mathlib.Numerals.{add-one}
use linux_track.Prelude.{
  ℕ, zero, suc, ◌+◌, ◌^◌, ◌<◌, ◌≡◌, refl, Bool, false, Option, none, some, List, get_elem?, arith,
}
use linux_track.Prelude.Exec.{ok, out_of_fuel}
use linux_track.Tir.Packet.{Parser}
use linux_track.Tir.Stream.{
  begin, again, header, start_packet, dispatch, dispatch_type, packet_round, process_packet, Reader,
  refill, read_blobs_tir,
}

module _ (data' : List ℕ) (ptr size : ℕ) (here : ptr < size) (word : ptr < 2 ^ 32)
    (length_byte : get_elem? data' ptr ≡ some 0)
    (type_byte : get_elem? data' (ptr + 1) ≡ some 0x20) where
  packet_round-zero_length :
      (st : Parser)
      → st.type ≡ none
      → packet_round st data' ptr size
        ≡ ok (again ptr (record (begin 0x20 ptr 0 st) { type = none }))
  unfolding packet_round header start_packet dispatch_type dispatch
  packet_round-zero_length st idle = ground arith

  -- A status packet whose length byte is zero is never left: whatever the number of rounds, the loop
  -- of `process_packet` has not returned.
  pub process_packet-zero_length_hangs :
      (fuel : ℕ) (st : Parser)
      → st.type ≡ none
      → process_packet fuel st data' ptr size ≡ out_of_fuel
  unfolding process_packet
  process_packet-zero_length_hangs zero st idle = refl
  process_packet-zero_length_hangs (suc fuel) st idle =
      rw (packet_round-zero_length st idle)
        (process_packet-zero_length_hangs fuel (record (begin 0x20 ptr 0 st) { type = none }) refl)

process_packet-truncated :
    (fuel type : ℕ) (st : Parser) (data' : List ℕ) (ptr size : ℕ)
    → ptr < size
    → st.type ≡ some type
    → size < st.limit
    → process_packet (suc fuel) st data' ptr size ≡ ok (false, ptr, st)
unfolding process_packet packet_round header
process_packet-truncated fuel type st data' ptr size here busy beyond = ground arith

module _ (receive_data : ℕ → Option (List ℕ × ℕ)) (got_new_request : ℕ → Bool) where
  refill-full :
      (k : ℕ) (r : Reader) → r.ptr < r.size → refill receive_data got_new_request k r ≡ some (k, r)
  unfolding refill
  refill-full k r here = ground arith

  -- A packet that is announced longer than what was read makes no progress: without a new state
  -- request the read loop neither returns nor transfers again.
  read_blobs_tir-truncated_spins :
      (fuel k polls type : ℕ) (r : Reader)
      → r.ptr < r.size
      → r.parser.type ≡ some type
      → r.size < r.parser.limit
      → ((n : ℕ) → got_new_request n ≡ false)
      → read_blobs_tir receive_data got_new_request fuel k polls r ≡ out_of_fuel
  unfolding read_blobs_tir
  read_blobs_tir-truncated_spins zero k polls type r a b c d = refl
  read_blobs_tir-truncated_spins (suc fuel) k polls type r a b c d =
      let whole = process_packet-truncated r.size type r.parser r.buffer r.ptr r.size a b c in
      let full = refill-full k r a in
      rw (full, read_blobs_tir, add-one, whole, d polls)
        (read_blobs_tir-truncated_spins fuel k (polls + 1) type r a b c d)
