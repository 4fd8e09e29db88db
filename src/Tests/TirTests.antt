-- ===== src/Tests/TirTests.antt =====
-- Tests and examples for src/tir_img.c.
use linux_track.Prelude.{
  ℕ, zero, suc, ◌+◌, ◌-◌, ◌*◌, ◌^◌, ◌≤◌, ◌<◌, ◌≡◌, refl, true, false, none, some, List, [], ◌∷◌,
  arith,
}
use linux_track.Prelude.Exec.{Exec, ok, out_of_fuel}
use linux_track.Stripe.{Stripe}
use linux_track.Tir.Decode.{binary_stripe, sn4_fields, tir5_fields, process_stripe_tir4}
use linux_track.Tir.Decode.Fields.{sn4_rest, sn4_roundtrip}
use linux_track.Tir.Decode.Tir5.{tir5_stripe, tir5_roundtrip}
use linux_track.Tir.Decode.Weights.{offsets, binary_stripe_weights}
use linux_track.Tir.Packet.{Parser, stripe_loop}
use linux_track.Tir.Packet.Emitted.{records, stripe_loop-records}
use linux_track.Tir.Packet.Tir4.{process_packet_tir4, frame_loop, tir4_round}
use linux_track.Tir.Stream.{
  Reader, Round, again, packet_round, header, dispatch_type, process_packet,
}
use linux_track.Tir.Stream.Progress.{process_packet-zero_length_hangs}

abbrev idle : Parser
idle = record {
  type = none;
  limit = 2 ^ 32 - 1;
  pktsize = 0;
  current_line = 0;
  pkt_no = 0;
  prev_btns = 3;
  is_tir2 = false;
  emitted = [];
  sent = [];
}

-- A TrackIR 4 packet of 14 bytes: two stripes on lines 10 and 11, and the end of the frame.
abbrev tir4_packet : List ℕ
tir4_packet = 14 ∷ 0x1c ∷ 10 ∷ 20 ∷ 22 ∷ 0 ∷ 11 ∷ 20 ∷ 21 ∷ 0x20 ∷ 0 ∷ 0 ∷ 0 ∷ 0 ∷ []

abbrev two_stripes : List Stripe
two_stripes =
    record { vline = 10; hstart = 20; hstop = 22; sum_x = 3; sum = 3; points = 3 }
    ∷ record { vline = 267; hstart = 20; hstop = 21; sum_x = 1; sum = 2; points = 2 }
    ∷ []

tir4_packet_frame :
    process_packet 5 idle tir4_packet 0 14
    ≡ ok (true, 14, record idle { limit = 14; pktsize = 14; emitted = two_stripes })
unfolding process_packet packet_round header dispatch_type process_packet_tir4 frame_loop tir4_round
    process_stripe_tir4
tir4_packet_frame = refl

sn4_roundtrip_example : sn4_fields 44 208 212 (sn4_rest 812 2000 1748) ≡ binary_stripe 812 2000 1748
sn4_roundtrip_example = sn4_roundtrip 812 2000 1748 (omega arith) (omega arith) (omega arith)

tir5_roundtrip_example :
    tir5_fields 150 (0 * 64 + 37) (4 * 32 + 0) (12 * 8 + 0) 3 144 (0 * 128 + 4) 176
    ≡ tir5_stripe 300 600 12 1824 1200
tir5_roundtrip_example =
    tir5_roundtrip 300 600 12 1824 1200 (omega arith) (omega arith) (omega arith) (omega arith)
      (omega arith)

binary_stripe_weights_example :
    ((binary_stripe 5 10 13).points ≡ 4)
    × ((binary_stripe 5 10 13).sum ≡ 4)
    × ((binary_stripe 5 10 13).sum_x ≡ offsets 4)
binary_stripe_weights_example = binary_stripe_weights 5 10 13 (omega arith) (omega arith)

abbrev nth_stripe : ℕ → Stripe
nth_stripe zero = record { vline = 10; hstart = 20; hstop = 22; sum_x = 3; sum = 3; points = 3 }
nth_stripe (suc j) = record { vline = 267; hstart = 20; hstop = 21; sum_x = 1; sum = 2; points = 2 }

nth_stripe_read :
    (j : ℕ) → 0 ≤ j → j < 0 + 2 → process_stripe_tir4 tir4_packet (2 + 4 * j) ≡ ok (nth_stripe j)
unfolding process_stripe_tir4
nth_stripe_read zero lo hi = refl
nth_stripe_read (suc zero) lo hi = refl
nth_stripe_read (suc (suc j)) lo hi = absurd (omega arith)

stripe_loop-records_example :
    stripe_loop process_stripe_tir4 4 15 tir4_packet 2 8 idle
    ≡ ok (10, record idle { emitted = records nth_stripe 0 2 })
stripe_loop-records_example =
    stripe_loop-records process_stripe_tir4 4 (omega arith) tir4_packet 2 nth_stripe 2 0 2 8 15 idle
      (omega arith) (omega arith) (omega arith) (omega arith) nth_stripe_read

process_packet-zero_length_hangs_example :
    process_packet 1000 idle (0 ∷ 0x20 ∷ []) 0 2 ≡ out_of_fuel
process_packet-zero_length_hangs_example =
    process_packet-zero_length_hangs (0 ∷ 0x20 ∷ []) 0 2 (omega arith) (omega arith) refl refl 1000
      idle refl

abbrev cut_short : Reader
cut_short = record {
  parser = record idle { type = some 0x1c; pktsize = 20; limit = 20 };
  buffer = tir4_packet;
  size = 14;
  ptr = 2;
}

-- Device information with two bytes, which read like the start of an empty packet.
abbrev info_packet : List ℕ
info_packet = 4 ∷ 0x40 ∷ 0 ∷ 0x20 ∷ []

abbrev position : Exec Round → ℕ
position (ok (again p s)) = p
position _ = 0
