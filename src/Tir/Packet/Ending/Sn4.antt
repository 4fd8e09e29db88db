-- ===== src/Tir/Packet/Ending/Sn4.antt =====
-- The loops of the SmartNav 4 packets end.
use native.Mathlib.Decide.{dec_lt}
use linux_track.Prelude.{
  ℕ, zero, suc, ◌+◌, ◌-◌, ◌*◌, ◌≤◌, ◌<◌, List, ltb, ◌==◌, not, ◌&&◌, length, arith, sub32, u32,
  bit_xor,
}
use linux_track.Prelude.Exec.{Ends, returns, faults, Ends-bind, Ends-mono, Any, read_at_past}
use linux_track.Tir.Decode.{or_if}
use linux_track.Tir.Packet.{Parser, check_paket_header_sn4, xor_bytes, enough}
use linux_track.Tir.Packet.Ending.{Ends-read, Ends-if, sn4-Decoder, be32-Ends, stripe_loop-Ends}
use linux_track.Tir.Packet.Sn4.{
  Pixels, gr_pixels, gr_loop, process_stripe_sn4gr, sn4_body, process_packet_sn4, note_buttons,
}

module _ (data' : List ℕ) (base size : ℕ) where
  -- The inner loop ends, and does not step back.
  gr_pixels-Ends :
      (fuel : ℕ) (px : Pixels)
      → length data' < fuel + (base + px.i)
      → 0 < fuel
      → Ends (λ r. px.i ≤ r.i) (gr_pixels fuel data' base size px)
  unfolding gr_pixels
  gr_pixels-Ends zero px h p = elim p [ ]
  gr_pixels-Ends (suc fuel) px h p = elim (dec_lt (base + px.i) (length data')) [
    | yes inside ↦ Ends-read data' (base + px.i) λ b.
        Ends-if (not (b == 0) && ltb px.i size)
          (λ _.
            Ends-mono
              (gr_pixels-Ends fuel
                (record {
                  i = px.i + 1;
                  j = px.j + 1;
                  sum = u32 (px.sum + b);
                  sum_x = u32 (px.sum_x + px.j * b);
                })
                (omega arith) (omega arith))
              (λ r q. omega arith))
          (λ _. returns (omega arith))
    | no outside ↦ rw (read_at_past data' (base + px.i) (omega arith)) faults
  ]

  gr_loop-Ends :
      (fuel i last_vline : ℕ) (st : Parser)
      → length data' < fuel + (base + i)
      → 0 < fuel
      → Ends Any (gr_loop fuel data' base size i last_vline st)
  unfolding gr_loop
  gr_loop-Ends zero i last_vline st h p = elim p [ ]
  gr_loop-Ends (suc fuel) i last_vline st h p =
      Ends-if (ltb i (size - 4))
        (λ _. elim (dec_lt (base + i) (length data')) [
          | yes inside ↦ Ends-read data' (base + i) λ a. Ends-read data' (base + i + 1) λ v.
              Ends-read data' (base + i + 2) λ rest.
                Ends-if (ltb (or_if rest 0x04 0x100 v) last_vline) (λ _. returns tt)
                  λ _.
                    Ends-bind
                      (gr_pixels-Ends (enough data')
                        (record { i = i + 3; j = 1; sum = 0; sum_x = 0 }) (omega arith)
                        (omega arith))
                      λ px q. Ends-read data' (base + px.i) λ stop.
                        Ends-if (stop == 0)
                          (λ _.
                            gr_loop-Ends fuel (px.i + 1) (or_if rest 0x04 0x100 v) _ (omega arith)
                              (omega arith))
                          (λ _. returns tt)
          | no outside ↦ rw (read_at_past data' (base + i) (omega arith)) faults
        ])
        (λ _. returns tt)

xor_bytes-Ends : (n : ℕ) (p : List ℕ) (i csum : ℕ) → Ends Any (xor_bytes n p i csum)
unfolding xor_bytes
xor_bytes-Ends zero p i csum = returns tt
xor_bytes-Ends (suc n) p i csum = Ends-read p i λ b. xor_bytes-Ends n p (i + 1) (bit_xor csum b)

check_paket_header_sn4-Ends : (p : List ℕ) (i : ℕ) → Ends Any (check_paket_header_sn4 p i)
unfolding check_paket_header_sn4
check_paket_header_sn4-Ends p i = Ends-bind (xor_bytes-Ends 8 p i 0) λ _ _. returns tt

process_stripe_sn4gr-Ends :
    (data' : List ℕ) (base size : ℕ) (st : Parser)
    → Ends Any (process_stripe_sn4gr data' base size st)
unfolding process_stripe_sn4gr
process_stripe_sn4gr-Ends data' base size st =
    Ends-if (ltb size 4) (λ _. returns tt)
      λ _.
        Ends-bind (gr_loop-Ends data' base size (enough data') 0 0 st (omega arith) (omega arith))
          λ _ _. returns tt

sn4_body-Ends :
    (type ps : ℕ) (data' : List ℕ) (ptr limit : ℕ) (st : Parser)
    → Ends Any (sn4_body type ps data' ptr limit st)
unfolding sn4_body
sn4_body-Ends type ps data' ptr limit st =
    Ends-if (type == 4)
      (λ _.
        Ends-if (ltb 8 ps)
          (λ _.
            Ends-bind (process_stripe_sn4gr-Ends data' (ptr + 12) (ps - 4) st) λ _ _. returns tt)
          (λ _. returns tt))
      (λ _.
        Ends-if (type == 0)
          (λ _. Ends-bind (be32-Ends data' (ptr + 4)) λ n _.
            Ends-bind
              (stripe_loop-Ends sn4-Decoder 4 (omega arith) data' (enough data') (ptr + 8) ps
                (record st { pkt_no = n }) (omega arith) (omega arith))
              λ _ _. returns tt)
          (λ _. returns tt))

pub process_packet_sn4-Ends :
    (st : Parser) (data' : List ℕ) (ptr pktsize limit : ℕ)
    → Ends Any (process_packet_sn4 st data' ptr pktsize limit)
unfolding process_packet_sn4
process_packet_sn4-Ends st data' ptr pktsize limit = Ends-read data' ptr λ btns.
    Ends-read data' (ptr + 1) λ type.
      Ends-if (ltb limit 12) (λ _. returns tt)
        λ _. Ends-bind (check_paket_header_sn4-Ends data' ptr) λ good _.
          Ends-if (not good) (λ _. returns tt)
            λ _. Ends-bind (be32-Ends data' (limit - 4)) λ ps _.
              Ends-if (not (ps == sub32 pktsize 4)) (λ _. returns tt)
                λ _. sn4_body-Ends type (sub32 ps 8) data' ptr limit (note_buttons btns st)
