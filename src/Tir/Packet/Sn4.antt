-- ===== src/Tir/Packet/Sn4.antt =====
-- src/tir_img.c: the packets of the SmartNav 4, evenly lit (type 0) and greyscale (type 4).
use linux_track.Prelude.{
  ℕ, zero, suc, ◌+◌, ◌-◌, ◌*◌, Bool, true, false, not, ◌&&◌, List, [], ◌∷◌, ◌++◌, ltb, ◌==◌,
  if◌then◌else◌, u32, sub32,
}
use linux_track.Prelude.Exec.{Exec, ok, out_of_fuel, ◌>>=◌, read_at}
use linux_track.Stripe.{Stripe}
use linux_track.Tir.Decode.{or_if, process_stripe_sn4}
use linux_track.Tir.Packet.{Parser, emit, check_paket_header_sn4, be32, stripe_loop, enough}

-- What the inner loop of `process_stripe_sn4gr` changes.
pub record Pixels : Type 0 where
  pub i : ℕ
  pub j : ℕ
  pub sum : ℕ
  pub sum_x : ℕ

-- `while((p_stripe[i] != 0) && (i < size))`; the read comes before the bound.
unfoldable pub gr_pixels : ℕ → List ℕ → ℕ → ℕ → Pixels → Exec Pixels
gr_pixels zero data' base size px = out_of_fuel
gr_pixels (suc fuel) data' base size px = read_at data' (base + px.i) >>= λ b.
    let next = gr_pixels fuel data' base size (record {
      i = px.i + 1;
      j = px.j + 1;
      sum = u32 (px.sum + b);
      sum_x = u32 (px.sum_x + px.j * b);
    }) in
    if not (b == 0) && ltb px.i size then next else ok px

abbrev pub gr_stripe : ℕ → ℕ → Pixels → Stripe
gr_stripe hstart vline px =
    let points = px.j - 1 in
    record {
      vline = vline;
      hstart = hstart;
      hstop = sub32 (u32 (hstart + points)) 1;
      sum_x = px.sum_x;
      sum = px.sum;
      points = points;
    }

-- `while(i < (size - 4))` of `process_stripe_sn4gr`.
unfoldable pub gr_loop : ℕ → List ℕ → ℕ → ℕ → ℕ → ℕ → Parser → Exec Parser
gr_loop zero data' base size i last_vline st = out_of_fuel
gr_loop (suc fuel) data' base size i last_vline st =
    let round = (do
      a ← read_at data' (base + i)
      v ← read_at data' (base + i + 1)
      rest ← read_at data' (base + i + 2)
      let hstart = or_if rest 0x02 0x200 (or_if rest 0x01 0x100 a)
      let vline = or_if rest 0x04 0x100 v
      if ltb vline last_vline then ok st else do
        px ←
            gr_pixels (enough data') data' base size
              (record { i = i + 3; j = 1; sum = 0; sum_x = 0 })
        stop ← read_at data' (base + px.i)
        if stop == 0
            then gr_loop fuel data' base size (px.i + 1) vline (emit (gr_stripe hstart vline px) st)
            else ok st) in
    if ltb i (size - 4) then round else ok st

unfoldable pub process_stripe_sn4gr : List ℕ → ℕ → ℕ → Parser → Exec (Bool × Parser)
process_stripe_sn4gr data' base size st =
    if ltb size 4
    then ok (false, st)
    else do st' ← gr_loop (enough data') data' base size 0 0 st; ok (true, st')

-- A change of the buttons is sent on, whatever the packet holds.
abbrev pub note_buttons : ℕ → Parser → Parser
note_buttons btns st =
    if btns == st.prev_btns
    then st
    else record st { prev_btns = btns; sent = st.sent ++ (btns ∷ []) }

-- The `switch(type)` of `process_packet_sn4`, with `ps` less the header.
unfoldable pub sn4_body : ℕ → ℕ → List ℕ → ℕ → ℕ → Parser → Exec (Bool × ℕ × Parser)
unfolding process_stripe_sn4gr be32 gr_loop
sn4_body type ps data' ptr limit st =
    if type == 4
    then (if ltb 8 ps
        then (do
          (have_frame, st') ← process_stripe_sn4gr data' (ptr + 12) (ps - 4) st
          ok (have_frame, ptr + 12 + limit, st'))
        else ok (false, ptr + limit, st))
    else if type == 0
    then (do
      pkt_no ← be32 data' (ptr + 4)
      (ptr', st') ←
          stripe_loop process_stripe_sn4 4 (enough data') data' (ptr + 8) ps
            (record st { pkt_no = pkt_no })
      ok (true, ptr' + 4, st'))
    else ok (false, ptr + limit, st)

unfoldable pub process_packet_sn4 : Parser → List ℕ → ℕ → ℕ → ℕ → Exec (Bool × ℕ × Parser)
unfolding sn4_body check_paket_header_sn4
process_packet_sn4 st data' ptr pktsize limit = do
  btns ← read_at data' ptr
  type ← read_at data' (ptr + 1)
  if ltb limit 12 then ok (false, ptr + limit, st) else do
    good ← check_paket_header_sn4 data' ptr
    if not good then ok (false, ptr + limit, st) else do
      ps ← be32 data' (limit - 4)
      if not (ps == sub32 pktsize 4)
          then ok (false, ptr + limit, st)
          else sn4_body type (sub32 ps 8) data' ptr limit (note_buttons btns st)
