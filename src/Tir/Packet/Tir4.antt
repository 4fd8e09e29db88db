-- ===== src/Tir/Packet/Tir4.antt =====
-- src/tir_img.c: the packets of the TrackIR 4 and TrackIR 2, whose frames end at a zero stripe or
-- where the line number falls.
use linux_track.Prelude.{
  ℕ, zero, suc, ◌+◌, Bool, true, false, ◌&&◌, List, ltb, leb, ◌==◌, if◌then◌else◌,
}
use linux_track.Prelude.Exec.{Exec, ok, out_of_fuel, ◌>>=◌, read_at}
use linux_track.Tir.Decode.{or_if, process_stripe_tir2, process_stripe_tir4}
use linux_track.Tir.Packet.{Parser, emit}

-- Both record the line for the next call.
unfoldable pub is_next_frame_tir : List ℕ → ℕ → Parser → Exec (Bool × Parser)
is_next_frame_tir data' p st = do
  v ← read_at data' p
  rest ← read_at data' (p + 3)
  let vline = or_if rest 0x20 0x100 v
  ok (ltb vline st.current_line, record st { current_line = vline })

unfoldable pub is_next_frame_tir2 : List ℕ → ℕ → Parser → Exec (Bool × Parser)
is_next_frame_tir2 data' p st = do
  v ← read_at data' p
  ok (ltb v st.current_line, record st { current_line = v })

-- One round of the `do … while(go_on)` up to the test of the limit: whether a frame is complete
-- (then `go_on` is false), the position and the state.
unfoldable pub tir4_round : List ℕ → ℕ → Parser → Exec (Bool × ℕ × Parser)
unfolding is_next_frame_tir
tir4_round data' ptr st = do
  a ← read_at data' ptr
  b ← read_at data' (ptr + 1)
  c ← read_at data' (ptr + 2)
  d ← read_at data' (ptr + 3)
  if a == 0 && b == 0 && c == 0 && d == 0
      then ok (true, ptr + 4, record st { current_line = 0 })
      else do
        (next, st') ← is_next_frame_tir data' ptr st
        if next
            then ok (true, ptr, st')
            else do s ← process_stripe_tir4 data' ptr; ok (false, ptr + 4, emit s st')

unfoldable pub tir2_round : List ℕ → ℕ → Parser → Exec (Bool × ℕ × Parser)
unfolding is_next_frame_tir2
tir2_round data' ptr st = do
  a ← read_at data' ptr
  b ← read_at data' (ptr + 1)
  c ← read_at data' (ptr + 2)
  if a == 0 && b == 0 && c == 0 then ok (true, ptr + 3, record st { current_line = 0 }) else do
    (next, st') ← is_next_frame_tir2 data' ptr st
    if next
        then ok (true, ptr, st')
        else do s ← process_stripe_tir2 data' ptr; ok (false, ptr + 3, emit s st')

-- The loop that both functions have, over its body.
unfoldable pub frame_loop :
    (List ℕ → ℕ → Parser → Exec (Bool × ℕ × Parser))
    → ℕ
    → List ℕ
    → ℕ
    → ℕ
    → ℕ
    → Parser
    → Exec (Bool × ℕ × Parser)
frame_loop body zero data' ptr pktsize limit st = out_of_fuel
frame_loop body (suc fuel) data' ptr pktsize limit st = do
  (have_frame, ptr', st') ← body data' ptr st
  let again = frame_loop body fuel data' ptr' pktsize limit st'
  let beyond = if pktsize == 0x3e then ptr' + 2 else ptr'
  if leb limit ptr'
      then ok (have_frame, beyond, st')
      else if have_frame
      then ok (have_frame, ptr', st')
      else again

-- A round that goes on takes at least three bytes of those before the limit.
unfoldable pub process_packet_tir4 : Parser → List ℕ → ℕ → ℕ → ℕ → Exec (Bool × ℕ × Parser)
process_packet_tir4 st data' ptr pktsize limit =
    frame_loop tir4_round (limit + 1) data' ptr pktsize limit st

unfoldable pub process_packet_tir2 : Parser → List ℕ → ℕ → ℕ → ℕ → Exec (Bool × ℕ × Parser)
process_packet_tir2 st data' ptr pktsize limit =
    frame_loop tir2_round (limit + 1) data' ptr pktsize limit st
