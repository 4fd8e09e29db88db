-- ===== src/Tir/Packet.antt =====
-- src/tir_img.c: the packets of the TrackIR and SmartNav cameras, one function for each kind.
-- `data` is the buffer that the USB transfer filled and `ptr` the caller's position in it; a read
-- past the buffer is a fault. The calls of `ltr_int_add_stripe` are recorded in order in `emitted`,
-- since none of this code reads the image processing's state.
pub mod Sn4
pub mod Tir4
pub mod Ending
pub mod Emitted
use linux_track.Prelude.{
  ℕ, zero, suc, ◌+◌, ◌-◌, ◌*◌, ◌^◌, bit_and, bit_or, bit_xor, Bool, true, false, not, ◌&&◌, ◌||◌,
  Option, none, some, List, [], ◌∷◌, ◌++◌, ltb, leb, ◌==◌, if◌then◌else◌, length, u32, sub32, ◌<<<◌,
}
use linux_track.Prelude.Exec.{Exec, ok, fault, out_of_fuel, ◌>>=◌, read_at}
use linux_track.Stripe.{Stripe}
use linux_track.Tir.Decode.{
  process_stripe_tir2, process_stripe_sn4, process_stripe_tir4, process_stripe_tir5,
}

-- The static variables of tir_img.c, of `process_packet` and of `process_packet_sn4`; `type` is
-- `none` for -1. `sent` lists the button states that went to `ltr_int_send_sn4_data`.
pub record Parser : Type 0 where
  pub type : Option ℕ
  pub limit : ℕ
  pub pktsize : ℕ
  pub current_line : ℕ
  pub pkt_no : ℕ
  pub prev_btns : ℕ
  pub is_tir2 : Bool
  pub emitted : List Stripe
  pub sent : List ℕ

abbrev pub emit : Stripe → Parser → Parser
emit s st = record st { emitted = st.emitted ++ (s ∷ []) }

unfoldable pub check_paket_header_tir5 : List ℕ → ℕ → Exec Bool
check_paket_header_tir5 data' p = do
  a ← read_at data' p
  b ← read_at data' (p + 1)
  c ← read_at data' (p + 2)
  d ← read_at data' (p + 3)
  ok (bit_xor (bit_xor (bit_xor a b) c) d == 0xaa)

-- `for(i = 0; i < 8; ++i) csum ^= data[i];` with the rounds left.
unfoldable pub xor_bytes : ℕ → List ℕ → ℕ → ℕ → Exec ℕ
xor_bytes zero data' p csum = ok csum
xor_bytes (suc n) data' p csum = do b ← read_at data' p; xor_bytes n data' (p + 1) (bit_xor csum b)

unfoldable pub check_paket_header_sn4 : List ℕ → ℕ → Exec Bool
unfolding xor_bytes
check_paket_header_sn4 data' p = do csum ← xor_bytes 8 data' p 0; ok (csum == 0xaa)

-- Four bytes from `i`, most significant first.
unfoldable pub be32 : List ℕ → ℕ → Exec ℕ
be32 data' i = do
  a ← read_at data' i
  b ← read_at data' (i + 1)
  c ← read_at data' (i + 2)
  d ← read_at data' (i + 3)
  ok (u32 (((a <<< 8 + b) <<< 8 + c) <<< 8 + d))

-- `while(ps > 0){ process_stripe(&(data[*ptr])); *ptr += width; ps -= width; }`: `ps` is unsigned,
-- so the subtraction wraps.
unfoldable pub stripe_loop :
    (List ℕ → ℕ → Exec Stripe) → ℕ → ℕ → List ℕ → ℕ → ℕ → Parser → Exec (ℕ × Parser)
stripe_loop process width zero data' ptr ps st = out_of_fuel
stripe_loop process width (suc fuel) data' ptr ps st =
    let round = process data' ptr >>= λ s.
    stripe_loop process width fuel data' (ptr + width) (sub32 ps width) (emit s st) in
    if ps == 0 then ok (ptr, st) else round

-- Every round reads at `ptr`, which grows, so more rounds than bytes are never made.
abbrev pub enough : List ℕ → ℕ
enough data' = length data' + 1

unfoldable pub tir5_stripes : ℕ → List ℕ → ℕ → ℕ → Parser → Exec (ℕ × Parser)
tir5_stripes type data' ptr ps st =
    if type == 0
    then stripe_loop process_stripe_tir4 4 (enough data') data' ptr ps st
    else stripe_loop process_stripe_tir5 8 (enough data') data' ptr ps st

unfoldable pub process_packet_tir5 : Parser → List ℕ → ℕ → ℕ → ℕ → Exec (Bool × ℕ × Parser)
unfolding check_paket_header_tir5 be32 tir5_stripes
process_packet_tir5 st data' ptr pktsize limit = do
  type ← read_at data' (ptr + 2)
  if type == 0 || type == 5
      then (if ltb limit 4 then ok (false, ptr, st) else do
        good ← check_paket_header_tir5 data' ptr
        if not good then ok (false, ptr, st) else do
          ps ← be32 data' (limit - 4)
          if not (ps == sub32 pktsize 8) then ok (false, ptr, st) else do
            pkt_no ← read_at data' ptr
            (ptr', st') ← tir5_stripes type data' (ptr + 4) ps (record st { pkt_no = pkt_no })
            ok (true, ptr', st'))
      else ok (false, ptr, st)
