-- ===== src/Tir/Stream.antt =====
-- src/tir_img.c: the dispatch over packets and the reading of a frame from the camera.
pub mod Progress
pub mod Termination
use linux_track.Prelude.{
  ℕ, zero, suc, ◌+◌, ◌-◌, Bool, true, false, not, ◌&&◌, ◌||◌, Option, none, some, List, ltb, leb,
  ◌==◌, if◌then◌else◌, length, u32,
}
use linux_track.Prelude.Exec.{Exec, ok, fault, out_of_fuel, ◌>>=◌, read_at}
use linux_track.Tir.Packet.{Parser, process_packet_tir5}
use linux_track.Tir.Packet.Sn4.{process_packet_sn4}
use linux_track.Tir.Packet.Tir4.{process_packet_tir2, process_packet_tir4}

-- The outcome of the first `switch(type)`: go on at a position, or give the buffer up.
pub data Header : Type 0 where
  go : ℕ → Parser → Header
  give_up : Parser → Header

abbrev pub begin : ℕ → ℕ → ℕ → Parser → Parser
begin type ptr pktsize st = record st {
  type = some type;
  pktsize = pktsize;
  limit = u32 (ptr + pktsize);
}

-- The `switch` over a type just read at `ptr + 1`.
unfoldable pub start_packet : ℕ → Parser → List ℕ → ℕ → ℕ → Exec Header
start_packet type st data' ptr size =
    if type == 0x20 || type == 0x40 || type == 0x1c
    then (do n ← read_at data' ptr; ok (go (ptr + 2) (begin type ptr n st)))
    else if type == 0x10
    then (do
      kind ← read_at data' (ptr + 2)
      n ← read_at data' ptr
      if kind == 0 || kind == 5
          then ok (go ptr (begin type ptr size st))
          else ok (go ptr (begin type ptr n st)))
    else if type == 0x00 || type == 0x04
    then ok (go ptr (begin type ptr size st))
    else ok (give_up (record st { type = none }))

-- `if(type == -1){ … }`
unfoldable pub header : Option ℕ → Parser → List ℕ → ℕ → ℕ → Exec Header
unfolding start_packet
header (some type) st data' ptr size = ok (go ptr st)
header none st data' ptr size = do
  type ← read_at data' (ptr + 1)
  start_packet type st data' ptr size

abbrev pub finish : ℕ → Bool × ℕ × Parser → Bool × ℕ × Parser
finish limit (have_frame, ptr, st) = (have_frame, limit, record st { type = none })

abbrev pub finish_at_limit : ℕ → Bool × ℕ × Parser → Bool × ℕ × Parser
finish_at_limit limit (have_frame, ptr, st) =
    (have_frame, ptr, if leb limit ptr then record st { type = none } else st)

-- The second `switch(type)`.
unfoldable pub dispatch : ℕ → Parser → List ℕ → ℕ → Exec (Bool × ℕ × Parser)
dispatch type st data' ptr =
    if type == 0x20 || type == 0x40
    then ok (finish st.limit (false, ptr, st))
    else if type == 0x10
    then (do r ← process_packet_tir5 st data' ptr st.pktsize st.limit; ok (finish st.limit r))
    else if type == 0x1c
    then (do
      r ←
          (if st.is_tir2
            then process_packet_tir2 st data' ptr st.pktsize st.limit
            else process_packet_tir4 st data' ptr st.pktsize st.limit)
      ok (finish_at_limit st.limit r))
    else if type == 0x04 || type == 0x00
    then (do r ← process_packet_sn4 st data' ptr st.pktsize st.limit; ok (finish st.limit r))
    else ok (false, ptr, record st { type = none })

unfoldable pub dispatch_type : Option ℕ → Parser → List ℕ → ℕ → Exec (Bool × ℕ × Parser)
unfolding dispatch
dispatch_type (some type) st data' ptr = dispatch type st data' ptr
dispatch_type none st data' ptr = ok (false, ptr, record st { type = none })

-- How a round of `while(1)` in `process_packet` ends: by a return, or by another round.
pub data Round : Type 0 where
  return : Bool → ℕ → Parser → Round
  again : ℕ → Parser → Round

abbrev pub after_packet : Bool × ℕ × Parser → Round
after_packet (have_frame, ptr, st) = if have_frame then return true ptr st else again ptr st

-- A packet that reaches past what was read ends the loop, and stays the current one.
abbrev pub after_header : List ℕ → ℕ → Header → Exec Round
after_header data' size (give_up st) = ok (return false size st)
after_header data' size (go ptr st) =
    if ltb size st.limit
    then ok (return false ptr st)
    else (do r ← dispatch_type st.type st data' ptr; ok (after_packet r))

unfoldable pub packet_round : Parser → List ℕ → ℕ → ℕ → Exec Round
packet_round st data' ptr size =
    if leb size ptr
    then ok (return false ptr st)
    else (do h ← header st.type st data' ptr size; after_header data' size h)

-- Whether a frame is complete, the position and the state.
unfoldable pub process_packet : ℕ → Parser → List ℕ → ℕ → ℕ → Exec (Bool × ℕ × Parser)
process_packet zero st data' ptr size = out_of_fuel
process_packet (suc fuel) st data' ptr size = packet_round st data' ptr size >>= λ r. elim r [
  | return have_frame ptr' st' ↦ ok (have_frame, ptr', st')
  | again ptr' st' ↦ process_packet fuel st' data' ptr' size
]

-- What the caller of `ltr_int_read_blobs_tir` sees: -1 on a failed transfer, a frame (the stripes
-- are then made into blobs), or 0 because a new state request came first.
pub data ReadResult : Type 0 where
  failed frame interrupted : ReadResult

-- The static variables of the two functions, and the buffer.
pub record Reader : Type 0 where
  pub parser : Parser
  pub buffer : List ℕ
  pub size : ℕ
  pub ptr : ℕ

-- The world outside: the contents of the buffer after each transfer and its size (`none` for a
-- failure), by the number of the transfer, and the answers of `ltr_int_got_new_request`, by the
-- number of the round.
module _ (receive_data : ℕ → Option (List ℕ × ℕ)) (got_new_request : ℕ → Bool) where
  -- `if(ptr >= size){ ptr = 0; … }`, with the count of transfers made so far.
  unfoldable pub refill : ℕ → Reader → Option (ℕ × Reader)
  refill k r =
      if leb r.size r.ptr
      then (elim (receive_data k) [
        | none ↦ none
        | some (bytes, n) ↦ some (k + 1, record r { buffer = bytes; size = n; ptr = 0 })
      ])
      else some (k, r)

  unfoldable pub read_blobs_tir : ℕ → ℕ → ℕ → Reader → Exec (ReadResult × Reader)
  read_blobs_tir zero k polls r = out_of_fuel
  read_blobs_tir (suc fuel) k polls r = elim (refill k r) [
    | none ↦ ok (failed, record r { ptr = 0 })
    | some (k', r') ↦
        process_packet (r'.size + 1) r'.parser r'.buffer r'.ptr r'.size
        >>= λ (have_frame, ptr', st').
            let next = record r' { parser = st'; ptr = ptr' } in
            let rest = read_blobs_tir fuel k' (polls + 1) next in
            if have_frame
            then ok (frame, next)
            else if got_new_request polls
            then ok (interrupted, next)
            else rest
  ]
