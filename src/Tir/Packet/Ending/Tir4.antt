-- ===== src/Tir/Packet/Ending/Tir4.antt =====
-- The frame loop of the TrackIR 2 and 4 ends, and a loop that ends with no frame has read on to the
-- limit.
use linux_track.Prelude.{
  ℕ, zero, suc, ◌+◌, ◌≤◌, ◌<◌, ◌≡◌, Bool, false, List, leb, ◌==◌, ◌&&◌, arith,
}
use linux_track.Prelude.Exec.{Exec, Ends, returns, Ends-bind, Ends-mono, Any}
use linux_track.Tir.Packet.{Parser}
use linux_track.Tir.Packet.Ending.{Ends-read, Ends-if, tir2-Decoder, tir4-Decoder}
use linux_track.Tir.Packet.Tir4.{
  is_next_frame_tir, is_next_frame_tir2, tir4_round, tir2_round, frame_loop, process_packet_tir4,
  process_packet_tir2,
}

-- A round without a frame has moved on.
abbrev Moves : ℕ → Bool × ℕ × Parser → Type 0
Moves ptr (have_frame, ptr', st) = have_frame ≡ false → ptr < ptr'

-- Having found no frame, the loop stands at the limit or behind it, and further than it began.
abbrev pub ReadsOn : ℕ → ℕ → Bool × ℕ × Parser → Type 0
ReadsOn ptr limit (have_frame, ptr', st) = have_frame ≡ false → (limit ≤ ptr') × (ptr < ptr')

is_next_frame_tir-Ends : (p : List ℕ) (i : ℕ) (st : Parser) → Ends Any (is_next_frame_tir p i st)
unfolding is_next_frame_tir
is_next_frame_tir-Ends p i st = Ends-read p i λ _. Ends-read p (i + 3) λ _. returns tt

is_next_frame_tir2-Ends : (p : List ℕ) (i : ℕ) (st : Parser) → Ends Any (is_next_frame_tir2 p i st)
unfolding is_next_frame_tir2
is_next_frame_tir2-Ends p i st = Ends-read p i λ _. returns tt

tir4_round-Ends :
    (data' : List ℕ) (ptr : ℕ) (st : Parser) → Ends (Moves ptr) (tir4_round data' ptr st)
unfolding tir4_round
tir4_round-Ends data' ptr st = Ends-read data' ptr λ a. Ends-read data' (ptr + 1) λ b.
    Ends-read data' (ptr + 2) λ c. Ends-read data' (ptr + 3) λ d.
      Ends-if (a == 0 && b == 0 && c == 0 && d == 0) (λ _. returns (λ _. omega arith))
        λ _. Ends-bind (is_next_frame_tir-Ends data' ptr st) λ r _.
          Ends-if r.0 (λ _. returns (λ e. cc))
            λ _. Ends-bind (tir4-Decoder.ending data' ptr) λ s _. returns (λ _. omega arith)

tir2_round-Ends :
    (data' : List ℕ) (ptr : ℕ) (st : Parser) → Ends (Moves ptr) (tir2_round data' ptr st)
unfolding tir2_round
tir2_round-Ends data' ptr st = Ends-read data' ptr λ a. Ends-read data' (ptr + 1) λ b.
    Ends-read data' (ptr + 2) λ c.
      Ends-if (a == 0 && b == 0 && c == 0) (λ _. returns (λ _. omega arith))
        λ _. Ends-bind (is_next_frame_tir2-Ends data' ptr st) λ r _.
          Ends-if r.0 (λ _. returns (λ e. cc))
            λ _. Ends-bind (tir2-Decoder.ending data' ptr) λ s _. returns (λ _. omega arith)

module _ {body : List ℕ → ℕ → Parser → Exec (Bool × ℕ × Parser)}
    (moves : (data' : List ℕ) (ptr : ℕ) (st : Parser) → Ends (Moves ptr) (body data' ptr st))
    (data' : List ℕ) (pktsize limit : ℕ) where
  frame_loop-Ends :
      (fuel ptr : ℕ) (st : Parser)
      → limit < fuel + ptr
      → 0 < fuel
      → Ends (ReadsOn ptr limit) (frame_loop body fuel data' ptr pktsize limit st)
  unfolding frame_loop
  frame_loop-Ends zero ptr st h p = elim p [ ]
  frame_loop-Ends (suc fuel) ptr st h p =
      Ends-bind (moves data' ptr st) λ (have_frame, ptr', st') m.
        Ends-if (leb limit ptr') (λ there. returns (λ e. ground (arith, m e)))
          (λ before.
            Ends-if have_frame (λ e. returns (λ e'. cc))
              (λ e.
                Ends-mono
                  (frame_loop-Ends fuel ptr' st' (ground (arith, m e)) (ground (arith, m e)))
                  λ r q e'. ground (arith, m e, q e')))

pub process_packet_tir4-Ends :
    (st : Parser) (data' : List ℕ) (ptr pktsize limit : ℕ)
    → Ends (ReadsOn ptr limit) (process_packet_tir4 st data' ptr pktsize limit)
unfolding process_packet_tir4
process_packet_tir4-Ends st data' ptr pktsize limit =
    frame_loop-Ends tir4_round-Ends data' pktsize limit (limit + 1) ptr st (omega arith)
      (omega arith)

pub process_packet_tir2-Ends :
    (st : Parser) (data' : List ℕ) (ptr pktsize limit : ℕ)
    → Ends (ReadsOn ptr limit) (process_packet_tir2 st data' ptr pktsize limit)
unfolding process_packet_tir2
process_packet_tir2-Ends st data' ptr pktsize limit =
    frame_loop-Ends tir2_round-Ends data' pktsize limit (limit + 1) ptr st (omega arith)
      (omega arith)
