-- ===== src/Tir/Packet/Ending.antt =====
-- Every loop over the bytes of one packet ends, with the fuel that the model gives it: each round
-- reads further on, and a read past the buffer is a fault.
pub mod Sn4
pub mod Tir4
use native.Mathlib.Decide.{dec_lt}
use linux_track.Prelude.{
  ℕ, zero, suc, ◌+◌, ◌-◌, ◌≤◌, ◌<◌, ◌≡◌, refl, Bool, true, false, List, inl, inr, Bool-cases, ltb,
  leb, ◌==◌, not, ◌&&◌, ◌||◌, length, arith, sub32, get_elem?, if◌then◌else◌,
}
use linux_track.Prelude.Exec.{
  Exec, ok, fault, out_of_fuel, ◌>>=◌, read_at, Ends, returns, faults, Ends-bind, Any, read_at-Ends,
  read_at_past,
}
use linux_track.Stripe.{Stripe}
use linux_track.Tir.Decode.{
  process_stripe_tir2, process_stripe_sn4, process_stripe_tir4, process_stripe_tir5,
}
use linux_track.Tir.Packet.{
  Parser, emit, check_paket_header_tir5, check_paket_header_sn4, xor_bytes, be32, stripe_loop,
  enough, tir5_stripes, process_packet_tir5,
}
use linux_track.Tir.Packet.Sn4.{
  Pixels, gr_pixels, gr_loop, process_stripe_sn4gr, sn4_body, process_packet_sn4, note_buttons,
}
use linux_track.Tir.Packet.Tir4.{
  is_next_frame_tir, is_next_frame_tir2, tir4_round, tir2_round, frame_loop, process_packet_tir4,
  process_packet_tir2,
}

pub Ends-read :
    {B : Type 0} {Q : B → Type 0} (xs : List ℕ) (i : ℕ) {k : ℕ → Exec B}
    → ((a : ℕ) → Ends Q (k a))
    → Ends Q (read_at xs i >>= k)
Ends-read xs i next = Ends-bind (read_at-Ends xs i) (λ a _. next a)

pub Ends-if :
    {B : Type 0} {Q : B → Type 0} (b : Bool) {x y : Exec B}
    → (b ≡ true → Ends Q x)
    → (b ≡ false → Ends Q y)
    → Ends Q (if b then x else y)
Ends-if true p q = p refl
Ends-if false p q = q refl

-- What the loops need of the decoder of a stripe.
pub record Decoder (process : List ℕ → ℕ → Exec Stripe) : Type 0 where
  pub ending : (p : List ℕ) (i : ℕ) → Ends Any (process p i)
  pub past : (p : List ℕ) (i : ℕ) → length p ≤ i → process p i ≡ fault

pub tir2-Decoder : Decoder process_stripe_tir2
unfolding process_stripe_tir2
tir2-Decoder = record {
  ending = λ p i. Ends-read p i λ _. Ends-read p (i + 1) λ _. Ends-read p (i + 2) λ _. returns tt;
  past = λ p i h. rw (read_at_past p i h) refl;
}

pub tir4-Decoder : Decoder process_stripe_tir4
unfolding process_stripe_tir4
tir4-Decoder = record {
  ending = λ p i.
      Ends-read p i
        λ _. Ends-read p (i + 1) λ _. Ends-read p (i + 2) λ _. Ends-read p (i + 3) λ _. returns tt;
  past = λ p i h. rw (read_at_past p i h) refl;
}

pub sn4-Decoder : Decoder process_stripe_sn4
unfolding process_stripe_sn4
sn4-Decoder = record {
  ending = λ p i.
      Ends-read p i
        λ _. Ends-read p (i + 1) λ _. Ends-read p (i + 2) λ _. Ends-read p (i + 3) λ _. returns tt;
  past = λ p i h. rw (read_at_past p i h) refl;
}

tir5-Decoder : Decoder process_stripe_tir5
unfolding process_stripe_tir5
tir5-Decoder = record {
  ending = λ p i. Ends-read p i λ _. Ends-read p (i + 1) λ _. Ends-read p (i + 2) λ _.
      Ends-read p (i + 3) λ _.
        Ends-read p (i + 4) λ _.
          Ends-read p (i + 5) λ _. Ends-read p (i + 6) λ _. Ends-read p (i + 7) λ _. returns tt;
  past = λ p i h. rw (read_at_past p i h) refl;
}

module _ {process : List ℕ → ℕ → Exec Stripe} (d : Decoder process) (width : ℕ) (w : 0 < width)
    (data' : List ℕ) where
  pub stripe_loop-Ends :
      (fuel ptr ps : ℕ) (st : Parser)
      → length data' < fuel + ptr
      → 0 < fuel
      → Ends Any (stripe_loop process width fuel data' ptr ps st)
  unfolding stripe_loop
  stripe_loop-Ends zero ptr ps st h p = elim p [ ]
  stripe_loop-Ends (suc fuel) ptr ps st h p =
      Ends-if (ps == 0) (λ _. returns tt)
        λ _. elim (dec_lt ptr (length data')) [
          | yes inside ↦ Ends-bind (d.ending data' ptr) λ s _.
              stripe_loop-Ends fuel (ptr + width) (sub32 ps width) (emit s st) (omega arith)
                (omega arith)
          | no outside ↦ rw (d.past data' ptr (omega arith)) faults
        ]

pub be32-Ends : (p : List ℕ) (i : ℕ) → Ends Any (be32 p i)
unfolding be32
be32-Ends p i =
    Ends-read p i
      λ _. Ends-read p (i + 1) λ _. Ends-read p (i + 2) λ _. Ends-read p (i + 3) λ _. returns tt

tir5_stripes-Ends :
    (type ptr ps : ℕ) (data' : List ℕ) (st : Parser) → Ends Any (tir5_stripes type data' ptr ps st)
unfolding tir5_stripes
tir5_stripes-Ends type ptr ps data' st =
    Ends-if (type == 0)
      (λ _.
        stripe_loop-Ends tir4-Decoder 4 (omega arith) data' (enough data') ptr ps st (omega arith)
          (omega arith))
      (λ _.
        stripe_loop-Ends tir5-Decoder 8 (omega arith) data' (enough data') ptr ps st (omega arith)
          (omega arith))

check_paket_header_tir5-Ends : (p : List ℕ) (i : ℕ) → Ends Any (check_paket_header_tir5 p i)
unfolding check_paket_header_tir5
check_paket_header_tir5-Ends p i =
    Ends-read p i
      λ _. Ends-read p (i + 1) λ _. Ends-read p (i + 2) λ _. Ends-read p (i + 3) λ _. returns tt

pub process_packet_tir5-Ends :
    (st : Parser) (data' : List ℕ) (ptr pktsize limit : ℕ)
    → Ends Any (process_packet_tir5 st data' ptr pktsize limit)
unfolding process_packet_tir5
process_packet_tir5-Ends st data' ptr pktsize limit = Ends-read data' (ptr + 2) λ type.
    Ends-if (type == 0 || type == 5)
      (λ _.
        Ends-if (ltb limit 4) (λ _. returns tt)
          λ _. Ends-bind (check_paket_header_tir5-Ends data' ptr) λ good _.
            Ends-if (not good) (λ _. returns tt)
              λ _. Ends-bind (be32-Ends data' (limit - 4)) λ ps _.
                Ends-if (not (ps == sub32 pktsize 8)) (λ _. returns tt)
                  λ _. Ends-read data' ptr λ n.
                    Ends-bind (tir5_stripes-Ends type (ptr + 4) ps data' (record st { pkt_no = n }))
                      λ _ _. returns tt)
      (λ _. returns tt)
