-- ===== src/Server/Upload/Announced.antt =====
-- src/internal/tftp_server_impl.cpp: HandleWriteRequest for a request that announces the size of its
-- file in a tsize option.
use tftpserver.Prelude.{
  ℕ, ◌+◌, ◌^◌, ◌≤◌, ◌<◌, ◌⊎◌, inl, inr, Bool-cases, ltb→lt, ◌≡◌, refl, sym, ap, ◌∙◌, Bool, true,
  false, List, [], ◌∷◌, Option, some, Bytes, length, ltb, arith, codes,
}
use tftpserver.Prelude.Int.{ℤ}
use tftpserver.Common.{max_data_size}
use tftpserver.Options.{HashOrder}
use tftpserver.Packet.{TftpPacket, has_option, get_option}
use tftpserver.Server.{Address, Net, Event, World}
use tftpserver.Server.Numbers.{stoull}
use tftpserver.Server.Io.Runs.{Ran, Ran-with}
use tftpserver.Server.Io.Errors.{stores}
use tftpserver.Server.Upload.{
  WriteEnd, completed, exceeds_expected, expected_size, handle_write_request,
}
use tftpserver.Server.Upload.Reception.{Reception, broken_off, last_block, next}
use tftpserver.Server.Upload.Payloads.{stored_once}
use tftpserver.Server.Upload.Storing.{Handled, no_file, whole_file, handle_write_request-Handled}
use tftpserver.Server.Upload.SmallBlocks.{largest_file}

-- No more than the announced size and a block; and when this sum does not fit a `size_t`, no more than
-- what is left of it behind 2^64.
abbrev pub IsAnnounced : ℕ → ℕ → Type 0
IsAnnounced announced size =
    (size ≤ announced + max_data_size)
    × ((announced + max_data_size < 2 ^ 64) ⊎ (2 ^ 64 + size ≤ announced + max_data_size))

within-IsAnnounced :
    (announced size : ℕ)
    → exceeds_expected (some announced) size ≡ false
    → IsAnnounced announced size
unfolding exceeds_expected
within-IsAnnounced announced size h = (
  ground (arith, h),
  elim (Bool-cases (ltb (announced + max_data_size) (2 ^ 64))) [
    | inl fits ↦ inl (ltb→lt _ _ fits)
    | inr wraps ↦ inr (ground (arith, h, wraps))
  ],
)

nothing-IsAnnounced : (announced : ℕ) → IsAnnounced announced 0
nothing-IsAnnounced announced = (
  omega arith,
  elim (Bool-cases (ltb (announced + max_data_size) (2 ^ 64))) [
    | inl fits ↦ inl (ltb→lt _ _ fits)
    | inr wraps ↦ inr (ground (arith, wraps))
  ],
)

largest_one : (path file : Bytes) → largest_file ((path, file) ∷ []) ≡ length file
largest_one path file = ground arith

abbrev file_of : WriteEnd → Bytes
file_of (completed file) = file
file_of _ = []

Reception-within :
    {max_size : ℕ} {expected : Option ℕ} {block : ℕ} {before : Bytes} {events : List Event}
    (file : Bytes)
    → Reception max_size expected block before events (completed file)
    → exceeds_expected expected (length file) ≡ false
Reception-within file (broken_off f quiet) = absurd f
Reception-within {expected = e} file (last_block p a short same) =
    ap (λ end. exceeds_expected e (length (file_of end))) same ∙ a.expected_fits
Reception-within file (next p es later split a long r) = Reception-within file r

Handled-IsAnnounced :
    {max_size : ℕ} {write_callback : Bytes → Bytes → Bool} {filepath : Bytes} {packet : TftpPacket}
    {announced : ℕ} (events : List Event) (end : WriteEnd)
    → expected_size packet ≡ some announced
    → Handled max_size write_callback filepath packet events end
    → IsAnnounced announced (largest_file (stores events))
Handled-IsAnnounced {announced = announced} events end known (no_file _ f quiet) =
    rw quiet (nothing-IsAnnounced announced)
Handled-IsAnnounced {filepath = path} {packet} {announced} events end known
      (whole_file file reply during later _ events_are q r l end_is) =
    rw (once, largest_one path file)
      (within-IsAnnounced announced (length file) (known_within (Reception-within file r)))
  where
    known_within :
        exceeds_expected (expected_size packet) (length file) ≡ false
        → exceeds_expected (some announced) (length file) ≡ false
    known_within e = ap (λ o. exceeds_expected o (length file)) (sym known) ∙ e

    once : stores events ≡ (path, file) ∷ []
    once = stored_once reply later _ events_are q r l

-- Whatever the network does and whatever the callback answers: when the request has a tsize option that
-- `std::stoull` reads as a number, no file that the write callback is given in a run of
-- `HandleWriteRequest` is longer than this number by more than 512; and when the number with 512 added is
-- 2^64 or more, no such file is longer than the sum less 2^64.
pub handle_write_request-IsAnnounced :
    (net : Net) (h : HashOrder) (client : Address) (timeout_secs : ℤ) (max_size : ℕ)
    (write_callback : Bytes → Bytes → Bool) (filepath : Bytes) (packet : TftpPacket) (w : World)
    (announced : ℕ)
    → has_option packet (codes "tsize") ≡ true
    → stoull (get_option packet (codes "tsize")) ≡ some announced
    → Ran w
        (handle_write_request net h client timeout_secs max_size write_callback filepath packet w)
        (λ events end. IsAnnounced announced (largest_file (stores events)))
unfolding expected_size
handle_write_request-IsAnnounced net h client timeout_secs max_size write_callback filepath packet w
      announced there number =
    let r =
      handle_write_request-Handled net h client timeout_secs max_size write_callback filepath packet
        w in
    Ran-with r (Handled-IsAnnounced r.events r.end (rw (there, number) refl) r.holds)
