-- ===== src/Server/Download/Delivery.antt =====
-- What a download of `HandleReadRequest` delivers.
use tftpserver.Prelude.{
  ℕ, ◌≤◌, ◌≡◌, refl, sym, ap, ◌∙◌, Bool, true, false, List, [], ◌∷◌, ◌++◌, some, Bytes, codes,
  length, drop, ltb, ◌==◌, arith, append-nil, append_assoc, Bool-cases, inl, inr, if◌then◌else◌,
}
use tftpserver.Prelude.Int.{ℤ}
use tftpserver.Options.{HashOrder}
use tftpserver.Packet.Writer.{put_u16}
use tftpserver.Packet.Reader.{get_u16, byte_at}
use tftpserver.Server.{
  Address, Net, Event, sent, got, World, returned, thrown, Thrown, bind_result, pure,
}
use tftpserver.Server.Io.{send_error}
use tftpserver.Common.{disk_full}
use tftpserver.Server.Io.Attempts.{Attempts, gave_up, went_through, again}
use tftpserver.Server.Io.Runs.{Ran}
use tftpserver.Server.Download.{ReadEnd, completed, too_large, handle_read_request}
use tftpserver.Server.Download.Rounds.{
  Round, acked, Transfer, stopped, last_block, next, data_datagram,
}
use tftpserver.Server.Download.Lockstep.{Ended, read_loop_whole}

-- The payload of a DATA datagram that went out whole, and of all of them in turn.
abbrev pub payload_of : Event → Bytes
payload_of (sent addr d true) = if get_u16 d 0 == 3 then drop 4 d else []
payload_of _ = []

abbrev pub delivered : List Event → Bytes
delivered [] = []
delivered (e ∷ es) = payload_of e ++ delivered es

pub delivered-append : (xs ys : List Event) → delivered (xs ++ ys) ≡ delivered xs ++ delivered ys
delivered-append [] ys = refl
delivered-append (e ∷ xs) ys =
    ap (λ r. payload_of e ++ r) (delivered-append xs ys)
    ∙ sym (append_assoc (payload_of e) (delivered xs) (delivered ys))

payload_of-data :
    (client : Address) (block : ℕ) (chunk : Bytes)
    → payload_of (sent client (data_datagram block chunk) true) ≡ chunk
unfolding get_u16 byte_at put_u16
payload_of-data client block chunk = refl

Attempts-delivered :
    {client : Address} {d : Bytes} {left : ℕ} {done : Bool} {es : List Event}
    → Attempts client d left done es
    → done ≡ true
    → delivered es ≡ payload_of (sent client d true)
Attempts-delivered gave_up e = cc
Attempts-delivered went_through e = append-nil _
Attempts-delivered (again t) e = Attempts-delivered t e

Round-delivered :
    {client : Address} {block : ℕ} {chunk : Bytes} {es : List Event}
    → Round client block chunk es completed
    → delivered es ≡ chunk
Round-delivered {client} {block} {chunk} (acked es a p e t h) =
    rw (e, delivered-append es (got a p ∷ []))
      (append-nil _ ∙ Attempts-delivered t refl ∙ payload_of-data client block chunk)

Transfer-delivered :
    {client : Address} {block : ℕ} {file : Bytes} {es : List Event} {end : ReadEnd}
    → Transfer client block file es end
    → end ≡ completed
    → delivered es ≡ file
Transfer-delivered (stopped chunk rest e r n) c = absurd (n c)
Transfer-delivered (last_block l r e) c = Round-delivered r
Transfer-delivered (next chunk rest es later e l e' r t) c =
    rw (e', delivered-append es later, Round-delivered r, Transfer-delivered t c) (sym e)

refused_large :
    (r : Thrown (Unit {0}) × World) (after : World)
    → bind_result r (λ _. pure too_large) ≡ (returned completed, after)
    → ⊥
refused_large (returned u, w) after e = cc
refused_large (thrown, w) after e = cc

module _ (net : Net) (h : HashOrder) (client : Address) (timeout_secs : ℤ) where
  -- On a file that the callback has read and that is within the limit, `HandleReadRequest` returns,
  -- within the fuel, whatever the network does. Its events are a transfer in lock step: blocks 1, 2,
  -- ... (modulo 65536) of 512 bytes and a shorter last one, each tried up to five times, and the next
  -- one sent only after the acknowledgement of the one before; or such a transfer broken off by a
  -- failed send, a wait that brings nothing, or another packet.
  pub handle_read_request-Ended :
      (max_size : ℕ) (file : Bytes) (w : World)
      → length file ≤ max_size
      → Ran w
          (handle_read_request net h client timeout_secs max_size (some file) w)
          (Ended client 1 file)
  unfolding handle_read_request
  handle_read_request-Ended max_size file w l =
      let fits : ltb max_size (length file) ≡ false = ground arith in
      rw (handle_read_request, fits) (read_loop_whole net h client timeout_secs file w)

  -- A completed download: the payloads of the DATA datagrams that went out whole, put together,
  -- are the file, and the file was within the limit.
  pub download_delivers :
      (max_size : ℕ) (file : Bytes) (w after : World)
      → handle_read_request net h client timeout_secs max_size (some file) w
        ≡ (returned completed, after)
      → (delivered after.trace ≡ delivered w.trace ++ file) × (length file ≤ max_size)
  unfolding handle_read_request
  download_delivers max_size file w after e = elim (Bool-cases (ltb max_size (length file))) [
    | inl large ↦ absurd (
        refused_large (send_error net h client disk_full (codes "File size too large") w) after
          (rw large at e))
    | inr fits ↦
        let r = handle_read_request-Ended max_size file w (ground arith) in
        let (is_completed, same_after) = both r.end r.after (sym r.returns ∙ e) in
        (
          rw (
            ← same_after,
            r.trace_is,
            delivered-append w.trace r.events,
            Transfer-delivered r.holds.transfer is_completed,
          ),
          ground arith,
        )
  ]
    where
      both :
          (end : ReadEnd) (world : World)
          → ◌≡◌ {A = Thrown ReadEnd × World} (returned end, world) (returned completed, after)
          → (end ≡ completed) × (world ≡ after)
      both end world q = (cc, cc)
