-- ===== src/Server/Client/Denied.antt =====
-- First datagrams that are no request, in secure mode.
use tftpserver.Prelude.{
  ◌≡◌, ◌≢◌, refl, ap, subst, Bool, ◌∙◌, true, false, List, [], ◌∷◌, ◌++◌, Option, Bytes, codes,
}
use tftpserver.Common.{read_request, write_request, access_violation, error_value}
use tftpserver.Options.{HashOrder}
use tftpserver.Path.{FileSystem, is_path_secure}
use tftpserver.Packet.{TftpPacket, initial_packet}
use tftpserver.Packet.Reader.{deserialize}
use tftpserver.Packet.Writer.{put_u16, put_string}
use tftpserver.Packet.Accepted.{deserialize-filename}
use tftpserver.Server.{Address, Net, Event, World}
use tftpserver.Server.Io.Errors.{Answered, send_error-Answered}
use tftpserver.Server.Client.{Config, ClientEnd, access_denied, serve, catch_all, handle_client}

no_name-insecure : (fs : FileSystem) (root_dir : Bytes) → is_path_secure fs [] root_dir ≡ false
unfolding is_path_secure
no_name-insecure fs root_dir = refl

-- The bytes of the error: the opcode 5, the code 2, the text and its terminator.
abbrev pub denial : Bytes
denial = 0 ∷ 5 ∷ 0 ∷ 2 ∷ (codes "Access denied" ++ 0 ∷ [])

denial_bytes :
    put_u16 5 ++ (put_u16 (error_value access_violation) ++ put_string (codes "Access denied"))
    ≡ denial
unfolding put_u16 put_string error_value
denial_bytes = refl

-- A run that ends in this way and has sent the error to the client, and done nothing else.
abbrev pub Denied : Address → World → ClientEnd × World → Type 0
Denied client w run =
    (run.0 ≡ access_denied)
    × (events : List Event) × (run.1.trace ≡ w.trace ++ events)
    × Answered client denial events

module _ (net : Net) (h : HashOrder) (fs : FileSystem) (config : Config)
    (read_callback : Bytes → Option Bytes) (write_callback : Bytes → Bytes → Bool)
    (client : Address) where
  serve-Denied :
      (packet : TftpPacket) (w : World)
      → config.secure_mode ≡ true
      → is_path_secure fs packet.filename config.root_dir ≡ false
      → Denied client w
          (catch_all (serve net h fs config read_callback write_callback client packet w))
  unfolding serve catch_all
  serve-Denied packet w secure refused =
      let r = send_error-Answered net h client access_violation (codes "Access denied") w in
      rw (secure, refused, r.returns)
        (refl, r.events, r.trace_is, subst (λ d. Answered client d r.events) denial_bytes r.holds)

  -- In secure mode, when the socket of the client can be made and bound, and whatever the network does:
  -- for a first datagram that is a packet, but neither a read request nor a write request, HandleClient
  -- tries to send the client an error with the code 2 and the text `Access denied`, once at least, and
  -- sends nothing else, receives nothing and stores nothing.
  pub handle_client-Denied :
      (first : Bytes) (packet : TftpPacket) (w : World)
      → config.secure_mode ≡ true
      → deserialize initial_packet first ≡ (packet, true)
      → packet.op_code ≢ read_request
      → packet.op_code ≢ write_request
      → Denied client w
          (handle_client net h fs config read_callback write_callback client true true first w)
  unfolding handle_client
  handle_client-Denied first packet w secure parsed no_read no_write =
      let named = deserialize-filename initial_packet packet first parsed no_read no_write in
      let refused =
        ap (λ n. is_path_secure fs n config.root_dir) named ∙ no_name-insecure fs config.root_dir in
      rw parsed (serve-Denied packet w secure refused)
