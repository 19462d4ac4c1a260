-- ===== src/Tests/Transfers.antt =====
-- A download, an upload, and the options of an upload.
use tftpserver.Prelude.{
  ◌≢◌, ℕ, ◌+◌, ◌%◌, ◌≡◌, ◌≤◌, ◌⊎◌, refl, ap, true, [], ◌++◌, some, Bytes, codes, arith, length,
}
use tftpserver.Prelude.Int.{pos}
use tftpserver.Common.{oack}
use tftpserver.Options.{lookup}
use tftpserver.Packet.{TftpPacket, initial_packet, has_option, get_option}
use tftpserver.Packet.Reader.{deserialize}
use tftpserver.Server.{datagram, World, returned}
use tftpserver.Server.Io.Runs.{Ran}
use tftpserver.Server.Download.{completed, handle_read_request}
use tftpserver.Server.Download.Lockstep.{Ended}
use tftpserver.Server.Download.Delivery.{delivered, handle_read_request-Ended, download_delivers}
use tftpserver.Server.Download.Cooperation.{ack_datagram, Cooperates, download_completes}
use tftpserver.Server.Upload.{oack_data, negotiate, in_range_or, handle_write_request}
use tftpserver.Server.Upload.Storing.{Handled, handle_write_request-Handled}
use tftpserver.Server.Io.Errors.{stores}
use tftpserver.Server.Upload.SmallBlocks.{
  largest_payload, largest_file, handle_write_request_small_blocks,
}
use tftpserver.Server.Upload.Once.{StoredFor, handle_write_request-StoredFor}
use tftpserver.Server.Upload.Negotiation.{negotiated, deserialize-oack_data}
use tftpserver.Server.Upload.Announced.{IsAnnounced, handle_write_request-IsAnnounced}
use tftpserver.Server.Numbers.{
  skip_spaces, take_sign, digits_value, parse_integer, stoi_of, stoi, stoull, stoull_of,
}
use tftpserver.Tests.{
  same_order, request, request-IsSendable, client, start, acknowledging, sending, storing,
}

no_offset : (i : ℕ) → 0 + i ≡ i
no_offset i = omega arith

acknowledging-Cooperates : Cooperates acknowledging client 0
acknowledging-Cooperates = record {
  sends_all = λ n size. refl;
  acks = λ i timeout_ms. ap (λ j. datagram client (ack_datagram ((1 + j) % 65536))) (no_offset i);
}

handle_read_request-Ended_example :
    Ran start
      (handle_read_request acknowledging same_order client
        (pos 5)
        1000
        (some (codes "hello"))
        start)
      (Ended client 1 (codes "hello"))
handle_read_request-Ended_example =
    handle_read_request-Ended acknowledging same_order client (pos 5) 1000 (codes "hello") start
      (omega arith)

download_completes_example :
    (after : World) × (handle_read_request acknowledging same_order client
        (pos 5)
        1000
        (some (codes "hello"))
        start
      ≡ (returned completed, after))
download_completes_example =
    download_completes acknowledging same_order client (pos 5) 1000 (codes "hello") start
      acknowledging-Cooperates (omega arith)

-- That download, and the world behind it.
pub download_run :
    (after : World) × (handle_read_request acknowledging same_order client
        (pos 5)
        1000
        (some (codes "hello"))
        start
      ≡ (returned completed, after))
download_run =
    download_completes acknowledging same_order client (pos 5) 1000 (codes "hello") start
      acknowledging-Cooperates (omega arith)

download_delivers_example :
    (delivered download_run.0.trace ≡ delivered [] ++ codes "hello") × length (codes "hello") ≤ 1000
download_delivers_example =
    download_delivers acknowledging same_order client (pos 5) 1000 (codes "hello") start
      download_run.0 download_run.1

handle_write_request-Handled_example :
    Ran start
      (handle_write_request sending same_order client
        (pos 5)
        1000
        storing
        (codes "/srv/a.txt")
        request
        start)
      (Handled 1000 storing (codes "/srv/a.txt") request)
handle_write_request-Handled_example =
    handle_write_request-Handled sending same_order client (pos 5) 1000 storing (codes "/srv/a.txt")
      request start

handle_write_request-StoredFor_example :
    Ran start
      (handle_write_request sending same_order client
        (pos 5)
        1000
        storing
        (codes "/srv/a.txt")
        request
        start)
      (StoredFor 1000 storing (codes "/srv/a.txt"))
handle_write_request-StoredFor_example =
    handle_write_request-StoredFor sending same_order client (pos 5) 1000 storing
      (codes "/srv/a.txt") request start

request-options : request.options ≢ []
request-options e = cc

deserialize-oack_data_example :
    (received : TftpPacket) × (deserialize initial_packet (oack_data same_order request.options)
      ≡ (received, true))
    × (received ≡ record initial_packet { op_code = oack; options = received.options })
    × ((k : Bytes) → lookup k received.options ≡ negotiated k (lookup k request.options))
deserialize-oack_data_example =
    deserialize-oack_data same_order initial_packet request request-IsSendable request-options

negotiations :
    (negotiate (codes "blksize") (codes "4") ≡ codes "512")
    × (negotiate (codes "blksize") (codes "1428") ≡ codes "1428")
    × (negotiate (codes "timeout") (codes "many") ≡ codes "6")
unfolding negotiate in_range_or stoi stoi_of parse_integer skip_spaces take_sign digits_value
negotiations = (refl, refl, refl)

request_tsize : stoull (get_option request (codes "tsize")) ≡ some 5
unfolding stoull stoull_of parse_integer skip_spaces take_sign digits_value get_option lookup
request_tsize = refl

request-has_option : has_option request (codes "tsize") ≡ true
unfolding has_option lookup
request-has_option = refl

handle_write_request-IsAnnounced_example :
    Ran start
      (handle_write_request sending same_order client
        (pos 5)
        1000
        storing
        (codes "/srv/a.txt")
        request
        start)
      (λ events end. IsAnnounced 5 (largest_file (stores events)))
handle_write_request-IsAnnounced_example =
    handle_write_request-IsAnnounced sending same_order client (pos 5) 1000 storing
      (codes "/srv/a.txt") request start 5 request-has_option request_tsize

handle_write_request_small_blocks_example :
    Ran start
      (handle_write_request sending same_order client
        (pos 5)
        1000
        storing
        (codes "/srv/a.txt")
        request
        start)
      (λ events end.
        (512 ≤ largest_payload events) ⊎ (largest_file (stores events) ≤ largest_payload events))
handle_write_request_small_blocks_example =
    handle_write_request_small_blocks sending same_order client (pos 5) 1000 storing
      (codes "/srv/a.txt") request start
