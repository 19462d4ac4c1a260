-- ===== src/Client/Refusing.antt =====
-- What the stubs of TftpClient answer, and the ranges that its setters keep.
use tftpserver.Prelude.{
  ℕ, ◌≤◌, ◌≡◌, ◌≢◌, ◌⊎◌, inl, inr, refl, ◌∙◌, true, false, List, [], ◌∷◌, Bytes, codes, Bool-cases,
  arith,
}
use tftpserver.Prelude.Int.{pos}
use tftpserver.Common.{TransferMode, net_ascii, octet, mail}
use tftpserver.Validation.{
  validate_host, validate_filename, validate_port, validate_data_buffer, validate_timeout,
  validate_transfer_mode, max_transfer_size,
}
use tftpserver.Validation.Accepted.{IsFilename, validate_filename_iff}
use tftpserver.Server.Settings.{validate_timeout_range}
use tftpserver.Client.{
  TftpClient, initial_client, download_file, upload_file, set_timeout, set_transfer_mode,
  ClientCall, download, upload, timeout, mode, perform, perform_all,
}

-- A client with the settings of before, whose last error is no longer the initial text.
abbrev pub HasFailed : TftpClient → TftpClient → Type 0
HasFailed c c' =
    (c'.timeout_seconds ≡ c.timeout_seconds)
    × (c'.transfer_mode ≡ c.transfer_mode)
    × (c'.last_error ≢ codes "No error")

module _ (to_string : ℕ → Bytes) (host filename buffer : Bytes) (port : ℕ) (c : TftpClient) where
  upload_file-HasFailed :
      ((upload_file to_string host filename buffer port c).0 ≡ false)
      × HasFailed c (upload_file to_string host filename buffer port c).1
  unfolding upload_file
  upload_file-HasFailed = elim (Bool-cases (validate_host host)) [
    | inr bad ↦ rw bad (refl, (refl, refl, λ e. cc))
    | inl h ↦ elim (Bool-cases (validate_filename filename)) [
      | inr bad ↦ rw (h, bad) (refl, (refl, refl, λ e. cc))
      | inl f ↦ elim (Bool-cases (validate_port port)) [
        | inr bad ↦ rw (h, f, bad) (refl, (refl, refl, λ e. cc))
        | inl p ↦ elim (Bool-cases (validate_data_buffer buffer max_transfer_size)) [
          | inr bad ↦ rw (h, f, p, bad) (refl, (refl, refl, λ e. cc))
          | inl d ↦ rw (h, f, p, d) (refl, (refl, refl, λ e. cc))
        ]
      ]
    ]
  ]

  port-nonzero : validate_port port ≡ true → port ≢ 0
  unfolding validate_port
  port-nonzero h e = ground (arith, h, e)

  download_file-HasFailed :
      let (result, buffer', c') = download_file to_string host filename buffer port c in
      (result ≡ false)
      × HasFailed c c'
      × ((buffer' ≡ buffer)
          ⊎ ((buffer' ≡ []) × (validate_host host ≡ true) × IsFilename filename × (port ≢ 0)))
  unfolding download_file
  download_file-HasFailed = elim (Bool-cases (validate_host host)) [
    | inr bad ↦ rw bad (refl, (refl, refl, λ e. cc), inl refl)
    | inl h ↦ elim (Bool-cases (validate_filename filename)) [
      | inr bad ↦ rw (h, bad) (refl, (refl, refl, λ e. cc), inl refl)
      | inl f ↦ elim (Bool-cases (validate_port port)) [
        | inr bad ↦ rw (h, f, bad) (refl, (refl, refl, λ e. cc), inl refl)
        | inl p ↦
            let name = (validate_filename_iff filename).0 f in
            let nonzero = port-nonzero p in
            rw (h, f, p) (refl, (refl, refl, λ e. cc), inr (refl, refl, name, nonzero))
      ]
    ]
  ]

  -- With any parameters and settings: DownloadFile and UploadFile return false and leave the settings
  -- as they are, and the last error is another than that of a new client. DownloadFile leaves the
  -- buffer alone, or empties it when the host, the file name and the port are all accepted.
  pub transfers_fail :
      let (downloaded, buffer', c') = download_file to_string host filename buffer port c in
      let (uploaded, c'') = upload_file to_string host filename buffer port c in
      (downloaded ≡ false)
      × (uploaded ≡ false)
      × HasFailed c c'
      × HasFailed c c''
      × ((buffer' ≡ buffer)
          ⊎ ((buffer' ≡ []) × (validate_host host ≡ true) × IsFilename filename × (port ≢ 0)))
  transfers_fail =
      let (result, failed, rest) = download_file-HasFailed in
      let (result', failed') = upload_file-HasFailed in (result, result', failed, failed', rest)

-- The timeout is between 1 second and 1 hour, and the mode is one of the three.
pub record IsClient (c : TftpClient) : Type 0 where
  pub seconds : ℕ
  pub timeout_is : c.timeout_seconds ≡ pos seconds
  pub seconds_low : 1 ≤ seconds
  pub seconds_high : seconds ≤ 3600
  pub named : (c.transfer_mode ≡ net_ascii) ⊎ ((c.transfer_mode ≡ octet) ⊎ (c.transfer_mode ≡ mail))

same-IsClient :
    (c c' : TftpClient)
    → c'.timeout_seconds ≡ c.timeout_seconds
    → c'.transfer_mode ≡ c.transfer_mode
    → IsClient c
    → IsClient c'
same-IsClient c c' t m i = record {
  seconds = i.seconds;
  timeout_is = t ∙ i.timeout_is;
  seconds_low = i.seconds_low;
  seconds_high = i.seconds_high;
  named = rw m i.named;
}

validate_transfer_mode-named :
    (m : TransferMode)
    → validate_transfer_mode m ≡ true
    → (m ≡ net_ascii) ⊎ ((m ≡ octet) ⊎ (m ≡ mail))
unfolding validate_transfer_mode
validate_transfer_mode-named net_ascii h = inl refl
validate_transfer_mode-named octet h = inr (inl refl)
validate_transfer_mode-named mail h = inr (inr refl)
validate_transfer_mode-named (TransferMode.unnamed n) h = cc

perform-IsClient :
    (to_string : ℕ → Bytes) (call : ClientCall) (c : TftpClient)
    → IsClient c
    → IsClient (perform to_string call c)
unfolding perform set_timeout set_transfer_mode
perform-IsClient to_string (download host filename buffer port) c i =
    let (result, failed, rest) = download_file-HasFailed to_string host filename buffer port c in
    same-IsClient c _ failed.0 failed.1 i
perform-IsClient to_string (upload host filename buffer port) c i =
    let (result, failed) = upload_file-HasFailed to_string host filename buffer port c in
    same-IsClient c _ failed.0 failed.1 i
perform-IsClient to_string (timeout seconds) c i = elim (Bool-cases (validate_timeout seconds)) [
  | inr refused ↦ rw refused i
  | inl good ↦
      let (n, same, low, high) = validate_timeout_range seconds good in
      rw good (record {
        seconds = n;
        timeout_is = same;
        seconds_low = low;
        seconds_high = high;
        named = i.named;
      })
]
perform-IsClient to_string (mode m) c i = elim (Bool-cases (validate_transfer_mode m)) [
  | inr refused ↦ rw refused i
  | inl good ↦
      let named = validate_transfer_mode-named m good in
      rw good (record {
        seconds = i.seconds;
        timeout_is = i.timeout_is;
        seconds_low = i.seconds_low;
        seconds_high = i.seconds_high;
        named = named;
      })
]

performed-IsClient :
    (to_string : ℕ → Bytes) (calls : List ClientCall) (c : TftpClient)
    → IsClient c
    → IsClient (perform_all to_string calls c)
unfolding perform_all
performed-IsClient to_string [] c i = i
performed-IsClient to_string (call ∷ calls) c i =
    performed-IsClient to_string calls (perform to_string call c)
      (perform-IsClient to_string call c i)

-- Whatever members of a new client are called, with whatever values: its timeout stays between 1
-- second and 1 hour, and its mode is one of the three that have names.
pub perform_all-IsClient :
    (to_string : ℕ → Bytes) (calls : List ClientCall)
    → IsClient (perform_all to_string calls initial_client)
unfolding initial_client
perform_all-IsClient to_string calls = performed-IsClient to_string calls initial_client (record {
  seconds = 5;
  timeout_is = refl;
  seconds_low = omega arith;
  seconds_high = omega arith;
  named = inr (inl refl);
})
