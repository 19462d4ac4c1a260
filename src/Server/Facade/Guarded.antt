-- ===== src/Server/Facade/Guarded.antt =====
-- A server as it is made and set up, and what it stores.
use tftpserver.Prelude.{
  ℕ, ◌≡◌, refl, sym, subst, ◌∙◌, Bool, true, false, not, ◌&&◌, List, [], ◌∷◌, ◌++◌, Option, none,
  some, Bytes, NoNul, All-append, is_empty, Bool-cases, inl, inr, arith,
}
use tftpserver.Prelude.Search.{contains_char_iff}
use tftpserver.Validation.{
  validate_root_directory, validate_port, validate_transfer_size, validate_timeout,
}
use tftpserver.Options.{HashOrder}
use tftpserver.Path.{FileSystem, ends_with}
use tftpserver.Server.{Address, Net, World}
use tftpserver.Server.Client.{Config, initial_root_dir}
use tftpserver.Server.Client.Confined.{Confined, handle_client-Confined}
use tftpserver.Server.Settings.{
  Setting, secure_mode, max_size, timeout, set, set_secure_mode, set_max_transfer_size, set_timeout,
  kept, configure, initial_config, IsConfig, set-IsConfig, initial_config-IsConfig,
}
use tftpserver.Server.Facade.{
  TftpServer, ReadCallback, WriteCallback, make_server, ServerCall, setting, read_callback,
  write_callback, with_config, call_server, kept_server, call_all, handle_first,
}

ends_with-append : (s : Bytes) → ends_with b'/' (s ++ b'/' ∷ []) ≡ true
ends_with-append [] = refl
ends_with-append (c ∷ []) = refl
ends_with-append (c ∷ d ∷ s) = ends_with-append (d ∷ s)

-- The constructor's directory ends with a slash and has no NUL.
initial_root_dir-slash :
    (root_dir : Bytes)
    → is_empty root_dir ≡ false
    → ends_with b'\\' root_dir ≡ false
    → ends_with b'/' (initial_root_dir root_dir) ≡ true
unfolding initial_root_dir
initial_root_dir-slash root_dir filled no_backslash = elim (Bool-cases (ends_with b'/' root_dir)) [
  | inl slash ↦ rw (filled, slash) slash
  | inr no_slash ↦ rw (filled, no_slash, no_backslash) (ends_with-append root_dir)
]

initial_root_dir-NoNul : (root_dir : Bytes) → NoNul root_dir → NoNul (initial_root_dir root_dir)
unfolding initial_root_dir
initial_root_dir-NoNul root_dir clean =
    elim (Bool-cases (
      not (is_empty root_dir)
      && (not (ends_with b'/' root_dir) && not (ends_with b'\\' root_dir)))) [
        | inl appended ↦ rw appended (All-append _ root_dir (b'/' ∷ []) clean (λ e. cc, tt))
        | inr kept ↦ rw kept clean
      ]

-- What the constructor has checked.
record Accepted (root_dir : Bytes) : Type 0 where
  filled : is_empty root_dir ≡ false
  clean : NoNul root_dir

validate_root_directory-Accepted :
    (lexically_normal : Bytes → Option Bytes) (root_dir : Bytes)
    → validate_root_directory lexically_normal root_dir ≡ true
    → Accepted root_dir
unfolding validate_root_directory
validate_root_directory-Accepted lexically_normal [] h = cc
validate_root_directory-Accepted lexically_normal (c ∷ s) h = record {
  filled = refl;
  clean = (contains_char_iff (c ∷ s)).0 (ground (arith, h));
}

-- The directory of the constructor, and limits in their ranges.
record IsServer (root_dir : Bytes) (s : TftpServer) : Type 0 where
  same_root : s.config.root_dir ≡ initial_root_dir root_dir
  ranges : IsConfig s.config

set-root_dir :
    (changed : Setting) (config : Config)
    → (kept config (set changed config)).root_dir ≡ config.root_dir
unfolding set kept set_secure_mode set_max_transfer_size set_timeout
set-root_dir (secure_mode secure) config = refl
set-root_dir (max_size size) config = elim (Bool-cases (validate_transfer_size size)) [
  | inl good ↦ rw good refl
  | inr bad ↦ rw bad refl
]
set-root_dir (timeout seconds) config = elim (Bool-cases (validate_timeout seconds)) [
  | inl good ↦ rw good refl
  | inr bad ↦ rw bad refl
]

with_config-IsServer :
    (root_dir : Bytes) (s : TftpServer) (o : Option Config)
    → (kept s.config o).root_dir ≡ initial_root_dir root_dir
    → IsConfig (kept s.config o)
    → IsServer root_dir (kept_server s (with_config s o))
unfolding kept
with_config-IsServer root_dir s none root ranges = record { same_root = root; ranges = ranges }
with_config-IsServer root_dir s (some config) root ranges = record {
  same_root = root;
  ranges = ranges;
}

call_server-IsServer :
    (root_dir : Bytes) (c : ServerCall) (s : TftpServer)
    → IsServer root_dir s
    → IsServer root_dir (kept_server s (call_server c s))
unfolding call_server
call_server-IsServer root_dir (setting changed) s i =
    with_config-IsServer root_dir s (set changed s.config)
      (set-root_dir changed s.config ∙ i.same_root) (set-IsConfig changed s.config i.ranges)
call_server-IsServer root_dir (read_callback none) s i = i
call_server-IsServer root_dir (read_callback (some callback)) s i = record {
  same_root = i.same_root;
  ranges = i.ranges;
}
call_server-IsServer root_dir (write_callback none) s i = i
call_server-IsServer root_dir (write_callback (some callback)) s i = record {
  same_root = i.same_root;
  ranges = i.ranges;
}

call_all-IsServer :
    (root_dir : Bytes) (cs : List ServerCall) (s : TftpServer)
    → IsServer root_dir s
    → IsServer root_dir (call_all cs s)
unfolding call_all
call_all-IsServer root_dir [] s i = i
call_all-IsServer root_dir (c ∷ cs) s i =
    call_all-IsServer root_dir cs (kept_server s (call_server c s))
      (call_server-IsServer root_dir c s i)

initial_config-root_dir :
    (root_dir : Bytes) → (initial_config root_dir).root_dir ≡ initial_root_dir root_dir
unfolding initial_config
initial_config-root_dir root_dir = refl

initial_ranges : (root_dir : Bytes) → IsConfig (initial_config root_dir)
unfolding configure
initial_ranges root_dir = initial_config-IsConfig root_dir []

module _ (lexically_normal : Bytes → Option Bytes) (default_read : ReadCallback)
    (default_write : WriteCallback) (root_dir : Bytes) (port : ℕ) where
  abbrev Made : Option TftpServer → Type 0
  Made none = Unit
  Made (some s) = IsServer root_dir s × Accepted root_dir

  make_server-Made : Made (make_server lexically_normal default_read default_write root_dir port)
  unfolding make_server
  make_server-Made = elim (Bool-cases (validate_root_directory lexically_normal root_dir)) [
    | inr bad ↦ rw bad tt
    | inl good ↦ elim (Bool-cases (validate_port port)) [
      | inr bad ↦ rw (good, bad) tt
      | inl open_port ↦
          let accepted = validate_root_directory-Accepted lexically_normal root_dir good in
          rw (good, open_port)
            (
              record {
                same_root = initial_config-root_dir root_dir;
                ranges = initial_ranges root_dir;
              },
              accepted,
            )
    ]
  ]

  make_server-IsServer :
      (s : TftpServer)
      → make_server lexically_normal default_read default_write root_dir port ≡ some s
      → IsServer root_dir s × Accepted root_dir
  make_server-IsServer s e = subst Made e make_server-Made

  module _ (net : Net) (h : HashOrder) (fs : FileSystem) (client : Address) where
    -- For a server that the constructor accepts, with an absolute root directory that does not end with
    -- a backslash, behind any calls of the setters that leave it in secure mode, and whatever the
    -- first datagram and the network are: HandleClient calls the write callback at most once, with a
    -- path below the root directory and data within the limit.
    pub make_server-Confined :
        (s : TftpServer) (cs : List ServerCall) (opens binds : Bool) (first : Bytes) (w : World)
        → make_server lexically_normal default_read default_write root_dir port ≡ some s
        → (call_all cs s).config.secure_mode ≡ true
        → ends_with b'\\' root_dir ≡ false
        → fs.absolute (initial_root_dir root_dir) ≡ some (initial_root_dir root_dir)
        → Confined fs
            (call_all cs s).config
            w
            (handle_first net h fs (call_all cs s) client opens binds first w).1
    unfolding handle_first
    make_server-Confined s cs opens binds first w made secure no_backslash absolute =
        let (i, accepted) = make_server-IsServer s made in
        let root = (call_all-IsServer root_dir cs s i).same_root in
        let t = call_all cs s in
        handle_client-Confined net h fs t.config t.read_callback t.write_callback client opens binds
          first w secure (subst (λ r. fs.absolute r ≡ some r) (sym root) absolute)
          (subst (λ r. ends_with b'/' r ≡ true) (sym root)
            (initial_root_dir-slash root_dir accepted.filled no_backslash))
          (subst NoNul (sym root) (initial_root_dir-NoNul root_dir accepted.clean))
