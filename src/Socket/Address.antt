-- ===== src/Socket/Address.antt =====
-- src/tftp_socket.cpp: SocketAddress. The conversions of the byte order and of the text of an address
-- are the platform's and parameters.
use tftpserver.Prelude.{
  ℕ, ◌≡◌, refl, sym, ◌∙◌, Bool, true, false, ◌||◌, Option, none, some, Bytes, codes, bytes_eq,
  bytes_eq_iff, is_empty, [], ◌∷◌, ◌⊎◌, Bool-cases, inl, inr, if◌then◌else◌,
}

pub record Platform : Type 0 where
  pub htons : ℕ → ℕ
  pub ntohs : ℕ → ℕ
  pub htonl : ℕ → ℕ
  -- `none` where the text is no address
  pub inet_pton : Bytes → Option ℕ
  pub inet_ntop : ℕ → Option Bytes

-- A `sockaddr_in`, in the byte order of the network.
pub record SocketAddress : Type 0 where
  pub sin_port : ℕ
  pub sin_addr : ℕ

-- An object holds its address by a pointer, which is null behind a move from the object.
abbrev pub AddressObject : Type 0
AddressObject = Option SocketAddress

-- The copy constructor. `none` is the use of a null pointer, here and below.
abbrev pub copy_address : AddressObject → Option AddressObject
copy_address none = none
copy_address (some a) = some (some a)

-- The move constructor: the new object, and the one that was moved from.
abbrev pub move_address : AddressObject → AddressObject × AddressObject
move_address other = (other, none)

-- The copy assignment between two objects.
abbrev pub copy_assign_address : AddressObject → AddressObject → Option AddressObject
copy_assign_address none other = none
copy_assign_address (some a) none = none
copy_assign_address (some a) (some b) = some (some b)

-- The move assignment between two objects: this one, and the one that was moved from.
abbrev pub move_assign_address : AddressObject → AddressObject → AddressObject × AddressObject
move_assign_address this other = (other, none)

abbrev pub or_else : {A : Type 0} → A → Option A → A
or_else a none = a
or_else a (some b) = b

module _ (platform : Platform) where
  -- INADDR_ANY
  abbrev pub any_address : ℕ
  any_address = platform.htonl 0

  unfoldable pub initial_address : SocketAddress
  initial_address = record { sin_port = platform.htons 0; sin_addr = any_address }

  unfoldable pub set_address : Bytes → ℕ → SocketAddress → SocketAddress
  set_address ip port a =
      let parsed : ℕ = or_else any_address (platform.inet_pton ip) in
      record a {
        sin_port = platform.htons port;
        sin_addr = if is_empty ip || bytes_eq ip (codes "0.0.0.0") then any_address else parsed;
      }

  -- The constructor with a text and a port.
  abbrev pub make_address : Bytes → ℕ → AddressObject
  make_address ip port = some (set_address ip port initial_address)

  unfoldable pub get_port : SocketAddress → ℕ
  get_port a = platform.ntohs a.sin_port

  unfoldable pub get_ip : SocketAddress → Bytes
  get_ip a = or_else (codes "0.0.0.0") (platform.inet_ntop a.sin_addr)

  module _ (ip : Bytes) (port : ℕ) (port_back : platform.ntohs (platform.htons port) ≡ port)
      (any_text : platform.inet_ntop any_address ≡ some (codes "0.0.0.0"))
      (text_back : (address : ℕ)
        → platform.inet_pton ip ≡ some address
        → platform.inet_ntop address ≡ some ip) where
    parsed_ip :
        (o : Option ℕ)
        → platform.inet_pton ip ≡ o
        → (a : SocketAddress) → is_empty ip || bytes_eq ip (codes "0.0.0.0") ≡ false
        → (get_ip (set_address ip port a) ≡ ip)
          ⊎ ((get_ip (set_address ip port a) ≡ codes "0.0.0.0")
              × ((ip ≡ []) ⊎ (platform.inet_pton ip ≡ none)))
    unfolding get_ip set_address
    parsed_ip none e a other = inr (rw (other, e, any_text) refl, inr e)
    parsed_ip (some address) e a other = inl (rw (other, e, text_back address e) refl)

    any_ip :
        (a : SocketAddress)
        → is_empty ip || bytes_eq ip (codes "0.0.0.0") ≡ true
        → get_ip (set_address ip port a) ≡ codes "0.0.0.0"
    unfolding get_ip set_address
    any_ip a e = rw (e, any_text) refl

    is_any :
        is_empty ip || bytes_eq ip (codes "0.0.0.0") ≡ true → (ip ≡ []) ⊎ (ip ≡ codes "0.0.0.0")
    is_any e = elim (Bool-cases (is_empty ip)) [
      | inl empty ↦ inl (no_bytes ip empty)
      | inr full ↦ inr ((bytes_eq_iff ip (codes "0.0.0.0")).0 (second full e))
    ]
      where
        no_bytes : (s : Bytes) → is_empty s ≡ true → s ≡ []
        no_bytes [] h = refl
        no_bytes (c ∷ s) h = cc

        second : {b c : Bool} → b ≡ false → b || c ≡ true → c ≡ true
        second {b = true} h e = cc
        second {b = false} h e = e

    -- When `ntohs` undoes `htons` on the port, INADDR_ANY reads 0.0.0.0, and the text, if it is an
    -- address, is the one that `inet_ntop` writes for it: behind Set, whatever the address was, GetPort
    -- gives the port back, and GetIP gives the text back, or 0.0.0.0 where the text is empty or no
    -- address.
    pub get-set_address :
        (a : SocketAddress)
        → (get_port (set_address ip port a) ≡ port)
          × ((get_ip (set_address ip port a) ≡ ip)
              ⊎ ((get_ip (set_address ip port a) ≡ codes "0.0.0.0")
                  × ((ip ≡ []) ⊎ (platform.inet_pton ip ≡ none))))
    unfolding get_port set_address
    get-set_address a = (
      port_back,
      elim (Bool-cases (is_empty ip || bytes_eq ip (codes "0.0.0.0"))) [
        | inr other ↦ parsed_ip (platform.inet_pton ip) refl a other
        | inl any ↦ elim (is_any any) [
          | inl empty ↦ inr (any_ip a any, inl empty)
          | inr zeros ↦ inl (any_ip a any ∙ sym zeros)
        ]
      ],
    )
