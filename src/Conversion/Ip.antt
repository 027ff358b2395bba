-- ===== src/Conversion/Ip.antt =====
-- utils/utils.go: IPv4 addresses as numbers of 32 bits.
pub mod Octets
use jaeger_client_go.Base.{
  ℕ, ◌+◌, ◌-◌, ◌*◌, ◌/◌, ◌%◌, ◌^◌, bit_or, ◌==◌, not, Bool, true, false, if◌then◌else◌, List, [],
  ◌∷◌, Option, none, some, Bytes, codes, bytes_eq, length,
}
use jaeger_client_go.Base.Integers.{ℤ, pos, negsuc}
use jaeger_client_go.SpanContext.Hex.{split, parse_uint}

pub data IpError : Type 0 where
  empty_ip not_four_octets not_a_number : IpError

pub data IpResult : Type 0 where
  ip_ok : ℕ → IpResult
  ip_err : IpError → IpResult

-- `uint32(octet)` of an int
unfoldable pub to_uint32 : ℤ → ℕ
to_uint32 (pos n) = n % 2 ^ 32
to_uint32 (negsuc n) = (2 ^ 32 - 1) - n % 2 ^ 32

-- `(intIP << 8) | octet`
unfoldable pub shift_in : ℕ → ℕ → ℕ
shift_in int_ip octet = bit_or ((int_ip * 2 ^ 8) % 2 ^ 32) octet

-- `strconv.Atoi` is the library's.
module _ (atoi : Bytes → Option ℤ) where
  unfoldable pub parse_octets : ℕ → List Bytes → IpResult
  parse_octets int_ip [] = ip_ok int_ip
  parse_octets int_ip (octet ∷ octets) = elim (atoi octet) [
    | none ↦ ip_err not_a_number
    | some n ↦ parse_octets (shift_in int_ip (to_uint32 n)) octets
  ]

  unfoldable pub parse_ip_to_uint32 : Bytes → IpResult
  parse_ip_to_uint32 ip =
      if bytes_eq ip []
      then ip_err empty_ip
      else if bytes_eq ip (codes "localhost")
      then ip_ok 2130706433
      else let octets = split ip b'.' in
        if not (length octets == 4) then ip_err not_four_octets else parse_octets 0 octets

-- `ParsePort`
unfoldable pub parse_port : Bytes → Option ℕ
parse_port port_string = parse_uint port_string 10 16

-- `PackIPAsUint32`, for an address that `To4` gives as four bytes or as nil
unfoldable pub pack_ip_as_uint32 : Option Bytes → ℕ
pack_ip_as_uint32 none = 0
pack_ip_as_uint32 (some (a ∷ b ∷ c ∷ d ∷ _)) = ((a * 2 ^ 8 + b) * 2 ^ 8 + c) * 2 ^ 8 + d
pack_ip_as_uint32 (some _) = 0
