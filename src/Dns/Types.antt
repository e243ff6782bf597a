-- ===== src/Dns/Types.antt =====
-- The evidence types of internal/dnsobservation/observation.go. A pointer is an `Option`, a `string`
-- its bytes, and a string type with constants a data type; `unsupported` holds any other value.
use reachrun.Prelude.{
  ℕ, Bool, true, false, Option, List, ◌≡◌, ◌↔◌, arith, Bytes, bytes_eq, bytes_eq_iff,
}

pub data QueryType : Type 0 where
  a aaaa cname svcb https : QueryType
  unsupported : Bytes → QueryType

-- `==` of two query types.
unfoldable pub query_type_eq : QueryType → QueryType → Bool
query_type_eq a a = true
query_type_eq aaaa aaaa = true
query_type_eq cname cname = true
query_type_eq svcb svcb = true
query_type_eq https https = true
query_type_eq (unsupported s) (unsupported t) = bytes_eq s t
query_type_eq _ _ = false

pub query_type_eq_iff : (q r : QueryType) → (query_type_eq q r ≡ true) ↔ (q ≡ r)
unfolding query_type_eq
query_type_eq_iff (unsupported s) (unsupported t) = ground (arith, bytes_eq_iff s t)
query_type_eq_iff a a = ground arith
query_type_eq_iff _ _ = ground arith

pub data Transport : Type 0 where
  udp tcp doh : Transport
  unsupported : Bytes → Transport

pub data AnswerKind : Type 0 where
  answer no_data name_error referral rcode_error incomplete : AnswerKind

pub data IpFamily : Type 0 where
  none ipv4 ipv6 : IpFamily

pub data BindingMode : Type 0 where
  alias service : BindingMode

pub record ResponseCode : Type 0 where
  pub code : ℕ
  pub name : Bytes

pub record ResponseFlags : Type 0 where
  pub authoritative : Bool
  pub truncated : Bool
  pub recursion_desired : Bool
  pub recursion_available : Bool
  pub authenticated_data : Bool
  pub checking_disabled : Bool

pub record ServiceParameter : Type 0 where
  pub key : ℕ
  pub name : Bytes
  pub value_hex : Bytes

-- `params_nil` is whether the slice is nil, which the checks tell from an empty one.
pub record ServiceBinding : Type 0 where
  pub priority : ℕ
  pub target : Bytes
  pub mode : BindingMode
  pub params : List ServiceParameter
  pub params_nil : Bool

pub record Record : Type 0 where
  pub name : Bytes
  pub type : QueryType
  pub ttl : ℕ
  pub address : Bytes
  pub family : IpFamily
  pub target : Bytes
  pub service : Option ServiceBinding

pub record SoaRecord : Type 0 where
  pub name : Bytes
  pub ttl : ℕ
  pub ns : Bytes
  pub mailbox : Bytes
  pub serial : ℕ
  pub refresh : ℕ
  pub retry : ℕ
  pub expire : ℕ
  pub min_ttl : ℕ

pub record NsRecord : Type 0 where
  pub name : Bytes
  pub ttl : ℕ
  pub target : Bytes

pub record Evidence : Type 0 where
  pub rcode : ResponseCode
  pub flags : ResponseFlags
  pub answer_kind : AnswerKind
  pub effective_name : Bytes
  pub records : List Record
  pub negative_soa : Option SoaRecord
  pub authority_ns : List NsRecord
  pub response_bytes : ℕ
  pub remote_endpoint : Bytes
  pub doh_status : ℕ

pub record ResolverInput : Type 0 where
  pub id : Bytes
  pub endpoint : Bytes

pub record Input : Type 0 where
  pub hostname : Bytes
  pub query_type : QueryType
  pub class : Bytes
  pub resolver : ResolverInput
  pub transport : Transport

abbrev pub max_dns_message_bytes : ℕ
max_dns_message_bytes = 65535

abbrev pub max_response_records : ℕ
max_response_records = 128
