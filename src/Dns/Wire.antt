-- ===== src/Dns/Wire.antt =====
-- What the program reads of golang.org/x/net/dns/dnsmessage: headers, questions and resources as
-- plain values, and the parser as the answers that it gives. The package is a parameter of the
-- model. Numbers are those of the DNS registries.
use reachrun.Prelude.{ℕ, Bool, Option, List, Bytes}

pub record Header : Type 0 where
  pub id : ℕ
  pub response : Bool
  pub op_code : ℕ
  pub authoritative : Bool
  pub truncated : Bool
  pub recursion_desired : Bool
  pub recursion_available : Bool
  pub authentic_data : Bool
  pub checking_disabled : Bool
  pub rcode : ℕ

-- A name is the result of its `String` method.
pub record Question : Type 0 where
  pub name : Bytes
  pub type : ℕ
  pub class : ℕ

pub record Param : Type 0 where
  pub key : ℕ
  pub value : Bytes

-- `AResource` and the others that the program tells apart, and all the rest.
pub data Body : Type 0 where
  a : Bytes → Body
  aaaa : Bytes → Body
  cname : Bytes → Body
  svcb : ℕ → Bytes → List Param → Body
  https : ℕ → Bytes → List Param → Body
  soa : Bytes → Bytes → ℕ → ℕ → ℕ → ℕ → ℕ → Body
  ns : Bytes → Body
  other : Body

pub record Resource : Type 0 where
  pub name : Bytes
  pub type : ℕ
  pub class : ℕ
  pub ttl : ℕ
  pub body : Body

-- What a call of `Question`, `Answer`, `Authority` or `Additional` returns: `section_done` is
-- `ErrSectionDone`, and `failed` any other error.
pub data Next (A : Type 0) : Type 0 where
  item : A → Next A
  section_done failed : Next A

-- `Parser` on one message: `Start`, and the k-th call for each section.
pub record Parser : Type 0 where
  pub start : Option Header
  pub question : ℕ → Next Question
  pub answer : ℕ → Next Resource
  pub authority : ℕ → Next Resource
  pub additional : ℕ → Next Resource

abbrev pub class_inet : ℕ
class_inet = 1

abbrev pub type_opt : ℕ
type_opt = 41

abbrev pub rcode_success : ℕ
rcode_success = 0

abbrev pub rcode_name_error : ℕ
rcode_name_error = 3
