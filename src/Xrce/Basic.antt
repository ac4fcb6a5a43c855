-- ===== src/Xrce/Basic.antt =====
-- xrce_types.h: times, sequences and identifiers.
pub mod Serialize
pub mod Deserialize
pub mod Layout
pub mod Codec
use micro_xrce_dds_client.Prelude.{ℕ, List}
use micro_xrce_dds_client.Prelude.Int.{ℤ}

abbrev pub uxr_binary_sequence_max : ℕ
uxr_binary_sequence_max = 512

abbrev pub uxr_string_sequence_max : ℕ
uxr_string_sequence_max = 8

abbrev pub uxr_string_size_max : ℕ
uxr_string_size_max = 512

pub record Time : Type 0 where
  pub seconds : ℤ
  pub nanoseconds : ℕ

abbrev pub BinarySequence : Type 0
BinarySequence = List ℕ

abbrev pub StringSequence : Type 0
StringSequence = List (List ℕ)

pub record ClientKey : Type 0 where
  pub octets : List ℕ

pub record ObjectId : Type 0 where
  pub octets : List ℕ

pub record ObjectPrefix : Type 0 where
  pub octets : List ℕ

pub record XrceCookie : Type 0 where
  pub octets : List ℕ

pub record XrceVersion : Type 0 where
  pub octets : List ℕ

pub record XrceVendorId : Type 0 where
  pub octets : List ℕ
