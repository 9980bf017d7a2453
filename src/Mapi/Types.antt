-- ===== src/Mapi/Types.antt =====
-- The types of src/mapi_attr.h.
use Prim.Native.Nat.{bit_and}
use tnef.Prelude.{ℕ, Bool, not, List, Option, ◌==◌}
use tnef.Util.{Bytes}

-- MULTI_VALUE_FLAG and GUID_EXISTS_FLAG of src/mapi_attr.h, as the tests that the code makes.
abbrev pub multi_value : ℕ → Bool
multi_value type = not (bit_and type 0x1000 == 0)

abbrev pub guid_exists : ℕ → Bool
guid_exists name = not (bit_and name 0x8000 == 0)

pub record Guid : Type 0 where
  pub data1 : ℕ
  pub data2 : ℕ
  pub data3 : ℕ
  pub data4 : Bytes

-- The union `data` of a `MAPI_Value`; `cleared` is what `calloc` left there. `block` is
-- what `buf` points to, with its terminating 0.
pub data Content : Type 0 where
  cleared : Content
  bytes2 : ℕ → Content
  bytes4 : ℕ → Content
  bytes8 : ℕ → ℕ → Content
  clsid : Guid → Content
  block : Bytes → Content

pub record MapiValue : Type 0 where
  pub len : ℕ
  pub content : Content

pub record VarLenData : Type 0 where
  pub len : ℕ
  pub bytes : Bytes

-- `num_names` is the length of `names`.
pub record MapiAttr : Type 0 where
  pub type : ℕ
  pub name : ℕ
  pub num_values : ℕ
  pub values : List MapiValue
  pub guid : Option Guid
  pub names : List VarLenData

abbrev pub sizeof_mapi_attr : ℕ
sizeof_mapi_attr = 48

abbrev pub sizeof_mapi_value : ℕ
sizeof_mapi_value = 24
