-- ===== src/Contract/Payload.antt =====
-- The contract, version 1: src/shared/operation_contract/payload.py. A `Literal` of the source is a
-- data type with the text that it stands for.
use g3_voicestock.Base.{Option, List, Text, str, ℤ}

pub data Operation : Type 0 where
  add_stock remove_stock : Operation

pub data StockUnit : Type 0 where
  unit : StockUnit

abbrev pub operation_text : Operation → Text
operation_text add_stock = str "add_stock"
operation_text remove_stock = str "remove_stock"

abbrev pub unit_text : StockUnit → Text
unit_text unit = str "unit"

-- `ContractVersion`, the literal "1".
pub data ContractVersion : Type 0 where
  version_1 : ContractVersion

abbrev pub version_text : ContractVersion → Text
version_text version_1 = str "1"

-- `CONTRACT_VERSION`
abbrev pub contract_version_1 : Text
contract_version_1 = version_text version_1

pub record ProductDescription : Type 0 where
  pub name : Text
  pub brand : Option Text
  pub variant : Option Text
  pub presentation : Option Text

pub record OperationItem : Type 0 where
  pub operation : Operation
  pub product : ProductDescription
  pub quantity : ℤ
  pub unit : StockUnit

pub record ContractPayload : Type 0 where
  pub contract_version : ContractVersion
  pub operations : List OperationItem
