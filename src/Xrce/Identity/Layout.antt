-- ===== src/Xrce/Identity/Layout.antt =====
-- The items that stand for the identities of samples, and the bounds that a value meets to be read back.
use micro_xrce_dds_client.Prelude.{◌≡◌, ◌++◌, ◌∷◌, [], List, length}
use micro_xrce_dds_client.Xrce.Cdr.Laws.{Item}
use micro_xrce_dds_client.Xrce.Identity.{GuidPrefix, EntityId, Guid, SequenceNumber, SampleIdentity}

unfoldable pub layout_guid_prefix : GuidPrefix → List Item
layout_guid_prefix x = Item.array x.octets ∷ []

abbrev pub IsValidGuidPrefix : GuidPrefix → Type 0
IsValidGuidPrefix x = length x.octets ≡ 12

unfoldable pub layout_entity_id : EntityId → List Item
layout_entity_id x = Item.array x.entity_key ∷ Item.uint8 x.entity_kind ∷ []

abbrev pub IsValidEntityId : EntityId → Type 0
IsValidEntityId x = length x.entity_key ≡ 3

unfoldable pub layout_guid : Guid → List Item
layout_guid x = layout_guid_prefix x.guid_prefix ++ layout_entity_id x.entity_id

abbrev pub IsValidGuid : Guid → Type 0
IsValidGuid x = (IsValidGuidPrefix x.guid_prefix) × (IsValidEntityId x.entity_id)

unfoldable pub layout_sequence_number : SequenceNumber → List Item
layout_sequence_number x = Item.int32 x.high ∷ Item.uint32 x.low ∷ []

unfoldable pub layout_sample_identity : SampleIdentity → List Item
layout_sample_identity x = layout_guid x.writer_guid ++ layout_sequence_number x.sequence_number

abbrev pub IsValidSampleIdentity : SampleIdentity → Type 0
IsValidSampleIdentity x = IsValidGuid x.writer_guid
