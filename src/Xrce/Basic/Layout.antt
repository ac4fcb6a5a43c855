-- ===== src/Xrce/Basic/Layout.antt =====
-- The items that stand for the times, sequences and identifiers, and the bounds that a value meets to be read back.
use micro_xrce_dds_client.Prelude.{◌≡◌, ◌∷◌, [], List, All, length, ◌≤◌, ◌<◌}
use micro_xrce_dds_client.Xrce.Cdr.Laws.{Item, layout_sequence}
use micro_xrce_dds_client.Xrce.Basic.{
  uxr_binary_sequence_max, uxr_string_sequence_max, uxr_string_size_max, Time, BinarySequence,
  StringSequence, ClientKey, ObjectId, ObjectPrefix, XrceCookie, XrceVersion, XrceVendorId,
}

unfoldable pub layout_time : Time → List Item
layout_time x = Item.int32 x.seconds ∷ Item.uint32 x.nanoseconds ∷ []

unfoldable pub layout_binary_sequence : BinarySequence → List Item
layout_binary_sequence x = Item.sequence x ∷ []

abbrev pub IsValidBinarySequence : BinarySequence → Type 0
IsValidBinarySequence x = length x ≤ uxr_binary_sequence_max

unfoldable pub layout_string_sequence : StringSequence → List Item
layout_string_sequence x = layout_sequence (λ y. Item.string y ∷ []) x

abbrev pub IsValidStringSequence : StringSequence → Type 0
IsValidStringSequence x =
    (length x ≤ uxr_string_sequence_max) × All (λ y. length y < uxr_string_size_max) x

unfoldable pub layout_client_key : ClientKey → List Item
layout_client_key x = Item.array x.octets ∷ []

abbrev pub IsValidClientKey : ClientKey → Type 0
IsValidClientKey x = length x.octets ≡ 4

unfoldable pub layout_object_id : ObjectId → List Item
layout_object_id x = Item.array x.octets ∷ []

abbrev pub IsValidObjectId : ObjectId → Type 0
IsValidObjectId x = length x.octets ≡ 2

unfoldable pub layout_object_prefix : ObjectPrefix → List Item
layout_object_prefix x = Item.array x.octets ∷ []

abbrev pub IsValidObjectPrefix : ObjectPrefix → Type 0
IsValidObjectPrefix x = length x.octets ≡ 2

unfoldable pub layout_xrce_cookie : XrceCookie → List Item
layout_xrce_cookie x = Item.array x.octets ∷ []

abbrev pub IsValidXrceCookie : XrceCookie → Type 0
IsValidXrceCookie x = length x.octets ≡ 4

unfoldable pub layout_xrce_version : XrceVersion → List Item
layout_xrce_version x = Item.array x.octets ∷ []

abbrev pub IsValidXrceVersion : XrceVersion → Type 0
IsValidXrceVersion x = length x.octets ≡ 2

unfoldable pub layout_xrce_vendor_id : XrceVendorId → List Item
layout_xrce_vendor_id x = Item.array x.octets ∷ []

abbrev pub IsValidXrceVendorId : XrceVendorId → Type 0
IsValidXrceVendorId x = length x.octets ≡ 2
