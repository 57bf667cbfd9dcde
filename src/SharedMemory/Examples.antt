-- ===== src/SharedMemory/Examples.antt =====
-- The theorems on shared memory at a picture of two by three pixels and at three segments.
use face_identify.Prelude.{
  ℕ, ◌+◌, ◌≤◌, ◌≡◌, ◌≢◌, ◌⊎◌, refl, true, false, some, List, [], ◌∷◌, keep, arith,
}
use face_identify.Database.{Uuid, UniqueKeys}
use face_identify.Wire.{got}
use face_identify.SharedMemory.{
  SharedMemoryDescriptor, item_size, post_init, to_wire, from_wire, check_shape, prod,
  contiguous_strides, stride_loop, describe,
}
use face_identify.SharedMemory.Strides.{offset, AreApart}
use face_identify.SharedMemory.Descriptor.{post_init-addresses, from_wire-to_wire}
use face_identify.SharedMemory.Ledger.{
  Segment, SegmentLedger, opened, enter_view, leave_view, close, returned, raised_in_use,
  release_all, is_viewed,
}
use face_identify.SharedMemory.Views.{Event, enters, leaves, closes, step, run, run-opened_safe}
use face_identify.SharedMemory.ReleaseAll.{release_all-ends}

-- an image of two rows, three columns and three channels, in a segment that is rounded up
abbrev image : SharedMemoryDescriptor
image = record {
  name = "faceidentify-1";
  size_bytes = 4096;
  dtype = "uint8";
  shape = 2 ∷ 3 ∷ 3 ∷ [];
  strides = 9 ∷ 3 ∷ 1 ∷ [];
  layout = "C";
  readonly = true;
}

image_accepted : post_init image ≡ got image
unfolding post_init check_shape item_size prod contiguous_strides stride_loop
image_accepted = refl

describes_image : describe "faceidentify-1" "uint8" (2 ∷ 3 ∷ 3 ∷ []) true (some 4096) ≡ got image
unfolding describe post_init check_shape item_size prod contiguous_strides stride_loop
describes_image = refl

from_wire-to_wire_example : from_wire (to_wire image) ≡ got image
from_wire-to_wire_example = from_wire-to_wire image image_accepted

post_init-addresses_example :
    (item : ℕ) × (item_size "uint8" ≡ some item)
    × ((offset (1 ∷ 2 ∷ 0 ∷ []) (9 ∷ 3 ∷ 1 ∷ []) + item ≤ 4096)
        × (◌≢◌ {A = List ℕ} (1 ∷ 2 ∷ 0 ∷ []) (0 ∷ 2 ∷ 2 ∷ [])
            → AreApart item
                (offset (1 ∷ 2 ∷ 0 ∷ []) (9 ∷ 3 ∷ 1 ∷ []))
                (offset (0 ∷ 2 ∷ 2 ∷ []) (9 ∷ 3 ∷ 1 ∷ []))))
post_init-addresses_example =
    post_init-addresses image image (1 ∷ 2 ∷ 0 ∷ []) (0 ∷ 2 ∷ 2 ∷ []) image_accepted (omega arith)
      (omega arith)

abbrev events : List Event
events = enters 1 ∷ closes ∷ enters 2 ∷ leaves 1 ∷ leaves 2 ∷ closes ∷ enters 3 ∷ []

events_close : (run (record { segment = opened 7; inside = [] }) events).segment.open_handle ≡ false
unfolding run step enter_view leave_view close opened
events_close = refl

run-opened_safe_example : (run (record { segment = opened 7; inside = [] }) events).inside ≡ []
run-opened_safe_example = run-opened_safe 7 events events_close

abbrev segment : Uuid → ℕ → Segment
segment name views = record { name = name; open_handle = true; views = views }

abbrev ledger : SegmentLedger
ledger = record {
  owned = segment 1 0 ∷ segment 2 1 ∷ segment 3 0 ∷ [];
  exists_by_name = 1 ∷ 2 ∷ 3 ∷ [];
}

ledger-HasNames : UniqueKeys (λ (s : Segment). s.name) ledger.owned
ledger-HasNames = omega arith

release_all-ends_example :
    ((release_all ledger).0.owned ≡ keep is_viewed ledger.owned)
    × (((keep is_viewed ledger.owned ≡ []) × ((release_all ledger).1 ≡ returned (1 ∷ 2 ∷ 3 ∷ [])))
        ⊎ ((s : Segment) × (ss : List Segment) × (keep is_viewed ledger.owned ≡ s ∷ ss)
            × ((release_all ledger).1 ≡ raised_in_use s.name)))
release_all-ends_example = release_all-ends ledger ledger-HasNames (refl, (refl, (refl, tt)))
