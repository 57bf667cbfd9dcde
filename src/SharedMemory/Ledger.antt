-- ===== src/SharedMemory/Ledger.antt =====
-- backend/infrastructure/resources/shared_memory.py: segments, their open views, and the ledger of
-- the segments that a process owns. A segment is known by the identifier in its name. The memory
-- itself belongs to the operating system: `exists_by_name` are the names that it still has.
use face_identify.Prelude.{
  ℕ, ◌+◌, ◌-◌, Bool, true, false, not, Option, none, some, List, [], ◌∷◌, ◌++◌, ◌==◌, if◌then◌else◌,
  keep, map,
}
use face_identify.Database.{Uuid, find_where}

-- `_Segment`: whether the handle is still held (`_segment`), and the count of open views.
pub record Segment : Type 0 where
  pub name : Uuid
  pub open_handle : Bool
  pub views : ℕ

-- Entering and leaving the `with` block of `view`; `none` for the ValueError of a closed segment.
unfoldable pub enter_view : Segment → Option Segment
enter_view s = if s.open_handle then some (record s { views = s.views + 1 }) else none

unfoldable pub leave_view : Segment → Segment
leave_view s = record s { views = s.views - 1 }

pub data Closing : Type 0 where
  -- SegmentInUseError
  in_use : Closing
  -- there was nothing to close, or the handle was closed
  already_closed : Closing
  handle_closed : Closing

-- `_close`.
unfoldable pub close : Segment → Segment × Closing
close s =
    if not s.open_handle
    then (s, already_closed)
    else if not (s.views == 0)
    then (s, in_use)
    else (record s { open_handle = false }, handle_closed)

unfoldable pub opened : Uuid → Segment
opened name = record { name = name; open_handle = true; views = 0 }

-- `SegmentLedger`: `_owned`, in the order of its insertions.
pub record SegmentLedger : Type 0 where
  pub owned : List Segment
  pub exists_by_name : List Uuid

-- `create`, under a fresh identifier.
unfoldable pub create : Uuid → SegmentLedger → SegmentLedger
unfolding opened
create name l = record {
  owned = l.owned ++ opened name ∷ [];
  exists_by_name = name ∷ l.exists_by_name;
}

abbrev pub is_named : Uuid → Segment → Bool
is_named name s = s.name == name

pub data Release : Type 0 where
  -- False: this ledger does not own it
  not_owned : Release
  released : Release
  -- SegmentInUseError
  still_in_use : Release

abbrev pub release_segment : Uuid → SegmentLedger → Closing → SegmentLedger × Release
release_segment name l in_use = (l, still_in_use)
release_segment name l already_closed =
    (record l { owned = keep (λ s. not (is_named name s)) l.owned }, released)
release_segment name l handle_closed = (
  record {
    owned = keep (λ s. not (is_named name s)) l.owned;
    exists_by_name = keep (λ n. not (n == name)) l.exists_by_name;
  },
  released,
)

abbrev pub release_found : Uuid → SegmentLedger → Option Segment → SegmentLedger × Release
release_found name l none = (l, not_owned)
release_found name l (some s) = release_segment name l (close s).1

-- `release`: close and unlink the segment, then forget it.
unfoldable pub release : Uuid → SegmentLedger → SegmentLedger × Release
release name l = release_found name l (find_where (is_named name) l.owned)

-- The locals of `release_all`: `released`, and `failure` as the name of the segment that raised it.
pub record Releasing : Type 0 where
  pub released_names : List Uuid
  pub failure : Option Uuid

abbrev pub first_of : Option Uuid → Uuid → Option Uuid
first_of none name = some name
first_of (some first) name = some first

abbrev pub note_release : Uuid → Release → Releasing → Releasing
note_release name still_in_use r = record r { failure = first_of r.failure name }
note_release name not_owned r = record r { released_names = r.released_names ++ name ∷ [] }
note_release name released r = record r { released_names = r.released_names ++ name ∷ [] }

-- The loop of `release_all` over the names that were owned when it began.
unfoldable pub release_each : List Uuid → SegmentLedger → Releasing → SegmentLedger × Releasing
unfolding release
release_each [] l r = (l, r)
release_each (name ∷ names) l r =
    let (after, result) = release name l in release_each names after (note_release name result r)

abbrev pub names_of : List Segment → List Uuid
names_of ss = map (λ (s : Segment). s.name) ss

-- What `release_all` returns, or the SegmentInUseError of a segment that it raises.
pub data AllReleased : Type 0 where
  returned : List Uuid → AllReleased
  raised_in_use : Uuid → AllReleased

abbrev pub all_released : Option Uuid → List Uuid → AllReleased
all_released none names = returned names
all_released (some name) names = raised_in_use name

abbrev pub finish_release : SegmentLedger × Releasing → SegmentLedger × AllReleased
finish_release (l, r) = (l, all_released r.failure r.released_names)

unfoldable pub release_all : SegmentLedger → SegmentLedger × AllReleased
unfolding release_each
release_all l =
    finish_release
      (release_each (names_of l.owned) l (record { released_names = []; failure = none }))

-- Some view of the segment is open.
abbrev pub is_viewed : Segment → Bool
is_viewed s = not (s.views == 0)
