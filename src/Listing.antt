-- ===== src/Listing.antt =====
-- Collection listings, src/ls.c: the resources that a PROPFIND reports, kept in display order.
pub mod Order
pub mod Contents
pub mod Display
pub mod Elements
mod Tests
use Prim.Native.Nat.{compare, Ordering}
use cadaver.Common.{
  ℕ, zero, suc, ◌+◌, ◌-◌, ◌*◌, ◌%◌, ◌^◌, Bool, true, false, not, ◌&&◌, ◌||◌, List, [], ◌∷◌, Option,
  none, some, ltb, leb, ◌==◌, if◌then◌else◌,
}
use cadaver.Common.Text.{Bytes, codes, strcaseeq}

pub data ResourceType : Type 0 where
  resr_normal resr_collection resr_reference resr_error : ResourceType

-- `struct resource`, without the list's link. `displayname` is never set.
pub record Resource : Type 0 where
  pub uri : Bytes
  pub type : ResourceType
  pub size : ℕ
  pub modtime : ℕ
  pub is_executable : Bool
  pub is_vcr : ℕ
  pub error_reason : Option Bytes
  pub error_status : ℕ

-- What the sign of `strcmp` says, as an order.
unfoldable pub strcmp : Bytes → Bytes → Ordering
strcmp [] [] = Ordering.eq
strcmp [] (y ∷ ys) = Ordering.lt
strcmp (x ∷ xs) [] = Ordering.gt
strcmp (x ∷ xs) (y ∷ ys) = elim (compare x y) [
  | Ordering.lt ↦ Ordering.lt
  | Ordering.eq ↦ strcmp xs ys
  | Ordering.gt ↦ Ordering.gt
]

abbrev pub is_error : ResourceType → Bool
is_error resr_error = true
is_error _ = false

abbrev pub is_collection : ResourceType → Bool
is_collection resr_collection = true
is_collection _ = false

unfoldable pub compare_resource : Resource → Resource → Ordering
compare_resource r1 r2 =
    if is_error r1.type
    then Ordering.lt
    else if is_error r2.type
    then Ordering.gt
    else if is_collection r1.type
    then (if not (is_collection r2.type) then Ordering.lt else strcmp r1.uri r2.uri)
    else if not (is_collection r2.type)
    then strcmp r1.uri r2.uri
    else Ordering.gt

-- `compare_resource(current, newres) >= 0`.
abbrev pub stops_at : Ordering → Bool
stops_at Ordering.lt = false
stops_at _ = true

-- The loop at the end of `results`, and the relinking: before the first resource that stops it.
unfoldable pub insert : Resource → List Resource → List Resource
insert r [] = r ∷ []
insert r (current ∷ rest) =
    if stops_at (compare_resource current r) then r ∷ current ∷ rest else current ∷ insert r rest

-- A status of a property, as neon reports it.
pub record Status : Type 0 where
  pub code : ℕ
  pub reason_phrase : Bytes

-- What neon hands to `results`: the path, whether `ls_startelm` met a collection element, the
-- values of the properties `ls_props`, and the statuses of the first two.
pub record Response : Type 0 where
  pub path : Bytes
  pub collection : Bool
  pub clength : Option Bytes
  pub modtime : Option Bytes
  pub isexec : Option Bytes
  pub checkin : Option Bytes
  pub checkout : Option Bytes
  pub clength_status : Option Status
  pub modtime_status : Option Status

-- `status`, which the second test overwrites, with NULL where neon has no status.
unfoldable pub failure : Response → Option Status
failure r =
    let first : Option Status = elim r.clength [ none ↦ r.clength_status | some _ ↦ none ] in
    elim r.modtime [ none ↦ r.modtime_status | some _ ↦ first ]

abbrev pub is_some {ℓ} : {A : Type ℓ} → Option A → Bool
is_some none = false
is_some (some a) = true

unfoldable pub vcr_of : Option Bytes → Option Bytes → ℕ
vcr_of (some _) checkout = 1
vcr_of none (some _) = 2
vcr_of none none = 0

unfoldable pub executable_of : Option Bytes → Bool
executable_of none = false
executable_of (some v) = strcaseeq v (codes "T")

-- `strtol` is DAV_STRTOL in base 10, with the text behind the number; `httpdate` is neon's
-- `ne_httpdate_parse`; `path_compare` is neon's `ne_path_compare` with 0 for `true`.
module _ (strtol : Bytes → ℕ × Bytes) (httpdate : Bytes → ℕ)
    (path_compare : Bytes → Bytes → Bool) where
  abbrev pub whole : ℕ × Bytes → ℕ
  whole (n, []) = n
  whole (n, _ ∷ _) = 0

  abbrev pub size_of : Option Bytes → ℕ
  size_of none = 0
  size_of (some v) = whole (strtol v)

  abbrev pub modtime_of : Option Bytes → ℕ
  modtime_of none = 0
  modtime_of (some v) = httpdate v

  abbrev pub type_of : Bool → Option Status → ResourceType
  type_of true st = resr_collection
  type_of false none = resr_normal
  type_of false (some st) = resr_error

  abbrev pub reason_of : Bool → Option Status → Option Bytes
  reason_of false (some st) = some st.reason_phrase
  reason_of _ _ = none

  abbrev pub status_of : Bool → Option Status → ℕ
  status_of false (some st) = st.code
  status_of _ _ = 0

  -- The new resource of one response.
  unfoldable pub newres : Response → Resource
  unfolding failure vcr_of executable_of
  newres r = record {
    uri = r.path;
    type = type_of r.collection (failure r);
    size = size_of r.clength;
    modtime = modtime_of r.modtime;
    is_executable = executable_of r.isexec;
    is_vcr = vcr_of r.checkin r.checkout;
    error_reason = reason_of r.collection (failure r);
    error_status = status_of r.collection (failure r);
  }

  abbrev pub skipped : Bytes → Bool → Response → Bool
  skipped target include_target r = path_compare target r.path && not include_target

  -- The callback: one response more in the list.
  unfoldable pub results : Bytes → Bool → List Resource → Response → List Resource
  unfolding insert
  results target include_target l r =
      if skipped target include_target r then l else insert (newres r) l

  -- The list that `fetch_resource_list` leaves after the responses of the request.
  unfoldable pub collect : Bytes → Bool → List Resource → List Response → List Resource
  unfolding results
  collect target include_target l [] = l
  collect target include_target l (r ∷ rs) =
      collect target include_target (results target include_target l r) rs
