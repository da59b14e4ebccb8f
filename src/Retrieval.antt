-- ===== src/Retrieval.antt =====
-- src/grag/retrieval/packing.py: the budget of a response, the metadata that is attached to a packed
-- one, and the pages of a long text. How many tokens `measure_response` gives for a response is a
-- function of what varies in it.
pub mod Footer
pub mod Loops
pub mod Pages
pub mod Qualifiers
mod Tests
use Prim.Native.String
use grag.Base.{
  ℕ, zero, suc, length, ◌+◌, ◌-◌, ◌*◌, ◌/◌, min, ltb, leb, String, str_eq, List, [], ◌∷◌, Option,
  none, some, Bool, true, false, ◌&&◌, ◌||◌, not, if◌then◌else◌,
}
use grag.Base.{◌==◌ as nat_eq}
use grag.Base.Dict.{lookup, contains}
use grag.Base.Values.{Value, Props, str}
use grag.Base.Result.{Result, returned, raised, schema_error, not_found, configuration_error}
use grag.Graph.{vector_props}
use grag.Limits.{check_size}

abbrev pub min_retrieval_budget : ℕ
min_retrieval_budget = 256

abbrev pub max_token_budget : ℕ
max_token_budget = 32768

unfoldable pub retrieval_budget : Option ℕ → ℕ → Result ℕ
retrieval_budget requested default =
    let budget : ℕ = elim requested [ none ↦ default | some n ↦ n ] in
    if ltb budget min_retrieval_budget
    then raised configuration_error
    else elim (check_size "token_budget" budget max_token_budget) [
      | returned _ ↦ returned budget
      | raised e ↦ raised e
    ]

-- The optional part of a search response's footer. The dict of label counts and the tuple of unknown
-- labels have their last entry first, which is the one that goes first.
pub record Metadata : Type 0 where
  pub hits : List (String × ℕ)
  pub omitted : ℕ
  pub unknowns : List String
  pub unknown_omitted : ℕ

module _ (measured : Metadata → ℕ) (budget : ℕ) where
  -- The two loops of `attach_metadata`
  unfoldable pub drop_hits : List (String × ℕ) → ℕ → List String → Metadata
  drop_hits [] omitted unknowns = record {
    hits = [];
    omitted = omitted;
    unknowns = unknowns;
    unknown_omitted = 0;
  }
  drop_hits (h ∷ hits) omitted unknowns =
      let m : Metadata = record {
        hits = h ∷ hits;
        omitted = omitted;
        unknowns = unknowns;
        unknown_omitted = 0;
      } in
      let rest = drop_hits hits (omitted + 1) unknowns in
      if ltb budget (measured m) then rest else m

  unfoldable pub drop_unknowns : List (String × ℕ) → ℕ → List String → ℕ → Metadata
  drop_unknowns hits omitted [] dropped = record {
    hits = hits;
    omitted = omitted;
    unknowns = [];
    unknown_omitted = dropped;
  }
  drop_unknowns hits omitted (u ∷ unknowns) dropped =
      let m : Metadata = record {
        hits = hits;
        omitted = omitted;
        unknowns = u ∷ unknowns;
        unknown_omitted = dropped;
      } in
      let rest = drop_unknowns hits omitted unknowns (dropped + 1) in
      if ltb budget (measured m) then rest else m

  unfoldable pub attach_metadata : List (String × ℕ) → ℕ → List String → Metadata
  attach_metadata counts label_hits_omitted requested_unknown =
      let m = drop_hits counts label_hits_omitted requested_unknown in
      drop_unknowns m.hits m.omitted m.unknowns 0

-- The metadata with which `pack_search_response` measures what it packs.
abbrev pub floor_metadata : List (String × ℕ) → ℕ → List String → Metadata
floor_metadata counts label_hits_omitted requested_unknown = record {
  hits = [];
  omitted = label_hits_omitted + length counts;
  unknowns = [];
  unknown_omitted = length requested_unknown;
}

-- `len` of a text
unfoldable pub chars : String → ℕ
chars String.[] = 0
chars (String.◌∷◌ c s) = chars s + 1

pub record PageRequest : Type 0 where
  pub text_property : Option String
  pub text_sha256 : Option String
  pub text_offset : ℕ

-- The part of a window on a text that the caller has read
pub record Window : Type 0 where
  pub page_origin : ℕ
  pub page_total : Option ℕ
  pub page_digest : Option String

pub record TextPage : Type 0 where
  pub property : String
  pub offset : ℕ
  pub next_offset : Option ℕ
  pub total_chars : ℕ
  pub sha256 : String

-- A page, and where it ends.
pub record Page : Type 0 where
  pub text_page : TextPage
  pub truncated : Bool
  pub ends_at : ℕ

-- The tests before the first page is made: the value, its digest and its length.
unfoldable pub check_page :
    (String → String) → Props → PageRequest → Window → Result (String × String × String × ℕ)
check_page sha256 properties req window = elim req.text_property [
  | none ↦ raised schema_error
  | some prop ↦
      if contains vector_props prop then raised schema_error else elim (lookup prop properties) [
        | some (str value) ↦
            let digest : String = elim window.page_digest [
              | none ↦ sha256 value
              | some d ↦ if str_eq d "" then sha256 value else d
            ] in
            let total : ℕ = elim window.page_total [ none ↦ chars value | some n ↦ n ] in
            if is_changed req.text_sha256 digest
            then raised not_found
            else if ltb total req.text_offset
            then raised schema_error
            else returned (prop, value, digest, total)
        | _ ↦ raised schema_error
      ]
]
  where
    is_changed : Option String → String → Bool
    is_changed none digest = false
    is_changed (some known) digest = not (str_eq digest known)

abbrev pub response : PageRequest → String → String → ℕ → ℕ → Page
response req prop digest total end = record {
  text_page = record {
    property = prop;
    offset = req.text_offset;
    next_offset = if ltb end total then some end else none;
    total_chars = total;
    sha256 = digest;
  };
  truncated = ltb 0 req.text_offset || ltb end total;
  ends_at = end;
}

module _ (measured : ℕ → ℕ) (budget : ℕ) where
  -- The loop of `pack_text_page`, on fuel; `bound` is `high + 1`. `none` is no fuel left, else it gives
  -- the end of the best page, if any.
  unfoldable pub search_end : ℕ → ℕ → ℕ → Option ℕ → Option (Option ℕ)
  search_end zero low bound best = if ltb low bound then none else some best
  search_end (suc fuel) low bound best =
      let middle = (low + (bound - 1)) / 2 in
      let up = search_end fuel (middle + 1) bound (some middle) in
      let down = search_end fuel low middle best in
      if not (ltb low bound) then some best else if leb (measured middle) budget then up else down

  -- A page that returns no character is refused.
  unfoldable pub best_end : ℕ → ℕ → Option ℕ → Result ℕ
  best_end offset total none = raised configuration_error
  best_end offset total (some end) =
      if ltb end total && nat_eq end offset then raised configuration_error else returned end

  -- From the first page on
  unfoldable pub page_end : ℕ → ℕ → ℕ → Option (Result ℕ)
  page_end offset total end_limit =
      if leb (measured end_limit) budget
      then some (returned end_limit)
      else elim (search_end (end_limit - offset) offset end_limit none) [
        | none ↦ none
        | some best ↦ some (best_end offset total best)
      ]

-- `pack_text_page`; `measured` is `response_token_estimate` of a page.
unfoldable pub pack_text_page :
    (Page → ℕ) → (String → String) → Props → PageRequest → ℕ → Window → Option (Result Page)
pack_text_page measured sha256 properties req budget window =
    elim (check_page sha256 properties req window) [
      | raised e ↦ some (raised e)
      | returned (prop, value, digest, total) ↦
          let make = response req prop digest total in
          let end_limit = min (window.page_origin + chars value) (req.text_offset + 4 * budget) in
          elim (page_end (λ end. measured (make end)) budget req.text_offset total end_limit) [
            | none ↦ none
            | some r ↦ some (elim r [ returned end ↦ returned (make end) | raised e ↦ raised e ])
          ]
    ]
