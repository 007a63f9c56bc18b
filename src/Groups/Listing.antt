-- ===== src/Groups/Listing.antt =====
-- `list_groups` of app/services/groups.py: the groups of a cluster, and what the page shows of them.
use kafkascope.Prelude.{ℕ, String, Bool, true, Option, none, some, List, [], ◌∷◌, length}
use kafkascope.Prelude.{◌≡◌, refl, if◌then◌else◌}
use kafkascope.Prelude.Sort.{sort_by, ltb_string}
use kafkascope.Prelude.Sort.Laws.{IsOrder, AreSorted, sort_by-AreSorted, sort_by-perm}
use kafkascope.Prelude.Sort.Laws.{IsOrder-ltb_string}
use mathlib.Core.List.{Perm}
use mathlib.Core.List.Perm
use kafkascope.Failure.{ok}
use kafkascope.Kafka.{Kafka, Description}
use kafkascope.Kafka.Program.{Program, pure, ask, traverse, ◌>>=◌}
use kafkascope.Kafka.Program.Rules.{Silent, Silent-pure, Silent-ask, Silent-bind, Silent-if}
use kafkascope.Kafka.Program.Runs.{Each, Silent-traverse-Each}
use kafkascope.Groups.{describe, none_of}
use kafkascope.Groups.Empty.{Described, Silent-describe}

pub record GroupSummary : Type 0 where
  pub id : String
  pub state : String
  pub members : ℕ
  pub is_simple : Bool

abbrev pub summary_of : String → Description → GroupSummary
summary_of g d = record {
  id = g;
  state = d.state;
  members = length d.members;
  is_simple = d.is_simple;
}

-- The loop over the descriptions: a group that could not be described is passed over.
abbrev pub summaries : List (String × Option Description) → List GroupSummary
summaries [] = []
summaries ((g, none) ∷ rest) = summaries rest
summaries ((g, some d) ∷ rest) = summary_of g d ∷ summaries rest

abbrev pub listed_first : GroupSummary → GroupSummary → Bool
listed_first a b = ltb_string a.id b.id

module _ (K : Kafka) where
  abbrev pub described : String → Program K (String × Option Description)
  described g = describe K g >>= λ d. pure (g, d)

  unfoldable pub list_groups : Program K (List GroupSummary)
  list_groups = ask K.list_groups >>= λ ids.
      if none_of ids
      then pure []
      else (traverse described ids >>= λ rows. pure (sort_by listed_first (summaries rows)))

  -- A listed group, with its description if the broker gave one.
  abbrev pub IsDescribed : String → String × Option Description → Type 0
  IsDescribed g row = (row.0 ≡ g) × Described K g row.1

  -- A summary of each group that was described, and of no other.
  abbrev pub AreSummaries : List (String × Option Description) → List GroupSummary → Type 0
  AreSummaries [] ss = ss ≡ []
  AreSummaries ((g, none) ∷ rows) ss = AreSummaries rows ss
  AreSummaries ((g, some d) ∷ rows) ss =
      (s : GroupSummary) × (rest : List GroupSummary) × (ss ≡ s ∷ rest)
      × (s.id ≡ g)
      × (s.state ≡ d.state)
      × (s.members ≡ length d.members)
      × (s.is_simple ≡ d.is_simple)
      × AreSummaries rows rest

  summaries-AreSummaries :
      (rows : List (String × Option Description)) → AreSummaries rows (summaries rows)
  summaries-AreSummaries [] = refl
  summaries-AreSummaries ((g, none) ∷ rows) = summaries-AreSummaries rows
  summaries-AreSummaries ((g, some d) ∷ rows) =
      (summary_of g d, summaries rows, refl, refl, refl, refl, refl, summaries-AreSummaries rows)

  abbrev pub AreGroups : List GroupSummary → Type 0
  AreGroups gs =
      (w : K.World) × (ids : List String) × ((K.list_groups w).0 ≡ ok ids)
      × (rows : List (String × Option Description)) × Each IsDescribed ids rows
      × (ss : List GroupSummary) × AreSummaries rows ss
      × Perm gs ss
      × AreSorted listed_first gs

  IsOrder-listed_first : IsOrder listed_first
  IsOrder-listed_first = record {
    asymm = λ a b h. IsOrder-ltb_string.asymm a.id b.id h;
    trans = λ a b c h k. IsOrder-ltb_string.trans a.id b.id c.id h k;
  }

  nothing_listed :
      (ids : List String)
      → none_of ids ≡ true
      → (w : K.World) → (K.list_groups w).0 ≡ ok ids
      → AreGroups []
  nothing_listed [] h w e = (w, [], e, [], tt, [], refl, Perm.refl [], tt)
  nothing_listed (g ∷ ids) h w e = cc

  -- The list of groups asks the broker for no change. It shows each group that the broker listed and
  -- could describe, and no other, with its state and its number of members, in the order of the ids.
  pub list_groups-AreGroups : Silent list_groups AreGroups
  unfolding list_groups
  list_groups-AreGroups =
      Silent-bind
        (Silent-ask {Q = λ ids. (w : K.World) × ((K.list_groups w).0 ≡ ok ids)} K.list_groups
          (λ w ids e. (w, e)))
        λ ids (w, e).
          Silent-if (none_of ids) (λ h. Silent-pure [] (nothing_listed ids h w e))
            λ some_.
              Silent-bind
                (Silent-traverse-Each
                  (λ g. Silent-bind (Silent-describe K g) λ d made. Silent-pure _ (refl, made)) ids)
                λ rows each. Silent-pure _ (
                  w,
                  ids,
                  e,
                  rows,
                  each,
                  summaries rows,
                  summaries-AreSummaries rows,
                  sort_by-perm listed_first (summaries rows),
                  sort_by-AreSorted IsOrder-listed_first (summaries rows),
                )
