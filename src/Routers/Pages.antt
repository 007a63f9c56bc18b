-- ===== src/Routers/Pages.antt =====
-- The routes that only show something: app/routers/topics.py, the pages of app/routers/groups.py and
-- `browse` of app/routers/messages.py.
pub mod Figures
pub mod Laws
use kafkascope.Prelude.{ℤ, String, Bool, true, false, not, Option, none, some, List, [], ◌∷◌}
use kafkascope.Prelude.{if◌then◌else◌}
use kafkascope.Failure.{http_error, topic_not_found, group_not_found}
use kafkascope.Kafka.{Kafka}
use kafkascope.Kafka.Program.{Program, pure, raise, ◌>>=◌}
use kafkascope.Cluster.{Broker, TopicSummary, TopicDetail}
use kafkascope.Cluster.{get_brokers, list_topics, topic_message_count, get_topic}
use kafkascope.Groups.{GroupDetail, get_group, group_total_lag}
use kafkascope.Groups.Listing.{GroupSummary, list_groups}

-- What a page is rendered from, or its text.
pub data Page : Type 0 where
  overview : List Broker → ℤ → List TopicSummary → Page
  topics_table : List TopicSummary → Page
  topic_page topic_live messages_page : TopicDetail → Page
  groups_page groups_table : List GroupSummary → Page
  group_page : GroupDetail → List String → Page
  group_live : GroupDetail → Page
  text : String → Page

-- A request to such a route.
pub data View : Type 0 where
  show_overview refresh_overview show_groups refresh_groups : View
  topic_count refresh_topic show_topic browse : String → View
  group_lag refresh_group show_group : String → View

-- `[t.name for t in topics if not t.internal]`
abbrev pub ordinary_names : List TopicSummary → List String
ordinary_names [] = []
ordinary_names (t ∷ ts) =
    let rest = ordinary_names ts in if not t.internal then t.name ∷ rest else rest

module _ (K : Kafka) (thousands : ℤ → String) where
  abbrev pub number_or_dash : Option ℤ → Page
  number_or_dash none = text "&mdash;"
  number_or_dash (some n) = text (thousands n)

  abbrev pub topic_or_404 : String → (TopicDetail → Page) → Option TopicDetail → Program K Page
  topic_or_404 name page none = raise (http_error 404 (topic_not_found name))
  topic_or_404 name page (some t) = pure (page t)

  abbrev pub live_topic : Option TopicDetail → Page
  live_topic none = text "<p class=\"muted\">This topic no longer exists.</p>"
  live_topic (some t) = topic_live t

  abbrev pub live_group : Option GroupDetail → Page
  live_group none = text "<p class=\"muted\">This group no longer exists.</p>"
  live_group (some g) = group_live g

  abbrev pub group_or_404 : String → Option GroupDetail → Program K Page
  group_or_404 group_id none = raise (http_error 404 (group_not_found group_id))
  group_or_404 group_id (some g) =
      list_topics K >>= λ topics. pure (group_page g (ordinary_names topics))

  unfoldable pub show : View → Program K Page
  show show_overview = get_brokers K >>= λ brokers.
      list_topics K >>= λ topics. pure (overview brokers.0 brokers.1 topics)
  show refresh_overview = list_topics K >>= λ topics. pure (topics_table topics)
  show (topic_count name) = topic_message_count K name >>= λ n. pure (number_or_dash n)
  show (refresh_topic name) = get_topic K name >>= λ t. pure (live_topic t)
  show (show_topic name) = get_topic K name >>= λ t. topic_or_404 name topic_page t
  show (browse name) = get_topic K name >>= λ t. topic_or_404 name messages_page t
  show show_groups = list_groups K >>= λ found. pure (groups_page found)
  show refresh_groups = list_groups K >>= λ found. pure (groups_table found)
  show (group_lag group_id) = group_total_lag K group_id >>= λ total. pure (number_or_dash total)
  show (refresh_group group_id) = get_group K group_id >>= λ g. pure (live_group g)
  show (show_group group_id) = get_group K group_id >>= λ g. group_or_404 group_id g
