-- ===== src/Routers/Pages/Laws.antt =====
-- A page asks the broker for no change, and what it shows was reported.
use kafkascope.Prelude.{ℤ, String, Option, none, some, ◌≡◌}
use kafkascope.Prelude.{string_eq, ◌⊎◌, List}
use kafkascope.Cluster.{TopicSummary}
use kafkascope.Cluster.Laws.{IsAbsent}
use kafkascope.Routers.Pages.Figures.{AreBrokers, IsCount, IsLag, AreOrdinary}
use kafkascope.Kafka.{Kafka}
use kafkascope.Cluster.Laws.{IsOfTopic, AreListed}
use kafkascope.Groups.Empty.{Detailed}
use kafkascope.Groups.Listing.{AreGroups}
use kafkascope.Routers.Pages.{Page, overview, topics_table, topic_page, topic_live, messages_page}
use kafkascope.Routers.Pages.{groups_page, groups_table, group_page, group_live, text, View}
use kafkascope.Routers.Pages.{show_overview, refresh_overview, show_groups, refresh_groups}
use kafkascope.Routers.Pages.{topic_count, refresh_topic, show_topic, browse, group_lag}
use kafkascope.Routers.Pages.{refresh_group, show_group}

module _ (K : Kafka) (thousands : ℤ → String) where
  abbrev pub no_topic : String
  no_topic = "<p class=\"muted\">This topic no longer exists.</p>"

  abbrev pub no_group : String
  no_group = "<p class=\"muted\">This group no longer exists.</p>"

  -- A number is grouped by thousands; a missing one is a dash.
  abbrev pub Reads : (Option ℤ → Type 0) → String → Type 0
  Reads P t = ((t ≡ "&mdash;") × P none) ⊎ ((n : ℤ) × (t ≡ thousands n) × P (some n))

  -- A page that is only a text.
  abbrev pub IsText : View → String → Type 0
  IsText (topic_count name) t = Reads (IsCount K name) t
  IsText (group_lag id) t = Reads (IsLag K id) t
  IsText (refresh_topic name) t = (t ≡ no_topic) × IsAbsent K name
  IsText (refresh_group id) t = (t ≡ no_group) × Detailed K id none
  IsText v t = ⊥

  -- The page of a request, with what the broker reported.
  abbrev pub IsPage : View → Page → Type 0
  IsPage v (overview brokers controller topics) =
      (v ≡ show_overview) × AreBrokers K (brokers, controller) × AreListed K topics
  IsPage v (topics_table topics) = (v ≡ refresh_overview) × AreListed K topics
  IsPage v (topic_page t) = (name : String) × (v ≡ show_topic name) × IsOfTopic K name (some t)
  IsPage v (topic_live t) = (name : String) × (v ≡ refresh_topic name) × IsOfTopic K name (some t)
  IsPage v (messages_page t) = (name : String) × (v ≡ browse name) × IsOfTopic K name (some t)
  IsPage v (groups_page gs) = (v ≡ show_groups) × AreGroups K gs
  IsPage v (groups_table gs) = (v ≡ refresh_groups) × AreGroups K gs
  IsPage v (group_page g names) =
      (id : String) × (v ≡ show_group id)
      × Detailed K id (some g)
      × (topics : List TopicSummary) × AreListed K topics
      × AreOrdinary topics names
  IsPage v (group_live g) = (id : String) × (v ≡ refresh_group id) × Detailed K id (some g)
  IsPage v (text t) = IsText v t
