-- ===== src/Routers/Tests.antt =====
-- Two purges by an administrator, one with the name typed and one with a slip.
use kafkascope.Prelude.{true, false, none, [], ◌≡◌, ◌≢◌, refl, eq_iff}
use kafkascope.Prelude.Dict.{values}
use kafkascope.Prelude.Text.{strip, strip_left, strip_right, is_space}
use kafkascope.Settings.{default_cluster}
use kafkascope.Client.{current_cluster}
use kafkascope.Failure.{ok}
use kafkascope.Auth.{anonymous_admin}
use kafkascope.Audit.{Caller}
use kafkascope.Routers.Laws.{IsAccounted}
use kafkascope.Routers.Produce.{ProduceForm}
use kafkascope.Routers.Changes.{IsMistyped, IsUnreadable, purge, handle, Allows}
use kafkascope.Routers.Accounts.{handle-IsAccounted}
use kafkascope.Routers.Refusals.{IsRefused, handle-IsRefused}
use kafkascope.Samples.{plain_texts, dev_broker, dev_cluster, dev_context, fresh}

abbrev ann : Caller
ann = record {
  principal = anonymous_admin;
  context = dev_context;
  cluster = "dev";
  host = none;
  now = "2024-01-01T00:00:00+00:00";
}

on_dev : current_cluster dev_context ≡ ok dev_cluster
unfolding current_cluster default_cluster values
on_dev = refl

handle-IsAccounted_example :
    IsAccounted ann dev_cluster "purge_topic" "orders"
      (Allows dev_broker plain_texts ann (purge "orders" " orders"))
      (IsMistyped dev_broker plain_texts ann (purge "orders" " orders"))
      (IsUnreadable dev_broker plain_texts ann (purge "orders" " orders"))
      []
      (handle dev_broker plain_texts ann (purge "orders" " orders") fresh)
handle-IsAccounted_example =
    handle-IsAccounted dev_broker plain_texts ann dev_cluster on_dev (purge "orders" " orders")
      fresh

slip : strip "order" ≢ "orders"
unfolding strip strip_left strip_right is_space
slip e = different ((eq_iff "order" "orders").1 e)
  where
    different : false ≡ true → ⊥
    different h = cc

handle-IsRefused_example :
    IsRefused dev_broker plain_texts ann dev_cluster on_dev "purge_topic" "orders" fresh
      (handle dev_broker plain_texts ann (purge "orders" "order") fresh)
handle-IsRefused_example =
    handle-IsRefused dev_broker plain_texts ann dev_cluster on_dev (purge "orders" "order") "order"
      fresh refl slip

abbrev greeting : ProduceForm
greeting = record {
  key = "";
  value = "hello";
  headers = "trace: a";
  partition = "0";
  null_key = "1";
  tombstone = "";
  key_format = "raw";
  key_schema_text = "";
  key_register = "";
  value_format = "raw";
  value_schema_text = "";
  value_register = "";
}
