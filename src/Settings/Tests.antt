-- ===== src/Settings/Tests.antt =====
-- The settings of a development instance.
use kafkascope.Prelude.{◌≡◌, refl}
use kafkascope.Prelude.Text.{strip, strip_left, strip_right, is_space, has_prefix}
use kafkascope.Failure.{ok}
use kafkascope.Config.{is_cluster_name}
use kafkascope.Settings.{
  load_settings, normalise_protocol, normalise_mechanism, normalise_auth_mode,
}
use kafkascope.Settings.{check_sasl_coherent, check_auth_coherent, resolve_clusters}
use kafkascope.Settings.Laws.{IsFleet, load_settings-IsFleet}
use kafkascope.Samples.{caseless, dev_settings, dev_instance}

dev_loads : load_settings caseless dev_settings ≡ ok dev_instance
unfolding load_settings normalise_protocol normalise_mechanism normalise_auth_mode
    check_sasl_coherent check_auth_coherent resolve_clusters is_cluster_name strip strip_left
    strip_right is_space has_prefix
dev_loads = refl

load_settings-IsFleet_example : IsFleet dev_instance.clusters
load_settings-IsFleet_example = load_settings-IsFleet caseless dev_settings dev_instance dev_loads
