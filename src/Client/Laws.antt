-- ===== src/Client/Laws.antt =====
-- The read-only switch, as a step before a write.
use kafkascope.Prelude.{false, ◌≡◌, subst}
use kafkascope.Failure.{ok, permission_error, readonly}
use kafkascope.Kafka.{Kafka}
use kafkascope.Kafka.Program.Rules.{
  Silent, Silent-lift, Silent-bind, Silent-refuse_if, Silent-weaken,
}
use kafkascope.Client.{Context, is_readonly, require_writable}

-- A write goes past the switch only where neither the cluster nor the instance is read-only.
pub Silent-require_writable :
    {K : Kafka} (x : Context) → Silent (require_writable {K = K} x) (λ _. is_readonly x ≡ ok false)
unfolding require_writable
Silent-require_writable x =
    Silent-bind (Silent-lift {Q = λ b. is_readonly x ≡ ok b} (is_readonly x) (λ a e. e)) λ b read.
      Silent-weaken (Silent-refuse_if b (permission_error readonly))
        λ u open_. subst (λ c. is_readonly x ≡ ok c) open_ read
