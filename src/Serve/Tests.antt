-- ===== src/Serve/Tests.antt =====
-- The admin of the samples grows a topic.
use kafkascope.Prelude.{ℤ, none, [], ◌∷◌, ◌≡◌, ◌⊎◌, refl}
use kafkascope.Gate.Samples.{stamp, zeros, basic, creation, is_enforced, is_guarded}
use kafkascope.Routers.Changes.{grow_partitions}
use kafkascope.Serve.{serve, change}
use kafkascope.Serve.Laws.{IsTraced, serve-IsTraced}
use kafkascope.Samples.{dev_broker, plain_texts, fresh, sample, numbers}
use kafkascope.Failure.{ok}

serve-IsTraced_example :
    ((serve dev_broker sample numbers
        (λ t. ok (104 ∷ []))
        plain_texts
        stamp
        zeros
        "new"
        basic
        creation
        none
        "now"
        (change (grow_partitions "orders" (ℤ.pos 3)))
        fresh).session.sent
      ≡ [])
    ⊎ IsTraced dev_broker sample numbers
        (λ t. ok (104 ∷ []))
        plain_texts
        stamp
        zeros
        basic
        creation
        none
        "now"
        (change (grow_partitions "orders" (ℤ.pos 3)))
        fresh
        (serve dev_broker sample numbers
          (λ t. ok (104 ∷ []))
          plain_texts
          stamp
          zeros
          "new"
          basic
          creation
          none
          "now"
          (change (grow_partitions "orders" (ℤ.pos 3)))
          fresh)
serve-IsTraced_example =
    serve-IsTraced dev_broker sample numbers (λ t. ok (104 ∷ [])) plain_texts stamp zeros "new"
      basic creation none "now" (change (grow_partitions "orders" (ℤ.pos 3))) fresh is_enforced refl
      is_guarded
