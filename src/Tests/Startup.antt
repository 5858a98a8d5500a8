-- ===== src/Tests/Startup.antt =====
-- Starting, and stopping.
use coffee_shop_api.Prelude.{◌≡◌, refl}
use coffee_shop_api.App.{ok, Error, err}
use coffee_shop_api.Seed.{seed_catalog}
use coffee_shop_api.Seed.Once.{seed_catalog_twice}
use coffee_shop_api.Worker.Loop.{GroupReply}
use coffee_shop_api.Lifespan.{lifespan, connected}
use coffee_shop_api.Lifespan.Shutdown.{lifespan-ending}
use coffee_shop_api.Samples.{sample_uuids, shop}
use coffee_shop_api.Tests.Worker.{second_time, start}
use coffee_shop_api.Tests.System.{service, opened}

seed_catalog_twice_example :
    let v = (seed_catalog sample_uuids opened).1 in seed_catalog sample_uuids v ≡ (ok tt, v)
seed_catalog_twice_example =
    seed_catalog_twice sample_uuids opened (seed_catalog sample_uuids opened).1 refl

-- Redis is not there when the worker starts
lifespan-ending_example :
    lifespan service second_time (GroupReply.group_raised Error.redis_error) 3 3 start shop
    ≡ (err Error.redis_error, connected)
unfolding seed_catalog
lifespan-ending_example =
    lifespan-ending service second_time (GroupReply.group_raised Error.redis_error) 3 3 start shop
      shop refl
